-- ===== src/Proxy/Failover.antt =====
-- internal/proxy/failover.go: what a dispatch records of an account in the pool. Each function is one
-- transaction of internal/storage/storage.go; if that fails, the pool stays and an error is returned.
pub mod Laws
pub mod Withdrawn
use agy_go.Prelude.{
  ◌≡◌, refl, ℕ, Bool, true, false, not, ◌&&◌, String, List, [], ◌∷◌, Option, none, some, arith,
  str_eq, if◌then◌else◌, Bool-cases, inl, inr,
}
use agy_go.Prelude.Int.{ℤ, pos, ltb_ℤ, inc_int64}
use agy_go.Go.Float.{Float64}
use agy_go.Go.Text.{Text, Instant}
use agy_go.Storage.{Account, Pool, QuotaState, find_account, find_in, update_found, is_same_account}
use agy_go.Quota.Parse.{parse_retry_after}

abbrev pub map_some {ℓ} : {A : Type ℓ} → (A → A) → Option A → Option A
map_some f none = none
map_some f (some a) = some (f a)

abbrev text_of : Option String → String
text_of none = ""
text_of (some s) = s

module _ {F : Type 0} where
  -- `PoolTransaction(mutator)`: whether it fails, and the pool after it.
  unfoldable pub pool_transaction : Bool → (Pool F → Pool F) → Pool F → Bool × Pool F
  pool_transaction fails mutator pool = if fails then (true, pool) else (false, mutator pool)

  -- The mutator that changes the account which `FindAccount` finds, if there is one.
  unfoldable pub change_account : Account F → (Account F → Account F) → Pool F → Pool F
  change_account account f pool = record pool { accounts = update_found account f pool.accounts }

module _ {F : Type 0} ⦃fl : Float64 F⦄ where
  count_success : Bool → ℤ → Account F → Account F
  count_success false now a = record a { request_count = inc_int64 a.request_count }
  count_success true now a = record a {
    request_count = inc_int64 a.request_count;
    gen_count = some (elim a.gen_count [ some n ↦ inc_int64 n | none ↦ pos 1 ]);
    last_used_at = some now;
  }

  find_by_id : String → List (Account F) → Option (Account F)
  find_by_id i [] = none
  find_by_id i (a ∷ rest) = let later = find_by_id i rest in if str_eq a.id i then some a else later

  -- The active account is in cooldown, and another one has served.
  displaced : Option (Account F) → Account F → ℤ → Bool
  displaced none stored now = false
  displaced (some active) stored now =
      elim active.rate_limited_until [ some until ↦ fl.lt (fl.of_int now) until | none ↦ false ]
      && not (str_eq stored.id active.id)

  -- The second part of the mutator, on the pool whose account has been counted.
  promote : Account F → ℤ → Pool F → Pool F
  unfolding find_by_id displaced
  promote stored now pool =
      let active_id = text_of pool.active_account_id in
      if str_eq active_id ""
      then record pool { active_account_id = some stored.id }
      else (if displaced (find_by_id active_id pool.accounts) stored now
          then record pool { active_account_id = some stored.id }
          else pool)

  success_mutator : Account F → Bool → ℤ → Pool F → Pool F
  unfolding count_success promote change_account
  success_mutator account is_generation now pool = elim (find_account (some pool) (some account)) [
    | none ↦ pool
    | some stored ↦
        promote stored now (change_account account (count_success is_generation now) pool)
  ]

  unfoldable pub record_success : Bool → Account F → Bool → ℤ → Pool F → Bool × Pool F
  unfolding success_mutator pool_transaction
  record_success fails account is_generation now pool =
      pool_transaction fails (success_mutator account is_generation now) pool

  abbrev drop_updated : QuotaState F → QuotaState F
  drop_updated lq = record lq { updated_at = some (pos 0) }

  abbrev drop_fraction : QuotaState F → QuotaState F
  drop_fraction lq = record lq { remaining_fraction = some (fl.ratio 0 1) }

  abbrev until_from : ℤ → ℤ → F
  until_from now delay = fl.add (fl.of_int now) (fl.of_int delay)

  unfoldable pub limit : ℤ → ℤ → Account F → Account F
  limit now delay a = record a {
    rate_limited_until = some (until_from now delay);
    error_count = inc_int64 a.error_count;
    last_quota = map_some drop_updated a.last_quota;
  }

  unfoldable pub restrict : String → Option String → ℤ → ℤ → Account F → Account F
  restrict status url now delay a = record a {
    status = status;
    validation_url = elim url [ some u ↦ some u | none ↦ a.validation_url ];
    rate_limited_until = some (until_from now delay);
    error_count = inc_int64 a.error_count;
    last_quota = map_some drop_fraction a.last_quota;
  }

  -- `url` is the answer of `ExtractValidationURL`, none where that is empty.
  unfoldable pub record_validation_error :
      Bool → Account F → Option String → ℤ → Pool F → Bool × Pool F
  unfolding pool_transaction change_account restrict
  record_validation_error fails account url now pool =
      pool_transaction fails
        (change_account account (restrict "validation_required" url now (pos 86400))) pool

  unfoldable pub record_auth_error : Bool → Account F → ℤ → Pool F → Bool × Pool F
  unfolding pool_transaction change_account restrict
  record_auth_error fails account now pool =
      pool_transaction fails (change_account account (restrict "auth_error" none now (pos 3600)))
        pool

module _ {F : Type 0} ⦃fl : Float64 F⦄ ⦃tx : Text⦄ where
  -- `retry_after` is that header, "" where it is missing.
  unfoldable pub record_quota_error :
      Bool → (Instant → ℤ) → Account F → String → ℤ → Pool F → ℤ × Bool × Pool F
  unfolding pool_transaction change_account limit
  record_quota_error fails until account retry_after now pool =
      let delay = parse_retry_after until retry_after (pos 300) in
      let (failed, pool') =
        pool_transaction fails (change_account account (limit now delay)) pool in
      (delay, failed, pool')
