-- ===== src/Proxy/Failover/Laws.antt =====
-- What a recorded failure means for the next scheduling.
use agy_go.Prelude.{
  ◌≡◌, refl, ◌∙◌, ap, true, false, String, List, [], ◌∷◌, some, arith, Bool-cases, inl, inr,
}
use agy_go.Prelude.Int.{ℤ, pos}
use agy_go.Go.Float.{Float64}
use agy_go.Go.Text.{Text, Instant}
use agy_go.Storage.{Account, Pool, find_account, update_found, is_same_account, find_in}
use agy_go.Quota.Parse.{parse_retry_after, parse_retry_after-IsDelay, IsDelay}
use agy_go.Scheduler.{is_cooling}
use agy_go.Scheduler.Order.{tier}
use agy_go.Proxy.Failover.{map_some, pool_transaction, change_account, limit, record_quota_error}

module _ {F : Type 0} where
  -- The account that is changed is the one that is found, before and after.
  pub find_in-update_found :
      (account : Account F) (f : Account F → Account F) (xs : List (Account F))
      → ((a : Account F) → is_same_account account (f a) ≡ is_same_account account a)
      → find_in account (update_found account f xs) ≡ map_some f (find_in account xs)
  unfolding find_in update_found
  find_in-update_found account f [] same = refl
  find_in-update_found account f (a ∷ rest) same = elim (Bool-cases (is_same_account account a)) [
    | inl e ↦ rw (e, same a ∙ e) refl
    | inr e ↦ rw (e, e) (find_in-update_found account f rest same)
  ]

  is_same_kept :
      (account a b : Account F)
      → b.id ≡ a.id
      → b.email ≡ a.email
      → is_same_account account b ≡ is_same_account account a
  is_same_kept account a b i e = rw (i, e) refl

  -- After a transaction that changes the account, it is found with the change.
  pub find_account-change_account :
      (account stored : Account F) (f : Account F → Account F) (pool : Pool F)
      → ((a : Account F) → is_same_account account (f a) ≡ is_same_account account a)
      → find_account (some pool) (some account) ≡ some stored
      → find_account (some (change_account account f pool)) (some account) ≡ some (f stored)
  unfolding find_account change_account
  find_account-change_account account stored f pool same h =
      find_in-update_found account f pool.accounts same ∙ ap (map_some f) h

module _ {F : Type 0} ⦃fl : Float64 F⦄ ⦃tx : Text⦄ where
  -- Where the pool holds the account and the transaction does not fail, the account is found after a
  -- recorded quota error in the tier of the cooldown at every time before the delay has passed, and
  -- that delay lies between 5 s and 24 h.
  pub record_quota_error_cools :
      (until : Instant → ℤ) (account stored : Account F) (retry_after : String) (now : ℤ)
      (pool : Pool F) (t : F)
      → find_account (some pool) (some account) ≡ some stored
      → fl.lt t (fl.add (fl.of_int now) (fl.of_int (parse_retry_after until retry_after (pos 300))))
        ≡ true
      → IsDelay (parse_retry_after until retry_after (pos 300))
        × ((a : Account F) × (find_account
                (some (record_quota_error false until account retry_after now pool).2)
                (some account)
              ≡ some a)
            × (tier t a ≡ 2))
  unfolding record_quota_error pool_transaction limit is_cooling
  record_quota_error_cools until account stored retry_after now pool t h lt =
      let delay = parse_retry_after until retry_after (pos 300) in
      (
        parse_retry_after-IsDelay until retry_after (pos 300) (ground arith),
        (
          limit now delay stored,
          find_account-change_account account stored (limit now delay) pool (λ a. refl) h,
          rw lt refl,
        ),
      )
