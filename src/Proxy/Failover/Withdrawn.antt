-- ===== src/Proxy/Failover/Withdrawn.antt =====
-- A recorded validation or authentication error takes the account out of every later ordering of the
-- scheduler.
use mathlib.Core.List.Perm
use agy_go.Prelude.{
  ◌≡◌, ◌⊎◌, refl, ap, Bool, true, false, String, List, [], ◌∷◌, Option, none, some, map, Perm,
  subst, sym, Bool-cases, inl, inr, if◌then◌else◌,
}
use agy_go.Prelude.Int.{ℤ, pos}
use agy_go.Go.Float.{Float64}
use agy_go.Go.Text.{Text}
use agy_go.Storage.{Account, Pool, find_account, update_found, is_same_account}
use agy_go.Scheduler.{order_candidates}
use agy_go.Scheduler.Order.{is_barred, usable, order_candidates-perm}
use agy_go.Proxy.Failover.{
  pool_transaction, change_account, restrict, record_validation_error, record_auth_error,
}
use agy_go.Proxy.Failover.Laws.{find_account-change_account}

-- The accounts but for the first that is the one looked for.
abbrev pub without : {F : Type 0} → Account F → List (Account F) → List (Account F)
without account [] = []
without account (a ∷ rest) =
    let others = without account rest in if is_same_account account a then rest else a ∷ others

module _ {F : Type 0} ⦃fl : Float64 F⦄ ⦃tx : Text⦄ where
  -- The account is in the pool with the status, and cools down until the time; and under every
  -- strategy and at every time the order holds the same accounts as if it was not in the pool.
  pub record IsWithdrawn (account : Account F) (status : String) (until : F) (before after : Pool F)
      : Type 0 where
    pub marked :
        (a : Account F) × (find_account (some after) (some account) ≡ some a)
        × (a.status ≡ status)
        × (a.rate_limited_until ≡ some until)
    pub skipped :
        (strategy : String) (t : F)
        → Perm
            (order_candidates (map some after.accounts) strategy (some after) t)
            (order_candidates (map some (without account before.accounts)) strategy (some before) t)

  -- The error of the transaction is returned, and then nothing has changed.
  abbrev pub Recorded : Bool → Account F → String → F → Pool F → Bool × Pool F → Type 0
  Recorded fails account status until pool r =
      ((fails ≡ true) × (r.0 ≡ true) × (r.1 ≡ pool))
      ⊎ ((fails ≡ false) × (r.0 ≡ false) × IsWithdrawn account status until pool r.1)

  usable-update_found :
      (account : Account F) (f : Account F → Account F) (xs : List (Account F))
      → ((a : Account F) → is_barred (f a) ≡ true)
      → usable (map some (update_found account f xs)) ≡ usable (map some (without account xs))
  unfolding update_found
  usable-update_found account f [] barred = refl
  usable-update_found account f (a ∷ rest) barred = elim (Bool-cases (is_same_account account a)) [
    | inl e ↦ rw (e, barred a) refl
    | inr e ↦ rw e (
        ap (λ others. if is_barred a then others else a ∷ others)
          (usable-update_found account f rest barred))
  ]

  -- Every order holds the usable accounts.
  order_candidates-same :
      (xs ys : List (Option (Account F))) (strategy : String) (p q : Option (Pool F)) (t : F)
      → usable xs ≡ usable ys
      → Perm (order_candidates xs strategy p t) (order_candidates ys strategy q t)
  order_candidates-same xs ys strategy p q t same =
      Perm.trans (order_candidates-perm xs strategy p t) (
        subst (λ zs. Perm zs (order_candidates ys strategy q t)) (sym same)
          (Perm.symm (order_candidates-perm ys strategy q t)))

  restrict-IsWithdrawn :
      (account stored : Account F) (status : String) (url : Option String) (now delay : ℤ)
      (pool : Pool F)
      → find_account (some pool) (some account) ≡ some stored
      → ((a : Account F) → is_barred (restrict status url now delay a) ≡ true)
      → IsWithdrawn account status
          (fl.add (fl.of_int now) (fl.of_int delay))
          pool
          (change_account account (restrict status url now delay) pool)
  unfolding restrict change_account
  restrict-IsWithdrawn account stored status url now delay pool h barred = record {
    marked = (
      restrict status url now delay stored,
      find_account-change_account account stored (restrict status url now delay) pool (λ a. refl) h,
      refl,
      refl,
    );
    skipped = λ strategy t.
        order_candidates-same
          (map some (update_found account (restrict status url now delay) pool.accounts))
          (map some (without account pool.accounts)) strategy _ (some pool) t
          (usable-update_found account (restrict status url now delay) pool.accounts barred);
  }

  transaction-Recorded :
      (fails : Bool) (account : Account F) (status : String) (until : F) (mutator : Pool F → Pool F)
      (pool : Pool F)
      → IsWithdrawn account status until pool (mutator pool)
      → Recorded fails account status until pool (pool_transaction fails mutator pool)
  unfolding pool_transaction
  transaction-Recorded true account status until mutator pool w = inl (refl, refl, refl)
  transaction-Recorded false account status until mutator pool w = inr (refl, refl, w)

  -- Where the pool holds the account, a validation error and an authentication error are recorded
  -- thus: if the transaction fails, so does the function, and the pool stays; if not, the account is
  -- found with the status validation_required and a cooldown of 24 h, or auth_error and 1 h, and under
  -- every strategy and at every time the order of the scheduler holds the accounts that it would
  -- hold if the pool did not have this one.
  pub record_errors-Recorded :
      (fails : Bool) (account stored : Account F) (url : Option String) (now : ℤ) (pool : Pool F)
      → find_account (some pool) (some account) ≡ some stored
      → Recorded fails account "validation_required"
          (fl.add (fl.of_int now) (fl.of_int (pos 86400)))
          pool
          (record_validation_error fails account url now pool)
        × Recorded fails account "auth_error"
            (fl.add (fl.of_int now) (fl.of_int (pos 3600)))
            pool
            (record_auth_error fails account now pool)
  unfolding record_validation_error record_auth_error
  record_errors-Recorded fails account stored url now pool h = (
    transaction-Recorded fails account "validation_required" _
        (change_account account (restrict "validation_required" url now (pos 86400))) pool
        (restrict-IsWithdrawn account stored "validation_required" url now (pos 86400) pool h
          (λ a. unfold restrict in refl)),
    transaction-Recorded fails account "auth_error" _
        (change_account account (restrict "auth_error" none now (pos 3600))) pool
        (restrict-IsWithdrawn account stored "auth_error" none now (pos 3600) pool h
          (λ a. unfold restrict in refl)),
  )
