-- ===== src/Accounts/Manage/Laws.antt =====
-- The native token file follows the active account.
use agy_go.Prelude.{
  ◌≡◌, ◌⊎◌, refl, ap, sym, ◌∙◌, ℕ, zero, suc, true, false, String, List, [], ◌∷◌, Option, none,
  some, str_eq, eq_iff, eq_refl, arith, Bool-cases, Option-cases, subst, inl, inr, length,
}
use agy_go.Prelude.Int.{ℤ, pos, negsuc}
use agy_go.Go.Float.{Float64}
use agy_go.Go.Text.{Text}
use agy_go.Storage.{Account, Pool}
use agy_go.Accounts.{
  account_at, digit_position, pointed, position, is_called, find_position, find_account_by_target,
}
use agy_go.Accounts.Manage.{
  Custody, TokenService, DbFaults, is_id, id_of, write_token, remove_found, first_other,
  sync_account_to_agy, remove_mutator, restore, commit_removal, remove_account_locked,
}

module _ {F : Type 0} where
  -- The same accounts in the same order, as far as an account can be named.
  abbrev pub AreSame : List (Account F) → List (Account F) → Type 0
  AreSame [] [] = Unit
  AreSame [] (b ∷ ys) = ⊥
  AreSame (a ∷ xs) [] = ⊥
  AreSame (a ∷ xs) (b ∷ ys) =
      ((a.id ≡ b.id) × (a.email ≡ b.email) × (a.name ≡ b.name)) × AreSame xs ys

  AreSame-refl : (xs : List (Account F)) → AreSame xs xs
  AreSame-refl [] = tt
  AreSame-refl (a ∷ xs) = ((refl, refl, refl), AreSame-refl xs)

  length_same : (xs ys : List (Account F)) → AreSame xs ys → length xs ≡ length ys
  length_same [] [] s = refl
  length_same [] (b ∷ ys) s = absurd s
  length_same (a ∷ xs) [] s = absurd s
  length_same (a ∷ xs) (b ∷ ys) s = ap suc (length_same xs ys s.1)

  position_same :
      (t : String) (xs ys : List (Account F))
      → AreSame xs ys
      → position (is_called t) xs ≡ position (is_called t) ys
  position_same t [] [] s = refl
  position_same t [] (b ∷ ys) s = absurd s
  position_same t (a ∷ xs) [] s = absurd s
  position_same t (a ∷ xs) (b ∷ ys) s = rw (s.0.0, s.0.1, s.0.2, position_same t xs ys s.1) refl

  account_at_same :
      (n : ℕ) (xs ys : List (Account F))
      → AreSame xs ys
      → id_of (account_at xs n) ≡ id_of (account_at ys n)
  account_at_same n [] [] s = refl
  account_at_same n [] (b ∷ ys) s = absurd s
  account_at_same n (a ∷ xs) [] s = absurd s
  account_at_same zero (a ∷ xs) (b ∷ ys) s = ap some s.0.0
  account_at_same (suc n) (a ∷ xs) (b ∷ ys) s = account_at_same n xs ys s.1

  digit_position_same :
      (t : String) (o : Option ℤ) (xs ys : List (Account F))
      → AreSame xs ys
      → digit_position o (is_called t) xs ≡ digit_position o (is_called t) ys
  digit_position_same t none xs ys s = position_same t xs ys s
  digit_position_same t (some (pos zero)) xs ys s = refl
  digit_position_same t (some (pos (suc n))) xs ys s = rw (length_same xs ys s) refl
  digit_position_same t (some (negsuc n)) xs ys s = refl

  pointed_same :
      (o : Option ℕ) (xs ys : List (Account F))
      → AreSame xs ys
      → id_of (pointed o xs) ≡ id_of (pointed o ys)
  pointed_same none xs ys s = refl
  pointed_same (some n) xs ys s = account_at_same n xs ys s

  first_other_same :
      (i : String) (xs ys : List (Account F))
      → AreSame xs ys
      → id_of (first_other i xs) ≡ id_of (first_other i ys)
  unfolding first_other
  first_other_same i [] [] s = refl
  first_other_same i [] (b ∷ ys) s = absurd s
  first_other_same i (a ∷ xs) [] s = absurd s
  first_other_same i (a ∷ xs) (b ∷ ys) s = elim (Bool-cases (str_eq b.id i)) [
    | inl e ↦ rw (s.0.0, e) (first_other_same i xs ys s.1)
    | inr e ↦ rw (s.0.0, e) refl
  ]

  -- What is relied on of a refresh: it changes tokens, and nothing by which an account is named or
  -- that the pool selects.
  pub record KeepsNames (f : Account F → Pool F → Pool F) : Type 0 where
    pub accounts : (a : Account F) (p : Pool F) → AreSame p.accounts (f a p).accounts
    pub active : (a : Account F) (p : Pool F) → (f a p).active_account_id ≡ p.active_account_id

  -- The pool after a synchronisation, as far as accounts are named.
  pub record IsSynced (p p' : Pool F) : Type 0 where
    pub accounts : AreSame p.accounts p'.accounts
    pub active : p'.active_account_id ≡ p.active_account_id

  -- A token service without failures, as far as the restoring needs it.
  pub record NeverFails (service : TokenService F) : Type 0 where
    pub refresh : (a : Account F) → service.refresh_fails a ≡ false
    pub write : (a : Account F) → service.write_fails a ≡ false

  -- The native file holds the token of the active account, if there is one.
  abbrev pub InCustody : Custody F → Type 0
  InCustody st = (i : String) → st.pool.active_account_id ≡ some i → st.native ≡ some i

module _ {F : Type 0} ⦃tx : Text⦄ where
  find_position_same :
      (t : String) (xs ys : List (Account F))
      → AreSame xs ys
      → find_position xs t ≡ find_position ys t
  unfolding find_position
  find_position_same t xs ys s =
      rw
        (
          position_same (tx.trim_space t) xs ys s,
          digit_position_same (tx.trim_space t) (tx.atoi (tx.trim_space t)) xs ys s,
        )
        refl

  pub find_same :
      (t : String) (xs ys : List (Account F))
      → AreSame xs ys
      → id_of (find_account_by_target xs t) ≡ id_of (find_account_by_target ys t)
  unfolding find_account_by_target
  find_same t xs ys s =
      pointed_same _ xs ys s ∙ ap (λ o. id_of (pointed o ys)) (find_position_same t xs ys s)

module _ {F : Type 0} ⦃fl : Float64 F⦄ where
  sync_pool :
      (service : TokenService F) (account : Account F) (st : Custody F)
      → ((sync_account_to_agy service account st).1.pool ≡ st.pool)
        ⊎ ((sync_account_to_agy service account st).1.pool ≡ service.refreshed account st.pool)
  unfolding sync_account_to_agy write_token
  sync_pool service account st = ground arith

  pub sync-IsSynced :
      (service : TokenService F) (account : Account F) (st : Custody F)
      → KeepsNames service.refreshed
      → IsSynced st.pool (sync_account_to_agy service account st).1.pool
  sync-IsSynced service account st keeps = elim (sync_pool service account st) [
    | inl e ↦
        subst (λ p. IsSynced st.pool p) (sym e)
          (record { accounts = AreSame-refl _; active = refl })
    | inr e ↦
        subst (λ p. IsSynced st.pool p) (sym e)
          (record {
            accounts = keeps.accounts account st.pool;
            active = keeps.active account st.pool;
          })
  ]

  pub sync_failed :
      (service : TokenService F) (account : Account F) (st : Custody F)
      → (sync_account_to_agy service account st).0 ≡ true
      → (sync_account_to_agy service account st).1.native ≡ st.native
  unfolding sync_account_to_agy write_token
  sync_failed service account st h = ground arith

  pub sync_done :
      (service : TokenService F) (account : Account F) (st : Custody F)
      → (sync_account_to_agy service account st).0 ≡ false
      → (sync_account_to_agy service account st).1.native ≡ some account.id
  unfolding sync_account_to_agy write_token
  sync_done service account st h = ground arith

  pub sync_succeeds :
      (service : TokenService F) (account : Account F) (st : Custody F)
      → NeverFails service
      → (sync_account_to_agy service account st).0 ≡ false
  unfolding sync_account_to_agy write_token
  sync_succeeds service account st ok = ground (arith, ok.refresh account, ok.write account)

  -- Back to the account that was active.
  pub restore-InCustody :
      (later : TokenService F) (previous : Account F) (st : Custody F)
      → KeepsNames later.refreshed
      → NeverFails later
      → st.pool.active_account_id ≡ some previous.id
      → InCustody (sync_account_to_agy later previous st).1
  restore-InCustody later previous st keeps ok h i e =
      sync_done later previous st (sync_succeeds later previous st ok)
      ∙ sym h
      ∙ sym (sync-IsSynced later previous st keeps).active
      ∙ e

-- An account that is active and is removed hands over to the first of the others.
remove_found_active :
    {F : Type 0} (found : Account F) (pool : Pool F)
    → pool.active_account_id ≡ some found.id
    → (remove_found found pool).active_account_id ≡ id_of (first_other found.id pool.accounts)
unfolding remove_found first_other
remove_found_active found pool h = rw (h, eq_refl found.id) refl

remove_found_inactive :
    {F : Type 0} (found : Account F) (pool : Pool F)
    → is_id pool.active_account_id found.id ≡ false
    → (remove_found found pool).active_account_id ≡ pool.active_account_id
unfolding remove_found
remove_found_inactive found pool h = rw h refl

some_of_is_id : (o : Option String) (i : String) → is_id o i ≡ true → o ≡ some i
some_of_is_id none i h = absurd (cc h)
some_of_is_id (some j) i h = ap some ((eq_iff j i).0 h)

module _ {F : Type 0} ⦃fl : Float64 F⦄ ⦃tx : Text⦄ where
  -- Without a replacement: the account is not active, or it is the only one.
  commit_alone :
      (faults : DbFaults) (later : TokenService F) (target : String) (st : Custody F)
      (found : Account F)
      → find_account_by_target st.pool.accounts target ≡ some found
      → InCustody st
      → ((i : String)
          → (remove_found found st.pool).active_account_id ≡ some i
          → st.pool.active_account_id ≡ some i)
      → InCustody (commit_removal faults later target none st).1
  unfolding commit_removal restore remove_mutator
  commit_alone faults later target st found f held kept = elim (Bool-cases faults.transaction) [
    | inl e ↦ rw e held
    | inr e ↦ rw (e, f) (λ i h. held i (kept i h))
  ]

  -- With a replacement whose token the file holds already.
  commit_replaced :
      (faults : DbFaults) (later : TokenService F) (target : String) (st st' : Custody F)
      (found r : Account F)
      → find_account_by_target st.pool.accounts target ≡ some found
      → st.pool.active_account_id ≡ some found.id
      → first_other found.id st.pool.accounts ≡ some r
      → IsSynced st.pool st'.pool
      → st'.native ≡ some r.id
      → KeepsNames later.refreshed
      → NeverFails later
      → InCustody (commit_removal faults later target (some found) st').1
  unfolding commit_removal restore remove_mutator
  commit_replaced faults later target st st' found r f active o synced native keeps ok =
      elim (Bool-cases faults.transaction) [
        | inl e ↦ rw e (restore-InCustody later found st' keeps ok (synced.active ∙ active))
        | inr e ↦ elim (Option-cases (find_account_by_target st'.pool.accounts target)) [
          | inl g ↦ rw (e, g) (restore-InCustody later found st' keeps ok (synced.active ∙ active))
          | inr (again, g) ↦ rw (e, g) (λ i h. native ∙ sym (next_active again g) ∙ h)
        ]
      ]
    where
      same_id :
          (again : Account F)
          → find_account_by_target st'.pool.accounts target ≡ some again
          → again.id ≡ found.id
      same_id again g =
          cc (sym (ap id_of g) ∙ sym (find_same target _ _ synced.accounts) ∙ ap id_of f)

      next_active :
          (again : Account F)
          → find_account_by_target st'.pool.accounts target ≡ some again
          → (remove_found again st'.pool).active_account_id ≡ some r.id
      next_active again g =
          remove_found_active again st'.pool
            (synced.active ∙ active ∙ ap some (sym (same_id again g)))
          ∙ ap (λ i. id_of (first_other i st'.pool.accounts)) (same_id again g)
          ∙ sym (first_other_same found.id _ _ synced.accounts)
          ∙ ap id_of o

  -- Whatever a removal answers, the native file holds the token of the active account afterwards, if
  -- it did so before, where a refresh changes no account's names and the services that restore the
  -- file after a failed transaction do not fail.
  pub remove_account_locked-InCustody :
      (faults : DbFaults) (service later : TokenService F) (target : String) (st : Custody F)
      → KeepsNames service.refreshed
      → KeepsNames later.refreshed
      → NeverFails later
      → InCustody st
      → InCustody (remove_account_locked faults service later target st).1
  unfolding remove_account_locked
  remove_account_locked-InCustody faults service later target st keeps keeps' ok held =
      elim (Bool-cases faults.load) [
        | inl e ↦ rw e held
        | inr e ↦ elim (Option-cases (find_account_by_target st.pool.accounts target)) [
          | inl f ↦ rw (e, f) held
          | inr (found, f) ↦ elim (Bool-cases (is_id st.pool.active_account_id found.id)) [
            | inr g ↦
                rw (e, f, g)
                  (commit_alone faults later target st found f held
                    (λ i h. sym (remove_found_inactive found st.pool g) ∙ h))
            | inl g ↦ elim (Option-cases (first_other found.id st.pool.accounts)) [
              | inl o ↦
                  rw (e, f, g, o)
                    (commit_alone faults later target st found f held (λ i h. absurd (
                      cc (
                        sym h
                        ∙ remove_found_active found st.pool (some_of_is_id _ _ g)
                        ∙ ap id_of o))))
              | inr (r, o) ↦ elim (Bool-cases (sync_account_to_agy service r st).0) [
                | inl d ↦
                    rw (e, f, g, o, d)
                      (λ i h.
                        sync_failed service r st d
                        ∙ held i (sym (sync-IsSynced service r st keeps).active ∙ h))
                | inr d ↦
                    rw (e, f, g, o, d)
                      (commit_replaced faults later target st (sync_account_to_agy service r st).1
                        found r f (some_of_is_id _ _ g) o (sync-IsSynced service r st keeps)
                        (sync_done service r st d) keeps' ok)
              ]
            ]
          ]
        ]
      ]
