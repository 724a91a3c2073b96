-- ===== src/Accounts/Manage/Switch.antt =====
-- A switch keeps the native token file with the active account, where ids name their own accounts.
use agy_go.Prelude.{
  ◌≡◌, refl, ap, sym, subst, ◌∙◌, ℕ, zero, suc, true, false, ◌||◌, String, List, [], ◌∷◌, Option,
  none, some, str_eq, eq_refl, eq_iff, arith, All, All-map, Bool-cases, Option-cases, inl, inr,
}
use agy_go.Prelude.Int.{ℤ}
use agy_go.Go.Float.{Float64}
use agy_go.Go.Text.{Text}
use agy_go.Storage.{Account, Pool}
use agy_go.Accounts.{ids, account_at, pointed, find_account_by_target, find_position}
use agy_go.Accounts.Ids.{holds}
use agy_go.Accounts.Manage.{
  Custody, TokenService, DbFaults, id_of, best_of, score, is_better, sync_account_to_agy, restore,
  switch_mutator, commit_switch, active_account, switch_to, switch_auto, switch_account_locked,
}
use agy_go.Accounts.Manage.Laws.{
  AreSame, KeepsNames, InCustody, IsSynced, sync-IsSynced, sync_failed, sync_done, NeverFails,
  sync_succeeds, find_same,
}

module _ {F : Type 0} where
  ids_same : (xs ys : List (Account F)) → AreSame xs ys → ids xs ≡ ids ys
  ids_same [] [] s = refl
  ids_same [] (b ∷ ys) s = absurd s
  ids_same (a ∷ xs) [] s = absurd s
  ids_same (a ∷ xs) (b ∷ ys) s = rw (s.0.0, ids_same xs ys s.1) refl

  holds-account_at :
      (n : ℕ) (a : Account F) (xs : List (Account F))
      → account_at xs n ≡ some a
      → holds a.id (ids xs) ≡ true
  holds-account_at n a [] h = absurd (cc h)
  holds-account_at zero a (x ∷ xs) h =
      let e : str_eq x.id a.id ≡ true = (eq_iff x.id a.id).1 (cc h) in rw e refl
  holds-account_at (suc n) a (x ∷ xs) h = rw (holds-account_at n a xs h) (ground arith)

  All-holds : (xs : List (Account F)) → All (λ b. holds b.id (ids xs) ≡ true) xs
  All-holds [] = tt
  All-holds (x ∷ xs) =
      (rw (eq_refl x.id) refl, All-map (λ b h. rw h (ground arith)) xs (All-holds xs))

module _ {F : Type 0} ⦃fl : Float64 F⦄ where
  -- What holds of all accounts holds of the best.
  best_of-All :
      (P : Account F → Type 0) (now : ℤ) (a : Account F) (xs : List (Account F))
      → P a
      → All P xs
      → P (best_of now a xs)
  unfolding best_of
  best_of-All P now a [] h hs = h
  best_of-All P now a (x ∷ xs) h hs = elim (Bool-cases (is_better (score now x) (score now a))) [
    | inl e ↦ rw e (best_of-All P now x xs hs.0 hs.1)
    | inr e ↦ rw e (best_of-All P now a xs h hs.1)
  ]

module _ {F : Type 0} ⦃tx : Text⦄ where
  -- Each id of the pool, given as a target, points at its own account, and the active id is in the pool.
  pub record IsUnambiguous (pool : Pool F) : Type 0 where
    pub own :
        (i : String)
        → holds i (ids pool.accounts) ≡ true
        → id_of (find_account_by_target pool.accounts i) ≡ some i
    pub active_held :
        (i : String) → pool.active_account_id ≡ some i → holds i (ids pool.accounts) ≡ true

  holds-find :
      (t : String) (a : Account F) (xs : List (Account F))
      → find_account_by_target xs t ≡ some a
      → holds a.id (ids xs) ≡ true
  unfolding find_account_by_target
  holds-find t a xs h = from (find_position xs t) h
    where
      from : (o : Option ℕ) → pointed o xs ≡ some a → holds a.id (ids xs) ≡ true
      from none e = absurd (cc e)
      from (some n) e = holds-account_at n a xs e

  IsUnambiguous-same :
      (p p' : Pool F)
      → AreSame p.accounts p'.accounts
      → p'.active_account_id ≡ p.active_account_id
      → IsUnambiguous p
      → IsUnambiguous p'
  IsUnambiguous-same p p' s e u = record {
    own = λ i h. sym (find_same i _ _ s) ∙ u.own i (ap (holds i) (ids_same _ _ s) ∙ h);
    active_held = λ i h. ap (holds i) (sym (ids_same _ _ s)) ∙ u.active_held i (sym e ∙ h);
  }

module _ {F : Type 0} ⦃fl : Float64 F⦄ ⦃tx : Text⦄ where
  previous_id :
      (pool : Pool F) (i : String)
      → IsUnambiguous pool
      → pool.active_account_id ≡ some i
      → id_of (active_account pool) ≡ some i
  previous_id pool i u h = rw h (u.own i (u.active_held i h))

  restore_previous :
      (later : TokenService F) (pool : Pool F) (st : Custody F)
      → KeepsNames later.refreshed
      → NeverFails later
      → IsUnambiguous pool
      → IsSynced pool st.pool
      → InCustody (restore later (active_account pool) st).1
  unfolding restore
  restore_previous later pool st keeps ok u synced = elim (Option-cases (active_account pool)) [
    | inl e ↦
        rw e (λ i h. absurd (cc (sym (ap id_of e) ∙ previous_id pool i u (sym synced.active ∙ h))))
    | inr (previous, e) ↦ rw e (λ i h.
        sync_done later previous st (sync_succeeds later previous st ok)
        ∙ sym (ap id_of e)
        ∙ previous_id pool i u
            (sym synced.active ∙ sym (sync-IsSynced later previous st keeps).active ∙ h))
  ]

  switch_to-InCustody :
      (faults : DbFaults) (service later : TokenService F) (selected : Account F) (st : Custody F)
      → KeepsNames service.refreshed
      → KeepsNames later.refreshed
      → NeverFails later
      → IsUnambiguous st.pool
      → holds selected.id (ids st.pool.accounts) ≡ true
      → InCustody st
      → InCustody (switch_to faults service later selected st).1
  unfolding switch_to commit_switch switch_mutator
  switch_to-InCustody faults service later selected st keeps keeps' ok u member held =
      elim (Bool-cases (sync_account_to_agy service selected st).0) [
        | inl d ↦ rw d (λ i h. sync_failed service selected st d ∙ held i (sym synced.active ∙ h))
        | inr d ↦ elim (Bool-cases faults.transaction) [
          | inl e ↦ rw (d, e) restored
          | inr e ↦ elim (Option-cases (find_account_by_target after.pool.accounts selected.id)) [
            | inl f ↦ rw (d, e, f) restored
            | inr (current, f) ↦
                rw (d, e, f)
                  (λ i h. sync_done service selected st d ∙ sym (current_id current f) ∙ h)
          ]
        ]
      ]
    where
      after : Custody F
      after = (sync_account_to_agy service selected st).1

      synced : IsSynced st.pool after.pool
      synced = sync-IsSynced service selected st keeps

      restored : InCustody (restore later (active_account st.pool) after).1
      restored = restore_previous later st.pool after keeps' ok u synced

      current_id :
          (current : Account F)
          → find_account_by_target after.pool.accounts selected.id ≡ some current
          → some current.id ≡ some selected.id
      current_id current f =
          sym (ap id_of f)
          ∙ sym (find_same selected.id _ _ synced.accounts)
          ∙ u.own selected.id member

  switch_auto-InCustody :
      (faults : DbFaults) (service later : TokenService F) (st : Custody F)
      → KeepsNames service.refreshed
      → KeepsNames later.refreshed
      → NeverFails later
      → IsUnambiguous st.pool
      → InCustody st
      → InCustody (switch_auto faults service later st).1
  unfolding switch_auto
  switch_auto-InCustody faults service later st keeps keeps' ok u held =
      elim (Bool-cases faults.reload) [ inl e ↦ rw e held | inr e ↦ go st.pool.accounts refl e ]
    where
      go :
          (xs : List (Account F))
          → st.pool.accounts ≡ xs
          → faults.reload ≡ false
          → InCustody (switch_auto faults service later st).1
      go [] k e = rw (e, k) held
      go (a ∷ rest) k e =
          let all =
            subst (λ ys. All (λ b. holds b.id (ids ys) ≡ true) ys) k (All-holds st.pool.accounts) in
          rw (e, k)
            (switch_to-InCustody faults service later (best_of service.now a rest) st keeps keeps'
              ok u
              (ap (λ ys. holds (best_of service.now a rest).id (ids ys)) k
                ∙ best_of-All (λ b. holds b.id (ids (a ∷ rest)) ≡ true) service.now a rest all.0
                    all.1)
              held)

  -- Whatever a switch answers, the native file holds the token of the active account afterwards, if it
  -- did so before and every id of the pool, given as a target, points at its own account, where
  -- neither a refresh nor the prober changes names or the selection, and the services that restore
  -- the file after a failed transaction do not fail.
  pub switch_account_locked-InCustody :
      (probed : Pool F → Pool F) (faults : DbFaults) (service later : TokenService F)
      (target : String) (st : Custody F)
      → IsSynced st.pool (probed st.pool)
      → KeepsNames service.refreshed
      → KeepsNames later.refreshed
      → NeverFails later
      → IsUnambiguous st.pool
      → InCustody st
      → InCustody (switch_account_locked probed faults service later target st).1
  unfolding switch_account_locked switch_auto
  switch_account_locked-InCustody probed faults service later target st same keeps keeps' ok u
        held =
      elim (Bool-cases faults.load) [ inl e ↦ rw e held | inr e ↦ go st.pool.accounts refl e ]
    where
      probed_st : Custody F
      probed_st = record st { pool = probed st.pool }

      probed-IsUnambiguous : IsUnambiguous probed_st.pool
      probed-IsUnambiguous = IsUnambiguous-same st.pool probed_st.pool same.accounts same.active u

      probed-InCustody : InCustody probed_st
      probed-InCustody i h = held i (sym same.active ∙ h)

      auto : InCustody (switch_auto faults service later probed_st).1
      auto =
          switch_auto-InCustody faults service later probed_st keeps keeps' ok probed-IsUnambiguous
            probed-InCustody

      go :
          (xs : List (Account F))
          → st.pool.accounts ≡ xs
          → faults.load ≡ false
          → InCustody (switch_account_locked probed faults service later target st).1
      go [] k e = rw (e, k) held
      go (a ∷ rest) k e = elim (Bool-cases (str_eq target "" || str_eq target "auto")) [
        | inl d ↦ rw (e, k, d) auto
        | inr d ↦ elim (Option-cases (find_account_by_target st.pool.accounts target)) [
          | inl f ↦ rw (e, k, d, f) held
          | inr (selected, f) ↦
              rw (e, k, d, f)
                (switch_to-InCustody faults service later selected st keeps keeps' ok u
                  (holds-find target selected _ f) held)
        ]
      ]
