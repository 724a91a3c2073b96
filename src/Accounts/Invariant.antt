-- ===== src/Accounts/Invariant.antt =====
-- The state of the pool that every change of internal/accounts keeps.
use agy_go.Prelude.{
  ◌≡◌, refl, ap, sym, ◌∙◌, subst, ℕ, zero, suc, Bool, true, false, ◌||◌, String, List, [], ◌∷◌,
  ◌++◌, Option, none, some, str_eq, eq_refl, eq_iff, arith, if◌then◌else◌, select, head?,
  Bool-cases, Option-cases, inl, inr,
}
use agy_go.Go.Float.{Float64}
use agy_go.Go.Text.{Text}
use agy_go.Storage.{Account, Pool}
use agy_go.Accounts.{
  ids, is_used, update_at, account_at, pointed, find_account_by_target, find_position,
}
use agy_go.Accounts.Ids.{holds, AreDistinct, AreNamed}
use agy_go.Accounts.Manage.{
  id_of, is_id, other_than, remove_found, remove_mutator, switch_mutator, rename_account,
}

-- A selected account is in the pool.
abbrev pub IsHeld : Option String → List String → Type 0
IsHeld none xs = Unit
IsHeld (some i) xs = holds i xs ≡ true

-- Every account has an id of its own, and the active account and the cursor are in the pool.
pub record IsPool {F : Type 0} (p : Pool F) : Type 0 where
  pub named : AreNamed (ids p.accounts)
  pub distinct : AreDistinct (ids p.accounts)
  pub active : IsHeld p.active_account_id (ids p.accounts)
  pub cursor : IsHeld p.round_robin_last_account_id (ids p.accounts)

pub differ_sym : (i j : String) → str_eq i j ≡ false → str_eq j i ≡ false
differ_sym i j h = elim (Bool-cases (str_eq j i)) [
  | inr e ↦ e
  | inl e ↦ absurd (cc (sym h ∙ (eq_iff i j).1 (sym ((eq_iff j i).0 e))))
]

holds-snoc : (i j : String) (xs : List String) → holds j xs ≡ true → holds j (xs ++ (i ∷ [])) ≡ true
holds-snoc i j [] h = cc
holds-snoc i j (k ∷ xs) h = ground (arith, holds-snoc i j xs)

holds_last : (i : String) (xs : List String) → holds i (xs ++ (i ∷ [])) ≡ true
holds_last i [] = rw (eq_refl i) refl
holds_last i (k ∷ xs) = rw (holds_last i xs) (ground arith)

not_holds-snoc :
    (i j : String) (xs : List String)
    → holds j xs ≡ false
    → str_eq i j ≡ false
    → holds j (xs ++ (i ∷ [])) ≡ false
not_holds-snoc i j [] h e = rw e refl
not_holds-snoc i j (k ∷ xs) h e = ground (arith, not_holds-snoc i j xs)

AreDistinct-snoc :
    (i : String) (xs : List String)
    → AreDistinct xs
    → holds i xs ≡ false
    → AreDistinct (xs ++ (i ∷ []))
AreDistinct-snoc i [] d h = (refl, tt)
AreDistinct-snoc i (k ∷ xs) d h = (
  not_holds-snoc i k xs d.0 (differ_sym k i (ground arith)),
  AreDistinct-snoc i xs d.1 (ground arith),
)

AreNamed-snoc :
    (i : String) (xs : List String) → AreNamed xs → str_eq i "" ≡ false → AreNamed (xs ++ (i ∷ []))
AreNamed-snoc i [] n h = (h, tt)
AreNamed-snoc i (k ∷ xs) n h = (n.0, AreNamed-snoc i xs n.1 h)

IsHeld-snoc :
    (o : Option String) (i : String) (xs : List String) → IsHeld o xs → IsHeld o (xs ++ (i ∷ []))
IsHeld-snoc none i xs h = tt
IsHeld-snoc (some j) i xs h = holds-snoc i j xs h

-- In a pool whose ids are not empty, an id is used exactly if it is held.
is_used-eq-holds : (i : String) (xs : List String) → AreNamed xs → is_used i xs ≡ holds i xs
is_used-eq-holds i [] n = refl
is_used-eq-holds i (k ∷ xs) n = rw (n.0, is_used-eq-holds i xs n.1) refl

module _ {F : Type 0} where
  ids-update_at :
      (n : ℕ) (f : Account F → Account F) (xs : List (Account F))
      → ((a : Account F) → (f a).id ≡ a.id)
      → ids (update_at n f xs) ≡ ids xs
  ids-update_at n f [] keep = refl
  ids-update_at zero f (a ∷ xs) keep = ap (λ i. i ∷ ids xs) (keep a)
  ids-update_at (suc n) f (a ∷ xs) keep = ap (◌∷◌ a.id) (ids-update_at n f xs keep)

  ids-snoc : (a : Account F) (xs : List (Account F)) → ids (xs ++ (a ∷ [])) ≡ ids xs ++ (a.id ∷ [])
  ids-snoc a [] = refl
  ids-snoc a (x ∷ xs) = ap (◌∷◌ x.id) (ids-snoc a xs)

  not_holds-select :
      (j : String) (p : Account F → Bool) (xs : List (Account F))
      → holds j (ids xs) ≡ false
      → holds j (ids (select p xs)) ≡ false
  not_holds-select j p [] h = refl
  not_holds-select j p (a ∷ xs) h = elim (Bool-cases (p a)) [
    | inl e ↦ rw e (ground (arith, not_holds-select j p xs))
    | inr e ↦ rw e (ground (arith, not_holds-select j p xs))
  ]

  AreDistinct-select :
      (p : Account F → Bool) (xs : List (Account F))
      → AreDistinct (ids xs)
      → AreDistinct (ids (select p xs))
  AreDistinct-select p [] d = tt
  AreDistinct-select p (a ∷ xs) d = elim (Bool-cases (p a)) [
    | inl e ↦ rw e (not_holds-select a.id p xs d.0, AreDistinct-select p xs d.1)
    | inr e ↦ rw e (AreDistinct-select p xs d.1)
  ]

  AreNamed-select :
      (p : Account F → Bool) (xs : List (Account F))
      → AreNamed (ids xs)
      → AreNamed (ids (select p xs))
  AreNamed-select p [] d = tt
  AreNamed-select p (a ∷ xs) d = elim (Bool-cases (p a)) [
    | inl e ↦ rw e (d.0, AreNamed-select p xs d.1)
    | inr e ↦ rw e (AreNamed-select p xs d.1)
  ]

  holds-select :
      (i j : String) (xs : List (Account F))
      → str_eq j i ≡ false
      → holds j (ids xs) ≡ true
      → holds j (ids (select (other_than i) xs)) ≡ true
  holds-select i j [] e h = cc
  holds-select i j (a ∷ xs) e h = elim (Bool-cases (str_eq a.id i)) [
    | inl f ↦
        let same = (eq_iff a.id i).0 f in
        let other = subst (λ k. str_eq k j ≡ false) (sym same) (differ_sym j i e) in
        rw f (ground (arith, holds-select i j xs e, other))
    | inr f ↦ rw f (ground (arith, holds-select i j xs e))
  ]

  pub IsHeld-head : (xs : List (Account F)) → IsHeld (id_of (head? xs)) (ids xs)
  IsHeld-head [] = tt
  IsHeld-head (a ∷ xs) = rw (eq_refl a.id) refl

  pub IsHeld-account_at :
      (n : ℕ) (xs : List (Account F)) → IsHeld (id_of (account_at xs n)) (ids xs)
  IsHeld-account_at n [] = tt
  IsHeld-account_at zero (a ∷ xs) = rw (eq_refl a.id) refl
  IsHeld-account_at (suc n) (a ∷ xs) = later (account_at xs n) (IsHeld-account_at n xs)
    where
      later :
          (o : Option (Account F)) → IsHeld (id_of o) (ids xs) → IsHeld (id_of o) (a.id ∷ ids xs)
      later none h = tt
      later (some b) h = rw h (ground arith)

  -- A removal keeps the invariant: the selection passes to an account that is left.
  pub remove_found-IsPool :
      (found : Account F) (p : Pool F) → IsPool p → IsPool (remove_found found p)
  unfolding remove_found
  remove_found-IsPool found p w = record {
    named = AreNamed-select _ p.accounts w.named;
    distinct = AreDistinct-select _ p.accounts w.distinct;
    active = left p.active_account_id _ w.active (IsHeld-head _);
    cursor = left p.round_robin_last_account_id none w.cursor tt;
  }
    where
      left :
          (o next : Option String)
          → IsHeld o (ids p.accounts)
          → IsHeld next (ids (select (other_than found.id) p.accounts))
          → IsHeld
              (if is_id o found.id then next else o)
              (ids (select (other_than found.id) p.accounts))
      left none next h k = tt
      left (some j) next h k = elim (Bool-cases (str_eq j found.id)) [
        | inl e ↦ rw e k
        | inr e ↦ rw e (holds-select found.id j p.accounts e h)
      ]

  pub IsPool-update :
      (n : ℕ) (f : Account F → Account F) (p : Pool F)
      → ((a : Account F) → (f a).id ≡ a.id)
      → IsPool p
      → IsPool (record p { accounts = update_at n f p.accounts })
  IsPool-update n f p keep w =
      let e = sym (ids-update_at n f p.accounts keep) in
      record {
        named = subst AreNamed e w.named;
        distinct = subst AreDistinct e w.distinct;
        active = subst (λ xs. IsHeld p.active_account_id xs) e w.active;
        cursor = subst (λ xs. IsHeld p.round_robin_last_account_id xs) e w.cursor;
      }

  pub IsPool-append :
      (a : Account F) (p : Pool F)
      → str_eq a.id "" ≡ false
      → is_used a.id (ids p.accounts) ≡ false
      → IsPool p
      → IsPool (record p { accounts = p.accounts ++ (a ∷ []) })
  IsPool-append a p n free w =
      let e = sym (ids-snoc a p.accounts) in
      record {
        named = subst AreNamed e (AreNamed-snoc a.id _ w.named n);
        distinct =
            subst AreDistinct e
              (AreDistinct-snoc a.id _ w.distinct (sym (is_used-eq-holds a.id _ w.named) ∙ free));
        active = subst (λ xs. IsHeld p.active_account_id xs) e (IsHeld-snoc _ a.id _ w.active);
        cursor =
            subst (λ xs. IsHeld p.round_robin_last_account_id xs) e (IsHeld-snoc _ a.id _ w.cursor);
      }

  pub IsHeld-appended :
      (a : Account F) (xs : List (Account F)) → IsHeld (some a.id) (ids (xs ++ (a ∷ [])))
  IsHeld-appended a xs =
      subst (λ ys. holds a.id ys ≡ true) (sym (ids-snoc a xs)) (holds_last a.id (ids xs))

-- What holds of the value of a transaction that succeeds.
abbrev pub OnSome : {A : Type 0} → (A → Type 0) → Option A → Type 0
OnSome P none = Unit
OnSome P (some a) = P a

module _ {F : Type 0} ⦃fl : Float64 F⦄ ⦃tx : Text⦄ where
  pub remove_mutator-IsPool :
      (target : String) (p : Pool F)
      → IsPool p
      → OnSome (λ (r : Account F × Pool F). IsPool r.1) (remove_mutator target p)
  unfolding remove_mutator
  remove_mutator-IsPool target p w = from (find_account_by_target p.accounts target)
    where
      from :
          (o : Option (Account F))
          → OnSome
              (λ (r : Account F × Pool F). IsPool r.1)
              (elim o [ none ↦ none | some found ↦ some (found, remove_found found p) ])
      from none = tt
      from (some found) = remove_found-IsPool found p w

  pub switch_mutator-IsPool :
      (selected : Account F) (p : Pool F) → IsPool p → OnSome IsPool (switch_mutator selected p)
  unfolding switch_mutator find_account_by_target
  switch_mutator-IsPool selected p w = from (find_position p.accounts selected.id)
    where
      at :
          (o : Option (Account F))
          → IsHeld (id_of o) (ids p.accounts)
          → OnSome IsPool (elim o [
            | none ↦ none
            | some current ↦ some (record p { active_account_id = some current.id })
          ])
      at none h = tt
      at (some current) h = record {
        named = w.named;
        distinct = w.distinct;
        active = h;
        cursor = w.cursor;
      }

      from :
          (o : Option ℕ)
          → OnSome IsPool (elim (pointed o p.accounts) [
            | none ↦ none
            | some current ↦ some (record p { active_account_id = some current.id })
          ])
      from none = tt
      from (some n) = at (account_at p.accounts n) (IsHeld-account_at n p.accounts)

  pub rename_account-IsPool :
      (fails : Bool) (target name : String) (p : Pool F)
      → IsPool p
      → OnSome IsPool (rename_account fails target name p)
  unfolding rename_account
  rename_account-IsPool fails target name p w =
      elim (Bool-cases (str_eq (tx.trim_space name) "" || fails)) [
        | inl e ↦ rw e tt
        | inr e ↦ elim (Option-cases (find_position p.accounts target)) [
          | inl f ↦ rw (e, f) tt
          | inr (n, f) ↦
              rw (e, f)
                (IsPool-update n (λ a. record a { name = tx.trim_space name }) p (λ a. refl) w)
        ]
      ]
