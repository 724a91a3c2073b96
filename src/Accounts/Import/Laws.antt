-- ===== src/Accounts/Import/Laws.antt =====
-- The imports keep the invariant of the pool, and so does every history of changes.
use agy_go.Prelude.{
  ◌≡◌, refl, subst, ℕ, ◌+◌, ◌≤◌, Bool, true, false, String, List, [], ◌∷◌, Option, none, some,
  str_eq, arith, if◌then◌else◌, head?, Bool-cases, inl, inr,
}
use agy_go.Prelude.Int.{ℤ}
use agy_go.Go.Float.{Float64}
use agy_go.Storage.{Account, Pool}
use agy_go.Accounts.{ids, is_used, update_at, account_at, position, next_account_id}
use agy_go.Accounts.Ids.{holds, AreDistinct, AreNamed, IsNaming, names_differ, next_account_id_lem}
use agy_go.Accounts.Manage.{id_of}
use agy_go.Accounts.Invariant.{
  differ_sym, IsPool, IsHeld, IsHeld-head, IsHeld-account_at, IsPool-update, IsPool-append,
  IsHeld-appended,
}
use agy_go.Accounts.Import.{
  has_email, last_position, TokenFile, Item, ImportCall, ImportResult, is_usable, append_account,
  renewed, add_current, imported_account, import_current_mutator, replaced, replaced_account,
  chosen, replace_pool, updated_account, added_account, merge_item, merge_loop, merge_pool,
  import_mutator,
}

-- A transaction that yields a value, and what holds of it.
abbrev pub Gives : {A : Type 0} → (A → Type 0) → Option A → Type 0
Gives P none = ⊥
Gives P (some a) = P a

Gives-bind :
    {A B : Type 0} (P : A → Type 0) (Q : B → Type 0) (o : Option A) (f : A → Option B)
    → Gives P o
    → ((a : A) → P a → Gives Q (f a))
    → Gives Q (elim o [ none ↦ none | some a ↦ f a ])
Gives-bind P Q none f h k = h
Gives-bind P Q (some a) f h k = k a h

module _ {F : Type 0} ⦃fl : Float64 F⦄ (name : ℕ → String) (naming : IsNaming name) where
  add_current-IsPool :
      (t : TokenFile) (now : ℤ) (m : ℕ) (p : Pool F)
      → is_used (name m) (ids p.accounts) ≡ false
      → IsPool p
      → IsPool (add_current t now p (name m))
  unfolding add_current imported_account
  add_current-IsPool t now m p free w = by_active p.active_account_id
    where
      new : Account F
      new = imported_account t now (name m)

      grown : IsPool (append_account new p)
      grown = IsPool-append new p (naming.inhabited m) free w

      by_active :
          (o : Option String)
          → IsPool (elim o [
            | none ↦ record (append_account new p) { active_account_id = some (name m) }
            | some i ↦ append_account new p
          ])
      by_active (some i) = grown
      by_active none = record {
        named = grown.named;
        distinct = grown.distinct;
        active = IsHeld-appended new p.accounts;
        cursor = grown.cursor;
      }

  -- An import of the current login always yields a pool, and keeps its invariant.
  pub import_current-IsPool :
      (t : TokenFile) (now : ℤ) (p : Pool F)
      → IsPool p
      → Gives IsPool (import_current_mutator name t now p)
  unfolding import_current_mutator renewed
  import_current-IsPool t now p w = from (position (has_email t.email) p.accounts)
    where
      added :
          (o : Option String) (m : ℕ)
          → o ≡ some (name m)
          → is_used (name m) (ids p.accounts) ≡ false
          → Gives IsPool (elim o [ none ↦ none | some id ↦ some (add_current t now p id) ])
      added none m e free = absurd (cc e)
      added (some id) m e free =
          subst (λ i. IsPool (add_current t now p i)) (cc e) (add_current-IsPool t now m p free w)

      from :
          (o : Option ℕ)
          → Gives IsPool (elim o [
            | some n ↦ some (record p { accounts = update_at n (renewed t) p.accounts })
            | none ↦ elim (next_account_id name p.accounts) [
              | none ↦ none
              | some id ↦ some (add_current t now p id)
            ]
          ])
      from (some n) = IsPool-update n (renewed t) p (λ a. refl) w
      from none =
          let (m, f, l) = next_account_id_lem name naming p.accounts in
          added (next_account_id name p.accounts) m f l.free

module _ {F : Type 0} ⦃fl : Float64 F⦄ (c : ImportCall) (naming : IsNaming c.name) where
  abbrev IsPoolAfter : ImportResult × Pool F → Type 0
  IsPoolAfter s = IsPool s.1

  merge_item-IsPool :
      (item : Item F) (r : ImportResult) (p : Pool F)
      → IsPool p
      → Gives IsPoolAfter (merge_item c item (r, p))
  unfolding merge_item added_account updated_account
  merge_item-IsPool item r p w = from (last_position (has_email item.email) p.accounts)
    where
      added :
          (o : Option String) (m : ℕ)
          → o ≡ some (c.name m)
          → is_used (c.name m) (ids p.accounts) ≡ false
          → Gives IsPoolAfter (elim o [
            | none ↦ none
            | some id ↦
                some (record r { added = r.added + 1 }, append_account (added_account c item id) p)
          ])
      added none m e free = absurd (cc e)
      added (some id) m e free =
          subst (λ i. IsPool (append_account (added_account c item i) p)) (cc e)
            (IsPool-append (added_account c item (c.name m)) p (naming.inhabited m) free w)

      updated :
          (b : Bool) (n : ℕ)
          → Gives IsPoolAfter (
              if b
              then some (record r { skipped = r.skipped + 1 }, p)
              else some (
                record r { updated = r.updated + 1 },
                record p { accounts = update_at n (updated_account item) p.accounts },
              ))
      updated true n = w
      updated false n = IsPool-update n (updated_account item) p (λ a. refl) w

      from :
          (o : Option ℕ)
          → Gives IsPoolAfter (elim o [
            | some n ↦
                if c.skip_existing
                then some (record r { skipped = r.skipped + 1 }, p)
                else some (
                  record r { updated = r.updated + 1 },
                  record p { accounts = update_at n (updated_account item) p.accounts },
                )
            | none ↦ elim (next_account_id c.name p.accounts) [
              | none ↦ none
              | some id ↦
                  some
                    (record r { added = r.added + 1 }, append_account (added_account c item id) p)
            ]
          ])
      from (some n) = updated c.skip_existing n
      from none =
          let (m, f, l) = next_account_id_lem c.name naming p.accounts in
          added (next_account_id c.name p.accounts) m f l.free

  merge_loop-IsPool :
      (items : List (Option (Item F))) (s : ImportResult × Pool F)
      → IsPool s.1
      → Gives IsPoolAfter (merge_loop c items s)
  unfolding merge_loop
  merge_loop-IsPool [] s w = w
  merge_loop-IsPool (none ∷ rest) s w = merge_loop-IsPool rest s w
  merge_loop-IsPool (some item ∷ rest) s w = elim (Bool-cases (is_usable item)) [
    | inr e ↦ rw e (merge_loop-IsPool rest s w)
    | inl e ↦ rw e (
        Gives-bind IsPoolAfter IsPoolAfter (merge_item c item s) _
          (merge_item-IsPool item s.0 s.1 w) (λ s' w'. merge_loop-IsPool rest s' w'))
  ]

  not_holds-replaced :
      (j i : ℕ) (items : List (Option (Item F)))
      → j ≤ i
      → holds (c.name j) (ids (replaced c i items)) ≡ false
  unfolding replaced replaced_account
  not_holds-replaced j i [] h = refl
  not_holds-replaced j i (none ∷ rest) h = not_holds-replaced j (i + 1) rest (omega arith)
  not_holds-replaced j i (some item ∷ rest) h = elim (Bool-cases (is_usable item)) [
    | inr e ↦ rw e (not_holds-replaced j (i + 1) rest (omega arith))
    | inl e ↦
        rw (e, differ_sym _ _ (names_differ c.name naming (i + 1) j (omega arith)))
          (not_holds-replaced j (i + 1) rest (omega arith))
  ]

  replaced-AreDistinct :
      (i : ℕ) (items : List (Option (Item F))) → AreDistinct (ids (replaced c i items))
  unfolding replaced replaced_account
  replaced-AreDistinct i [] = tt
  replaced-AreDistinct i (none ∷ rest) = replaced-AreDistinct (i + 1) rest
  replaced-AreDistinct i (some item ∷ rest) = elim (Bool-cases (is_usable item)) [
    | inr e ↦ rw e (replaced-AreDistinct (i + 1) rest)
    | inl e ↦
        rw e
          (not_holds-replaced (i + 1) (i + 1) rest (omega arith), replaced-AreDistinct (i + 1) rest)
  ]

  replaced-AreNamed : (i : ℕ) (items : List (Option (Item F))) → AreNamed (ids (replaced c i items))
  unfolding replaced replaced_account
  replaced-AreNamed i [] = tt
  replaced-AreNamed i (none ∷ rest) = replaced-AreNamed (i + 1) rest
  replaced-AreNamed i (some item ∷ rest) = elim (Bool-cases (is_usable item)) [
    | inr e ↦ rw e (replaced-AreNamed (i + 1) rest)
    | inl e ↦ rw e (naming.inhabited (i + 1), replaced-AreNamed (i + 1) rest)
  ]

  IsHeld-chosen : (e : String) (xs : List (Account F)) → IsHeld (chosen e xs) (ids xs)
  unfolding chosen
  IsHeld-chosen e xs = elim (Bool-cases (str_eq e "")) [
    | inl h ↦ rw h (IsHeld-head xs)
    | inr h ↦ rw h (from (position (has_email e) xs))
  ]
    where
      from :
          (o : Option ℕ)
          → IsHeld (elim o [ none ↦ id_of (head? xs) | some n ↦ id_of (account_at xs n) ]) (ids xs)
      from none = IsHeld-head xs
      from (some n) = IsHeld-account_at n xs

  -- A transaction of an import always yields a pool, and keeps its invariant.
  pub import_mutator-IsPool :
      (replace : Bool) (items : List (Option (Item F))) (p : Pool F)
      → IsPool p
      → Gives IsPoolAfter (import_mutator replace c items p)
  unfolding import_mutator replace_pool merge_pool
  import_mutator-IsPool true items p w = record {
    named = replaced-AreNamed 0 items;
    distinct = replaced-AreDistinct 0 items;
    active = IsHeld-chosen c.active_email (replaced c 0 items);
    cursor = tt;
  }
  import_mutator-IsPool false items p w =
      Gives-bind IsPoolAfter IsPoolAfter _ _ (merge_loop-IsPool items _ w) (λ s w'. w')
