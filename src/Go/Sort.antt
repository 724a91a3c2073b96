-- ===== src/Go/Sort.antt =====
-- sort.SliceStable(x, less): what its documentation promises of a stable sort, computed by
-- insertion from the back. Where `less` is a strict weak order the result is the only one possible.
use mathlib.Core.List.Perm
use agy_go.Prelude.{
  ◌≡◌, refl, Bool, true, false, not, ◌&&◌, List, [], ◌∷◌, Perm, inl, inr, arith, if◌then◌else◌, All,
  select, Bool-cases,
}

-- What a comparator must satisfy on the values with the property `P`.
pub record IsWeakOrder {A : Type 0} (P : A → Type 0) (less : A → A → Bool) : Type 0 where
  pub asym : (a b : A) → P a → P b → less a b ≡ true → less b a ≡ false
  pub neg_trans :
      (a b c : A) → P a → P b → P c → less a b ≡ false → less b c ≡ false → less a c ≡ false

module _ {A : Type 0} (less : A → A → Bool) where
  -- `x` goes in front of the first value that is not less than it.
  unfoldable pub insert : A → List A → List A
  insert x [] = x ∷ []
  insert x (y ∷ ys) = let rest = insert x ys in if less y x then y ∷ rest else x ∷ y ∷ ys

  unfoldable pub slice_stable : List A → List A
  unfolding insert
  slice_stable [] = []
  slice_stable (x ∷ xs) = insert x (slice_stable xs)

  -- No later value is less than an earlier one.
  abbrev pub IsSorted : List A → Type 0
  IsSorted [] = Unit
  IsSorted (x ∷ xs) = All (λ y. less y x ≡ false) xs × IsSorted xs

  -- Neither is less than the other.
  abbrev pub tied : A → A → Bool
  tied a b = not (less a b) && not (less b a)

  insert-perm : (x : A) (xs : List A) → Perm (insert x xs) (x ∷ xs)
  unfolding insert
  insert-perm x [] = Perm.rfl
  insert-perm x (y ∷ ys) = elim (Bool-cases (less y x)) [
    | inl e ↦ rw e (Perm.trans (Perm.cons y (insert-perm x ys)) (Perm.swap x y ys))
    | inr e ↦ rw e Perm.rfl
  ]

  pub slice_stable-perm : (xs : List A) → Perm (slice_stable xs) xs
  unfolding slice_stable
  slice_stable-perm [] = Perm.rfl
  slice_stable-perm (x ∷ xs) =
      Perm.trans (insert-perm x (slice_stable xs)) (Perm.cons x (slice_stable-perm xs))

  insert-All : (Q : A → Type 0) (x : A) (xs : List A) → Q x → All Q xs → All Q (insert x xs)
  unfolding insert
  insert-All Q x [] h hs = (h, tt)
  insert-All Q x (y ∷ ys) h hs = ground (arith, insert-All Q x ys h hs.1)

  pub slice_stable-All : (Q : A → Type 0) (xs : List A) → All Q xs → All Q (slice_stable xs)
  unfolding slice_stable
  slice_stable-All Q [] h = tt
  slice_stable-All Q (x ∷ xs) h = insert-All Q x (slice_stable xs) h.0 (slice_stable-All Q xs h.1)

module _ {A : Type 0} {P : A → Type 0} {less : A → A → Bool} (w : IsWeakOrder P less) where
  above-All :
      (x y : A) (ys : List A)
      → P x
      → P y
      → All P ys
      → less y x ≡ false
      → All (λ z. less z y ≡ false) ys
      → All (λ z. less z x ≡ false) ys
  above-All x y [] px py ps h hs = tt
  above-All x y (z ∷ ys) px py ps h hs =
      (w.neg_trans z y x ps.0 py px hs.0 h, above-All x y ys px py ps.1 h hs.1)

  insert-IsSorted :
      (x : A) (xs : List A) → P x → All P xs → IsSorted less xs → IsSorted less (insert less x xs)
  unfolding insert
  insert-IsSorted x [] px ps s = (tt, tt)
  insert-IsSorted x (y ∷ ys) px ps s = elim (Bool-cases (less y x)) [
    | inl e ↦ rw e (
      insert-All less (λ z. less z y ≡ false) x ys (w.asym y x ps.0 px e) s.0,
      insert-IsSorted x ys px ps.1 s.1,
    )
    | inr e ↦ rw e ((e, above-All x y ys px ps.0 ps.1 e s.0), s)
  ]

  pub slice_stable-IsSorted : (xs : List A) → All P xs → IsSorted less (slice_stable less xs)
  unfolding slice_stable
  slice_stable-IsSorted [] ps = tt
  slice_stable-IsSorted (x ∷ xs) ps =
      insert-IsSorted x (slice_stable less xs) ps.0 (slice_stable-All less P xs ps.1)
        (slice_stable-IsSorted xs ps.1)

  -- A value that moves ahead of `x` is not tied with what `x` is tied with.
  tied_apart :
      (a x y : A) → P a → P x → P y → less y x ≡ true → tied less a y ≡ true → tied less a x ≡ false
  tied_apart a x y pa px py e t = ground (arith, w.neg_trans y a x py pa px)

  select-insert :
      (a x : A) (xs : List A)
      → P a
      → P x
      → All P xs
      → select (tied less a) (insert less x xs) ≡ select (tied less a) (x ∷ xs)
  unfolding insert
  select-insert a x [] pa px ps = refl
  select-insert a x (y ∷ ys) pa px ps =
      ground (arith, select-insert a x ys pa px ps.1, tied_apart a x y pa px ps.0)

  -- Values that are tied keep their order.
  pub slice_stable_stable :
      (a : A) (xs : List A)
      → P a
      → All P xs
      → select (tied less a) (slice_stable less xs) ≡ select (tied less a) xs
  unfolding slice_stable
  slice_stable_stable a [] pa ps = refl
  slice_stable_stable a (x ∷ xs) pa ps = ground (
    arith,
    select-insert a x (slice_stable less xs) pa ps.0 (slice_stable-All less P xs ps.1),
    slice_stable_stable a xs pa ps.1,
  )
