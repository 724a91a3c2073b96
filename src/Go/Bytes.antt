-- ===== src/Go/Bytes.antt =====
-- A Go string as the list of its bytes: `==` and `<`.
use agy_go.Prelude.{◌≡◌, refl, ℕ, Bool, true, false, ◌&&◌, ◌||◌, List, [], ◌∷◌, arith, ltb, ◌==◌}

abbrev pub Bytes : Type 0
Bytes = List ℕ

abbrev pub is_empty : Bytes → Bool
is_empty [] = true
is_empty (b ∷ ys) = false

abbrev pub eqb : Bytes → Bytes → Bool
eqb [] [] = true
eqb [] (b ∷ ys) = false
eqb (a ∷ xs) [] = false
eqb (a ∷ xs) (b ∷ ys) = let later = eqb xs ys in a == b && later

-- The order of the first byte that differs; a proper prefix comes first.
abbrev pub less : Bytes → Bytes → Bool
less [] [] = false
less [] (b ∷ ys) = true
less (a ∷ xs) [] = false
less (a ∷ xs) (b ∷ ys) = let later = less xs ys in ltb a b || (a == b && later)

pub eqb_refl : (a : Bytes) → eqb a a ≡ true
eqb_refl [] = refl
eqb_refl (a ∷ xs) = ground (arith, eqb_refl xs)

pub eqb→path : (a b : Bytes) → eqb a b ≡ true → a ≡ b
eqb→path [] [] h = refl
eqb→path [] (b ∷ ys) h = absurd (cc h)
eqb→path (a ∷ xs) [] h = absurd (cc h)
eqb→path (a ∷ xs) (b ∷ ys) h = grind (arith, eqb→path xs ys)

pub less_irrefl : (a : Bytes) → less a a ≡ false
less_irrefl [] = refl
less_irrefl (a ∷ xs) = ground (arith, less_irrefl xs)

pub less_trans : (a b c : Bytes) → less a b ≡ true → less b c ≡ true → less a c ≡ true
less_trans [] [] c h k = absurd (cc h)
less_trans [] (b ∷ ys) [] h k = absurd (cc k)
less_trans [] (b ∷ ys) (c ∷ zs) h k = refl
less_trans (a ∷ xs) [] c h k = absurd (cc h)
less_trans (a ∷ xs) (b ∷ ys) [] h k = absurd (cc k)
less_trans (a ∷ xs) (b ∷ ys) (c ∷ zs) h k = ground (arith, less_trans xs ys zs)

pub less_total : (a b : Bytes) → eqb a b ≡ false → less a b ≡ false → less b a ≡ true
less_total [] [] h k = absurd (cc h)
less_total [] (b ∷ ys) h k = absurd (cc k)
less_total (a ∷ xs) [] h k = refl
less_total (a ∷ xs) (b ∷ ys) h k = ground (arith, less_total xs ys)

pub eqb_sym : (a b : Bytes) → eqb a b ≡ eqb b a
eqb_sym [] [] = refl
eqb_sym [] (b ∷ ys) = refl
eqb_sym (a ∷ xs) [] = refl
eqb_sym (a ∷ xs) (b ∷ ys) = ground (arith, eqb_sym xs ys)
