-- ===== src/Go/Float.antt =====
-- float64. The program uses comparisons, three operations, conversions from integers, constants,
-- and the tests for NaN and infinity; they are the fields of `Float64`. What IEEE 754 says of them
-- is `IsIeee`: every law that could fail at NaN has a premise that excludes it.
use agy_go.Prelude.{ℕ, ◌≡◌, ◌≤◌, Bool, true, false, not, ◌||◌, String, Option, arith}
use agy_go.Prelude.Int.{ℤ}

pub record Float64 (F : Type 0) : Type 0 where
  -- `a < b`, `a <= b`, `a == b`; the source's `a > b` is `lt b a`.
  pub lt : F → F → Bool
  pub le : F → F → Bool
  pub eq : F → F → Bool
  pub add : F → F → F
  pub sub : F → F → F
  pub div : F → F → F
  -- `float64(n)`
  pub of_int : ℤ → F
  -- The constant that is written as the decimal n / d.
  pub ratio : ℕ → ℕ → F
  -- `int64(x)`
  pub to_int : F → ℤ
  pub neg_inf : F
  -- `strconv.ParseFloat(s, 64)`; `none` is the error.
  pub parse : String → Option F
  pub is_nan : F → Bool
  pub is_inf : F → Bool

-- A value that is not NaN.
abbrev pub IsNum : {F : Type 0} ⦃fl : Float64 F⦄ → F → Type 0
IsNum ⦃fl⦄ x = fl.is_nan x ≡ false

pub record IsIeee (F : Type 0) ⦃fl : Float64 F⦄ : Type 0 where
  pub lt_irrefl : (x : F) → fl.lt x x ≡ false
  pub lt_trans : (x y z : F) → fl.lt x y ≡ true → fl.lt y z ≡ true → fl.lt x z ≡ true
  pub lt_total :
      (x y : F)
      → fl.is_nan x ≡ false
      → fl.is_nan y ≡ false
      → fl.lt x y ≡ false
      → fl.lt y x ≡ false
      → fl.eq x y ≡ true
  pub eq_lt_left : (x y z : F) → fl.eq x y ≡ true → fl.lt x z ≡ fl.lt y z
  pub eq_lt_right : (x y z : F) → fl.eq x y ≡ true → fl.lt z x ≡ fl.lt z y
  pub le_lem : (x y : F) → fl.is_nan x ≡ false → fl.is_nan y ≡ false → fl.le x y ≡ not (fl.lt y x)
  -- A decimal constant is a number, and rounding keeps the order of constants.
  pub ratio_num : (n d : ℕ) → fl.is_nan (fl.ratio n d) ≡ false
  pub ratio_mono : (m n d : ℕ) → m ≤ n → fl.lt (fl.ratio n d) (fl.ratio m d) ≡ false

module _ {F : Type 0} ⦃fl : Float64 F⦄ (ieee : IsIeee F) where
  -- Among numbers `not (a < b)` is transitive.
  pub not_lt_trans :
      (x y z : F) → IsNum x → IsNum y → fl.lt x y ≡ false → fl.lt y z ≡ false → fl.lt x z ≡ false
  not_lt_trans x y z hx hy h k =
      ground (arith, ieee.lt_trans y x z, ieee.lt_total x y hx hy, ieee.eq_lt_left x y z)

  pub lt_asym : (x y : F) → fl.lt x y ≡ true → fl.lt y x ≡ false
  lt_asym x y h = ground (arith, ieee.lt_trans x y x, ieee.lt_irrefl x)

  -- Among numbers two values differ exactly if one is less.
  pub eq-not_lt : (x y : F) → IsNum x → IsNum y → fl.eq x y ≡ not (fl.lt x y || fl.lt y x)
  eq-not_lt x y hx hy = ground (
    arith,
    ieee.lt_total x y hx hy,
    ieee.eq_lt_left x y x,
    ieee.eq_lt_left x y y,
    ieee.lt_irrefl x,
    ieee.lt_irrefl y,
  )
