-- ===== src/Go/Less.antt =====
-- `a < b` on Go strings, and the comparators that the program builds: levels of keys, each asked
-- where the ones before it tie.
use Prim.Native.Nat.{Ordering, compare as compare_ℕ}
use Prim.Native.Char.{Char, code}
use Prim.Native.String.compare
use Prim.Native.String.{compare, then as both}
use agy_go.Prelude.{
  ℕ, ◌≡◌, refl, Bool, true, false, not, ◌||◌, sym, ap, ◌∙◌, String, arith, if◌then◌else◌, ltb, ◌==◌,
}
use agy_go.Prelude.Int.{ℤ, ltb_ℤ, eqb_ℤ}
use agy_go.Go.Float.{Float64, IsIeee, not_lt_trans, lt_asym, eq-not_lt}
use agy_go.Go.Sort.{IsWeakOrder}

-- Go compares the bytes; on UTF-8 that is the order of the code points.
abbrev is_less : Ordering → Bool
is_less Ordering.lt = true
is_less Ordering.eq = false
is_less Ordering.gt = false

unfoldable pub str_lt : String → String → Bool
str_lt s t = is_less (compare s t)

-- What `str_lt` computes to, by the clauses of the native comparison.
first_then : ℕ → ℕ → Bool → Bool
first_then c d later = if ltb c d then true else (if c == d then later else false)

less_then :
    (o r : Ordering)
    → is_less (both o r)
      ≡ elim o [ Ordering.lt ↦ true | Ordering.eq ↦ is_less r | Ordering.gt ↦ false ]
less_then Ordering.lt r = refl
less_then Ordering.eq r = refl
less_then Ordering.gt r = refl

str_lt-cons :
    (c d : Char) (s t : String)
    → str_lt (String.◌∷◌ c s) (String.◌∷◌ d t) ≡ first_then (code c) (code d) (str_lt s t)
unfolding str_lt first_then
str_lt-cons c d s t =
    ap is_less (compare.cons-cons c d s t)
    ∙ less_then (compare_ℕ (code c) (code d)) (compare s t)
    ∙ ground arith

str_lt-nil_cons : (d : Char) (t : String) → str_lt String.[] (String.◌∷◌ d t) ≡ true
unfolding str_lt
str_lt-nil_cons d t = ap is_less (compare.nil-cons d t)

str_lt-cons_nil : (c : Char) (s : String) → str_lt (String.◌∷◌ c s) String.[] ≡ false
unfolding str_lt
str_lt-cons_nil c s = ap is_less (compare.cons-nil c s)

str_lt_asym : (s t : String) → str_lt s t ≡ true → str_lt t s ≡ false
str_lt_asym String.[] String.[] h = unfold str_lt in refl
str_lt_asym String.[] (String.◌∷◌ d t) h = str_lt-cons_nil d t
str_lt_asym (String.◌∷◌ c s) String.[] h = absurd (cc (str_lt-cons_nil c s))
str_lt_asym (String.◌∷◌ c s) (String.◌∷◌ d t) h =
    str_lt-cons d c t s ∙ step (str_lt_asym s t) (sym (str_lt-cons c d s t) ∙ h)
  where
    step :
        (str_lt s t ≡ true → str_lt t s ≡ false)
        → first_then (code c) (code d) (str_lt s t) ≡ true
        → first_then (code d) (code c) (str_lt t s) ≡ false
    step ih k = unfold first_then in ground arith

str_lt_neg_trans : (s t u : String) → str_lt s t ≡ false → str_lt t u ≡ false → str_lt s u ≡ false
str_lt_neg_trans String.[] t String.[] h k = unfold str_lt in refl
str_lt_neg_trans String.[] String.[] (String.◌∷◌ e u) h k = k
str_lt_neg_trans String.[] (String.◌∷◌ d t) (String.◌∷◌ e u) h k = cc (str_lt-nil_cons d t)
str_lt_neg_trans (String.◌∷◌ c s) t String.[] h k = str_lt-cons_nil c s
str_lt_neg_trans (String.◌∷◌ c s) String.[] (String.◌∷◌ e u) h k = cc (str_lt-nil_cons e u)
str_lt_neg_trans (String.◌∷◌ c s) (String.◌∷◌ d t) (String.◌∷◌ e u) h k =
    str_lt-cons c e s u
    ∙ step (str_lt_neg_trans s t u) (sym (str_lt-cons c d s t) ∙ h) (sym (str_lt-cons d e t u) ∙ k)
  where
    step :
        (str_lt s t ≡ false → str_lt t u ≡ false → str_lt s u ≡ false)
        → first_then (code c) (code d) (str_lt s t) ≡ false
        → first_then (code d) (code e) (str_lt t u) ≡ false
        → first_then (code c) (code e) (str_lt s u) ≡ false
    step ih h' k' = unfold first_then in ground arith

-- One level of a comparator: `differ` is the source's `a.Key != b.Key`, `less` the order of the keys.
pub record IsLevel {A : Type 0} (P : A → Type 0) (differ less : A → A → Bool) : Type 0 where
  pub differ_lem : (a b : A) → P a → P b → differ a b ≡ (less a b || less b a)
  pub weak : IsWeakOrder P less

-- `if differ(a, b) { return less(a, b) }; return next(a, b)` is a weak order if `next` is.
pub level-IsWeakOrder :
    {A : Type 0} {P : A → Type 0} {differ less next : A → A → Bool}
    → IsLevel P differ less
    → IsWeakOrder P next
    → IsWeakOrder P (λ a b. if differ a b then less a b else next a b)
level-IsWeakOrder l n = record {
  asym = λ a b pa pb h. ground (
    arith,
    l.differ_lem a b pa pb,
    l.differ_lem b a pb pa,
    l.weak.asym a b pa pb,
    n.asym a b pa pb,
  );
  neg_trans = λ a b c pa pb pc h k. ground (
    arith,
    l.differ_lem a b pa pb,
    l.differ_lem b c pb pc,
    l.differ_lem a c pa pc,
    l.weak.asym b a pb pa,
    l.weak.asym c b pc pb,
    l.weak.neg_trans a b c pa pb pc,
    l.weak.neg_trans b c a pb pc pa,
    l.weak.neg_trans c a b pc pa pb,
    n.neg_trans a b c pa pb pc,
  );
}

module _ {A : Type 0} (P : A → Type 0) where
  pub nat_desc-IsLevel :
      (key : A → ℕ) → IsLevel P (λ a b. not (key a == key b)) (λ a b. ltb (key b) (key a))
  nat_desc-IsLevel key = record {
    differ_lem = λ a b pa pb. ground arith;
    weak = record {
      asym = λ a b pa pb h. ground arith;
      neg_trans = λ a b c pa pb pc h k. ground arith;
    };
  }

  pub int_asc-IsLevel :
      (key : A → ℤ) → IsLevel P (λ a b. not (eqb_ℤ (key a) (key b))) (λ a b. ltb_ℤ (key a) (key b))
  int_asc-IsLevel key = record {
    differ_lem = λ a b pa pb. ground arith;
    weak = record {
      asym = λ a b pa pb h. ground arith;
      neg_trans = λ a b c pa pb pc h k. ground arith;
    };
  }

  pub str_asc-IsWeakOrder : (key : A → String) → IsWeakOrder P (λ a b. str_lt (key a) (key b))
  str_asc-IsWeakOrder key = record {
    asym = λ a b pa pb. str_lt_asym (key a) (key b);
    neg_trans = λ a b c pa pb pc. str_lt_neg_trans (key a) (key b) (key c);
  }

  pub float_desc-IsLevel :
      {F : Type 0} ⦃fl : Float64 F⦄ (ieee : IsIeee F) (key : A → F)
      → ((a : A) → P a → fl.is_nan (key a) ≡ false)
      → IsLevel P (λ a b. not (fl.eq (key a) (key b))) (λ a b. fl.lt (key b) (key a))
  float_desc-IsLevel ⦃fl⦄ ieee key num = record {
    differ_lem = λ a b pa pb. ground (arith, eq-not_lt ieee (key a) (key b) (num a pa) (num b pb));
    weak = record {
      asym = λ a b pa pb. lt_asym ieee (key b) (key a);
      neg_trans =
          λ a b c pa pb pc h k. not_lt_trans ieee (key c) (key b) (key a) (num c pc) (num b pb) k h;
    };
  }
