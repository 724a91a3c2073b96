-- ===== src/Accounts/Ids.antt =====
-- Lists of ids: distinct ids, and the lowest free number.
use agy_go.Prelude.{
  ◌≡◌, refl, ap, ◌∙◌, ℕ, zero, suc, ◌+◌, ◌≤◌, ◌<◌, Bool, true, false, ◌||◌, String, List, [], ◌∷◌,
  none, some, str_eq, eq_iff, arith, if◌then◌else◌, length, All, Bool-cases, Option-cases, inl, inr,
}
use agy_go.Storage.{Account}
use agy_go.Accounts.{ids, is_used, next_from, next_account_id}

abbrev pub holds : String → List String → Bool
holds i [] = false
holds i (j ∷ rest) = let later = holds i rest in str_eq j i || later

-- All ids differ.
abbrev pub AreDistinct : List String → Type 0
AreDistinct [] = Unit
AreDistinct (i ∷ rest) = (holds i rest ≡ false) × AreDistinct rest

-- No id is empty.
abbrev pub AreNamed : List String → Type 0
AreNamed = All (λ i. str_eq i "" ≡ false)

-- What is relied on of a formatted number: different numbers have different texts, and none is empty.
pub record IsNaming (name : ℕ → String) : Type 0 where
  pub injective : (m n : ℕ) → name m ≡ name n → m ≡ n
  pub inhabited : (n : ℕ) → str_eq (name n) "" ≡ false

abbrev erase : String → List String → List String
erase i [] = []
erase i (j ∷ rest) = let others = erase i rest in if str_eq j i then rest else j ∷ others

length-erase :
    (i : String) (xs : List String) → is_used i xs ≡ true → suc (length (erase i xs)) ≡ length xs
length-erase i [] h = cc
length-erase i (j ∷ rest) h = ground (arith, length-erase i rest)

-- Erasing one id leaves the others.
is_used-erase :
    (i k : String) (xs : List String)
    → str_eq i k ≡ false
    → is_used k xs ≡ true
    → is_used k (erase i xs) ≡ true
is_used-erase i k [] e h = cc
is_used-erase i k (j ∷ rest) e h = elim (Bool-cases (str_eq j i)) [
  | inl f ↦ let same = (eq_iff j i).0 f in ground (arith, rw same at h)
  | inr f ↦ ground (arith, is_used-erase i k rest e)
]

length-ids : {F : Type 0} (xs : List (Account F)) → length (ids xs) ≡ length xs
length-ids [] = refl
length-ids (a ∷ rest) = omega (arith, length-ids rest)

module _ (name : ℕ → String) (naming : IsNaming name) where
  -- `k` numbers from `n` on are taken.
  abbrev AreTaken : ℕ → ℕ → List String → Type 0
  AreTaken zero n xs = Unit
  AreTaken (suc k) n xs = (is_used (name n) xs ≡ true) × AreTaken k (n + 1) xs

  pub names_differ : (m n : ℕ) → n < m → str_eq (name n) (name m) ≡ false
  names_differ m n h = elim (Bool-cases (str_eq (name n) (name m))) [
    | inl e ↦ absurd (omega (arith, naming.injective n m ((eq_iff (name n) (name m)).0 e)))
    | inr e ↦ e
  ]

  AreTaken-erase :
      (k m n : ℕ) (xs : List String) → n < m → AreTaken k m xs → AreTaken k m (erase (name n) xs)
  AreTaken-erase zero m n xs h t = tt
  AreTaken-erase (suc k) m n xs h t = (
    is_used-erase (name n) (name m) xs (names_differ m n h) t.0,
    AreTaken-erase k (m + 1) n xs (omega arith) t.1,
  )

  -- No more numbers are taken than there are ids.
  pigeonhole : (k n : ℕ) (xs : List String) → AreTaken k n xs → k ≤ length xs
  pigeonhole zero n xs t = omega arith
  pigeonhole (suc k) n xs t =
      let others = AreTaken-erase k (n + 1) n xs (omega arith) t.1 in
      omega (arith, pigeonhole k (n + 1) (erase (name n) xs) others, length-erase (name n) xs t.0)

  taken_of_none :
      (fuel n : ℕ) (xs : List String) → next_from name fuel n xs ≡ none → AreTaken fuel n xs
  unfolding next_from
  taken_of_none zero n xs h = tt
  taken_of_none (suc fuel) n xs h = elim (Bool-cases (is_used (name n) xs)) [
    | inl e ↦ (e, taken_of_none fuel (n + 1) xs (rw e at h))
    | inr e ↦ absurd (cc (rw e at h))
  ]

  -- The lowest free number from `n` on.
  pub record IsLowest (xs : List String) (n m : ℕ) : Type 0 where
    pub reached : n ≤ m
    pub free : is_used (name m) xs ≡ false
    pub lowest : (j : ℕ) → n ≤ j → j < m → is_used (name j) xs ≡ true

  IsLowest-of_some :
      (fuel n : ℕ) (xs : List String) (c : String)
      → next_from name fuel n xs ≡ some c
      → (m : ℕ) × (c ≡ name m) × IsLowest xs n m
  unfolding next_from
  IsLowest-of_some zero n xs c h = absurd (cc h)
  IsLowest-of_some (suc fuel) n xs c h = elim (Bool-cases (is_used (name n) xs)) [
    | inr e ↦ (
      n,
      cc (rw e at h),
      record { reached = omega arith; free = e; lowest = λ j h k. absurd (omega arith) },
    )
    | inl e ↦
        let (m, is_name, w) = IsLowest-of_some fuel (n + 1) xs c (rw e at h) in
        (
          m,
          is_name,
          record {
            reached = omega (arith, w.reached);
            free = w.free;
            lowest = λ j h k. grind (arith, w.lowest j);
          },
        )
  ]

  -- An id is always found, and it is that of the lowest positive number which no account has.
  pub next_account_id_lem :
      {F : Type 0} (xs : List (Account F))
      → (m : ℕ) × (next_account_id name xs ≡ some (name m)) × IsLowest (ids xs) 1 m
  unfolding next_account_id
  next_account_id_lem xs = elim (Option-cases (next_from name (suc (length xs)) 1 (ids xs))) [
    | inl e ↦ absurd (
        omega (
          arith,
          pigeonhole (suc (length xs)) 1 (ids xs) (taken_of_none (suc (length xs)) 1 (ids xs) e),
          length-ids xs,
        ))
    | inr (c, e) ↦
        let (m, is_name, w) = IsLowest-of_some (suc (length xs)) 1 (ids xs) c e in
        (m, e ∙ ap some is_name, w)
  ]
