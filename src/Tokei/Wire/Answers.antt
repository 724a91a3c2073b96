-- ===== src/Tokei/Wire/Answers.antt =====
-- Results that are answers of the Go code, and inversion of a bind.
use agy_go.Prelude.{◌≡◌, ◌≢◌, refl, Bool, true, false, if◌then◌else◌}
use agy_go.Tokei.Wire.{WireError, Result, ok, err, stuck, ◌>>=◌}

-- Inversion of a bind that succeeds, and a bind that does not run out of fuel.
pub >>=-eq-ok {ℓ κ} :
    {A : Type ℓ} {B : Type κ} {answer : B} (first : Result A) (next : A → Result B)
    → (first >>= next) ≡ ok answer
    → (value : A) × (first ≡ ok value) × (next value ≡ ok answer)
>>=-eq-ok stuck next returned = cc
>>=-eq-ok (err problem) next returned = cc
>>=-eq-ok (ok value) next returned = (value, refl, returned)

pub >>=-ne-stuck {ℓ κ} :
    {A : Type ℓ} {B : Type κ} (m : Result A) (f : A → Result B)
    → m ≢ stuck
    → ((a : A) → m ≡ ok a → f a ≢ stuck)
    → (m >>= f) ≢ stuck
>>=-ne-stuck (ok a) f h k e = k a refl e
>>=-ne-stuck (err x) f h k e = cc
>>=-ne-stuck stuck f h k e = h refl

pub err_ne_stuck {ℓ} : {A : Type ℓ} (e : WireError) → ◌≢◌ {A = Result A} (err e) stuck
err_ne_stuck e h = cc

pub ok_ne_stuck {ℓ} : {A : Type ℓ} (a : A) → ok a ≢ stuck
ok_ne_stuck a h = cc

pub if_ne_stuck {ℓ} :
    {A : Type ℓ} (c : Bool) (m n : Result A) → m ≢ stuck → n ≢ stuck → (if c then m else n) ≢ stuck
if_ne_stuck true m n h k = h
if_ne_stuck false m n h k = k

-- A result that is an answer of the Go code, and fulfils `P` if it is a value.
abbrev pub Yields {ℓ} : {A : Type ℓ} → (A → Type 0) → Result A → Type 0
Yields P (ok a) = P a
Yields P (err e) = Unit
Yields P stuck = ⊥

pub Yields-intro {ℓ} :
    {A : Type ℓ} (P : A → Type 0) (m : Result A)
    → m ≢ stuck
    → ((a : A) → m ≡ ok a → P a)
    → Yields P m
Yields-intro P (ok a) h k = k a refl
Yields-intro P (err e) h k = tt
Yields-intro P stuck h k = absurd (h refl)

pub >>=-Yields {ℓ κ} :
    {A : Type ℓ} {B : Type κ} (P : A → Type 0) (Q : B → Type 0) (m : Result A) (f : A → Result B)
    → Yields P m
    → ((a : A) → P a → Yields Q (f a))
    → Yields Q (m >>= f)
>>=-Yields P Q (ok a) f h k = k a h
>>=-Yields P Q (err e) f h k = tt
>>=-Yields P Q stuck f h k = absurd h

pub if-Yields {ℓ} :
    {A : Type ℓ} (P : A → Type 0) (c : Bool) (m n : Result A)
    → Yields P m
    → Yields P n
    → Yields P (if c then m else n)
if-Yields P true m n h k = h
if-Yields P false m n h k = k
