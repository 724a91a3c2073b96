-- ===== src/Tokei/Wire/Varint.antt =====
-- `decode_varint` reads what the reference writes, within ten bytes, and answers an error on the
-- rest.
use native.Mathlib.Nat.{div-add-mod}
use native.Mathlib.Numerals.{towards_suc}
use agy_go.Prelude.{
  ◌≡◌, ◌≢◌, refl, ap, ℕ, zero, suc, ◌+◌, ◌*◌, ◌/◌, ◌%◌, ◌^◌, ◌≤◌, ◌<◌, List, [], ◌∷◌, ◌++◌, arith,
  length,
}
use agy_go.Tokei.Wire.{ok, stuck, group, decode_varint_loop, decode_varint}
use agy_go.Tokei.Wire.Encode.{encode_from, encode_varint, IsU64}

shift_by_seven : (s : ℕ) → 2 ^ (s + 7) ≡ 128 * 2 ^ s
shift_by_seven s = simp towards_suc (omega arith)

-- The low seven bits of `w` and the others, both shifted.
shifted_parts : (w s : ℕ) → w * 2 ^ s ≡ w % 128 * 2 ^ s + w / 128 * 2 ^ (s + 7)
shifted_parts w s = omega (
  ap (λ (power : ℕ). w / 128 * power) (shift_by_seven s),
  arith,
  ap (λ (value : ℕ). value * 2 ^ s) (div-add-mod w 128),
)

-- Nothing is lost where the whole value fits.
group_fits : (b s : ℕ) → b % 128 * 2 ^ s < 2 ^ 64 → group b s ≡ b % 128 * 2 ^ s
group_fits b s h = omega arith

-- One round of the loop on the last byte, and on one that is followed by others.
last_round :
    (w i shift val : ℕ) (rest : List ℕ)
    → w < 128
    → i < 10
    → IsU64 (val + w * 2 ^ shift)
    → decode_varint_loop (w ∷ rest) i shift val ≡ ok (val + w * 2 ^ shift, i + 1)
unfolding decode_varint_loop
last_round w i shift val rest hw hi fits = ground (arith, group_fits w shift)

inner_round :
    (g i shift val : ℕ) (rest : List ℕ)
    → g < 128
    → i < 10
    → IsU64 (val + g * 2 ^ shift)
    → decode_varint_loop ((g + 128) ∷ rest) i shift val
      ≡ decode_varint_loop rest (i + 1) (shift + 7) (val + g * 2 ^ shift)
unfolding decode_varint_loop
inner_round g i shift val rest hg hi fits = ground (arith, group_fits (g + 128) shift)

decode-encode_from :
    (k w i shift val : ℕ) (rest : List ℕ)
    → w < 128 ^ suc k
    → i + k ≤ 9
    → IsU64 (val + w * 2 ^ shift)
    → decode_varint_loop (encode_from k w ++ rest) i shift val
      ≡ ok (val + w * 2 ^ shift, i + length (encode_from k w))
unfolding encode_from
decode-encode_from zero w i shift val rest hw hi fits =
    ground (arith, last_round w i shift val rest)
decode-encode_from (suc k) w i shift val rest hw hi fits = ground (
  arith,
  last_round w i shift val rest,
  shifted_parts w shift,
  inner_round (w % 128) i shift val (encode_from k (w / 128) ++ rest),
  decode-encode_from k (w / 128) (i + 1) (shift + 7) (val + w % 128 * 2 ^ shift) rest (omega arith),
)

-- The decoder reads back every uint64 from its shortest form, whatever follows, and reports the length
-- of that form.
pub decode_varint-encode :
    (w : ℕ) (rest : List ℕ)
    → IsU64 w
    → decode_varint (encode_varint w ++ rest) ≡ ok (w, length (encode_varint w))
unfolding decode_varint encode_varint
decode_varint-encode w rest h = ground (arith, decode-encode_from 9 w 0 0 0 rest (omega arith))

pub encode_from_pos : (k w : ℕ) → 0 < length (encode_from k w)
unfolding encode_from
encode_from_pos zero w = omega arith
encode_from_pos (suc k) w = ground arith

-- What a varint that is read takes: a byte at least, at most ten, and no more than there are.
pub record IsRead (b : List ℕ) (i n : ℕ) : Type 0 where
  pub taken : i < n
  pub present : n ≤ i + length b
  pub short : n ≤ 10

decode_loop-IsRead :
    (b : List ℕ) (i shift val v n : ℕ) → decode_varint_loop b i shift val ≡ ok (v, n) → IsRead b i n
unfolding decode_varint_loop
decode_loop-IsRead [] i shift val v n h = cc
decode_loop-IsRead (x ∷ b) i shift val v n h =
    ground (arith, decode_loop-IsRead b (i + 1) (shift + 7) (val + group x shift) v n)

pub decode_varint-IsRead : (b : List ℕ) (v n : ℕ) → decode_varint b ≡ ok (v, n) → IsRead b 0 n
unfolding decode_varint
decode_varint-IsRead b v n h = decode_loop-IsRead b 0 0 0 v n h

-- A product of seven bits and a power that has room for them.
seven_bits :
    (g p q : ℕ) → g < 128 → p * (128 * q) ≡ 2 ^ 63 → (g * p + p ≤ 128 * p) × (128 * p ≤ 2 ^ 63)
seven_bits g p zero hg h = absurd (omega arith)
seven_bits g p (suc q) hg h = (grind arith, grind arith)

-- After ten bytes nothing is answered.
eleventh : (b : List ℕ) (shift val v n : ℕ) → decode_varint_loop b 10 shift val ≢ ok (v, n)
unfolding decode_varint_loop
eleventh [] shift val v n h = cc
eleventh (x ∷ b) shift val v n h = cc

group_small :
    (x shift q : ℕ)
    → 2 ^ shift * (128 * q) ≡ 2 ^ 63
    → (group x shift + 2 ^ shift ≤ 2 ^ (shift + 7)) × (2 ^ (shift + 7) ≤ 2 ^ 63)
group_small x shift q h =
    omega (arith, shift_by_seven shift, seven_bits (x % 128) (2 ^ shift) q (omega arith) h)

group_last : (x shift : ℕ) → 2 ^ shift ≡ 2 ^ 63 → group x shift ≤ 2 ^ 63
group_last x shift e = rw e (omega arith)

power_step : (k : ℕ) → 128 ^ suc k ≡ 128 * 128 ^ k
power_step k = omega arith

next_room : (p p' q q' : ℕ) → p' ≡ 128 * p → q' ≡ 128 * q → p * q' ≡ 2 ^ 63 → p' * q ≡ 2 ^ 63
next_room p p' q q' h k e = omega (arith, ap (λ (t : ℕ). t * q) h, ap (λ (t : ℕ). p * t) k)

-- With `k` bytes to go the bits of `val` lie below `shift`, so adding a group sets its bits.
decode_loop-IsU64 :
    (k : ℕ) (b : List ℕ) (i shift val v n : ℕ)
    → i + k ≡ 9
    → 2 ^ shift * 128 ^ k ≡ 2 ^ 63
    → val < 2 ^ shift
    → decode_varint_loop b i shift val ≡ ok (v, n)
    → IsU64 v
unfolding decode_varint_loop
decode_loop-IsU64 k [] i shift val v n hi hp hv h = cc
decode_loop-IsU64 zero (x ∷ b) i shift val v n hi hp hv h =
    let full : 2 ^ shift ≡ 2 ^ 63 = omega (arith, hp) in
    let nine : i ≡ 9 = omega arith in
    ground (arith, group_last x shift full, eleventh b (shift + 7) (val + group x shift) v n, nine)
decode_loop-IsU64 (suc k) (x ∷ b) i shift val v n hi hp hv h =
    let room : 2 ^ shift * (128 * 128 ^ k) ≡ 2 ^ 63 = rw (power_step k) at hp in
    ground (
      arith,
      group_small x shift (128 ^ k) room,
      decode_loop-IsU64 k b (i + 1) (shift + 7) (val + group x shift) v n (omega arith) (
          next_room (2 ^ shift) (2 ^ (shift + 7)) (128 ^ k) (128 ^ suc k) (shift_by_seven shift)
            (power_step k) hp),
    )

-- A value that is returned fits 64 bits.
pub decode_varint-IsU64 : (b : List ℕ) (v n : ℕ) → decode_varint b ≡ ok (v, n) → IsU64 v
unfolding decode_varint
decode_varint-IsU64 b v n h = decode_loop-IsU64 9 b 0 0 0 v n refl refl (omega arith) h

decode_loop_returns : (b : List ℕ) (i shift val : ℕ) → decode_varint_loop b i shift val ≢ stuck
unfolding decode_varint_loop
decode_loop_returns [] i shift val h = cc
decode_loop_returns (x ∷ b) i shift val h =
    ground (arith, decode_loop_returns b (i + 1) (shift + 7) (val + group x shift))

pub decode_varint_returns : (b : List ℕ) → decode_varint b ≢ stuck
unfolding decode_varint
decode_varint_returns b = decode_loop_returns b 0 0 0
