-- ===== src/Tokei/Wire.antt =====
-- internal/tokei/proto.go: the decoder of protobuf wire data. A byte slice is a list of numbers below
-- 256, and `b[offset:]` is the list of what is left. Lengths are below 2^63, so `int(length)` is
-- `length` where it is used.
pub mod Answers
pub mod Encode
pub mod Varint
pub mod Progress
pub mod RoundTrip
use agy_go.Prelude.{
  ◌≡◌, refl, ℕ, zero, suc, ◌+◌, ◌*◌, ◌/◌, ◌%◌, ◌^◌, ◌<◌, Bool, true, false, List, [], ◌∷◌, arith,
  if◌then◌else◌, ltb, leb, ◌==◌, length, take, drop,
}

pub data WireError : Type 0 where
  truncated varint_overflow recursion_limit blob_too_large zero_field_number : WireError
  unsupported_wire_type : ℕ → WireError

-- Go's value and error. `stuck` is no Go value: the loop of `decode_fields` ran out of fuel.
pub data Result {ℓ} (A : Type ℓ) : Type ℓ where
  ok : A → Result A
  err : WireError → Result A
  stuck : Result A

infixl 5 ◌>>=◌
-- An `if err != nil { return … }` after a call.
abbrev pub ◌>>=◌ {ℓ κ} : {A : Type ℓ} {B : Type κ} → Result A → (A → Result B) → Result B
stuck >>= next = stuck
err problem >>= next = err problem
ok value >>= next = next value

abbrev pub max_wire_length : ℕ
max_wire_length = 100 * 1024 * 1024

abbrev pub max_recursion_depth : ℕ
max_recursion_depth = 10

abbrev pub max_varint_bytes : ℕ
max_varint_bytes = 10

-- `bytes` is empty where the Go field is nil.
pub record ProtoField : Type 0 where
  pub num : ℕ
  pub wire_type : ℕ
  pub varint : ℕ
  pub bytes : List ℕ

-- `uint64(b&0x7F) << shift`: the seven low bits, shifted in 64 bits.
abbrev pub group : ℕ → ℕ → ℕ
group b shift = b % 128 * 2 ^ shift % 2 ^ 64

-- The bits of `val` lie below `shift`, so `val |=` adds. `b & 0x80` is the eighth bit.
pub decode_varint_loop : List ℕ → ℕ → ℕ → ℕ → Result (ℕ × ℕ)
decode_varint_loop [] i shift val = err truncated
decode_varint_loop (b ∷ rest) i shift val =
    let val' = val + group b shift in
    let more = decode_varint_loop rest (i + 1) (shift + 7) val' in
    if leb max_varint_bytes i
    then err varint_overflow
    else (if b / 128 % 2 == 0 then ok (val', i + 1) else more)

-- The value, and the number of bytes that it takes.
unfoldable pub decode_varint : List ℕ → Result (ℕ × ℕ)
unfolding decode_varint_loop
decode_varint b = decode_varint_loop b 0 0 0

-- The first `n` bytes as the field's content, and what follows them.
split_bytes : ℕ → ℕ → ℕ → List ℕ → Result (ProtoField × List ℕ)
split_bytes num wire_type n b =
    if ltb (length b) n
    then err truncated
    else ok (record { num = num; wire_type = wire_type; varint = 0; bytes = take n b }, drop n b)

-- The `switch` on the wire type, on what follows the tag.
decode_payload : ℕ → ℕ → List ℕ → Result (ProtoField × List ℕ)
unfolding split_bytes decode_varint
decode_payload num wire_type b =
    if wire_type == 0
    then (decode_varint b >>= λ (val, n).
        ok (record { num = num; wire_type = wire_type; varint = val; bytes = [] }, drop n b))
    else (if wire_type == 1
        then split_bytes num wire_type 8 b
        else (if wire_type == 2
            then (decode_varint b >>= λ (len, n). split_bytes num wire_type len (drop n b))
            else (if wire_type == 5
                then split_bytes num wire_type 4 b
                else err (unsupported_wire_type wire_type))))

-- One round of the loop: `uint32(tag >> 3)` and `int(tag & 0x07)`.
decode_field : List ℕ → Result (ProtoField × List ℕ)
unfolding decode_payload decode_varint
decode_field b = do
  (tag, n) ← decode_varint b
  let num = tag / 8 % 2 ^ 32
  if num == 0 then err zero_field_number else decode_payload num (tag % 8) (drop n b)

-- A round takes a byte at least.
decode_loop : ℕ → List ℕ → Result (List ProtoField)
unfolding decode_field
decode_loop fuel [] = ok []
decode_loop zero (b ∷ bs) = stuck
decode_loop (suc fuel) (b ∷ bs) = do
  (f, rest) ← decode_field (b ∷ bs)
  fields ← decode_loop fuel rest
  ok (f ∷ fields)

unfoldable pub decode_fields : List ℕ → ℕ → Result (List ProtoField)
unfolding decode_loop
decode_fields b depth =
    if ltb max_recursion_depth depth
    then err recursion_limit
    else if ltb max_wire_length (length b)
    then err blob_too_large
    else decode_loop (length b) b
