-- ===== src/Tokei/Wire/RoundTrip.antt =====
-- The decoder of fields reads back every message that is written in the wire format.
use agy_go.Prelude.{
  ◌≡◌, refl, ◌∙◌, ℕ, zero, suc, ◌+◌, ◌*◌, ◌/◌, ◌%◌, ◌^◌, ◌≤◌, ◌<◌, List, [], ◌∷◌, ◌++◌, arith,
  length, drop, length-append, take-length-append, drop-length-append, append_assoc, All, not_ltb,
}
use agy_go.Tokei.Wire.{
  ProtoField, ok, ◌>>=◌, decode_varint, split_bytes, decode_payload, decode_field, decode_loop,
  decode_fields, max_wire_length, max_recursion_depth,
}
use agy_go.Tokei.Wire.Encode.{
  encode_from, encode_varint, encode_payload, encode_field, encode_fields, IsU64, IsWire, is_varint,
  is_fixed64, is_delimited, is_fixed32, IsWellFormed,
}
use agy_go.Tokei.Wire.Varint.{decode_varint-encode, encode_from_pos}

-- What follows a varint that has been read.
after_varint :
    (w : ℕ) (rest : List ℕ) → drop (length (encode_varint w)) (encode_varint w ++ rest) ≡ rest
after_varint w rest = drop-length-append (encode_varint w) rest

split_bytes-append :
    (num wire_type n : ℕ) (bs rest : List ℕ)
    → length bs ≡ n
    → split_bytes num wire_type n (bs ++ rest)
      ≡ ok (record { num = num; wire_type = wire_type; varint = 0; bytes = bs }, rest)
unfolding split_bytes
split_bytes-append num wire_type n bs rest e =
    rw (← e) (
      ground (arith, length-append bs rest, take-length-append bs rest, drop-length-append bs rest))

payload_varint :
    (num v : ℕ) (rest : List ℕ)
    → IsU64 v
    → decode_payload num 0 (encode_varint v ++ rest)
      ≡ ok (record { num = num; wire_type = 0; varint = v; bytes = [] }, rest)
unfolding decode_payload
payload_varint num v rest h = rw (decode_varint-encode v rest h, after_varint v rest) refl

payload_delimited :
    (num : ℕ) (bs rest : List ℕ)
    → IsU64 (length bs)
    → decode_payload num 2 ((encode_varint (length bs) ++ bs) ++ rest)
      ≡ ok (record { num = num; wire_type = 2; varint = 0; bytes = bs }, rest)
unfolding decode_payload
payload_delimited num bs rest h =
    rw
      (
        append_assoc (encode_varint (length bs)) bs rest,
        decode_varint-encode (length bs) (bs ++ rest) h,
        after_varint (length bs) (bs ++ rest),
      )
      (split_bytes-append num 2 (length bs) bs rest refl)

decode_payload-encode :
    (f : ProtoField) (rest : List ℕ)
    → IsWire f
    → decode_payload f.num f.wire_type (encode_payload f ++ rest) ≡ ok (f, rest)
unfolding decode_payload encode_payload
decode_payload-encode f rest (is_varint t e h) = rw (t, e) (payload_varint f.num f.varint rest h)
decode_payload-encode f rest (is_fixed64 t e h) =
    rw (t, e) (split_bytes-append f.num 1 8 f.bytes rest h)
decode_payload-encode f rest (is_delimited t e h) =
    rw (t, e) (payload_delimited f.num f.bytes rest h)
decode_payload-encode f rest (is_fixed32 t e h) =
    rw (t, e) (split_bytes-append f.num 5 4 f.bytes rest h)

wire_type_small : (f : ProtoField) → IsWire f → f.wire_type < 8
wire_type_small f (is_varint t e h) = omega arith
wire_type_small f (is_fixed64 t e h) = omega arith
wire_type_small f (is_delimited t e h) = omega arith
wire_type_small f (is_fixed32 t e h) = omega arith

decode_field-encode :
    (f : ProtoField) (rest : List ℕ)
    → IsWellFormed f
    → decode_field (encode_field f ++ rest) ≡ ok (f, rest)
unfolding decode_field encode_field
decode_field-encode f rest w =
    let tag = f.num * 8 + f.wire_type in
    let small = wire_type_small f w.content in
    let num : tag / 8 % 2 ^ 32 ≡ f.num = omega (arith, w.small) in
    let kind : tag % 8 ≡ f.wire_type = omega arith in
    rw
      (
        append_assoc (encode_varint tag) (encode_payload f) rest,
        decode_varint-encode tag (encode_payload f ++ rest) (omega (arith, w.small)),
        after_varint tag (encode_payload f ++ rest),
        num,
        kind,
      )
      (ground (arith, w.positive, decode_payload-encode f rest w.content))

decode_loop_step :
    (fuel : ℕ) (b : List ℕ) (f : ProtoField) (rest : List ℕ)
    → decode_field b ≡ ok (f, rest)
    → decode_loop (suc fuel) b ≡ (decode_loop fuel rest >>= λ fields. ok (f ∷ fields))
unfolding decode_loop
decode_loop_step fuel [] f rest e = unfold decode_field decode_varint in cc
decode_loop_step fuel (x ∷ b) f rest e = rw e refl

encode_field_shorter :
    (f : ProtoField) (rest : List ℕ) → length rest < length (encode_field f ++ rest)
unfolding encode_field encode_varint
encode_field_shorter f rest =
    let tag = f.num * 8 + f.wire_type in
    omega (
      arith,
      encode_from_pos 9 tag,
      length-append (encode_from 9 tag ++ encode_payload f) rest,
      length-append (encode_from 9 tag) (encode_payload f),
    )

-- As many rounds as there are bytes are enough.
decode_loop-encode :
    (fs : List ProtoField) (fuel : ℕ)
    → All IsWellFormed fs
    → length (encode_fields fs) ≤ fuel
    → decode_loop fuel (encode_fields fs) ≡ ok fs
unfolding encode_fields
decode_loop-encode [] fuel w h = unfold decode_loop in refl
decode_loop-encode (f ∷ fs) zero w h =
    absurd (omega (arith, encode_field_shorter f (encode_fields fs)))
decode_loop-encode (f ∷ fs) (suc fuel) w h =
    decode_loop_step fuel (encode_field f ++ encode_fields fs) f (encode_fields fs)
      (decode_field-encode f (encode_fields fs) w.0)
    ∙ rw (decode_loop-encode fs fuel w.1 (omega (arith, encode_field_shorter f (encode_fields fs))))
        refl

-- Every sequence of well-formed fields whose wire form keeps the limit of 100 MB is read back from that
-- form, at every permitted depth.
pub decode_fields-encode :
    (fs : List ProtoField) (depth : ℕ)
    → All IsWellFormed fs
    → length (encode_fields fs) ≤ max_wire_length
    → depth ≤ max_recursion_depth
    → decode_fields (encode_fields fs) depth ≡ ok fs
unfolding decode_fields
decode_fields-encode fs depth w h d =
    rw (not_ltb depth max_recursion_depth d, not_ltb (length (encode_fields fs)) max_wire_length h)
      (decode_loop-encode fs (length (encode_fields fs)) w (omega arith))
