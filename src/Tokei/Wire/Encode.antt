-- ===== src/Tokei/Wire/Encode.antt =====
-- The wire format itself, as a reference for the decoder: the shortest varint of a number, and a
-- message as the sequence of its fields.
use agy_go.Prelude.{
  ◌≡◌, ℕ, zero, suc, ◌+◌, ◌*◌, ◌/◌, ◌%◌, ◌^◌, ◌<◌, List, [], ◌∷◌, ◌++◌, if◌then◌else◌, ltb, ◌==◌,
  length,
}
use agy_go.Tokei.Wire.{ProtoField}

-- Seven bits to a byte, the lowest first, with the eighth bit set on all but the last; at most `k`
-- bytes stand before the last.
unfoldable pub encode_from : ℕ → ℕ → List ℕ
encode_from zero w = w ∷ []
encode_from (suc k) w =
    let others = encode_from k (w / 128) in if ltb w 128 then w ∷ [] else (w % 128 + 128) ∷ others

unfoldable pub encode_varint : ℕ → List ℕ
unfolding encode_from
encode_varint w = encode_from 9 w

abbrev pub IsU64 : ℕ → Type 0
IsU64 w = w < 2 ^ 64

-- What a message may hold: a number that is not 0, one of the four wire types, and content of that
-- type.
pub data IsWire (f : ProtoField) : Type 0 where
  is_varint : f.wire_type ≡ 0 → f.bytes ≡ [] → IsU64 f.varint → IsWire f
  is_fixed64 : f.wire_type ≡ 1 → f.varint ≡ 0 → length f.bytes ≡ 8 → IsWire f
  is_delimited : f.wire_type ≡ 2 → f.varint ≡ 0 → IsU64 (length f.bytes) → IsWire f
  is_fixed32 : f.wire_type ≡ 5 → f.varint ≡ 0 → length f.bytes ≡ 4 → IsWire f

pub record IsWellFormed (f : ProtoField) : Type 0 where
  pub positive : 0 < f.num
  pub small : f.num < 2 ^ 32
  pub content : IsWire f

unfoldable pub encode_payload : ProtoField → List ℕ
unfolding encode_varint
encode_payload f =
    if f.wire_type == 0
    then encode_varint f.varint
    else (if f.wire_type == 2 then encode_varint (length f.bytes) ++ f.bytes else f.bytes)

unfoldable pub encode_field : ProtoField → List ℕ
unfolding encode_payload
encode_field f = encode_varint (f.num * 8 + f.wire_type) ++ encode_payload f

unfoldable pub encode_fields : List ProtoField → List ℕ
unfolding encode_field
encode_fields [] = []
encode_fields (f ∷ fs) = encode_field f ++ encode_fields fs
