-- ===== src/Tokei/Wire/Progress.antt =====
-- The loop over the fields: each round takes a byte at least, so it ends, and what it returns is
-- well formed.
use agy_go.Prelude.{
  ◌≡◌, ◌≢◌, ℕ, zero, suc, ◌+◌, ◌/◌, ◌%◌, ◌^◌, ◌≤◌, ◌<◌, List, [], ◌∷◌, arith, length, drop,
  length-take, length-drop, All, Bool-cases, inl, inr, ◌==◌, ltb, subst,
}
use agy_go.Tokei.Wire.{
  recursion_limit, blob_too_large, zero_field_number, ProtoField, ok, err, stuck, decode_varint,
  split_bytes, decode_payload, decode_field, decode_loop, decode_fields, max_wire_length,
  max_recursion_depth,
}
use agy_go.Tokei.Wire.Answers.{>>=-eq-ok, >>=-ne-stuck, err_ne_stuck, ok_ne_stuck, if_ne_stuck}
use agy_go.Tokei.Wire.Encode.{IsWire, is_varint, is_fixed64, is_delimited, is_fixed32, IsWellFormed}
use agy_go.Tokei.Wire.Varint.{decode_varint-IsRead, decode_varint-IsU64, decode_varint_returns}

-- What a payload that is read holds, and what it leaves.
record IsPayload (num : ℕ) (b : List ℕ) (f : ProtoField) (rest : List ℕ) : Type 0 where
  number : f.num ≡ num
  content : IsWire f
  left : length rest ≤ length b

record IsSplit (num wire_type n : ℕ) (b : List ℕ) (f : ProtoField) (rest : List ℕ) : Type 0 where
  number : f.num ≡ num
  kind : f.wire_type ≡ wire_type
  no_varint : f.varint ≡ 0
  size : length f.bytes ≡ n
  left : length rest + n ≡ length b

split_bytes-IsSplit :
    (num wire_type n : ℕ) (b : List ℕ) (f : ProtoField) (rest : List ℕ)
    → split_bytes num wire_type n b ≡ ok (f, rest)
    → IsSplit num wire_type n b f rest
unfolding split_bytes
split_bytes-IsSplit num wire_type n b f rest h = ground (arith, length-take n b, length-drop n b)

module _ (num : ℕ) (b : List ℕ) (f : ProtoField) (rest : List ℕ) where
  varint-IsPayload :
      (v n : ℕ)
      → decode_varint b ≡ ok (v, n)
      → (f ≡ record { num = num; wire_type = 0; varint = v; bytes = [] }) × (rest ≡ drop n b)
      → IsPayload num b f rest
  varint-IsPayload v n e h = record {
    number = ground arith;
    content = is_varint (ground arith) (ground arith) (ground (arith, decode_varint-IsU64 b v n e));
    left = ground (arith, length-drop n b);
  }

  delimited-IsPayload :
      (len n : ℕ)
      → length b ≤ max_wire_length
      → decode_varint b ≡ ok (len, n)
      → split_bytes num 2 len (drop n b) ≡ ok (f, rest)
      → IsPayload num b f rest
  delimited-IsPayload len n small e h =
      let s = split_bytes-IsSplit num 2 len (drop n b) f rest h in
      let fits : length f.bytes ≤ length b = omega (arith, s.size, s.left, length-drop n b) in
      record {
        number = s.number;
        content = is_delimited s.kind s.no_varint (omega arith);
        left = omega (arith, s.left, length-drop n b);
      }

  decode_payload-IsPayload :
      (wire_type : ℕ)
      → length b ≤ max_wire_length
      → decode_payload num wire_type b ≡ ok (f, rest)
      → IsPayload num b f rest
  unfolding decode_payload
  decode_payload-IsPayload wire_type small h = elim (Bool-cases (wire_type == 0)) [
    | inl t ↦
        let zero_type : wire_type ≡ 0 = ground arith in
        let ((v, n), e, k) = >>=-eq-ok (decode_varint b) _ (rw (zero_type, decode_payload) at h) in
        varint-IsPayload v n e (ground arith, ground arith)
    | inr t₀ ↦ elim (Bool-cases (wire_type == 1)) [
      | inl t ↦
          let one_type : wire_type ≡ 1 = ground arith in
          let s = split_bytes-IsSplit num 1 8 b f rest (rw (one_type, decode_payload) at h) in
          record {
            number = s.number;
            content = is_fixed64 s.kind s.no_varint s.size;
            left = omega (arith, s.left);
          }
      | inr t₁ ↦ elim (Bool-cases (wire_type == 2)) [
        | inl t ↦
            let two_type : wire_type ≡ 2 = ground arith in
            let ((len, n), e, k) =
              >>=-eq-ok (decode_varint b) _ (rw (two_type, decode_payload) at h) in
            delimited-IsPayload len n small e k
        | inr t₂ ↦ elim (Bool-cases (wire_type == 5)) [
          | inl t ↦
              let five_type : wire_type ≡ 5 = ground arith in
              let s = split_bytes-IsSplit num 5 4 b f rest (rw (five_type, decode_payload) at h) in
              record {
                number = s.number;
                content = is_fixed32 s.kind s.no_varint s.size;
                left = omega (arith, s.left);
              }
          | inr t₅ ↦ absurd (cc (rw (t₀, t₁, t₂, t₅, decode_payload) at h))
        ]
      ]
    ]
  ]

-- A field that is read is well formed, and leaves less than there was.
record IsStep (b : List ℕ) (f : ProtoField) (rest : List ℕ) : Type 0 where
  well_formed : IsWellFormed f
  shorter : length rest < length b

decode_field-IsStep :
    (b : List ℕ) (f : ProtoField) (rest : List ℕ)
    → length b ≤ max_wire_length
    → decode_field b ≡ ok (f, rest)
    → IsStep b f rest
unfolding decode_field
decode_field-IsStep b f rest small h =
    let ((tag, n), e, k) = >>=-eq-ok (decode_varint b) _ h in
    let read = decode_varint-IsRead b tag n e in
    let remaining = length-drop n b in
    elim (Bool-cases (tag / 8 % 2 ^ 32 == 0)) [
      | inl z ↦ absurd (cc (rw z at k))
      | inr z ↦
          let p =
            decode_payload-IsPayload (tag / 8 % 2 ^ 32) (drop n b) f rest (tag % 8) (omega arith)
              (rw z at k) in
          record {
            well_formed = record {
              positive = ground (arith, p.number);
              small = omega (arith, p.number);
              content = p.content;
            };
            shorter = omega (arith, read.taken, read.present, p.left);
          }
    ]

split_bytes_returns : (num wire_type n : ℕ) (b : List ℕ) → split_bytes num wire_type n b ≢ stuck
unfolding split_bytes
split_bytes_returns num wire_type n b = if_ne_stuck _ _ _ (err_ne_stuck _) (ok_ne_stuck _)

decode_payload_returns : (num wire_type : ℕ) (b : List ℕ) → decode_payload num wire_type b ≢ stuck
unfolding decode_payload
decode_payload_returns num wire_type b =
    let varint_returns = decode_varint_returns b in
    let split_returns = split_bytes_returns num wire_type in
    if_ne_stuck _ _ _ (>>=-ne-stuck (decode_varint b) _ varint_returns (λ a e. ok_ne_stuck _)) (
      if_ne_stuck _ _ _ (split_returns 8 b) (
        if_ne_stuck _ _ _
          (>>=-ne-stuck (decode_varint b) _ varint_returns (λ a e. split_returns a.0 (drop a.1 b)))
          (if_ne_stuck _ _ _ (split_returns 4 b) (err_ne_stuck _))))

decode_field_returns : (b : List ℕ) → decode_field b ≢ stuck
unfolding decode_field
decode_field_returns b = >>=-ne-stuck (decode_varint b) _ (decode_varint_returns b) (λ a e.
    let num : ℕ = a.0 / 8 % 2 ^ 32 in
    if_ne_stuck (num == 0) (err zero_field_number) (decode_payload num (a.0 % 8) (drop a.1 b))
      (err_ne_stuck zero_field_number) (decode_payload_returns num (a.0 % 8) (drop a.1 b)))

decode_loop_returns :
    (fuel : ℕ) (b : List ℕ)
    → length b ≤ fuel
    → length b ≤ max_wire_length
    → decode_loop fuel b ≢ stuck
unfolding decode_loop
decode_loop_returns fuel [] h small = λ e. cc
decode_loop_returns zero (x ∷ b) h small = absurd (omega arith)
decode_loop_returns (suc fuel) (x ∷ b) h small =
    >>=-ne-stuck (decode_field (x ∷ b)) _ (decode_field_returns (x ∷ b)) (λ a e.
      let s = decode_field-IsStep (x ∷ b) a.0 a.1 small e in
      >>=-ne-stuck (decode_loop fuel a.1) _
        (decode_loop_returns fuel a.1 (omega (arith, s.shorter)) (omega (arith, s.shorter)))
        (λ fields k. ok_ne_stuck _))

-- The decoder always answers: the fuel of one round for each byte is never used up.
pub decode_fields_returns : (b : List ℕ) (depth : ℕ) → decode_fields b depth ≢ stuck
unfolding decode_fields
decode_fields_returns b depth = elim (Bool-cases (ltb max_recursion_depth depth)) [
  | inl d ↦ rw d (err_ne_stuck recursion_limit)
  | inr d ↦ elim (Bool-cases (ltb max_wire_length (length b))) [
    | inl t ↦ rw (d, t) (err_ne_stuck blob_too_large)
    | inr t ↦ rw (d, t) (decode_loop_returns (length b) b (omega arith) (ground (arith, t)))
  ]
]

-- What a loop over `n` bytes may return.
abbrev pub AreFields : ℕ → List ProtoField → Type 0
AreFields n fields = All IsWellFormed fields × (length fields ≤ n)

ok-AreFields :
    (fields fields' : List ProtoField) (n : ℕ)
    → ok fields ≡ ok fields'
    → AreFields n fields
    → AreFields n fields'
ok-AreFields fields fields' n e a = let same : fields ≡ fields' = cc in subst (AreFields n) same a

decode_loop-AreFields :
    (fuel : ℕ) (b : List ℕ) (fields : List ProtoField)
    → length b ≤ max_wire_length
    → decode_loop fuel b ≡ ok fields
    → AreFields (length b) fields
unfolding decode_loop
decode_loop-AreFields fuel [] fields small h = ok-AreFields [] fields 0 h (tt, omega arith)
decode_loop-AreFields zero (x ∷ b) fields small h = absurd (cc h)
decode_loop-AreFields (suc fuel) (x ∷ b) fields small h =
    let ((f, rest), e, k) = >>=-eq-ok (decode_field (x ∷ b)) _ h in
    let (others, e', k') = >>=-eq-ok (decode_loop fuel rest) _ k in
    let s = decode_field-IsStep (x ∷ b) f rest small e in
    let ih = decode_loop-AreFields fuel rest others (omega (arith, s.shorter)) e' in
    ok-AreFields (f ∷ others) fields (length (x ∷ b)) k'
      ((s.well_formed, ih.0), omega (arith, s.shorter, ih.1))

-- Whatever the bytes are, each field that is returned has a number between 1 and 2 ^ 32 - 1 and the
-- content of one of the four wire types; and there are no more fields than bytes.
pub decode_fields-AreFields :
    (b : List ℕ) (depth : ℕ) (fields : List ProtoField)
    → decode_fields b depth ≡ ok fields
    → AreFields (length b) fields
unfolding decode_fields
decode_fields-AreFields b depth fields h = elim (Bool-cases (ltb max_recursion_depth depth)) [
  | inl d ↦ absurd (cc (rw d at h))
  | inr d ↦ elim (Bool-cases (ltb max_wire_length (length b))) [
    | inl t ↦ absurd (cc (rw (d, t) at h))
    | inr t ↦ decode_loop-AreFields (length b) b fields (ground (arith, t)) (rw (d, t) at h)
  ]
]
