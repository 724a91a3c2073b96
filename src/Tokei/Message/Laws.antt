-- ===== src/Tokei/Message/Laws.antt =====
-- What the parsers of messages guarantee: they answer, they keep only retries that count, and they read
-- back a usage that is written in the wire format.
use mathlib.Core.List.{foldl}
use agy_go.Prelude.{
  ◌≡◌, ◌≢◌, refl, ℕ, ◌+◌, ◌≤◌, ◌<◌, ◌^◌, true, false, ◌&&◌, List, [], ◌∷◌, ◌++◌, none, some, arith,
  if◌then◌else◌, ◌==◌, length, All, All-append, subst, Bool-cases, inl, inr,
}
use agy_go.Prelude.Int.{ℤ, pos, negsuc}
use agy_go.Tokei.Wire.{
  ProtoField, Result, ok, err, stuck, decode_fields, max_wire_length, max_recursion_depth,
}
use agy_go.Tokei.Wire.Answers.{
  >>=-eq-ok, >>=-ne-stuck, ok_ne_stuck, if_ne_stuck, Yields, Yields-intro, >>=-Yields,
}
use agy_go.Tokei.Wire.Encode.{IsU64, IsWellFormed, is_varint, is_delimited, encode_fields}
use agy_go.Tokei.Wire.RoundTrip.{decode_fields-encode}
use agy_go.Tokei.Wire.Progress.{decode_fields_returns}
use agy_go.Tokei.Message.{
  RawUsage, is_token_bearing, Seconds, Timestamp, time_of, set_seconds, read_timestamp,
  parse_timestamp_message, parse_model_usage, fold_fields, add_retry, read_retries,
}

module _ {ℓ κ} {S : Type ℓ} (P : S → Type κ) (body : S → ProtoField → Result S)
    (keep : (s : S) (f : ProtoField) (s' : S) → P s → body s f ≡ ok s' → P s') where
  -- An invariant of a loop over fields.
  pub fold_fields_inv :
      (fs : List ProtoField) (s s' : S) → P s → fold_fields body s fs ≡ ok s' → P s'
  unfolding fold_fields
  fold_fields_inv [] s s' p h = let same : s ≡ s' = cc in subst P same p
  fold_fields_inv (f ∷ fs) s s' p h =
      let (t, e, k) = >>=-eq-ok (body s f) _ h in fold_fields_inv fs t s' (keep s f t p e) k

module _ {ℓ} {S : Type ℓ} (body : S → ProtoField → Result S)
    (answers : (s : S) (f : ProtoField) → body s f ≢ stuck) where
  pub fold_fields_returns : (fs : List ProtoField) (s : S) → fold_fields body s fs ≢ stuck
  unfolding fold_fields
  fold_fields_returns [] s = ok_ne_stuck s
  fold_fields_returns (f ∷ fs) s =
      >>=-ne-stuck (body s f) _ (answers s f) (λ t e. fold_fields_returns fs t)

pub parse_model_usage_returns : (b : List ℕ) (depth : ℕ) → parse_model_usage b depth ≢ stuck
unfolding parse_model_usage
parse_model_usage_returns b depth =
    >>=-ne-stuck (decode_fields b (depth + 1)) _ (decode_fields_returns b (depth + 1))
      (λ fields e. ok_ne_stuck _)

add_retry_returns :
    (depth : ℕ) (retries : List RawUsage) (f : ProtoField) → add_retry depth retries f ≢ stuck
unfolding add_retry
add_retry_returns depth retries f =
    if_ne_stuck (f.num == 2 && f.wire_type == 2) _ (ok retries)
      (>>=-ne-stuck (parse_model_usage f.bytes depth) _ (parse_model_usage_returns f.bytes depth)
        (λ u e. ok_ne_stuck _))
      (ok_ne_stuck retries)

pub read_retries_returns :
    (depth inner : ℕ) (retries : List RawUsage) (b : List ℕ)
    → read_retries depth inner retries b ≢ stuck
unfolding read_retries
read_retries_returns depth inner retries b =
    >>=-ne-stuck (decode_fields b depth) _ (decode_fields_returns b depth)
      (λ fields e. fold_fields_returns (add_retry inner) (add_retry_returns inner) fields retries)

-- Every retry that is kept counts a token.
abbrev pub AllCount : List RawUsage → Type 0
AllCount = All (λ u. is_token_bearing u ≡ true)

add_retry-AllCount :
    (depth : ℕ) (retries : List RawUsage) (f : ProtoField) (retries' : List RawUsage)
    → AllCount retries
    → add_retry depth retries f ≡ ok retries'
    → AllCount retries'
unfolding add_retry
add_retry-AllCount depth retries f retries' a h =
    elim (Bool-cases (f.num == 2 && f.wire_type == 2)) [
      | inl t ↦
          let (u, e, k) = >>=-eq-ok (parse_model_usage f.bytes depth) _ (rw (t, add_retry) at h) in
          added u retries' k
      | inr t ↦ let same : retries ≡ retries' = cc (rw (t, add_retry) at h) in subst AllCount same a
    ]
  where
    added :
        (u : RawUsage) (retries' : List RawUsage)
        → ok (if is_token_bearing u then retries ++ (u ∷ []) else retries) ≡ ok retries'
        → AllCount retries'
    added u retries' k = elim (Bool-cases (is_token_bearing u)) [
      | inl b ↦
          let same : retries ++ (u ∷ []) ≡ retries' = cc (rw b at k) in
          subst AllCount same (All-append _ retries (u ∷ []) a (b, tt))
      | inr b ↦ let same : retries ≡ retries' = cc (rw b at k) in subst AllCount same a
    ]

pub read_retries-AllCount :
    (depth inner : ℕ) (retries : List RawUsage) (b : List ℕ) (retries' : List RawUsage)
    → AllCount retries
    → read_retries depth inner retries b ≡ ok retries'
    → AllCount retries'
unfolding read_retries
read_retries-AllCount depth inner retries b retries' a h =
    let (fields, e, k) = >>=-eq-ok (decode_fields b depth) _ h in
    fold_fields_inv AllCount (add_retry inner) (add_retry-AllCount inner) fields retries retries' a
      k

-- The two facts about a usage and about retries, for the parsers that go on.
pub parse_model_usage-Yields :
    (b : List ℕ) (depth : ℕ) → Yields (λ _. Unit {0}) (parse_model_usage b depth)
parse_model_usage-Yields b depth =
    Yields-intro (λ _. Unit {0}) _ (parse_model_usage_returns b depth) (λ u e. tt)

pub decode_fields-Yields : (b : List ℕ) (depth : ℕ) → Yields (λ _. Unit {0}) (decode_fields b depth)
decode_fields-Yields b depth =
    Yields-intro (λ _. Unit {0}) _ (decode_fields_returns b depth) (λ fields e. tt)

pub read_retries-Yields :
    (depth inner : ℕ) (retries : List RawUsage) (b : List ℕ)
    → AllCount retries
    → Yields AllCount (read_retries depth inner retries b)
read_retries-Yields depth inner retries b a =
    Yields-intro AllCount _ (read_retries_returns depth inner retries b)
      (λ retries' e. read_retries-AllCount depth inner retries b retries' a e)

module _ {ℓ} {S : Type ℓ} (P : S → Type 0) (body : S → ProtoField → Result S)
    (keep : (s : S) (f : ProtoField) → P s → Yields P (body s f)) where
  pub fold_fields-Yields : (fs : List ProtoField) (s : S) → P s → Yields P (fold_fields body s fs)
  unfolding fold_fields
  fold_fields-Yields [] s p = p
  fold_fields-Yields (f ∷ fs) s p =
      >>=-Yields P P (body s f) _ (keep s f p) (λ t q. fold_fields-Yields fs t q)

abbrev pub counter : ℕ → ℕ → ProtoField
counter num v = record { num = num; wire_type = 0; varint = v; bytes = [] }

abbrev pub identity : ℕ → List ℕ → ProtoField
identity num b = record { num = num; wire_type = 2; varint = 0; bytes = b }

-- The wire form of a usage.
abbrev pub usage_fields : RawUsage → List ProtoField
usage_fields u =
    counter 1 u.model_id
    ∷ counter 2 u.input_tokens
    ∷ counter 3 u.total_output_tokens
    ∷ counter 4 u.cache_creation_tokens
    ∷ counter 5 u.cache_read_tokens
    ∷ counter 6 u.provider_id
    ∷ identity 7 u.message_id
    ∷ counter 9 u.reasoning_tokens
    ∷ counter 10 u.visible_output_tokens
    ∷ identity 11 u.response_id
    ∷ identity 12 u.provider_assigned_message_id
    ∷ []

pub record IsUsage (u : RawUsage) : Type 0 where
  pub model : IsU64 u.model_id
  pub input : IsU64 u.input_tokens
  pub total_output : IsU64 u.total_output_tokens
  pub cache_creation : IsU64 u.cache_creation_tokens
  pub cache_read : IsU64 u.cache_read_tokens
  pub provider : IsU64 u.provider_id
  pub reasoning : IsU64 u.reasoning_tokens
  pub visible_output : IsU64 u.visible_output_tokens
  pub message : IsU64 (length u.message_id)
  pub response : IsU64 (length u.response_id)
  pub provider_message : IsU64 (length u.provider_assigned_message_id)

counter-IsWellFormed : (num v : ℕ) → 0 < num → num < 2 ^ 32 → IsU64 v → IsWellFormed (counter num v)
counter-IsWellFormed num v p s h = record {
  positive = p;
  small = s;
  content = is_varint refl refl h;
}

identity-IsWellFormed :
    (num : ℕ) (b : List ℕ)
    → 0 < num
    → num < 2 ^ 32
    → IsU64 (length b)
    → IsWellFormed (identity num b)
identity-IsWellFormed num b p s h = record {
  positive = p;
  small = s;
  content = is_delimited refl refl h;
}

-- A usage of 64-bit counters whose wire form keeps the limit is read back from that form.
pub parse_model_usage-encode :
    (u : RawUsage) (depth : ℕ)
    → IsUsage u
    → length (encode_fields (usage_fields u)) ≤ max_wire_length
    → depth < max_recursion_depth
    → parse_model_usage (encode_fields (usage_fields u)) depth ≡ ok u
unfolding parse_model_usage
parse_model_usage-encode u depth w h d =
    rw (decode_fields-encode (usage_fields u) (depth + 1) well h (omega arith)) refl
  where
    well : All IsWellFormed (usage_fields u)
    well = (
      counter-IsWellFormed 1 _ (omega arith) (omega arith) w.model,
      (
        counter-IsWellFormed 2 _ (omega arith) (omega arith) w.input,
        (
          counter-IsWellFormed 3 _ (omega arith) (omega arith) w.total_output,
          (
            counter-IsWellFormed 4 _ (omega arith) (omega arith) w.cache_creation,
            (
              counter-IsWellFormed 5 _ (omega arith) (omega arith) w.cache_read,
              (
                counter-IsWellFormed 6 _ (omega arith) (omega arith) w.provider,
                (
                  identity-IsWellFormed 7 _ (omega arith) (omega arith) w.message,
                  (
                    counter-IsWellFormed 9 _ (omega arith) (omega arith) w.reasoning,
                    (
                      counter-IsWellFormed 10 _ (omega arith) (omega arith) w.visible_output,
                      (
                        identity-IsWellFormed 11 _ (omega arith) (omega arith) w.response,
                        (
                          identity-IsWellFormed 12 _ (omega arith) (omega arith) w.provider_message,
                          tt,
                        ),
                      ),
                    ),
                  ),
                ),
              ),
            ),
          ),
        ),
      ),
    )

time_of_bounds :
    (sec nanos : ℤ) (t : Timestamp)
    → time_of sec nanos ≡ some t
    → (0 < t.sec) × (t.nanos ≤ 999_999_999)
time_of_bounds (negsuc n) nanos t h = absurd (cc h)
time_of_bounds (pos n) (negsuc m) t h = ground arith
time_of_bounds (pos n) (pos m) t h = ground arith

read_timestamp_bounds :
    (fields : List ProtoField) (t : Timestamp)
    → read_timestamp fields ≡ some t
    → (0 < t.sec) × (t.nanos ≤ 999_999_999)
unfolding read_timestamp
read_timestamp_bounds fields t h =
    let s : Seconds =
      foldl set_seconds (record { sec = pos 0; nanos = pos 0; has_sec = false }) fields in
    elim (Bool-cases s.has_sec) [
      | inl e ↦ time_of_bounds s.sec s.nanos t (rw e at h)
      | inr e ↦ absurd (cc (rw e at h))
    ]

-- A time that is read lies after the epoch, and its nanoseconds below a second.
parse_timestamp_message_bounds :
    (b : List ℕ) (depth : ℕ) (t : Timestamp)
    → parse_timestamp_message b depth ≡ some t
    → (0 < t.sec) × (t.nanos ≤ 999_999_999)
unfolding parse_timestamp_message read_timestamp
parse_timestamp_message_bounds b depth t h = from (decode_fields b (depth + 1)) h
  where
    from :
        (r : Result (List ProtoField))
        → elim r [ ok fields ↦ read_timestamp fields | err e ↦ none | stuck ↦ none ] ≡ some t
        → (0 < t.sec) × (t.nanos ≤ 999_999_999)
    from (ok fields) e = read_timestamp_bounds fields t e
    from (err x) e = absurd (cc e)
    from stuck e = absurd (cc e)
