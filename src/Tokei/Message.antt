-- ===== src/Tokei/Message.antt =====
-- internal/tokei/proto.go: the messages that are read from the client's databases. A Go string is the
-- list of its bytes, and `time.Time{}` is `none`; the seconds that are taken are positive, so no
-- parsed time is zero.
pub mod Laws
pub mod Step
pub mod Gen
pub mod Identity
use mathlib.Core.List.{foldl}
use agy_go.Prelude.{
  ◌≡◌, refl, ℕ, ◌+◌, ◌-◌, ◌^◌, Bool, true, false, ◌&&◌, ◌||◌, List, [], ◌∷◌, ◌++◌, Option, none,
  some, arith, if◌then◌else◌, ltb, ◌==◌,
}
use agy_go.Prelude.Int.{ℤ, pos, negsuc, ltb_ℤ}
use agy_go.Tokei.Wire.{ProtoField, Result, ok, err, stuck, ◌>>=◌, decode_fields}

pub record RawUsage : Type 0 where
  pub model_id : ℕ
  pub input_tokens : ℕ
  pub total_output_tokens : ℕ
  pub cache_creation_tokens : ℕ
  pub cache_read_tokens : ℕ
  pub provider_id : ℕ
  pub message_id : List ℕ
  pub reasoning_tokens : ℕ
  pub visible_output_tokens : ℕ
  pub response_id : List ℕ
  pub provider_assigned_message_id : List ℕ

abbrev pub no_usage : RawUsage
no_usage = record {
  model_id = 0;
  input_tokens = 0;
  total_output_tokens = 0;
  cache_creation_tokens = 0;
  cache_read_tokens = 0;
  provider_id = 0;
  message_id = [];
  reasoning_tokens = 0;
  visible_output_tokens = 0;
  response_id = [];
  provider_assigned_message_id = [];
}

unfoldable pub is_token_bearing : RawUsage → Bool
is_token_bearing u =
    ltb 0 u.input_tokens
    || (ltb 0 u.total_output_tokens
        || (ltb 0 u.cache_creation_tokens
            || (ltb 0 u.cache_read_tokens
                || (ltb 0 u.reasoning_tokens || ltb 0 u.visible_output_tokens))))

pub record Timestamp : Type 0 where
  pub sec : ℕ
  pub nanos : ℕ

-- `int64(v)` of a uint64.
abbrev pub to_int64 : ℕ → ℤ
to_int64 v = if ltb v (2 ^ 63) then pos v else negsuc (2 ^ 64 - 1 - v)

-- The variables of the loop in `parseTimestampMessage`.
pub record Seconds : Type 0 where
  pub sec : ℤ
  pub nanos : ℤ
  pub has_sec : Bool

set_seconds : Seconds → ProtoField → Seconds
set_seconds s f =
    if f.num == 1 && f.wire_type == 0
    then record s { sec = to_int64 f.varint; has_sec = true }
    else (if f.num == 2 && f.wire_type == 0 then record s { nanos = to_int64 f.varint } else s)

-- `nanos < 0 || nanos > 999_999_999` gives 0.
abbrev pub clamp_nanos : ℤ → ℕ
clamp_nanos (negsuc n) = 0
clamp_nanos (pos n) = if ltb 999_999_999 n then 0 else n

abbrev pub time_of : ℤ → ℤ → Option Timestamp
time_of (negsuc n) nanos = none
time_of (pos n) nanos =
    if n == 0 then none else some (record { sec = n; nanos = clamp_nanos nanos })

unfoldable pub read_timestamp : List ProtoField → Option Timestamp
unfolding set_seconds
read_timestamp fields =
    let s = foldl set_seconds (record { sec = pos 0; nanos = pos 0; has_sec = false }) fields in
    if s.has_sec then time_of s.sec s.nanos else none

unfoldable pub parse_timestamp_message : List ℕ → ℕ → Option Timestamp
unfolding read_timestamp
parse_timestamp_message b depth = elim (decode_fields b (depth + 1)) [
  | ok fields ↦ read_timestamp fields
  | err e ↦ none
  | stuck ↦ none
]

set_counter : RawUsage → ℕ → ℕ → RawUsage
set_counter u num v =
    if num == 1
    then record u { model_id = v }
    else (if num == 2
        then record u { input_tokens = v }
        else (if num == 3
            then record u { total_output_tokens = v }
            else (if num == 4
                then record u { cache_creation_tokens = v }
                else (if num == 5
                    then record u { cache_read_tokens = v }
                    else (if num == 6
                        then record u { provider_id = v }
                        else (if num == 9
                            then record u { reasoning_tokens = v }
                            else (if num == 10
                                then record u { visible_output_tokens = v }
                                else u)))))))

set_identity : RawUsage → ℕ → List ℕ → RawUsage
set_identity u num b =
    if num == 7
    then record u { message_id = b }
    else (if num == 11
        then record u { response_id = b }
        else (if num == 12 then record u { provider_assigned_message_id = b } else u))

-- One round of the loop in `parseModelUsage`: which numbers are looked at depends on the wire type.
unfoldable pub set_usage : RawUsage → ProtoField → RawUsage
unfolding set_counter set_identity
set_usage u f =
    if f.wire_type == 0
    then set_counter u f.num f.varint
    else (if f.wire_type == 2 then set_identity u f.num f.bytes else u)

unfoldable pub parse_model_usage : List ℕ → ℕ → Result RawUsage
unfolding set_usage
parse_model_usage b depth =
    decode_fields b (depth + 1) >>= λ fields. ok (foldl set_usage no_usage fields)

-- A loop over fields whose body may return an error.
unfoldable pub fold_fields {ℓ} :
    {S : Type ℓ} → (S → ProtoField → Result S) → S → List ProtoField → Result S
fold_fields body s [] = ok s
fold_fields body s (f ∷ fs) = body s f >>= λ s'. fold_fields body s' fs

-- The loop over a retry message, at the depth of its usages.
unfoldable pub add_retry : ℕ → List RawUsage → ProtoField → Result (List RawUsage)
unfolding parse_model_usage is_token_bearing
add_retry depth retries f =
    if f.num == 2 && f.wire_type == 2
    then (parse_model_usage f.bytes depth >>= λ ru.
        ok (if is_token_bearing ru then retries ++ (ru ∷ []) else retries))
    else ok retries

unfoldable pub read_retries : ℕ → ℕ → List RawUsage → List ℕ → Result (List RawUsage)
unfolding fold_fields add_retry
read_retries depth inner retries b = decode_fields b depth >>= fold_fields (add_retry inner) retries

abbrev pub is_empty : List ℕ → Bool
is_empty [] = true
is_empty (_ ∷ _) = false

abbrev pub or_time : Option Timestamp → Option Timestamp → Option Timestamp
or_time none t = t
or_time (some t) _ = some t
