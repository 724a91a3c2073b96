-- ===== src/Tokei/Message/Step.antt =====
-- internal/tokei/proto.go: `ParseStepMetadata`, and `ParseTrajectoryTimestamp`.
pub mod Laws
use mathlib.Core.List.{foldl}
use agy_go.Prelude.{ℕ, ◌&&◌, ◌||◌, List, [], ◌∷◌, Option, none, some, if◌then◌else◌, ◌==◌}
use agy_go.Prelude.Int.{ℤ}
use agy_go.Tokei.Wire.{ProtoField, Result, ok, err, stuck, ◌>>=◌, decode_fields}
use agy_go.Tokei.Message.{
  RawUsage, Timestamp, parse_timestamp_message, parse_model_usage, fold_fields, read_retries,
  is_empty, or_time,
}

pub record StepEvent : Type 0 where
  pub step_index : ℤ
  pub timestamp : Option Timestamp
  pub model_name : List ℕ
  pub model_id : ℕ
  pub provider : ℕ
  pub usage : Option RawUsage
  pub retries : List RawUsage

-- The event and the two times of the loop.
pub record StepState : Type 0 where
  pub event : StepEvent
  pub start_time : Option Timestamp
  pub end_time : Option Timestamp

-- The loop over the model message.
unfoldable pub set_model : StepEvent → ProtoField → StepEvent
set_model ev f =
    if f.num == 1 && f.wire_type == 0
    then record ev { model_id = f.varint }
    else (if f.num == 7 && f.wire_type == 0
        then record ev { provider = f.varint }
        else (if (f.num == 8 || f.num == 12) && (f.wire_type == 2 && is_empty ev.model_name)
            then record ev { model_name = f.bytes }
            else ev))

-- What a length-delimited field of the metadata does.
read_step_message : StepState → ℕ → List ℕ → Result StepState
unfolding set_model parse_timestamp_message parse_model_usage read_retries
read_step_message st num b =
    if num == 1
    then ok (record st { start_time = or_time (parse_timestamp_message b 0) st.start_time })
    else (if num == 8
        then ok (record st { end_time = or_time (parse_timestamp_message b 0) st.end_time })
        else (if num == 9
            then (parse_model_usage b 0 >>= λ u.
                ok (record st { event = record (st.event) { usage = some u } }))
            else (if num == 24
                then (decode_fields b 1 >>= λ fields.
                    ok (record st { event = foldl set_model st.event fields }))
                else (if num == 28
                    then (read_retries 1 1 st.event.retries b >>= λ retries.
                        ok (record st { event = record (st.event) { retries = retries } }))
                    else ok st))))

read_step_field : StepState → ProtoField → Result StepState
unfolding read_step_message
read_step_field st f = if f.wire_type == 2 then read_step_message st f.num f.bytes else ok st

abbrev pub no_step : ℤ → StepState
no_step step_idx = record {
  event = record {
    step_index = step_idx;
    timestamp = none;
    model_name = [];
    model_id = 0;
    provider = 0;
    usage = none;
    retries = [];
  };
  start_time = none;
  end_time = none;
}

unfoldable pub parse_step_metadata : ℤ → List ℕ → Result StepEvent
unfolding read_step_field fold_fields
parse_step_metadata step_idx b = decode_fields b 0 >>= λ fields.
    fold_fields read_step_field (no_step step_idx) fields >>= λ st.
    ok (record (st.event) { timestamp = or_time st.end_time st.start_time })

-- The first field 2 that holds a message decides.
find_timestamp : List ProtoField → Option Timestamp
unfolding parse_timestamp_message
find_timestamp [] = none
find_timestamp (f ∷ fields) =
    let later = find_timestamp fields in
    if f.num == 2 && f.wire_type == 2 then parse_timestamp_message f.bytes 1 else later

unfoldable pub parse_trajectory_timestamp : List ℕ → Option Timestamp
unfolding find_timestamp
parse_trajectory_timestamp b = elim (decode_fields b 0) [
  | ok fields ↦ find_timestamp fields
  | err e ↦ none
  | stuck ↦ none
]
