-- ===== src/Tokei/Message/Gen.antt =====
-- internal/tokei/proto.go: `ParseGenMetadata`.
pub mod Laws
use mathlib.Core.List.{foldl}
use agy_go.Prelude.{ℕ, ◌&&◌, ◌||◌, List, [], Option, none, some, if◌then◌else◌, ◌==◌}
use agy_go.Prelude.Int.{ℤ}
use agy_go.Tokei.Wire.{ProtoField, Result, ok, ◌>>=◌, decode_fields}
use agy_go.Tokei.Message.{
  RawUsage, Timestamp, parse_timestamp_message, parse_model_usage, fold_fields, read_retries,
  is_empty, or_time,
}

pub record GenEvent : Type 0 where
  pub gen_index : ℤ
  pub timestamp : Option Timestamp
  pub model_name : List ℕ
  pub model_id : ℕ
  pub usage : Option RawUsage
  pub retries : List RawUsage

-- The loop over the message that holds the time.
set_time : GenEvent → ProtoField → GenEvent
unfolding parse_timestamp_message
set_time ev f =
    if f.num == 4 && f.wire_type == 2
    then record ev { timestamp = or_time (parse_timestamp_message f.bytes 3) ev.timestamp }
    else ev

-- What a length-delimited field of the chat message does.
read_chat_message : GenEvent → ℕ → List ℕ → Result GenEvent
unfolding set_time parse_model_usage read_retries
read_chat_message ev num b =
    if num == 4
    then (parse_model_usage b 2 >>= λ u. ok (record ev { usage = some u }))
    else (if num == 9
        then (decode_fields b 2 >>= λ fields. ok (foldl set_time ev fields))
        else (if num == 17
            then (read_retries 2 3 ev.retries b >>= λ retries. ok (record ev { retries = retries }))
            else (if (num == 19 || num == 21) && is_empty ev.model_name
                then ok (record ev { model_name = b })
                else ok ev)))

read_chat_field : GenEvent → ProtoField → Result GenEvent
unfolding read_chat_message
read_chat_field ev f =
    if f.num == 3 && f.wire_type == 0
    then ok (record ev { model_id = f.varint })
    else (if f.wire_type == 2 then read_chat_message ev f.num f.bytes else ok ev)

read_gen_field : GenEvent → ProtoField → Result GenEvent
unfolding read_chat_field fold_fields
read_gen_field ev f =
    if f.num == 1 && f.wire_type == 2
    then (decode_fields f.bytes 1 >>= fold_fields read_chat_field ev)
    else ok ev

abbrev pub no_gen : ℤ → GenEvent
no_gen gen_idx = record {
  gen_index = gen_idx;
  timestamp = none;
  model_name = [];
  model_id = 0;
  usage = none;
  retries = [];
}

unfoldable pub parse_gen_metadata : ℤ → List ℕ → Result GenEvent
unfolding read_gen_field fold_fields
parse_gen_metadata gen_idx b = decode_fields b 0 >>= fold_fields read_gen_field (no_gen gen_idx)
