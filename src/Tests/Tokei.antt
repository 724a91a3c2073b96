-- ===== src/Tests/Tokei.antt =====
-- The decoders of internal/tokei/proto.go on small messages.
use agy_go.Prelude.{none, some, ◌≡◌, ◌≢◌, refl, ℕ, List, [], ◌∷◌, ◌++◌, arith, length, All}
use agy_go.Prelude.Int.{pos}
use agy_go.Tokei.Wire.{ok, stuck, ProtoField, decode_varint, decode_fields}
use agy_go.Tokei.Wire.Answers.{Yields}
use agy_go.Tokei.Wire.Encode.{IsWellFormed, is_varint, is_delimited, encode_varint, encode_fields}
use agy_go.Tokei.Wire.Varint.{decode_varint-encode}
use agy_go.Tokei.Wire.RoundTrip.{decode_fields-encode}
use agy_go.Tokei.Wire.Progress.{decode_fields_returns, AreFields, decode_fields-AreFields}
use agy_go.Tokei.Message.{RawUsage, no_usage, parse_model_usage}
use agy_go.Tokei.Message.Laws.{usage_fields, parse_model_usage-encode, AllCount}
use agy_go.Tokei.Alias.{link_events, linked, link_pair, link_rest, link_ids, link_all, root}
use agy_go.Tokei.Alias.Groups.{Outcome}
use agy_go.Tokei.Alias.Told.{AreTold, link_events-AreTold}
use mathlib.Core.List.{Permᴰ}
use agy_go.Tokei.Record.{record_of}
use agy_go.Tokei.Record.Order.{HasSmall, record_of-perm}
use agy_go.Tokei.Message.Step.{StepEvent}
use agy_go.Tokei.Message.Gen.{GenEvent}
use agy_go.Tokei.Message.Identity.{primary_identity, leading, primary_identity-injective}
use agy_go.Tokei.Message.Step.{parse_step_metadata}
use agy_go.Tokei.Message.Step.Laws.{parse_step_metadata-Yields}

decode_varint-encode_example :
    decode_varint (encode_varint 300 ++ (7 ∷ [])) ≡ ok (300, length (encode_varint 300))
decode_varint-encode_example = decode_varint-encode 300 (7 ∷ []) (omega arith)

abbrev first_field : ProtoField
first_field = record { num = 1; wire_type = 0; varint = 300; bytes = [] }

abbrev second_field : ProtoField
second_field = record { num = 2; wire_type = 2; varint = 0; bytes = 5 ∷ 6 ∷ [] }

abbrev two_fields : List ProtoField
two_fields = first_field ∷ second_field ∷ []

two_fields-IsWellFormed : All IsWellFormed two_fields
two_fields-IsWellFormed = (
  record {
    positive = omega arith;
    small = omega arith;
    content = is_varint refl refl (omega arith);
  },
  (
    record {
      positive = omega arith;
      small = omega arith;
      content = is_delimited refl refl (omega arith);
    },
    tt,
  ),
)

decode_fields-encode_example : decode_fields (encode_fields two_fields) 3 ≡ ok two_fields
unfolding encode_fields encode_varint
decode_fields-encode_example =
    decode_fields-encode two_fields 3 two_fields-IsWellFormed (omega arith) (omega arith)

abbrev message : List ℕ
message = 8 ∷ 172 ∷ 2 ∷ 18 ∷ 2 ∷ 5 ∷ 6 ∷ []

decode_fields_returns_example : decode_fields message 3 ≢ stuck
decode_fields_returns_example = decode_fields_returns message 3

decode_fields-AreFields_example : AreFields 7 two_fields
unfolding decode_fields
decode_fields-AreFields_example = decode_fields-AreFields message 3 two_fields refl

abbrev a_usage : RawUsage
a_usage = record no_usage { model_id = 12; input_tokens = 300; message_id = 65 ∷ [] }

parse_model_usage-encode_example :
    parse_model_usage (encode_fields (usage_fields a_usage)) 2 ≡ ok a_usage
unfolding encode_fields encode_varint
parse_model_usage-encode_example =
    parse_model_usage-encode a_usage 2
      (record {
        model = omega arith;
        input = omega arith;
        total_output = omega arith;
        cache_creation = omega arith;
        cache_read = omega arith;
        provider = omega arith;
        reasoning = omega arith;
        visible_output = omega arith;
        message = omega arith;
        response = omega arith;
        provider_message = omega arith;
      })
      (omega arith) (omega arith)

-- A message with one retry that counts tokens.
abbrev step_blob : List ℕ
step_blob = 10 ∷ 2 ∷ 8 ∷ 6 ∷ 226 ∷ 1 ∷ 4 ∷ 18 ∷ 2 ∷ 16 ∷ 4 ∷ []

-- The event that is read from it.
step_blob_event :
    parse_step_metadata (pos 1) step_blob
    ≡ ok (record {
      step_index = pos 1;
      timestamp = some (record { sec = 6; nanos = 0 });
      model_name = [];
      model_id = 0;
      provider = 0;
      usage = none;
      retries = (record no_usage { input_tokens = 4 }) ∷ [];
    })
unfolding parse_step_metadata decode_fields
step_blob_event = refl

parse_step_metadata-Yields_example :
    Yields (λ ev. AllCount ev.retries) (parse_step_metadata (pos 1) step_blob)
parse_step_metadata-Yields_example = parse_step_metadata-Yields (pos 1) step_blob

-- The same response, met with and without a message id.
abbrev answered : RawUsage
answered = record no_usage { response_id = 82 ∷ [] }

abbrev answered_message : RawUsage
answered_message = record no_usage { response_id = 82 ∷ []; message_id = 77 ∷ [] }

primary_identity-injective_example : leading answered ≡ leading answered_message
unfolding primary_identity
primary_identity-injective_example = primary_identity-injective answered answered_message refl

-- Without a response, then with one: the message connects the two.
abbrev early_usage : RawUsage
early_usage = record no_usage { message_id = 7 ∷ [] }

abbrev late_usage : RawUsage
late_usage = record no_usage { message_id = 7 ∷ []; response_id = 9 ∷ [] }

abbrev response_9 : List ℕ
response_9 = 114 ∷ 101 ∷ 115 ∷ 112 ∷ 111 ∷ 110 ∷ 115 ∷ 101 ∷ 58 ∷ 9 ∷ []

abbrev message_7 : List ℕ
message_7 = 109 ∷ 101 ∷ 115 ∷ 115 ∷ 97 ∷ 103 ∷ 101 ∷ 58 ∷ 7 ∷ []

abbrev early_step : StepEvent
early_step = record {
  step_index = pos 0;
  timestamp = none;
  model_name = [];
  model_id = 0;
  provider = 0;
  usage = some early_usage;
  retries = [];
}

abbrev late_gen : GenEvent
late_gen = record {
  gen_index = pos 0;
  timestamp = none;
  model_name = [];
  model_id = 0;
  usage = none;
  retries = late_usage ∷ [];
}

two_linked :
    link_events (early_step ∷ []) (late_gen ∷ [])
    ≡ linked ((message_7, response_9) ∷ (message_7, message_7) ∷ (response_9, response_9) ∷ [])
unfolding link_events link_all link_ids link_rest link_pair root
two_linked = refl

link_events-AreTold_example :
    Outcome
      (early_usage ∷ late_usage ∷ [])
      (AreTold (early_usage ∷ late_usage ∷ []) message_7 response_9)
      (link_events (early_step ∷ []) (late_gen ∷ []))
link_events-AreTold_example =
    link_events-AreTold (early_step ∷ []) (late_gen ∷ []) message_7 response_9 refl refl

abbrev estimate : RawUsage
estimate = record no_usage { visible_output_tokens = 5; total_output_tokens = 4 }

abbrev final_count : RawUsage
final_count = record no_usage { visible_output_tokens = 3; reasoning_tokens = 6; input_tokens = 8 }

estimate-HasSmall : HasSmall estimate
estimate-HasSmall = record { few_visible = omega arith; few_reasoning = omega arith }

final_count-HasSmall : HasSmall final_count
final_count-HasSmall = record { few_visible = omega arith; few_reasoning = omega arith }

record_of-perm_example :
    record_of estimate (final_count ∷ []) ≡ record_of final_count (estimate ∷ [])
record_of-perm_example =
    record_of-perm estimate final_count (final_count ∷ []) (estimate ∷ []) (Permᴰ.swap refl refl)
      (estimate-HasSmall, (final_count-HasSmall, tt))
