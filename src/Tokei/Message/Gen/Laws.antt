-- ===== src/Tokei/Message/Gen/Laws.antt =====
-- `ParseGenMetadata` answers, and keeps only the retries that count.
use mathlib.Core.List.{foldl}
use agy_go.Prelude.{◌≡◌, refl, ℕ, ◌&&◌, ◌||◌, List, [], ◌∷◌, ◌==◌, ◌∙◌, arith, sym, subst}
use agy_go.Prelude.Int.{ℤ}
use agy_go.Tokei.Wire.{ProtoField, ok, decode_fields}
use agy_go.Tokei.Wire.Answers.{Yields, >>=-Yields, if-Yields}
use agy_go.Tokei.Message.{parse_model_usage, read_retries, is_empty}
use agy_go.Tokei.Message.Laws.{
  fold_fields-Yields, parse_model_usage-Yields, decode_fields-Yields, read_retries-Yields, AllCount,
}
use agy_go.Tokei.Message.Gen.{
  GenEvent, set_time, read_chat_message, read_chat_field, read_gen_field, no_gen,
  parse_gen_metadata,
}

set_time_keeps : (ev : GenEvent) (f : ProtoField) → (set_time ev f).retries ≡ ev.retries
unfolding set_time
set_time_keeps ev f = ground arith

set_times_keep :
    (fields : List ProtoField) (ev : GenEvent) → (foldl set_time ev fields).retries ≡ ev.retries
set_times_keep [] ev = refl
set_times_keep (f ∷ fields) ev = set_times_keep fields (set_time ev f) ∙ set_time_keeps ev f

abbrev CountedGen : GenEvent → Type 0
CountedGen ev = AllCount ev.retries

read_chat_message-Yields :
    (ev : GenEvent) (num : ℕ) (b : List ℕ)
    → CountedGen ev
    → Yields CountedGen (read_chat_message ev num b)
unfolding read_chat_message
read_chat_message-Yields ev num b a =
    if-Yields CountedGen (num == 4) _ _
      (>>=-Yields _ CountedGen (parse_model_usage b 2) _ (parse_model_usage-Yields b 2) (λ u e. a))
      (if-Yields CountedGen (num == 9) _ _
        (>>=-Yields _ CountedGen (decode_fields b 2) _ (decode_fields-Yields b 2)
          (λ fields e. subst AllCount (sym (set_times_keep fields ev)) a))
        (if-Yields CountedGen (num == 17) _ _
          (>>=-Yields AllCount CountedGen (read_retries 2 3 ev.retries b) _
            (read_retries-Yields 2 3 ev.retries b a) (λ retries q. q))
          (if-Yields CountedGen ((num == 19 || num == 21) && is_empty ev.model_name) _ (ok ev) a
            a)))

read_chat_field-Yields :
    (ev : GenEvent) (f : ProtoField) → CountedGen ev → Yields CountedGen (read_chat_field ev f)
unfolding read_chat_field
read_chat_field-Yields ev f a = if-Yields CountedGen (f.num == 3 && f.wire_type == 0) _ _ a (
    if-Yields CountedGen (f.wire_type == 2) _ (ok ev) (read_chat_message-Yields ev f.num f.bytes a)
      a)

read_gen_field-Yields :
    (ev : GenEvent) (f : ProtoField) → CountedGen ev → Yields CountedGen (read_gen_field ev f)
unfolding read_gen_field
read_gen_field-Yields ev f a =
    if-Yields CountedGen (f.num == 1 && f.wire_type == 2) _ (ok ev)
      (>>=-Yields _ CountedGen (decode_fields f.bytes 1) _ (decode_fields-Yields f.bytes 1)
        (λ fields e.
          fold_fields-Yields CountedGen read_chat_field read_chat_field-Yields fields ev a))
      a

-- Every blob is answered, with an error or an event; and the retries of an event all count a token.
parse_gen_metadata-Yields :
    (gen_idx : ℤ) (b : List ℕ) → Yields (λ ev. AllCount ev.retries) (parse_gen_metadata gen_idx b)
unfolding parse_gen_metadata
parse_gen_metadata-Yields gen_idx b =
    >>=-Yields (λ _. Unit {0}) CountedGen (decode_fields b 0) _ (decode_fields-Yields b 0)
      (λ fields e.
        fold_fields-Yields CountedGen read_gen_field read_gen_field-Yields fields (no_gen gen_idx)
          tt)
