-- ===== src/Tokei/Message/Step/Laws.antt =====
-- `ParseStepMetadata` answers, and keeps only the retries that count.
use mathlib.Core.List.{foldl}
use agy_go.Prelude.{◌≡◌, refl, ℕ, List, [], ◌∷◌, ◌==◌, ◌∙◌, arith, sym, subst}
use agy_go.Prelude.Int.{ℤ}
use agy_go.Tokei.Wire.{ProtoField, ok, decode_fields}
use agy_go.Tokei.Wire.Answers.{Yields, >>=-Yields, if-Yields}
use agy_go.Tokei.Message.{parse_model_usage, fold_fields, read_retries}
use agy_go.Tokei.Message.Laws.{
  fold_fields-Yields, parse_model_usage-Yields, decode_fields-Yields, read_retries-Yields, AllCount,
}
use agy_go.Tokei.Message.Step.{
  StepEvent, StepState, set_model, read_step_message, read_step_field, no_step, parse_step_metadata,
}

set_model_keeps : (ev : StepEvent) (f : ProtoField) → (set_model ev f).retries ≡ ev.retries
unfolding set_model
set_model_keeps ev f = ground arith

set_models_keep :
    (fields : List ProtoField) (ev : StepEvent) → (foldl set_model ev fields).retries ≡ ev.retries
set_models_keep [] ev = refl
set_models_keep (f ∷ fields) ev = set_models_keep fields (set_model ev f) ∙ set_model_keeps ev f

abbrev CountedStep : StepState → Type 0
CountedStep st = AllCount st.event.retries

read_step_message-Yields :
    (st : StepState) (num : ℕ) (b : List ℕ)
    → CountedStep st
    → Yields CountedStep (read_step_message st num b)
unfolding read_step_message
read_step_message-Yields st num b a = if-Yields CountedStep (num == 1) _ _ a (
    if-Yields CountedStep (num == 8) _ _ a (
      if-Yields CountedStep (num == 9) _ _
        (>>=-Yields _ CountedStep (parse_model_usage b 0) _ (parse_model_usage-Yields b 0)
          (λ u e. a))
        (if-Yields CountedStep (num == 24) _ _
          (>>=-Yields _ CountedStep (decode_fields b 1) _ (decode_fields-Yields b 1)
            (λ fields e. subst AllCount (sym (set_models_keep fields st.event)) a))
          (if-Yields CountedStep (num == 28) _ (ok st)
            (>>=-Yields AllCount CountedStep (read_retries 1 1 st.event.retries b) _
              (read_retries-Yields 1 1 st.event.retries b a) (λ retries q. q))
            a))))

read_step_field-Yields :
    (st : StepState) (f : ProtoField) → CountedStep st → Yields CountedStep (read_step_field st f)
unfolding read_step_field
read_step_field-Yields st f a =
    if-Yields CountedStep (f.wire_type == 2) _ (ok st) (read_step_message-Yields st f.num f.bytes a)
      a

-- Every blob is answered, with an error or an event; and the retries of an event all count a token.
pub parse_step_metadata-Yields :
    (step_idx : ℤ) (b : List ℕ)
    → Yields (λ ev. AllCount ev.retries) (parse_step_metadata step_idx b)
unfolding parse_step_metadata
parse_step_metadata-Yields step_idx b =
    >>=-Yields (λ _. Unit {0}) (λ (ev : StepEvent). AllCount ev.retries) (decode_fields b 0) _
      (decode_fields-Yields b 0)
      (λ fields e.
        >>=-Yields CountedStep (λ (ev : StepEvent). AllCount ev.retries)
          (fold_fields read_step_field (no_step step_idx) fields) _
          (fold_fields-Yields CountedStep read_step_field read_step_field-Yields fields
            (no_step step_idx) tt)
          (λ st a. a))
