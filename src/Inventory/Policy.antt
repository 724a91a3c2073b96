-- ===== src/Inventory/Policy.antt =====
-- internal/inventory/policy.go: the decision on one source. A time is the number of nanoseconds since
-- 0001-01-01 00:00 UTC, Go's zero time, and all times are in UTC; a duration is its nanoseconds.
pub mod Laws
use agy_go.Prelude.{
  ◌≡◌, ℕ, ◌*◌, ◌^◌, Bool, true, false, not, ◌&&◌, ◌||◌, String, List, [], ◌∷◌, ◌++◌, Option, none,
  some, str_eq, if◌then◌else◌, ltb, ◌==◌,
}
use agy_go.Prelude.Int.{ℤ, pos, negsuc, ltb_ℤ, eqb_ℤ, ◌+ℤ◌}
use agy_go.Go.Text.{Text}

-- The first nanosecond of the year 10000.
abbrev pub end_of_years : ℕ
end_of_years = 315_537_897_600 * 10 ^ 9

-- Not zero, and of a year between 1 and 9999.
unfoldable pub valid_time : ℤ → Bool
valid_time (negsuc n) = false
valid_time (pos n) = ltb 0 n && ltb n end_of_years

pub data ActivityState : Type 0 where
  known unknown ambiguous : ActivityState

pub record Activity : Type 0 where
  pub state : ActivityState
  pub last : Option ℤ

abbrev all_valid : List ℤ → Bool
all_valid [] = true
all_valid (t ∷ rest) = let later = all_valid rest in valid_time t && later

abbrev all_equal : ℤ → List ℤ → Bool
all_equal first [] = true
all_equal first (t ∷ rest) = let later = all_equal first rest in eqb_ℤ t first && later

abbrev activity_unknown : Activity
activity_unknown = record { state = unknown; last = none }

unfoldable pub resolve_activity : List ℤ → Bool → Activity
unfolding valid_time
resolve_activity [] authoritative = activity_unknown
resolve_activity (first ∷ rest) authoritative =
    if not authoritative
    then activity_unknown
    else (if not (all_valid (first ∷ rest))
        then activity_unknown
        else (if not (all_equal first rest)
            then record { state = ambiguous; last = none }
            else record { state = known; last = some first }))

pub data IngestState : Type 0 where
  verified missing partial evidence_gap mismatch stale unsupported : IngestState

pub record IngestAssessment : Type 0 where
  pub state : IngestState
  pub source_id : String
  pub checkpoint : ℤ
  pub activity_covered : Option ℤ

pub data SourceState : Type 0 where
  verified_snapshot changed verification_failed unsupported_schema : SourceState

pub data Blocker : Type 0 where
  activity_is_unknown activity_is_ambiguous active incomplete_ingest_evidence incomplete_ingest
        missing_ingest_evidence stale_checkpoint unsupported_evidence source_changed
        source_unverified schema_unsupported retention_unset retention_invalid retention_not_reached
        evaluation_time :
      Blocker

abbrev pub code_of : Blocker → ℕ
code_of activity_is_unknown = 0
code_of activity_is_ambiguous = 1
code_of active = 2
code_of incomplete_ingest_evidence = 3
code_of incomplete_ingest = 4
code_of missing_ingest_evidence = 5
code_of stale_checkpoint = 6
code_of unsupported_evidence = 7
code_of source_changed = 8
code_of source_unverified = 9
code_of schema_unsupported = 10
code_of retention_unset = 11
code_of retention_invalid = 12
code_of retention_not_reached = 13
code_of evaluation_time = 14

pub record DecisionInput : Type 0 where
  pub source_id : String
  pub path_ref : String
  pub size : ℤ
  pub activity : Activity
  pub ingest : IngestAssessment
  pub verification : SourceState
  pub retention : Option ℤ
  pub now : ℤ

pub record Decision : Type 0 where
  pub source_id : String
  pub path_ref : String
  pub activity : Activity
  pub retention_deadline : Option ℤ
  pub ingest : IngestAssessment
  pub ingest_verified : Bool
  pub source_verification : SourceState
  pub source_verified : Bool
  pub eligible : Bool
  pub reclaimable_bytes : ℤ
  pub blockers : List Blocker

abbrev pub holds_blocker : Blocker → List Blocker → Bool
holds_blocker b [] = false
holds_blocker b (v ∷ rest) = let later = holds_blocker b rest in code_of v == code_of b || later

-- `add`, for the blocker that a part of the function finds, if it finds one.
unfoldable pub add : Option Blocker → List Blocker → List Blocker
add none bs = bs
add (some b) bs = if holds_blocker b bs then bs else bs ++ (b ∷ [])

abbrev pub is_empty : List Blocker → Bool
is_empty [] = true
is_empty (_ ∷ _) = false

now_blocker : ℤ → Option Blocker
unfolding valid_time
now_blocker now = if valid_time now then none else some evaluation_time

-- An activity with a last time that is usable.
abbrev known_last : Activity → Option ℤ
known_last a = elim a.state [
  | known ↦ elim a.last [ none ↦ none | some t ↦ if valid_time t then some t else none ]
  | unknown ↦ none
  | ambiguous ↦ none
]

activity_blocker : Activity → ℤ → Option Blocker
unfolding valid_time
activity_blocker a now = elim a.state [
  | known ↦ elim a.last [
    | none ↦ some activity_is_unknown
    | some t ↦
        if not (valid_time t)
        then some activity_is_unknown
        else (if ltb_ℤ now t then some active else none)
  ]
  | ambiguous ↦ some activity_is_ambiguous
  | unknown ↦ some activity_is_unknown
]

-- The deadline, and what stands against it.
retention_part : Option ℤ → Activity → ℤ → Option ℤ × Option Blocker
unfolding valid_time ◌+ℤ◌
retention_part none a now = (none, some retention_unset)
retention_part (some d) a now =
    if not (ltb_ℤ (pos 0) d) then (none, some retention_invalid) else elim (known_last a) [
      | none ↦ (none, none)
      | some t ↦
          let deadline = t +ℤ d in
          if not (valid_time deadline)
          then (none, some retention_invalid)
          else (some deadline, (if ltb_ℤ now deadline then some retention_not_reached else none))
    ]

module _ ⦃tx : Text⦄ where
  unfoldable pub valid_id : String → Bool
  valid_id id =
      tx.has_prefix id "sha256:"
      && elim (tx.hex_length (tx.trim_prefix id "sha256:")) [ none ↦ false | some n ↦ n == 32 ]

  source_part : DecisionInput → Bool × Option Blocker
  unfolding valid_id
  source_part i = elim i.verification [
    | verified_snapshot ↦
        if valid_id i.source_id && not (ltb_ℤ i.size (pos 0))
        then (true, none)
        else (false, some source_unverified)
    | changed ↦ (false, some source_changed)
    | unsupported_schema ↦ (false, some schema_unsupported)
    | verification_failed ↦ (false, some source_unverified)
  ]

  -- The verified case, with the last activity if there is one.
  verified_ingest : DecisionInput → Option ℤ → Bool × Option Blocker
  unfolding valid_id valid_time
  verified_ingest i last =
      if not (str_eq i.ingest.source_id i.source_id) || not (valid_id i.ingest.source_id)
      then (false, some source_changed)
      else elim last [
        | none ↦ (false, some stale_checkpoint)
        | some t ↦
            if not (valid_time i.ingest.checkpoint)
              || (ltb_ℤ i.now i.ingest.checkpoint || ltb_ℤ i.ingest.checkpoint t)
            then (false, some stale_checkpoint)
            else elim i.ingest.activity_covered [
              | none ↦ (false, some incomplete_ingest_evidence)
              | some c ↦
                  if eqb_ℤ c t then (true, none) else (false, some incomplete_ingest_evidence)
            ]
      ]

  ingest_part : DecisionInput → Bool × Option Blocker
  unfolding verified_ingest
  ingest_part i = elim i.ingest.state [
    | verified ↦ verified_ingest i i.activity.last
    | missing ↦ (false, some missing_ingest_evidence)
    | partial ↦ (false, some incomplete_ingest)
    | mismatch ↦ (false, some source_changed)
    | stale ↦ (false, some stale_checkpoint)
    | unsupported ↦ (false, some unsupported_evidence)
    | evidence_gap ↦ (false, some incomplete_ingest_evidence)
  ]

  unfoldable pub evaluate : DecisionInput → Decision
  unfolding now_blocker source_part activity_blocker ingest_part retention_part add
  evaluate i =
      let source = source_part i in
      let ingest = ingest_part i in
      let retention = retention_part i.retention i.activity i.now in
      let blockers = add retention.1 (
        add ingest.1
          (add (activity_blocker i.activity i.now) (add source.1 (add (now_blocker i.now) [])))) in
      let eligible = is_empty blockers && (source.0 && ingest.0) in
      record {
        source_id = i.source_id;
        path_ref = i.path_ref;
        activity = i.activity;
        retention_deadline = retention.0;
        ingest = i.ingest;
        ingest_verified = ingest.0;
        source_verification = i.verification;
        source_verified = source.0;
        eligible = eligible;
        reclaimable_bytes = if eligible then i.size else pos 0;
        blockers = blockers;
      }
