-- ===== src/Inventory/Plan.antt =====
-- internal/inventory/plan.go: the assessment of an ingest manifest, and the plan over all sources. The
-- manifests of the ledger and the inspection of a source, which read databases, are arguments.
pub mod Laws
use Prim.Native.String.{◌++◌ as str_append}
use agy_go.Prelude.{
  ◌≡◌, ℕ, ◌-◌, ◌^◌, Bool, true, false, not, ◌&&◌, ◌||◌, String, List, [], ◌∷◌, ◌++◌, Option, none,
  some, str_eq, if◌then◌else◌, ltb, length, drop,
}
use agy_go.Prelude.Int.{ℤ, pos, negsuc, ltb_ℤ, eqb_ℤ, ◌+ℤ◌, ◌-ℤ◌}
use agy_go.Go.Text.{Text}
use agy_go.Inventory.Policy.{
  valid_time, valid_id, IngestState, missing, partial, evidence_gap, mismatch, stale, unsupported,
  IngestAssessment, SourceState, verified_snapshot, changed, verification_failed,
  unsupported_schema, Decision, DecisionInput, resolve_activity, evaluate,
}

-- The columns of a manifest that the assessment reads.
pub record Manifest : Type 0 where
  pub digest : String
  pub status : String
  pub scan_status : String
  pub parser : String
  pub size : ℤ
  pub mtime : ℤ
  pub count : ℤ
  pub imported : ℤ
  pub complete : Bool
  pub checkpoint : ℤ

-- What inspecting a source tells; `mtime_ns` is `Mtime.UnixNano()`.
pub record Entry : Type 0 where
  pub name : String
  pub source_id : String
  pub path_ref : String
  pub size : ℤ
  pub mtime : ℤ
  pub mtime_ns : ℤ
  pub schema : String
  pub blockers : List String

abbrev assessed : IngestState → String → ℤ → IngestAssessment
assessed state source_id checkpoint = record {
  state = state;
  source_id = source_id;
  checkpoint = checkpoint;
  activity_covered = none;
}

module _ ⦃tx : Text⦄ where
  -- The tests that follow the digest, with the source id that it gave.
  assess_rest : Manifest → Entry → ℤ → String → IngestAssessment
  unfolding valid_time
  assess_rest m e now id =
      if not (eqb_ℤ m.size e.size) || not (eqb_ℤ m.mtime e.mtime_ns)
      then assessed mismatch id m.checkpoint
      else (if not m.complete
            || (not (str_eq m.status "completed")
                || (not (str_eq m.scan_status "completed")
                    || (not (eqb_ℤ m.count m.imported) || ltb_ℤ m.count (pos 0))))
          then assessed partial id m.checkpoint
          else (if not (valid_time m.checkpoint)
                || (ltb_ℤ now m.checkpoint || ltb_ℤ m.checkpoint e.mtime)
              then assessed stale id m.checkpoint
              else (if not (str_eq m.parser "1.1.0")
                  then assessed unsupported id m.checkpoint
                  else assessed evidence_gap id m.checkpoint)))

  unfoldable pub assess_manifest : Option Manifest → Entry → ℤ → IngestAssessment
  unfolding assess_rest valid_id
  assess_manifest none e now = assessed missing "" (pos 0)
  assess_manifest (some m) e now =
      let id = str_append "sha256:" (tx.to_lower m.digest) in
      if str_eq m.digest ""
      then assess_rest m e now ""
      else (if not (valid_id id)
          then assessed unsupported "" m.checkpoint
          else (if not (str_eq id e.source_id)
              then assessed mismatch id m.checkpoint
              else assess_rest m e now id))

abbrev mentions : String → List String → Bool
mentions s [] = false
mentions s (b ∷ rest) = let later = mentions s rest in str_eq b s || later

-- The source as it is now, `e`, against what the scan found, `old`.
unfoldable pub source_state : Entry → Entry → SourceState
source_state old e =
    if mentions "source_changed" e.blockers
      || (not (str_eq old.source_id "") && not (str_eq e.source_id old.source_id))
    then changed
    else (if str_eq e.schema "unsupported"
        then unsupported_schema
        else (if ltb 3 (length e.blockers) then verification_failed else verified_snapshot))

pub record SourceDecision : Type 0 where
  pub decision : Decision
  pub source_issues : List String

abbrev pub decisions_of : List SourceDecision → List Decision
decisions_of [] = []
decisions_of (s ∷ rest) = s.decision ∷ decisions_of rest

abbrev pub max_int64 : ℤ
max_int64 = pos (2 ^ 63 - 1)

-- `none` is the error `reclaim_total_overflow`.
reclaim_loop : List Decision → ℤ → Option ℤ
unfolding ◌+ℤ◌ ◌-ℤ◌
reclaim_loop [] total = some total
reclaim_loop (d ∷ rest) total =
    let skipped = reclaim_loop rest total in
    let added = reclaim_loop rest (total +ℤ d.reclaimable_bytes) in
    if d.eligible
    then (if ltb_ℤ d.reclaimable_bytes (pos 0) || ltb_ℤ (max_int64 -ℤ total) d.reclaimable_bytes
        then none
        else added)
    else skipped

unfoldable pub reclaim_total : List Decision → Option ℤ
unfolding reclaim_loop
reclaim_total decisions = reclaim_loop decisions (pos 0)

module _ ⦃tx : Text⦄ (inspect : String → Entry) (manifest_of : String → Option Manifest)
    (ledger_failed : Bool) where
  -- The ingest of a source, as the plan passes it on; a ledger that failed holds no manifests.
  ingest_of : Entry → Entry → ℤ → IngestAssessment
  unfolding assess_manifest
  ingest_of old e now =
      if ledger_failed
      then record (assess_manifest none e now) { state = unsupported }
      else assess_manifest (manifest_of old.name) e now

  unfoldable pub input_of : Option ℤ → ℤ → Entry → DecisionInput
  unfolding ingest_of source_state resolve_activity
  input_of retention now old =
      let e = inspect old.name in
      record {
        source_id = e.source_id;
        path_ref = e.path_ref;
        size = e.size;
        activity = resolve_activity [] false;
        ingest = ingest_of old e now;
        verification = source_state old e;
        retention = retention;
        now = now;
      }

  decide : Option ℤ → ℤ → Entry → SourceDecision
  unfolding input_of
  decide retention now old = record {
    decision = evaluate (input_of retention now old);
    source_issues = drop 3 (inspect old.name).blockers;
  }

  -- The loop over the scanned sources.
  unfoldable pub decide_all : Option ℤ → ℤ → List Entry → List SourceDecision
  unfolding decide
  decide_all retention now [] = []
  decide_all retention now (old ∷ rest) = decide retention now old ∷ decide_all retention now rest

  -- The sources of the report, and the total, `none` for the error.
  unfoldable pub plan : List Entry → Option ℤ → ℤ → List SourceDecision × Option ℤ
  unfolding decide_all reclaim_total
  plan baseline retention now =
      let sources = decide_all retention now baseline in
      (sources, reclaim_total (decisions_of sources))
