-- ===== src/Tests/Inventory.antt =====
-- The decision and the plan of internal/inventory on a source.
use agy_go.Prelude.{
  ◌≡◌, ◌↔◌, refl, ◌^◌, true, false, [], ◌∷◌, none, some, All, if◌then◌else◌, leb, ◌&&◌, ◌-◌,
}
use agy_go.Prelude.Int.{ℤ, pos}
use agy_go.Inventory.Policy.{known, verified, verified_snapshot, DecisionInput, Decision, evaluate}
use agy_go.Inventory.Policy.Laws.{IsReclaimable, evaluate_eligible_iff}
use agy_go.Inventory.Plan.{Manifest, Entry, reclaim_total, plan}
use agy_go.Inventory.Plan.Laws.{are_counts, sum_of, reclaim_total-sum, plan-Refused}
use agy_go.Tests.Concrete.{plain}

-- A source whose last activity lies long enough in the past, fully ingested.
abbrev old_source : DecisionInput
old_source = record {
  source_id = "sha256:a";
  path_ref = "a";
  size = pos 4096;
  activity = record { state = known; last = some (pos 1000) };
  ingest = record {
    state = verified;
    source_id = "sha256:a";
    checkpoint = pos 1000;
    activity_covered = some (pos 1000);
  };
  verification = verified_snapshot;
  retention = some (pos 500);
  now = pos 2000;
}

evaluate_eligible_iff_example :
    ((evaluate old_source).eligible ≡ true)
    ↔ ((t : ℤ) × (c : ℤ) × (d : ℤ) × IsReclaimable old_source t c d)
evaluate_eligible_iff_example = evaluate_eligible_iff old_source

-- It is given up.
old_source_eligible : (evaluate old_source).eligible ≡ true
unfolding evaluate
old_source_eligible = refl

abbrev a_manifest : Manifest
a_manifest = record {
  digest = "";
  status = "completed";
  scan_status = "completed";
  parser = "1.1.0";
  size = pos 4096;
  mtime = pos 7;
  count = pos 2;
  imported = pos 2;
  complete = true;
  checkpoint = pos 1000;
}

abbrev an_entry : Entry
an_entry = record {
  name = "a";
  source_id = "sha256:a";
  path_ref = "a";
  size = pos 4096;
  mtime = pos 900;
  mtime_ns = pos 7;
  schema = "supported";
  blockers = "one" ∷ "two" ∷ "three" ∷ [];
}

abbrev given_up : Decision
given_up = evaluate old_source

reclaim_total-sum_example : reclaim_total (given_up ∷ given_up ∷ []) ≡ (
    if are_counts (given_up ∷ given_up ∷ []) && leb (sum_of (given_up ∷ given_up ∷ [])) (2 ^ 63 - 1)
    then some (pos (sum_of (given_up ∷ given_up ∷ [])))
    else none)
reclaim_total-sum_example = reclaim_total-sum (given_up ∷ given_up ∷ [])

plan-Refused_example :
    All
      (λ s. s.decision.eligible ≡ false)
      (plan
        (λ n. an_entry)
        (λ n. some a_manifest)
        false
        (an_entry ∷ [])
        (some (pos 500))
        (pos 2000)).0
    × ((plan
          (λ n. an_entry)
          (λ n. some a_manifest)
          false
          (an_entry ∷ [])
          (some (pos 500))
          (pos 2000)).1
        ≡ some (pos 0))
plan-Refused_example =
    plan-Refused (λ n. an_entry) (λ n. some a_manifest) false (an_entry ∷ []) (some (pos 500))
      (pos 2000)
