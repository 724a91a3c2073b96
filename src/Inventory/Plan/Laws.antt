-- ===== src/Inventory/Plan/Laws.antt =====
-- What the plan can promise today, and what its total is.
use agy_go.Prelude.{
  ◌≡◌, ◌≢◌, refl, ℕ, ◌+◌, ◌-◌, ◌^◌, ◌≤◌, Bool, true, false, not, ◌&&◌, ◌||◌, String, List, [], ◌∷◌,
  Option, none, some, arith, if◌then◌else◌, leb, All, Bool-cases, inl, inr,
}
use agy_go.Prelude.Int.{ℤ, pos, negsuc, pos_part, ltb_ℤ, ◌+ℤ◌, ◌-ℤ◌}
use agy_go.Go.Text.{Text}
use agy_go.Inventory.Policy.{verified, Decision, DecisionInput, resolve_activity, evaluate, known}
use agy_go.Inventory.Policy.Laws.{evaluate_eligible_iff}
use agy_go.Inventory.Plan.{
  Manifest, Entry, SourceDecision, assess_rest, assess_manifest, input_of, decide, decide_all,
  decisions_of, reclaim_loop, reclaim_total, max_int64, plan,
}

module _ ⦃tx : Text⦄ where
  -- No manifest of the ledger certifies an ingest.
  assess_manifest-ne-verified :
      (m : Option Manifest) (e : Entry) (now : ℤ) → (assess_manifest m e now).state ≢ verified
  unfolding assess_manifest assess_rest
  assess_manifest-ne-verified none e now h = cc
  assess_manifest-ne-verified (some m) e now h = ground arith

module _ ⦃tx : Text⦄ (inspect : String → Entry) (manifest_of : String → Option Manifest)
    (ledger_failed : Bool) where
  input_of-unknown :
      (retention : Option ℤ) (now : ℤ) (old : Entry)
      → (input_of inspect manifest_of ledger_failed retention now old).activity.state ≢ known
  unfolding input_of resolve_activity
  input_of-unknown retention now old h = cc h

  decide_refuses :
      (retention : Option ℤ) (now : ℤ) (old : Entry)
      → (decide inspect manifest_of ledger_failed retention now old).decision.eligible ≡ false
  unfolding decide
  decide_refuses retention now old = elim (Bool-cases (evaluate input).eligible) [
    | inl e ↦ absurd (
        input_of-unknown retention now old
          (let (t, c, d, w) = (evaluate_eligible_iff input).0 e in w.inactive.known_state))
    | inr e ↦ e
  ]
    where
      input : DecisionInput
      input = input_of inspect manifest_of ledger_failed retention now old

  abbrev Refused : SourceDecision → Type 0
  Refused s = s.decision.eligible ≡ false

  decide_all-Refused :
      (retention : Option ℤ) (now : ℤ) (baseline : List Entry)
      → All Refused (decide_all inspect manifest_of ledger_failed retention now baseline)
  unfolding decide_all
  decide_all-Refused retention now [] = tt
  decide_all-Refused retention now (old ∷ rest) =
      (decide_refuses retention now old, decide_all-Refused retention now rest)

-- Sources that are refused add nothing.
reclaim_loop-Refused :
    (sources : List SourceDecision) (total : ℤ)
    → All (λ s. s.decision.eligible ≡ false) sources
    → reclaim_loop (decisions_of sources) total ≡ some total
unfolding reclaim_loop
reclaim_loop-Refused [] total h = refl
reclaim_loop-Refused (s ∷ rest) total h = rw h.0 (reclaim_loop-Refused rest total h.1)

-- The sum in plain arithmetic: no eligible source with a negative size, and the sizes that count.
abbrev pub are_counts : List Decision → Bool
are_counts [] = true
are_counts (d ∷ rest) =
    let later = are_counts rest in
    (not d.eligible || not (ltb_ℤ d.reclaimable_bytes (pos 0))) && later

abbrev pub sum_of : List Decision → ℕ
sum_of [] = 0
sum_of (d ∷ rest) =
    let later = sum_of rest in if d.eligible then pos_part d.reclaimable_bytes + later else later

-- The loop's result from `total` on, in plain arithmetic.
abbrev exact : List Decision → ℕ → Option ℤ
exact decisions total =
    if are_counts decisions && leb (total + sum_of decisions) (2 ^ 63 - 1)
    then some (pos (total + sum_of decisions))
    else none

◌+ℤ◌-pos : (a b : ℕ) → pos a +ℤ pos b ≡ pos (a + b)
unfolding ◌+ℤ◌
◌+ℤ◌-pos a b = ground arith

is_count : (n : ℕ) → ltb_ℤ (pos n) (pos 0) ≡ false
is_count n = ground arith

is_not_count : (n : ℕ) → ltb_ℤ (negsuc n) (pos 0) ≡ true
is_not_count n = ground arith

zero_add : (a : ℕ) → 0 + a ≡ a
zero_add a = omega arith

assoc : (a b c : ℕ) → a + (b + c) ≡ a + b + c
assoc a b c = omega arith

-- The guard of the loop asks for the room that is left.
room :
    (total n : ℕ)
    → total ≤ 2 ^ 63 - 1
    → ltb_ℤ (max_int64 -ℤ pos total) (pos n) ≡ not (leb (total + n) (2 ^ 63 - 1))
unfolding ◌-ℤ◌
room total n h = ground arith

reclaim_loop-pos :
    (d : Decision) (rest : List Decision) (total n : ℕ)
    → total ≤ 2 ^ 63 - 1
    → d.eligible ≡ true
    → d.reclaimable_bytes ≡ pos n
    → (total + n ≤ 2 ^ 63 - 1 → reclaim_loop rest (pos (total + n)) ≡ exact rest (total + n))
    → reclaim_loop (d ∷ rest) (pos total) ≡ exact (d ∷ rest) total
unfolding reclaim_loop
reclaim_loop-pos d rest total n h e k next = elim (Bool-cases (leb (total + n) (2 ^ 63 - 1))) [
  | inl f ↦
      rw (e, k, is_count n, room total n h, f, ◌+ℤ◌-pos total n, assoc total n (sum_of rest))
        (next (ground arith))
  | inr f ↦ rw (e, k, is_count n, room total n h, f) (ground arith)
]

reclaim_loop-sum :
    (decisions : List Decision) (total : ℕ)
    → total ≤ 2 ^ 63 - 1
    → reclaim_loop decisions (pos total) ≡ exact decisions total
unfolding reclaim_loop
reclaim_loop-sum [] total h = ground arith
reclaim_loop-sum (d ∷ rest) total h =
    go d.eligible d.reclaimable_bytes refl refl (λ m. reclaim_loop-sum rest m)
  where
    go :
        (b : Bool) (z : ℤ)
        → d.eligible ≡ b
        → d.reclaimable_bytes ≡ z
        → ((m : ℕ) → m ≤ 2 ^ 63 - 1 → reclaim_loop rest (pos m) ≡ exact rest m)
        → reclaim_loop (d ∷ rest) (pos total) ≡ exact (d ∷ rest) total
    go false z e k next = rw e (next total h)
    go true (negsuc n) e k next = rw (e, k, is_not_count n) refl
    go true (pos n) e k next = reclaim_loop-pos d rest total n h e k (next (total + n))

-- The total is the exact sum of the eligible sizes, and the error is returned exactly if one of them is
-- negative or the sum does not fit an int64.
pub reclaim_total-sum :
    (decisions : List Decision)
    → reclaim_total decisions ≡ (
        if are_counts decisions && leb (sum_of decisions) (2 ^ 63 - 1)
        then some (pos (sum_of decisions))
        else none)
unfolding reclaim_total
reclaim_total-sum decisions =
    rw (reclaim_loop-sum decisions 0 (omega arith), zero_add (sum_of decisions)) refl

-- Until a source has an authoritative last activity, the plan gives up no source: none of the report's
-- sources is eligible, and the total is 0 bytes, whatever the sources, the manifests, the retention and
-- the time are.
pub plan-Refused :
    ⦃tx : Text⦄ (inspect : String → Entry) (manifest_of : String → Option Manifest)
    (ledger_failed : Bool) (baseline : List Entry) (retention : Option ℤ) (now : ℤ)
    → All
        (λ s. s.decision.eligible ≡ false)
        (plan inspect manifest_of ledger_failed baseline retention now).0
      × ((plan inspect manifest_of ledger_failed baseline retention now).1 ≡ some (pos 0))
unfolding plan reclaim_total
plan-Refused inspect manifest_of ledger_failed baseline retention now =
    let refused = decide_all-Refused inspect manifest_of ledger_failed retention now baseline in
    (refused, reclaim_loop-Refused _ (pos 0) refused)
