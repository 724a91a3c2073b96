-- ===== src/Tests/Quotas.antt =====
-- Capacities and quota texts of a few accounts.
use agy_go.Prelude.{◌≡◌, refl, ◌⊎◌, ◌↔◌, ◌≤◌, false, true, none, some, arith}
use agy_go.Prelude.Int.{ℤ, pos}
use agy_go.Storage.{Account, QuotaState, nil, string, blank_account}
use agy_go.Quota.Parse.{
  IsDelay, IsFraction, clamp_fraction, parse_quota_fraction, parse_quota_fraction-IsFraction,
  parse_retry_after, parse_retry_after-IsDelay,
}
use agy_go.Quota.Freshness.{refresh_needed}
use agy_go.Quota.Freshness.Laws.{IsFreshSnapshot, refresh_needed_iff}
use agy_go.Quota.Capacity.{compute_capacity_state}
use agy_go.Quota.Capacity.Laws.{
  AreFractions, compute_capacity_state-AreFractions, is_depleted_iff, compute_capacity_state_bounds,
}
use agy_go.Tests.Concrete.{fixed, fixed-IsIeee, plain, surroundings}

abbrev snapshot : QuotaState ℤ
snapshot = record {
  gemini_5h = some (record { fraction = some (pos 4); reset_time = nil });
  gemini_weekly = none;
  third_party_5h = none;
  third_party_weekly = none;
  remaining_fraction = some (pos 800);
  reset_time = nil;
  updated_at = some (pos 7);
}

abbrev dora : Account ℤ
dora = record (blank_account "dora") { last_quota = some snapshot }

is_depleted_iff_example :
    let state = compute_capacity_state (some dora) (pos 9_000) in
    (state.is_depleted ≡ true) ↔ (
      (f : ℤ) × ((state.q5 ≡ some f) ⊎ (state.q7 ≡ some f))
      × (fixed.le f (fixed.ratio 5 1000) ≡ true))
is_depleted_iff_example = is_depleted_iff fixed-IsIeee dora (pos 9_000)

compute_capacity_state-AreFractions_example :
    AreFractions
      (compute_capacity_state (some dora) (pos 9_000)).q5
      (compute_capacity_state (some dora) (pos 9_000)).q7
compute_capacity_state-AreFractions_example =
    compute_capacity_state-AreFractions fixed-IsIeee (some dora) (pos 9_000)

compute_capacity_state_bounds_example :
    let state = compute_capacity_state (some dora) (pos 9_000) in
    (fixed.lt (fixed.ratio 1 1) state.r5 ≡ false)
    × (fixed.lt (fixed.ratio 1 1) state.r7 ≡ false)
    × (state.known_window_count ≤ 2)
compute_capacity_state_bounds_example = compute_capacity_state_bounds fixed-IsIeee dora (pos 9_000)

refresh_needed_iff_example : (refresh_needed (some dora) (pos 9_000) ≡ false) ↔ (
    (lq : QuotaState ℤ) × (updated : ℤ) × (dora.last_quota ≡ some lq)
    × IsFreshSnapshot lq updated (pos 9_000))
refresh_needed_iff_example = refresh_needed_iff fixed-IsIeee dora (pos 9_000)

parse_retry_after-IsDelay_example : IsDelay (parse_retry_after surroundings.until "3" (pos 300))
parse_retry_after-IsDelay_example =
    parse_retry_after-IsDelay surroundings.until "3" (pos 300) (ground arith)

parse_quota_fraction-IsFraction_example : IsFraction (pos 500)
unfolding parse_quota_fraction clamp_fraction
parse_quota_fraction-IsFraction_example =
    parse_quota_fraction-IsFraction fixed-IsIeee (string "0.5") (pos 500) refl
