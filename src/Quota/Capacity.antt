-- ===== src/Quota/Capacity.antt =====
-- internal/quota/quota.go: `ComputeCapacityState`, in the order of its parts.
pub mod Laws
use agy_go.Prelude.{
  Bool, true, false, ◌&&◌, ◌||◌, List, [], ◌∷◌, ◌++◌, Option, none, some, if◌then◌else◌, ℕ, ◌+◌,
}
use agy_go.Prelude.Int.{ℤ}
use agy_go.Go.Float.{Float64}
use agy_go.Go.Text.{Text}
use agy_go.Storage.{Account, QuotaState, QuotaWindow, AnyValue, nil, float64}
use agy_go.Quota.Parse.{parse_quota_fraction, parse_iso_or_timestamp}

-- `reset5_time` and `reset7_time` are the times in whole Unix seconds.
pub record CapacityState (F : Type 0) : Type 0 where
  pub q5 : Option F
  pub q7 : Option F
  pub r5 : F
  pub r7 : F
  pub pace5 : Option F
  pub pace7 : Option F
  pub worst_pace : F
  pub total_pace : F
  pub raw_floor : F
  pub q5_known : Bool
  pub q7_known : Bool
  pub known_window_count : ℕ
  pub legacy_fraction_known : Bool
  pub is_depleted : Bool
  pub reset5_time : Option ℤ
  pub reset7_time : Option ℤ

-- The variables that the first part of the function sets.
pub record Fractions (F : Type 0) : Type 0 where
  pub q5 : Option F
  pub q7 : Option F
  pub q5_known : Bool
  pub q7_known : Bool
  pub legacy_fraction_known : Bool

-- `p != nil`
abbrev pub is_some {ℓ} : {A : Type ℓ} → Option A → Bool
is_some none = false
is_some (some _) = true

-- `if acc.X != nil { v = X }` after another source gave none.
abbrev or_else {ℓ} : {A : Type ℓ} → Option A → Option A → Option A
or_else none o = o
or_else (some a) o = some a

abbrev member {ℓ} : {A : Type ℓ} → Option A → List A
member none = []
member (some a) = a ∷ []

abbrev count_if : Bool → ℕ
count_if true = 1
count_if false = 0

module _ {F : Type 0} ⦃fl : Float64 F⦄ ⦃tx : Text⦄ where
  -- A stored fraction, if there is one that parses.
  abbrev parsed : Option F → Option F
  parsed none = none
  parsed (some f) = parse_quota_fraction (float64 f)

  abbrev percent : Option F → Option F
  percent none = none
  percent (some pct) = parse_quota_fraction (float64 (fl.div pct (fl.ratio 100 1)))

  abbrev window_fraction : Option (QuotaWindow F) → Option F
  window_fraction none = none
  window_fraction (some w) = parsed w.fraction

  abbrev pub has_explicit_windows : Option (QuotaState F) → Bool
  has_explicit_windows none = false
  has_explicit_windows (some lq) = is_some lq.gemini_5h || is_some lq.gemini_weekly

  -- `lq.RemainingFraction`, if `lq` is not nil.
  abbrev remaining_of : Option (QuotaState F) → Option F
  remaining_of none = none
  remaining_of (some lq) = lq.remaining_fraction

  explicit_fractions : QuotaState F → Fractions F
  explicit_fractions lq =
      let q5 = window_fraction lq.gemini_5h in
      let q7 = window_fraction lq.gemini_weekly in
      record {
        q5 = q5;
        q7 = q7;
        q5_known = is_some q5;
        q7_known = is_some q7;
        legacy_fraction_known = false;
      }

  -- Without a legacy fraction the two percentages are taken.
  percent_fractions : Account F → Fractions F
  percent_fractions acc =
      let q5 = percent acc.gemini_5h_pct in
      let q7 = percent acc.gemini_weekly_pct in
      record {
        q5 = q5;
        q7 = q7;
        q5_known = is_some q5;
        q7_known = is_some q7;
        legacy_fraction_known = false;
      }

  legacy_fractions : Account F → Fractions F
  unfolding percent_fractions
  legacy_fractions acc = elim (or_else (parsed (remaining_of acc.last_quota)) (parsed acc.quota)) [
    | some legacy ↦ record {
      q5 = some legacy;
      q7 = some legacy;
      q5_known = false;
      q7_known = false;
      legacy_fraction_known = true;
    }
    | none ↦ percent_fractions acc
  ]

  unfoldable pub fractions : Account F → Fractions F
  unfolding explicit_fractions legacy_fractions
  fractions acc = elim acc.last_quota [
    | some lq ↦
        if has_explicit_windows (some lq) then explicit_fractions lq else legacy_fractions acc
    | none ↦ legacy_fractions acc
  ]

  abbrev reset_of : Option (QuotaWindow F) → AnyValue F
  reset_of none = nil
  reset_of (some w) = w.reset_time

  -- `reset5` and `reset7`.
  resets : Account F → Bool → AnyValue F × AnyValue F
  resets acc legacy = elim acc.last_quota [
    | some lq ↦
        if legacy
        then (lq.reset_time, lq.reset_time)
        else (if has_explicit_windows (some lq)
            then (reset_of lq.gemini_5h, reset_of lq.gemini_weekly)
            else (acc.gemini_5h_reset, acc.gemini_weekly_reset))
    | none ↦ (acc.gemini_5h_reset, acc.gemini_weekly_reset)
  ]

  -- The share of the window that is left, 1.0 once it is over and at most 1.0.
  unfoldable pub ratio_left : F → F → F
  ratio_left rem window_secs =
      if fl.le rem (fl.ratio 0 1)
      then fl.ratio 1 1
      else (let ratio = fl.div rem window_secs in
          if fl.lt (fl.ratio 1 1) ratio then fl.ratio 1 1 else ratio)

  unfoldable pub reset_ratio : Option F → AnyValue F → F → F → F
  unfolding ratio_left
  reset_ratio (some sec) reset window_secs now = ratio_left sec window_secs
  reset_ratio none reset window_secs now = elim (parse_iso_or_timestamp reset) [
    | none ↦ fl.ratio 1 1
    | some ts ↦ ratio_left (fl.sub ts now) window_secs
  ]

  -- The loop for a minimum; it starts with the first value as its own minimum.
  min_loop : F → List F → F
  min_loop m [] = m
  min_loop m (p ∷ ps) = min_loop (if fl.lt p m then p else m) ps

  sum_loop : F → List F → F
  sum_loop s [] = s
  sum_loop s (p ∷ ps) = sum_loop (fl.add s p) ps

  unfoldable pub min_or : F → List F → F
  unfolding min_loop
  min_or d [] = d
  min_or d (p ∷ ps) = min_loop p (p ∷ ps)

  unfoldable pub sum_or : F → List F → F
  unfolding sum_loop
  sum_or d [] = d
  sum_or d (p ∷ ps) = sum_loop (fl.ratio 0 1) (p ∷ ps)

  abbrev pace_of : Option F → F → Option F
  pace_of none r = none
  pace_of (some q) r = some (fl.sub q r)

  -- `time.Unix(int64(now+sec), 0)`, or the reset time, if it parses.
  reset_at : Option F → AnyValue F → F → Option ℤ
  reset_at (some sec) reset now = some (fl.to_int (fl.add now sec))
  reset_at none reset now = elim (parse_iso_or_timestamp reset) [
    | some ep ↦ some (fl.to_int ep)
    | none ↦ none
  ]

  abbrev pub known_fractions : Account F → List F
  known_fractions acc = member (fractions acc).q5 ++ member (fractions acc).q7

  compute : Account F → F → CapacityState F
  unfolding fractions resets reset_ratio min_or sum_or reset_at
  compute acc now =
      let f = fractions acc in
      let reset5 = (resets acc f.legacy_fraction_known).0 in
      let reset7 = (resets acc f.legacy_fraction_known).1 in
      let r5 = reset_ratio acc.gemini_5h_reset_sec reset5 (fl.ratio 18_000 1) now in
      let r7 = reset_ratio acc.gemini_weekly_reset_sec reset7 (fl.ratio 604_800 1) now in
      let pace5 = pace_of f.q5 r5 in
      let pace7 = pace_of f.q7 r7 in
      let known_paces = member pace5 ++ member pace7 in
      let floor = min_or (fl.ratio 0 1) (known_fractions acc) in
      record {
        q5 = f.q5;
        q7 = f.q7;
        r5 = r5;
        r7 = r7;
        pace5 = pace5;
        pace7 = pace7;
        worst_pace = min_or fl.neg_inf known_paces;
        total_pace = sum_or fl.neg_inf known_paces;
        raw_floor = floor;
        q5_known = f.q5_known;
        q7_known = f.q7_known;
        known_window_count =
            if f.legacy_fraction_known then 1 else count_if f.q5_known + count_if f.q7_known;
        legacy_fraction_known = f.legacy_fraction_known;
        is_depleted = (is_some f.q5 || is_some f.q7) && fl.le floor (fl.ratio 5 1000);
        reset5_time = reset_at acc.gemini_5h_reset_sec reset5 now;
        reset7_time = reset_at acc.gemini_weekly_reset_sec reset7 now;
      }

  unfoldable pub compute_capacity_state : Option (Account F) → F → CapacityState F
  unfolding compute
  compute_capacity_state (some acc) now = compute acc now
  compute_capacity_state none now = record {
    q5 = none;
    q7 = none;
    r5 = fl.ratio 0 1;
    r7 = fl.ratio 0 1;
    pace5 = none;
    pace7 = none;
    worst_pace = fl.neg_inf;
    total_pace = fl.neg_inf;
    raw_floor = fl.ratio 0 1;
    q5_known = false;
    q7_known = false;
    known_window_count = 0;
    legacy_fraction_known = false;
    is_depleted = false;
    reset5_time = none;
    reset7_time = none;
  }
