-- ===== src/Quota/Capacity/Laws.antt =====
-- What the capacity state of an account says of its fractions.
use agy_go.Prelude.{
  ◌≡◌, refl, ◌∙◌, ◌↔◌, ◌⊎◌, inl, inr, true, false, ◌&&◌, ◌||◌, ◌++◌, Option, none, some, arith, ◌≤◌,
  Bool-cases, Option-cases,
}
use agy_go.Go.Float.{Float64, IsIeee, not_lt_trans, lt_asym}
use agy_go.Go.Text.{Text}
use agy_go.Storage.{Account, QuotaState, QuotaWindow, AnyValue, float64}
use agy_go.Quota.Parse.{parse_iso_or_timestamp, IsFraction, parse_quota_fraction-IsFraction}
use agy_go.Quota.Capacity.{
  is_some, or_else, member, parsed, percent, window_fraction, remaining_of, explicit_fractions,
  percent_fractions, legacy_fractions, fractions, has_explicit_windows, ratio_left, reset_ratio,
  min_or, compute_capacity_state,
}

module _ {F : Type 0} ⦃fl : Float64 F⦄ where
  -- Each of the two fractions, if known, is a number between 0 and 1.
  pub record AreFractions (q5 q7 : Option F) : Type 0 where
    pub five : (f : F) → q5 ≡ some f → IsFraction f
    pub seven : (f : F) → q7 ≡ some f → IsFraction f

module _ {F : Type 0} ⦃fl : Float64 F⦄ ⦃tx : Text⦄ (ieee : IsIeee F) where
  parsed-IsFraction : (o : Option F) (f : F) → parsed o ≡ some f → IsFraction f
  parsed-IsFraction none f e = cc
  parsed-IsFraction (some v) f e = parse_quota_fraction-IsFraction ieee (float64 v) f e

  percent-IsFraction : (o : Option F) (f : F) → percent o ≡ some f → IsFraction f
  percent-IsFraction none f e = cc
  percent-IsFraction (some v) f e = parse_quota_fraction-IsFraction ieee (float64 _) f e

  or_else-parsed :
      (o o' : Option F) (f : F) → or_else (parsed o) (parsed o') ≡ some f → IsFraction f
  or_else-parsed o o' f e = elim (Option-cases (parsed o)) [
    | inl h ↦ parsed-IsFraction o' f (rw h at e)
    | inr (v, h) ↦ parsed-IsFraction o f (h ∙ (rw h at e))
  ]

  legacy_fractions-AreFractions :
      (acc : Account F) → AreFractions (legacy_fractions acc).q5 (legacy_fractions acc).q7
  unfolding legacy_fractions percent_fractions
  legacy_fractions-AreFractions acc =
      elim (Option-cases (or_else (parsed (remaining_of acc.last_quota)) (parsed acc.quota))) [
        | inl h ↦
            rw (h, legacy_fractions)
              (record {
                five = percent-IsFraction acc.gemini_5h_pct;
                seven = percent-IsFraction acc.gemini_weekly_pct;
              })
        | inr (v, h) ↦
            rw (h, legacy_fractions)
              (record { five = λ f e. known v h f e; seven = λ f e. known v h f e })
      ]
    where
      known :
          (v : F)
          → or_else (parsed (remaining_of acc.last_quota)) (parsed acc.quota) ≡ some v
          → (f : F) → some v ≡ some f
          → IsFraction f
      known v h f e = or_else-parsed (remaining_of acc.last_quota) acc.quota f (h ∙ e)

  window_fraction-IsFraction :
      (w : Option (QuotaWindow F)) (f : F) → window_fraction w ≡ some f → IsFraction f
  window_fraction-IsFraction none f e = cc
  window_fraction-IsFraction (some w) f e = parsed-IsFraction w.fraction f e

  explicit_fractions-AreFractions :
      (lq : QuotaState F) → AreFractions (explicit_fractions lq).q5 (explicit_fractions lq).q7
  unfolding explicit_fractions
  explicit_fractions-AreFractions lq = record {
    five = window_fraction-IsFraction lq.gemini_5h;
    seven = window_fraction-IsFraction lq.gemini_weekly;
  }

  fractions-AreFractions : (acc : Account F) → AreFractions (fractions acc).q5 (fractions acc).q7
  unfolding fractions
  fractions-AreFractions acc = go acc.last_quota refl
    where
      go :
          (o : Option (QuotaState F))
          → acc.last_quota ≡ o
          → AreFractions (fractions acc).q5 (fractions acc).q7
      go none e = rw (e, fractions) (legacy_fractions-AreFractions acc)
      go (some lq) e = elim (Bool-cases (has_explicit_windows (some lq))) [
        | inl h ↦ rw (e, fractions, h) (explicit_fractions-AreFractions lq)
        | inr h ↦ rw (e, fractions, h) (legacy_fractions-AreFractions acc)
      ]

  -- Where float64 obeys IEEE 754, every fraction that a capacity state holds is a number between 0
  -- and 1, whatever is stored.
  pub compute_capacity_state-AreFractions :
      (acc : Option (Account F)) (now : F)
      → AreFractions (compute_capacity_state acc now).q5 (compute_capacity_state acc now).q7
  unfolding compute_capacity_state
  compute_capacity_state-AreFractions none now = record { five = λ f e. cc; seven = λ f e. cc }
  compute_capacity_state-AreFractions (some acc) now = fractions-AreFractions acc

  -- A value below one that is at most the threshold is at most the threshold.
  le_lower :
      (m f thr : F)
      → fl.is_nan m ≡ false
      → fl.is_nan f ≡ false
      → fl.is_nan thr ≡ false
      → fl.lt f m ≡ false
      → fl.le f thr ≡ true
      → fl.le m thr ≡ true
  le_lower m f thr hm hf ht h k =
      ground
        (arith, ieee.le_lem f thr hf ht, ieee.le_lem m thr hm ht, not_lt_trans ieee thr f m ht hf)

  -- Of two known fractions the smaller is at or below a threshold if one of them is.
  min_or_threshold :
      (q5 q7 : Option F) (thr : F)
      → fl.is_nan thr ≡ false
      → AreFractions q5 q7
      → ((is_some q5 || is_some q7) && fl.le (min_or (fl.ratio 0 1) (member q5 ++ member q7)) thr
          ≡ true)
        ↔ ((f : F) × ((q5 ≡ some f) ⊎ (q7 ≡ some f)) × (fl.le f thr ≡ true))
  unfolding min_or
  min_or_threshold none none thr ht a = (λ h. cc, λ (f, h, l). elim h [ inl e ↦ cc | inr e ↦ cc ])
  min_or_threshold (some x) none thr ht a =
      (λ h. (x, inl refl, ground arith), λ (f, h, l). elim h [ inl e ↦ ground arith | inr e ↦ cc ])
  min_or_threshold none (some y) thr ht a =
      (λ h. (y, inr refl, ground arith), λ (f, h, l). elim h [ inl e ↦ cc | inr e ↦ ground arith ])
  min_or_threshold (some x) (some y) thr ht a = (
    λ h. elim (Bool-cases (fl.lt y x)) [
      | inl e ↦ (y, inr refl, ground arith)
      | inr e ↦ (x, inl refl, ground arith)
    ],
    λ (f, h, l). elim h [
      | inl e ↦
          ground
            (arith, le_lower y x thr (a.seven y refl).num (a.five x refl).num ht, lt_asym ieee y x)
      | inr e ↦ ground (arith, le_lower x y thr (a.five x refl).num (a.seven y refl).num ht)
    ],
  )

  -- Where float64 obeys IEEE 754, an account is depleted exactly if one of its known fractions is at
  -- most 0.5 %.
  pub is_depleted_iff :
      (acc : Account F) (now : F)
      → let state = compute_capacity_state (some acc) now in
        (state.is_depleted ≡ true) ↔ (
          (f : F) × ((state.q5 ≡ some f) ⊎ (state.q7 ≡ some f))
          × (fl.le f (fl.ratio 5 1000) ≡ true))
  unfolding compute_capacity_state
  is_depleted_iff acc now =
      min_or_threshold (fractions acc).q5 (fractions acc).q7 (fl.ratio 5 1000)
        (ieee.ratio_num 5 1000) (fractions-AreFractions acc)

  ratio_left_bound : (rem window : F) → fl.lt (fl.ratio 1 1) (ratio_left rem window) ≡ false
  unfolding ratio_left
  ratio_left_bound rem window = ground (arith, ieee.lt_irrefl (fl.ratio 1 1))

  reset_ratio_bound :
      (sec : Option F) (reset : AnyValue F) (window now : F)
      → fl.lt (fl.ratio 1 1) (reset_ratio sec reset window now) ≡ false
  unfolding reset_ratio
  reset_ratio_bound none reset window now = go (parse_iso_or_timestamp reset) refl
    where
      go :
          (o : Option F)
          → parse_iso_or_timestamp reset ≡ o
          → fl.lt (fl.ratio 1 1) (reset_ratio none reset window now) ≡ false
      go none e = rw (e, reset_ratio) (ieee.lt_irrefl (fl.ratio 1 1))
      go (some ts) e = rw (e, reset_ratio) (ratio_left_bound (fl.sub ts now) window)
  reset_ratio_bound (some sec) reset window now = ratio_left_bound sec window

  -- Where float64 obeys IEEE 754, no reset ratio is above 1; and at most two windows are counted.
  pub compute_capacity_state_bounds :
      (acc : Account F) (now : F)
      → let state = compute_capacity_state (some acc) now in
        (fl.lt (fl.ratio 1 1) state.r5 ≡ false)
        × (fl.lt (fl.ratio 1 1) state.r7 ≡ false)
        × (state.known_window_count ≤ 2)
  unfolding compute_capacity_state
  compute_capacity_state_bounds acc now =
      (reset_ratio_bound _ _ _ now, reset_ratio_bound _ _ _ now, ground arith)

  min_or_num :
      (q5 q7 : Option F)
      → AreFractions q5 q7
      → fl.is_nan (min_or (fl.ratio 0 1) (member q5 ++ member q7)) ≡ false
  unfolding min_or
  min_or_num none none a = ieee.ratio_num 0 1
  min_or_num (some x) none a = ground (arith, (a.five x refl).num)
  min_or_num none (some y) a = ground (arith, (a.seven y refl).num)
  min_or_num (some x) (some y) a = ground (arith, (a.five x refl).num, (a.seven y refl).num)

  pub raw_floor_num :
      (acc : Account F) (now : F)
      → fl.is_nan (compute_capacity_state (some acc) now).raw_floor ≡ false
  unfolding compute_capacity_state
  raw_floor_num acc now = min_or_num _ _ (fractions-AreFractions acc)

module _ {F : Type 0} ⦃fl : Float64 F⦄ ⦃tx : Text⦄ where
  -- Where an account has an explicit window, its fractions stay the same whatever the legacy figures
  -- are.
  explicit_windows_shadow :
      (acc : Account F) (lq : QuotaState F) (remaining quota pct5 pct7 : Option F)
      → acc.last_quota ≡ some lq
      → has_explicit_windows (some lq) ≡ true
      → fractions (record acc {
        last_quota = some (record lq { remaining_fraction = remaining });
        quota = quota;
        gemini_5h_pct = pct5;
        gemini_weekly_pct = pct7;
      })
        ≡ fractions acc
  unfolding fractions explicit_fractions
  explicit_windows_shadow acc lq remaining quota pct5 pct7 e h = rw (e, fractions, h) refl
