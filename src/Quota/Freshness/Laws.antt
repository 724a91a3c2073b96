-- ===== src/Quota/Freshness/Laws.antt =====
-- What a fresh snapshot is: `RefreshNeeded` against the dates and the resets that a snapshot holds.
use agy_go.Prelude.{◌≡◌, refl, ◌↔◌, true, false, Option, none, some, arith, Option-cases, inl, inr}
use agy_go.Prelude.Int.{ℤ, pos, ltb_ℤ, ◌<ℤ◌}
use agy_go.Go.Float.{Float64, IsIeee, not_lt_trans}
use agy_go.Go.Text.{Text}
use agy_go.Storage.{Account, QuotaState, QuotaWindow}
use agy_go.Quota.Parse.{parse_iso_or_timestamp}
use agy_go.Quota.Freshness.{
  is_fresh, window_reset_passed, quota_age, classify, classify_snapshot, refresh_needed,
}

module _ {F : Type 0} ⦃fl : Float64 F⦄ ⦃tx : Text⦄ where
  -- If there is the window, and it has a reset time that can be read, that is still to come.
  pub record IsPending (o : Option (QuotaWindow F)) (now : F) : Type 0 where
    pub future :
        (w : QuotaWindow F) (ts : F)
        → o ≡ some w
        → parse_iso_or_timestamp w.reset_time ≡ some ts
        → fl.le ts now ≡ false

  pending_of_window :
      (w : QuotaWindow F) (now : F)
      → window_reset_passed (some w) now ≡ false
      → (ts : F) → parse_iso_or_timestamp w.reset_time ≡ some ts
      → fl.le ts now ≡ false
  unfolding window_reset_passed
  pending_of_window w now h ts e = ground arith

  IsPending-of_not_passed :
      (o : Option (QuotaWindow F)) (now : F) → window_reset_passed o now ≡ false → IsPending o now
  IsPending-of_not_passed none now h = record { future = λ w ts e p. absurd (cc e) }
  IsPending-of_not_passed (some v) now h = record {
    future = λ w ts e p. pending_of_window v now h ts (ground (arith, e, p));
  }

  not_passed_of_pending :
      (o : Option (QuotaWindow F)) (now : F) → IsPending o now → window_reset_passed o now ≡ false
  unfolding window_reset_passed
  not_passed_of_pending none now h = refl
  not_passed_of_pending (some w) now h = elim (Option-cases (parse_iso_or_timestamp w.reset_time)) [
    | inl e ↦ rw (e, window_reset_passed) refl
    | inr (ts, e) ↦ rw (e, window_reset_passed) (h.future w ts refl e)
  ]

  -- A snapshot that is dated, no more than 60 s ago, and since whose date neither of the two Gemini
  -- windows has been reset.
  pub record IsFreshSnapshot (lq : QuotaState F) (updated : ℤ) (now : F) : Type 0 where
    pub dated : lq.updated_at ≡ some updated
    pub positive : pos 0 <ℤ updated
    pub pending_5h : IsPending lq.gemini_5h now
    pub pending_weekly : IsPending lq.gemini_weekly now
    pub recent : fl.lt (fl.ratio 60 1) (fl.sub now (fl.of_int updated)) ≡ false

  module _ (ieee : IsIeee F) where
    -- The age is taken as 0 where it is negative, which is at most 60 s either way.
    recent_of_age :
        (updated : ℤ) (now : F)
        → fl.lt (fl.ratio 60 1) (quota_age updated now) ≡ false
        → fl.lt (fl.ratio 60 1) (fl.sub now (fl.of_int updated)) ≡ false
    unfolding quota_age
    recent_of_age updated now h =
        let age = fl.sub now (fl.of_int updated) in
        ground (
          arith,
          ieee.lt_trans (fl.ratio 60 1) age (fl.ratio 0 1),
          ieee.ratio_mono 0 60 1 (omega arith),
        )

    age_of_recent :
        (updated : ℤ) (now : F)
        → fl.lt (fl.ratio 60 1) (fl.sub now (fl.of_int updated)) ≡ false
        → fl.lt (fl.ratio 60 1) (quota_age updated now) ≡ false
    unfolding quota_age
    age_of_recent updated now h = ground (arith, ieee.ratio_mono 0 60 1 (omega arith))

    -- What is not older than 60 s is not older than 300 s.
    not_stale_of_recent :
        (age : F) → fl.lt (fl.ratio 60 1) age ≡ false → fl.lt (fl.ratio 300 1) age ≡ false
    not_stale_of_recent age h =
        not_lt_trans ieee (fl.ratio 300 1) (fl.ratio 60 1) age (ieee.ratio_num 300 1)
          (ieee.ratio_num 60 1) (ieee.ratio_mono 60 300 1 (omega arith)) h

    fresh_of_classify :
        (lq : QuotaState F) (updated : ℤ) (now : F)
        → lq.updated_at ≡ some updated
        → ltb_ℤ (pos 0) updated ≡ true
        → is_fresh (classify lq updated now).class ≡ true
        → IsFreshSnapshot lq updated now
    unfolding classify
    fresh_of_classify lq updated now h₁ h₂ h = record {
      dated = h₁;
      positive = ground arith;
      pending_5h = IsPending-of_not_passed lq.gemini_5h now (ground arith);
      pending_weekly = IsPending-of_not_passed lq.gemini_weekly now (ground arith);
      recent = recent_of_age updated now (ground arith);
    }

    fresh_of_snapshot :
        (lq : QuotaState F) (now : F) (o : Option ℤ)
        → lq.updated_at ≡ o
        → is_fresh (classify_snapshot (some lq) now).class ≡ true
        → (updated : ℤ) × IsFreshSnapshot lq updated now
    unfolding classify_snapshot
    fresh_of_snapshot lq now none e h = ground arith
    fresh_of_snapshot lq now (some updated) e h =
        (updated, fresh_of_classify lq updated now e (ground arith) (ground arith))

    fresh_of_account :
        (acc : Account F) (now : F) (o : Option (QuotaState F))
        → acc.last_quota ≡ o
        → is_fresh (classify_snapshot o now).class ≡ true
        → (lq : QuotaState F) × (updated : ℤ) × (acc.last_quota ≡ some lq)
          × IsFreshSnapshot lq updated now
    unfolding classify_snapshot
    fresh_of_account acc now none e h = cc
    fresh_of_account acc now (some lq) e h =
        let (updated, fresh) = fresh_of_snapshot lq now lq.updated_at refl h in
        (lq, updated, e, fresh)

    -- No refresh is wanted exactly if the account has a snapshot which is dated, no more than 60 s ago,
    -- and each of whose two Gemini windows, if it is there with a reset time that can be read, is
    -- still to be reset. This is so whatever the third-party windows of the snapshot are.
    pub refresh_needed_iff :
        (acc : Account F) (now : F)
        → (refresh_needed (some acc) now ≡ false) ↔ (
            (lq : QuotaState F) × (updated : ℤ) × (acc.last_quota ≡ some lq)
            × IsFreshSnapshot lq updated now)
    unfolding refresh_needed classify
    refresh_needed_iff acc now = (
      λ h. fresh_of_account acc now acc.last_quota refl (ground arith),
      λ (lq, updated, snapshot, f). ground (
        arith,
        snapshot,
        f.dated,
        f.positive,
        not_passed_of_pending lq.gemini_5h now f.pending_5h,
        not_passed_of_pending lq.gemini_weekly now f.pending_weekly,
        age_of_recent updated now f.recent,
        not_stale_of_recent (quota_age updated now),
      ),
    )
