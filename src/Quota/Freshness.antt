-- ===== src/Quota/Freshness.antt =====
-- internal/quota/quota.go: how fresh the quota snapshot of an account is.
pub mod Laws
use agy_go.Prelude.{Bool, true, false, ◌||◌, Option, none, some, if◌then◌else◌, ℕ}
use agy_go.Prelude.Int.{ℤ, pos, ltb_ℤ}
use agy_go.Go.Float.{Float64}
use agy_go.Go.Text.{Text}
use agy_go.Storage.{Account, QuotaState, QuotaWindow}
use agy_go.Quota.Parse.{parse_iso_or_timestamp}

-- The classes, which the source writes "fresh", "aging", "stale" and "unknown".
pub data Class : Type 0 where
  fresh aging stale unknown : Class

pub record FreshnessInfo (F : Type 0) : Type 0 where
  pub class : Class
  pub rank : ℕ
  pub age : Option F

abbrev rank_of : Class → ℕ
rank_of Class.fresh = 2
rank_of Class.aging = 2
rank_of Class.stale = 1
rank_of Class.unknown = 0

abbrev is_fresh : Class → Bool
is_fresh Class.fresh = true
is_fresh _ = false

module _ {F : Type 0} ⦃fl : Float64 F⦄ ⦃tx : Text⦄ where
  -- `checkWindow`: the window has a reset time, and that has passed. (A nil time parses to nil.)
  unfoldable pub window_reset_passed : Option (QuotaWindow F) → F → Bool
  window_reset_passed none now = false
  window_reset_passed (some w) now = elim (parse_iso_or_timestamp w.reset_time) [
    | some ts ↦ fl.le ts now
    | none ↦ false
  ]

  -- `age := now - updated`, and 0 if that is negative.
  unfoldable pub quota_age : ℤ → F → F
  quota_age updated now =
      let age = fl.sub now (fl.of_int updated) in
      if fl.lt age (fl.ratio 0 1) then fl.ratio 0 1 else age

  classify : QuotaState F → ℤ → F → FreshnessInfo F
  unfolding window_reset_passed quota_age
  classify lq updated now =
      let age = quota_age updated now in
      let reset_passed =
        window_reset_passed lq.gemini_5h now || window_reset_passed lq.gemini_weekly now in
      if reset_passed || fl.lt (fl.ratio 300 1) age
      then record { class = Class.stale; rank = 1; age = some age }
      else (if fl.lt (fl.ratio 60 1) age
          then record { class = Class.aging; rank = 2; age = some age }
          else record { class = Class.fresh; rank = 3; age = some age })

  abbrev unknown_info : FreshnessInfo F
  unknown_info = record { class = Class.unknown; rank = 0; age = none }

  classify_snapshot : Option (QuotaState F) → F → FreshnessInfo F
  unfolding classify
  classify_snapshot none now = unknown_info
  classify_snapshot (some lq) now = elim lq.updated_at [
    | none ↦ unknown_info
    | some updated ↦ if ltb_ℤ (pos 0) updated then classify lq updated now else unknown_info
  ]

  unfoldable pub freshness : Option (Account F) → F → FreshnessInfo F
  unfolding classify_snapshot
  freshness none now = unknown_info
  freshness (some acc) now = classify_snapshot acc.last_quota now

  unfoldable pub freshness_rank : Option (Account F) → F → ℕ
  unfolding freshness
  freshness_rank acc now = rank_of (freshness acc now).class

  unfoldable pub refresh_needed : Option (Account F) → F → Bool
  unfolding freshness
  refresh_needed acc now = if is_fresh (freshness acc now).class then false else true
