-- ===== src/Quota/Refresh/Snapshot.antt =====
-- The legacy fraction and the date of a stored snapshot: `recomputeCompatQuota`.
use agy_go.Prelude.{
  ◌≡◌, ◌⊎◌, refl, false, Option, none, some, arith, Bool-cases, Option-cases, inl, inr,
}
use agy_go.Prelude.Int.{ℤ}
use agy_go.Go.Float.{Float64, IsIeee, lt_asym}
use agy_go.Storage.{QuotaState, QuotaWindow, AnyValue, nil}
use agy_go.Quota.Refresh.{known_window, least, recompute_compat_quota}

module _ {F : Type 0} ⦃fl : Float64 F⦄ where
  -- One of the two Gemini windows has the fraction and the reset time.
  abbrev pub IsKnown : QuotaState F → F → AnyValue F → Type 0
  IsKnown q f r =
      (w : QuotaWindow F) × ((q.gemini_5h ≡ some w) ⊎ (q.gemini_weekly ≡ some w))
      × (w.fraction ≡ some f)
      × (w.reset_time ≡ r)

  -- The legacy fraction is the least of the known ones with its reset time; without a known one
  -- both are missing.
  abbrev pub HasLeast : QuotaState F → QuotaState F → Type 0
  HasLeast q lq =
      ((lq.remaining_fraction ≡ none)
        × (lq.reset_time ≡ nil)
        × ¬ ((f : F) × (r : AnyValue F) × IsKnown q f r))
      ⊎ ((f : F) × (lq.remaining_fraction ≡ some f)
          × IsKnown q f lq.reset_time
          × ((g : F) (r : AnyValue F) → IsKnown q g r → fl.lt g f ≡ false))

  -- The snapshot that is stored for the windows of a probe.
  pub record IsSnapshot (q : QuotaState F) (now : ℤ) (lq : QuotaState F) : Type 0 where
    pub gemini_5h : lq.gemini_5h ≡ q.gemini_5h
    pub gemini_weekly : lq.gemini_weekly ≡ q.gemini_weekly
    pub third_party_5h : lq.third_party_5h ≡ q.third_party_5h
    pub third_party_weekly : lq.third_party_weekly ≡ q.third_party_weekly
    pub dated : lq.updated_at ≡ some now
    pub least : HasLeast q lq

  window_of_known :
      (o : Option (QuotaWindow F)) (p : F × AnyValue F)
      → known_window o ≡ some p
      → (w : QuotaWindow F) × (o ≡ some w) × (w.fraction ≡ some p.0) × (w.reset_time ≡ p.1)
  window_of_known none p h = absurd (cc h)
  window_of_known (some w) p h = elim (Option-cases w.fraction) [
    | inl e ↦ absurd (ground (arith, e))
    | inr (f, e) ↦ (w, refl, ground (arith, e), ground (arith, e))
  ]

  known_of_window :
      (o : Option (QuotaWindow F)) (w : QuotaWindow F) (f : F) (r : AnyValue F)
      → o ≡ some w
      → w.fraction ≡ some f
      → w.reset_time ≡ r
      → known_window o ≡ some (f, r)
  known_of_window o w f r e d t = rw e (ground arith)

  module _ (ieee : IsIeee F) where
    least_cases :
        (a b : Option (F × AnyValue F))
        → ((least a b ≡ none) × (a ≡ none) × (b ≡ none))
          ⊎ ((p : F × AnyValue F) × (least a b ≡ some p)
              × ((a ≡ some p) ⊎ (b ≡ some p))
              × ((x : F × AnyValue F) → (a ≡ some x) ⊎ (b ≡ some x) → fl.lt x.0 p.0 ≡ false))
    least_cases none none = inl (refl, refl, refl)
    least_cases none (some w) = inr (w, refl, inr refl, λ x h. ground (arith, ieee.lt_irrefl w.0))
    least_cases (some v) none = inr (v, refl, inl refl, λ x h. ground (arith, ieee.lt_irrefl v.0))
    least_cases (some v) (some w) = elim (Bool-cases (fl.lt w.0 v.0)) [
      | inl e ↦ inr (
        w,
        rw e refl,
        inr refl,
        λ x h. ground (arith, ieee.lt_irrefl w.0, lt_asym ieee w.0 v.0 e),
      )
      | inr e ↦ inr (v, rw e refl, inl refl, λ x h. ground (arith, ieee.lt_irrefl v.0))
    ]

    recompute_compat_quota-HasLeast : (q : QuotaState F) → HasLeast q (recompute_compat_quota q)
    unfolding recompute_compat_quota
    recompute_compat_quota-HasLeast q =
        decide (least_cases (known_window q.gemini_5h) (known_window q.gemini_weekly))
      where
        known :
            (p : F × AnyValue F)
            → (known_window q.gemini_5h ≡ some p) ⊎ (known_window q.gemini_weekly ≡ some p)
            → IsKnown q p.0 p.1
        known p (inl e) = let (w, is, f, r) = window_of_known q.gemini_5h p e in (w, inl is, f, r)
        known p (inr e) =
            let (w, is, f, r) = window_of_known q.gemini_weekly p e in (w, inr is, f, r)

        found :
            (f : F) (r : AnyValue F)
            → IsKnown q f r
            → (known_window q.gemini_5h ≡ some (f, r))
              ⊎ (known_window q.gemini_weekly ≡ some (f, r))
        found f r (w, inl is, e, t) = inl (known_of_window q.gemini_5h w f r is e t)
        found f r (w, inr is, e, t) = inr (known_of_window q.gemini_weekly w f r is e t)

        none_known :
            known_window q.gemini_5h ≡ none
            → known_window q.gemini_weekly ≡ none
            → (f : F) (r : AnyValue F)
            → (known_window q.gemini_5h ≡ some (f, r))
              ⊎ (known_window q.gemini_weekly ≡ some (f, r))
            → ⊥
        none_known a b f r (inl e) = cc
        none_known a b f r (inr e) = cc

        decide :
            ((least (known_window q.gemini_5h) (known_window q.gemini_weekly) ≡ none)
                × (known_window q.gemini_5h ≡ none)
                × (known_window q.gemini_weekly ≡ none))
              ⊎ ((p : F × AnyValue F) × (least
                      (known_window q.gemini_5h)
                      (known_window q.gemini_weekly)
                    ≡ some p)
                  × ((known_window q.gemini_5h ≡ some p) ⊎ (known_window q.gemini_weekly ≡ some p))
                  × ((x : F × AnyValue F)
                      → (known_window q.gemini_5h ≡ some x)
                        ⊎ (known_window q.gemini_weekly ≡ some x)
                      → fl.lt x.0 p.0 ≡ false))
            → HasLeast q (recompute_compat_quota q)
        decide (inl (e, a, b)) =
            rw (recompute_compat_quota, e)
              (inl (refl, refl, λ (f, r, k). none_known a b f r (found f r k)))
        decide (inr (p, e, one, below)) =
            rw (recompute_compat_quota, e)
              (inr (p.0, refl, known p one, λ g r k. below (g, r) (found g r k)))

    pub recompute_compat_quota-IsSnapshot :
        (q : QuotaState F) (now : ℤ)
        → IsSnapshot q now (record (recompute_compat_quota q) { updated_at = some now })
    recompute_compat_quota-IsSnapshot q now = record {
      gemini_5h = kept.0;
      gemini_weekly = kept.1;
      third_party_5h = kept.2;
      third_party_weekly = kept.3;
      dated = refl;
      least = recompute_compat_quota-HasLeast q;
    }
      where
        kept :
            ((recompute_compat_quota q).gemini_5h ≡ q.gemini_5h)
            × ((recompute_compat_quota q).gemini_weekly ≡ q.gemini_weekly)
            × ((recompute_compat_quota q).third_party_5h ≡ q.third_party_5h)
            × ((recompute_compat_quota q).third_party_weekly ≡ q.third_party_weekly)
        kept = unfold recompute_compat_quota in ground arith
