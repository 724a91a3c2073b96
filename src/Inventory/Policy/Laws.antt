-- ===== src/Inventory/Policy/Laws.antt =====
-- When a source may be given up, and that a refusal has a reason.
use agy_go.Prelude.{
  ◌≡◌, ◌↔◌, refl, true, false, List, [], ◌∷◌, Option, none, some, str_eq, arith, Bool-cases, inl,
  inr,
}
use agy_go.Prelude.Int.{ℤ, pos, ltb_ℤ, eqb_ℤ, ◌+ℤ◌}
use agy_go.Go.Text.{Text}
use agy_go.Inventory.Policy.{
  valid_time, valid_id, Activity, ActivityState, known, unknown, ambiguous, verified,
  verified_snapshot, Blocker, DecisionInput, add, holds_blocker, is_empty, now_blocker,
  activity_blocker, retention_part, source_part, ingest_part, evaluate,
}

-- Authoritative inactivity: the last activity is known, and lies in the past.
pub record IsInactive (a : Activity) (now t : ℤ) : Type 0 where
  pub known_state : a.state ≡ known
  pub last : a.last ≡ some t
  pub valid : valid_time t ≡ true
  pub past : ltb_ℤ now t ≡ false

-- The retention interval has passed since the activity at `t`.
pub record IsDue (retention : Option ℤ) (now t d : ℤ) : Type 0 where
  pub set : retention ≡ some d
  pub positive : ltb_ℤ (pos 0) d ≡ true
  pub deadline_valid : valid_time (t +ℤ d) ≡ true
  pub reached : ltb_ℤ now (t +ℤ d) ≡ false

IsInactive-of_none :
    (a : Activity) (now : ℤ) (s : ActivityState) (l : Option ℤ)
    → a.state ≡ s
    → a.last ≡ l
    → activity_blocker a now ≡ none
    → (t : ℤ) × IsInactive a now t
unfolding activity_blocker
IsInactive-of_none a now known none e l h = absurd (cc (rw (e, l, activity_blocker) at h))
IsInactive-of_none a now known (some t) e l h = (t, ground (arith, e, l))
IsInactive-of_none a now unknown l e k h = absurd (cc (rw (e, activity_blocker) at h))
IsInactive-of_none a now ambiguous l e k h = absurd (cc (rw (e, activity_blocker) at h))

none_of_inactive : (a : Activity) (now t : ℤ) → IsInactive a now t → activity_blocker a now ≡ none
unfolding activity_blocker
none_of_inactive a now t w = ground (arith, w.known_state, w.last)

-- With a known activity, nothing stands against the retention exactly if it is due.
IsDue-of_none :
    (r : Option ℤ) (a : Activity) (now t : ℤ)
    → IsInactive a now t
    → (retention_part r a now).1 ≡ none
    → (d : ℤ) × IsDue r now t d
unfolding retention_part
IsDue-of_none none a now t w h = absurd (cc h)
IsDue-of_none (some d) a now t w h = (d, ground (arith, w.known_state, w.last, w.valid))

none_of_due :
    (r : Option ℤ) (a : Activity) (now t d : ℤ)
    → IsInactive a now t
    → IsDue r now t d
    → (retention_part r a now).1 ≡ none
unfolding retention_part
none_of_due r a now t d w u = ground (arith, w.known_state, w.last, w.valid, u.set)

module _ ⦃tx : Text⦄ where
  -- The bytes of the source are verified.
  pub record IsSource (i : DecisionInput) : Type 0 where
    pub snapshot : i.verification ≡ verified_snapshot
    pub identified : valid_id i.source_id ≡ true
    pub sized : ltb_ℤ i.size (pos 0) ≡ false

  -- The ingest of this very source is verified up to the activity at `t`.
  pub record IsIngested (i : DecisionInput) (t c : ℤ) : Type 0 where
    pub assessed : i.ingest.state ≡ verified
    pub same_source : str_eq i.ingest.source_id i.source_id ≡ true
    pub identified : valid_id i.ingest.source_id ≡ true
    pub checked : valid_time i.ingest.checkpoint ≡ true
    pub past : ltb_ℤ i.now i.ingest.checkpoint ≡ false
    pub covers : ltb_ℤ i.ingest.checkpoint t ≡ false
    pub covered : i.ingest.activity_covered ≡ some c
    pub same_activity : eqb_ℤ c t ≡ true

  source_part_iff : (i : DecisionInput) → ((source_part i).0 ≡ true) ↔ IsSource i
  unfolding source_part
  source_part_iff i = (λ h. ground arith, λ s. ground arith)

  source_none : (i : DecisionInput) → (source_part i).0 ≡ true → (source_part i).1 ≡ none
  unfolding source_part
  source_none i h = ground arith

  IsIngested-of_true :
      (i : DecisionInput) (t : ℤ) (c : Option ℤ)
      → i.activity.last ≡ some t
      → i.ingest.activity_covered ≡ c
      → (ingest_part i).0 ≡ true
      → (c' : ℤ) × IsIngested i t c'
  unfolding ingest_part
  IsIngested-of_true i t none l e h = absurd (ground (arith, l, e))
  IsIngested-of_true i t (some c) l e h = (c, ground (arith, l, e))

  true_of_ingested :
      (i : DecisionInput) (t c : ℤ)
      → i.activity.last ≡ some t
      → IsIngested i t c
      → ingest_part i ≡ (true, none)
  unfolding ingest_part
  true_of_ingested i t c l w = ground (arith, l, w.assessed, w.covered)

  verified_of_source_none :
      (i : DecisionInput) → (source_part i).1 ≡ none → (source_part i).0 ≡ true
  unfolding source_part
  verified_of_source_none i h = ground arith

  verified_of_ingest_none :
      (i : DecisionInput) → (ingest_part i).1 ≡ none → (ingest_part i).0 ≡ true
  unfolding ingest_part
  verified_of_ingest_none i h = ground arith

none_of_empty :
    (o : Option Blocker) (bs : List Blocker)
    → is_empty (add o bs) ≡ true
    → (o ≡ none) × (is_empty bs ≡ true)
unfolding add
none_of_empty none bs h = (refl, h)
none_of_empty (some b) [] h = absurd (cc h)
none_of_empty (some b) (v ∷ bs) h = absurd (elim (Bool-cases (holds_blocker b (v ∷ bs))) [
  | inl e ↦ cc (rw (e, add) at h)
  | inr e ↦ cc (rw (e, add) at h)
])

now_blocker_iff : (now : ℤ) → (now_blocker now ≡ none) ↔ (valid_time now ≡ true)
unfolding now_blocker
now_blocker_iff now = (λ h. ground arith, λ h. ground arith)

module _ ⦃tx : Text⦄ where
  -- What must hold before a source may be given up: with `t` the last activity, `c` the activity that
  -- the ingest covers, and `d` the retention interval.
  pub record IsReclaimable (i : DecisionInput) (t c d : ℤ) : Type 0 where
    pub evaluated : valid_time i.now ≡ true
    pub source : IsSource i
    pub inactive : IsInactive i.activity i.now t
    pub ingested : IsIngested i t c
    pub due : IsDue i.retention i.now t d

  -- Nothing was found by any part.
  record IsClear (i : DecisionInput) : Type 0 where
    now : now_blocker i.now ≡ none
    source : (source_part i).1 ≡ none
    activity : activity_blocker i.activity i.now ≡ none
    ingest : (ingest_part i).1 ≡ none
    retention : (retention_part i.retention i.activity i.now).1 ≡ none

  IsClear-of_empty : (i : DecisionInput) → is_empty (evaluate i).blockers ≡ true → IsClear i
  unfolding evaluate
  IsClear-of_empty i h =
      let (r, h₁) = none_of_empty (retention_part i.retention i.activity i.now).1 _ h in
      let (g, h₂) = none_of_empty (ingest_part i).1 _ h₁ in
      let (a, h₃) = none_of_empty (activity_blocker i.activity i.now) _ h₂ in
      let (s, h₄) = none_of_empty (source_part i).1 _ h₃ in
      let (n, h₅) = none_of_empty (now_blocker i.now) [] h₄ in
      record { now = n; source = s; activity = a; ingest = g; retention = r }

  eligible_of_reclaimable :
      (i : DecisionInput) (t c d : ℤ) → IsReclaimable i t c d → (evaluate i).eligible ≡ true
  unfolding evaluate
  eligible_of_reclaimable i t c d w =
      let s = (source_part_iff i).1 w.source in
      rw
        (
          (now_blocker_iff i.now).1 w.evaluated,
          s,
          source_none i s,
          none_of_inactive i.activity i.now t w.inactive,
          true_of_ingested i t c w.inactive.last w.ingested,
          none_of_due i.retention i.activity i.now t d w.inactive w.due,
        )
        refl

  -- A source is eligible exactly if no blocker is named.
  evaluate_eligible : (i : DecisionInput) → (evaluate i).eligible ≡ is_empty (evaluate i).blockers
  unfolding evaluate
  evaluate_eligible i = elim (Bool-cases (is_empty (evaluate i).blockers)) [
    | inl e ↦
        let clear = IsClear-of_empty i e in
        rw (e, verified_of_source_none i clear.source, verified_of_ingest_none i clear.ingest) refl
    | inr e ↦ rw e refl
  ]

  -- A source is eligible exactly if the evaluation has a valid time, its bytes are verified, its last
  -- activity is known and past, its ingest is verified up to that activity, and the retention interval
  -- has passed since then.
  pub evaluate_eligible_iff :
      (i : DecisionInput)
      → ((evaluate i).eligible ≡ true) ↔ ((t : ℤ) × (c : ℤ) × (d : ℤ) × IsReclaimable i t c d)
  evaluate_eligible_iff i = (reclaimable, λ (t, c, d, w). eligible_of_reclaimable i t c d w)
    where
      reclaimable :
          (evaluate i).eligible ≡ true → (t : ℤ) × (c : ℤ) × (d : ℤ) × IsReclaimable i t c d
      reclaimable h =
          let clear = IsClear-of_empty i (rw (evaluate_eligible i) at h) in
          let (t, w) = IsInactive-of_none i.activity i.now _ _ refl refl clear.activity in
          let (c, g) =
            IsIngested-of_true i t _ w.last refl (verified_of_ingest_none i clear.ingest) in
          let (d, u) = IsDue-of_none i.retention i.activity i.now t w clear.retention in
          (
            t,
            c,
            d,
            record {
              evaluated = (now_blocker_iff i.now).0 clear.now;
              source = (source_part_iff i).0 (verified_of_source_none i clear.source);
              inactive = w;
              ingested = g;
              due = u;
            },
          )
