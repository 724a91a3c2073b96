-- ===== src/Quota/Refresh/Laws.antt =====
-- One refresh at a time for each account.
use agy_go.Prelude.{
  ◌≡◌, refl, ap, sym, ◌∙◌, subst, false, ◌||◌, String, List, [], ◌∷◌, ◌++◌, str_eq, eq_iff, arith,
  Bool-cases, inl, inr,
}
use agy_go.Go.Float.{Float64}
use agy_go.Storage.{Account}
use agy_go.Accounts.Ids.{holds, AreDistinct}
use agy_go.Accounts.Invariant.{differ_sym}
use agy_go.Quota.Refresh.{
  Worker, querying, recorded, RefreshState, key_of, is_waiting, schedule_quota_refresh,
  record_outcome, release, reset_refresh_state, Step, schedules, records, releases, Reach, here,
  next,
}

abbrev key_of_worker : Worker → String
key_of_worker (querying k) = k
key_of_worker (recorded k) = k

abbrev pub keys : List Worker → List String
keys [] = []
keys (w ∷ ws) = key_of_worker w ∷ keys ws

-- No two workers have the same key, and the keys in flight are those of the workers.
pub record IsExclusive {F : Type 0} (st : RefreshState F) : Type 0 where
  pub distinct : AreDistinct (keys st.workers)
  pub flying : (k : String) → st.in_flight k ≡ holds k (keys st.workers)

-- The keys do not change when a worker records.
keys_recorded :
    (front back : List Worker) (key : String)
    → keys (front ++ (recorded key ∷ back)) ≡ keys (front ++ (querying key ∷ back))
keys_recorded [] back key = refl
keys_recorded (w ∷ front) back key = ap (◌∷◌ (key_of_worker w)) (keys_recorded front back key)

-- Without the worker in the middle.
holds_without :
    (j : String) (front back : List Worker) (key : String)
    → holds j (keys (front ++ (recorded key ∷ back)))
      ≡ (str_eq key j || holds j (keys (front ++ back)))
holds_without j [] back key = refl
holds_without j (w ∷ front) back key = rw (holds_without j front back key) (ground arith)

AreDistinct-without :
    (front back : List Worker) (key : String)
    → AreDistinct (keys (front ++ (recorded key ∷ back)))
    → AreDistinct (keys (front ++ back)) × (holds key (keys (front ++ back)) ≡ false)
AreDistinct-without [] back key d = (d.1, d.0)
AreDistinct-without (w ∷ front) back key d =
    let (others, fresh) = AreDistinct-without front back key d.1 in
    let apart : (str_eq key (key_of_worker w) || holds (key_of_worker w) (keys (front ++ back)))
        ≡ false =
      sym (holds_without (key_of_worker w) front back key) ∙ d.0 in
    let other = differ_sym key (key_of_worker w) (ground (arith, apart)) in
    ((ground (arith, apart), others), rw other fresh)

module _ {F : Type 0} ⦃fl : Float64 F⦄ where
  schedule-IsExclusive :
      (account : Account F) (now : F) (st : RefreshState F)
      → IsExclusive st
      → IsExclusive (schedule_quota_refresh account now st).1
  unfolding schedule_quota_refresh
  schedule-IsExclusive account now st w = elim (Bool-cases (str_eq (key_of account) "")) [
    | inl e ↦ rw e w
    | inr e ↦ elim (Bool-cases (st.in_flight (key_of account))) [
      | inl f ↦ rw (e, f) w
      | inr f ↦ elim (Bool-cases (is_waiting (st.retry (key_of account)) now)) [
        | inl g ↦ rw (e, f, g) w
        | inr g ↦
            rw (e, f, g)
              (record {
                distinct = (sym (w.flying (key_of account)) ∙ f, w.distinct);
                flying = λ k. elim (Bool-cases (str_eq (key_of account) k)) [
                  | inl h ↦ rw h refl
                  | inr h ↦ rw h (w.flying k)
                ];
              })
      ]
    ]
  ]

  Step-IsExclusive : {st st' : RefreshState F} → Step st st' → IsExclusive st → IsExclusive st'
  unfolding record_outcome release
  Step-IsExclusive {st} (schedules account now) w = schedule-IsExclusive account now st w
  Step-IsExclusive {st} (records front back key failed now e) w = record {
    distinct = subst AreDistinct (ap keys e ∙ sym (keys_recorded front back key)) w.distinct;
    flying = λ k. w.flying k ∙ ap (holds k) (ap keys e ∙ sym (keys_recorded front back key));
  }
  Step-IsExclusive {st} (releases front back key e) w =
      let same : keys st.workers ≡ keys (front ++ (recorded key ∷ back)) = ap keys e in
      let (others, fresh) =
        AreDistinct-without front back key (subst AreDistinct same w.distinct) in
      record {
        distinct = others;
        flying = λ k. elim (Bool-cases (str_eq key k)) [
          | inl h ↦
              rw h (
                sym
                  (subst (λ j. holds j (keys (front ++ back)) ≡ false) ((eq_iff key k).0 h) fresh))
          | inr h ↦ rw h (
              w.flying k
              ∙ ap (holds k) same
              ∙ holds_without k front back key
              ∙ ap (λ b. b || holds k (keys (front ++ back))) h)
        ];
      }

  -- From the empty state, whatever is scheduled and however the workers' sections interleave, no two
  -- workers run for the same key, and the keys in flight are exactly those of the workers.
  pub reset_refresh_state-IsExclusive :
      {st : RefreshState F} → Reach reset_refresh_state st → IsExclusive st
  unfolding reset_refresh_state
  reset_refresh_state-IsExclusive here = record { distinct = tt; flying = λ k. refl }
  reset_refresh_state-IsExclusive (next r s) =
      Step-IsExclusive s (reset_refresh_state-IsExclusive r)
