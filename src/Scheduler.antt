-- ===== src/Scheduler.antt =====
-- internal/scheduler/scheduler.go: the order in which accounts are tried.
pub mod Order
pub mod Compare
pub mod Rotation
use agy_go.Prelude.{
  ℕ, suc, ◌+◌, Bool, true, false, not, ◌&&◌, ◌||◌, String, List, [], ◌∷◌, ◌++◌, Option, none, some,
  str_eq, if◌then◌else◌, ltb, ◌==◌, take, drop, select,
}
use agy_go.Prelude.Int.{ltb_ℤ, eqb_ℤ}
use agy_go.Go.Float.{Float64}
use agy_go.Go.Text.{Text}
use agy_go.Go.Sort.{slice_stable}
use agy_go.Go.Less.{str_lt}
use agy_go.Storage.{Account, Pool, get_hits}
use agy_go.Quota.Capacity.{CapacityState, compute_capacity_state}
use agy_go.Quota.Freshness.{freshness_rank}

module _ {F : Type 0} where
  unfoldable pub is_restricted : Option (Account F) → Bool
  is_restricted none = false
  is_restricted (some acc) =
      str_eq acc.status "validation_required" || str_eq acc.status "auth_error"

-- The three lists that the first loop fills.
pub record Tiers (F : Type 0) : Type 0 where
  pub eligible : List (Account F)
  pub depleted : List (Account F)
  pub cooldown : List (Account F)

module _ {F : Type 0} ⦃fl : Float64 F⦄ where
  abbrev at_most : Option F → F → Bool
  at_most none bound = false
  at_most (some q) bound = fl.le q bound

  -- At or below 15 % of the 5-hour window, or 10 % of the weekly one, and not depleted.
  unfoldable pub is_reserve_capacity : CapacityState F → Bool
  is_reserve_capacity state =
      if state.is_depleted
      then false
      else (if state.q5_known && at_most state.q5 (fl.ratio 15 100)
          then true
          else state.q7_known && at_most state.q7 (fl.ratio 10 100))

  -- `acc.RateLimitedUntil != nil && *acc.RateLimitedUntil > now`
  unfoldable pub is_cooling : Account F → F → Bool
  is_cooling acc now = elim acc.rate_limited_until [ some until ↦ fl.lt now until | none ↦ false ]

module _ {F : Type 0} ⦃fl : Float64 F⦄ ⦃tx : Text⦄ where
  abbrev pub capacity : Account F → F → CapacityState F
  capacity a now = compute_capacity_state (some a) now

  unfoldable pub is_reserve_candidate : Option (Account F) → F → Bool
  unfolding is_reserve_capacity
  is_reserve_candidate none now = false
  is_reserve_candidate (some acc) now = is_reserve_capacity (capacity acc now)

  add_to_tier : Account F → F → Tiers F → Tiers F
  unfolding is_cooling
  add_to_tier acc now t =
      if is_cooling acc now
      then record t { cooldown = acc ∷ t.cooldown }
      else (if (capacity acc now).is_depleted
          then record t { depleted = acc ∷ t.depleted }
          else record t { eligible = acc ∷ t.eligible })

  -- The loop over the candidates. Each list keeps their order.
  unfoldable pub partition : List (Option (Account F)) → F → Tiers F
  unfolding add_to_tier is_restricted
  partition [] now = record { eligible = []; depleted = []; cooldown = [] }
  partition (none ∷ rest) now = partition rest now
  partition (some acc ∷ rest) now =
      let others = partition rest now in
      if is_restricted (some acc) then others else add_to_tier acc now others

  -- The keys that both comparators share, from the window count to the raw floor, and what
  -- decides a tie.
  by_capacity : (Account F → Account F → Bool) → F → Account F → Account F → Bool
  by_capacity tie now a b =
      let cap_a = capacity a now in
      let cap_b = capacity b now in
      let rank_a = freshness_rank (some a) now in
      let rank_b = freshness_rank (some b) now in
      if not (cap_a.known_window_count == cap_b.known_window_count)
      then ltb cap_b.known_window_count cap_a.known_window_count
      else (if not (rank_a == rank_b)
          then ltb rank_b rank_a
          else (if not (fl.eq cap_a.worst_pace cap_b.worst_pace)
              then fl.lt cap_b.worst_pace cap_a.worst_pace
              else (if not (fl.eq cap_a.total_pace cap_b.total_pace)
                  then fl.lt cap_b.total_pace cap_a.total_pace
                  else (if not (fl.eq cap_a.raw_floor cap_b.raw_floor)
                      then fl.lt cap_b.raw_floor cap_a.raw_floor
                      else tie a b))))

  abbrev fewer_hits : Account F → Account F → Bool
  fewer_hits a b = ltb_ℤ (get_hits (some a)) (get_hits (some b))

  unfoldable pub least_used_less : F → Account F → Account F → Bool
  unfolding by_capacity
  least_used_less now a b =
      if not (eqb_ℤ (get_hits (some a)) (get_hits (some b)))
      then fewer_hits a b
      else by_capacity (λ x y. str_lt x.id y.id) now a b

  -- `maxQuotaCompare`
  unfoldable pub max_quota_less : F → Account F → Account F → Bool
  unfolding by_capacity
  max_quota_less now a b = by_capacity fewer_hits now a b

  unfoldable pub depleted_less : F → Account F → Account F → Bool
  depleted_less now a b =
      let cap_a = capacity a now in
      let cap_b = capacity b now in
      if not (fl.eq cap_a.raw_floor cap_b.raw_floor)
      then fl.lt cap_b.raw_floor cap_a.raw_floor
      else fewer_hits a b

  find_index : String → List (Account F) → Option ℕ
  find_index last [] = none
  find_index last (a ∷ rest) =
      let later = find_index last rest in
      if str_eq a.id last then some 0 else elim later [ some i ↦ some (suc i) | none ↦ none ]

  -- The account behind the last one comes first, and the last one comes last.
  unfoldable pub rotate : Option String → List (Account F) → List (Account F)
  unfolding find_index
  rotate none eligible = eligible
  rotate (some last) eligible = elim (find_index last eligible) [
    | some i ↦ drop (i + 1) eligible ++ take (i + 1) eligible
    | none ↦ eligible
  ]

  abbrev cursor : Option (Pool F) → Option String
  cursor none = none
  cursor (some pool) = pool.round_robin_last_account_id

  max_quota_order : F → List (Account F) → List (Account F)
  unfolding is_reserve_candidate
  max_quota_order now eligible =
      slice_stable (max_quota_less now)
        (select (λ a. not (is_reserve_candidate (some a) now)) eligible)
      ++ slice_stable (max_quota_less now)
          (select (λ a. is_reserve_candidate (some a) now) eligible)

  order_eligible : String → Option (Pool F) → F → List (Account F) → List (Account F)
  unfolding max_quota_order rotate
  order_eligible strategy pool now eligible =
      if str_eq strategy "least_used"
      then slice_stable (least_used_less now) eligible
      else (if str_eq strategy "round_robin"
          then rotate (cursor pool) eligible
          else max_quota_order now eligible)

  -- `sort.SliceStable` on the depleted accounts leaves the other two lists alone.
  unfoldable pub order_candidates :
      List (Option (Account F)) → String → Option (Pool F) → F → List (Account F)
  unfolding partition order_eligible
  order_candidates candidates strategy pool now =
      let tiers = partition candidates now in
      order_eligible strategy pool now tiers.eligible
      ++ (slice_stable (depleted_less now) tiers.depleted ++ tiers.cooldown)
