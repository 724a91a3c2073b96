-- ===== src/Scheduler/Compare.antt =====
-- The comparators of `OrderCandidates` are strict weak orders away from NaN, so that its sorted
-- lists are sorted.
use agy_go.Prelude.{
  ◌≡◌, refl, Bool, false, not, String, List, [], ◌∷◌, ◌++◌, Option, none, some, arith, ℕ, zero, suc,
  ◌<◌, str_eq, if◌then◌else◌, ltb, ◌==◌, select, All, All-append, All-map, Bool-cases, inl, inr,
  append-nil, append_assoc, subst,
}
use agy_go.Go.Float.{Float64, IsIeee}
use agy_go.Go.Text.{Text}
use agy_go.Go.Sort.{slice_stable, slice_stable-All, slice_stable-IsSorted, IsSorted, IsWeakOrder}
use agy_go.Go.Less.{
  str_lt, level-IsWeakOrder, nat_desc-IsLevel, int_asc-IsLevel, str_asc-IsWeakOrder,
  float_desc-IsLevel,
}
use agy_go.Storage.{Account, Pool, get_hits}
use agy_go.Quota.Freshness.{freshness_rank}
use agy_go.Quota.Capacity.Laws.{raw_floor_num}
use agy_go.Scheduler.{
  Tiers, is_restricted, is_cooling, capacity, is_reserve_candidate, add_to_tier, partition,
  by_capacity, fewer_hits, max_quota_less, least_used_less, depleted_less, max_quota_order,
  order_eligible, order_candidates,
}
use agy_go.Scheduler.Order.{usable, tier, AreTiers, partition-AreTiers, select-All}

module _ {F : Type 0} ⦃fl : Float64 F⦄ ⦃tx : Text⦄ where
  -- The two paces of the account are numbers. They are not when a reset time is the text "NaN".
  pub record HasPaces (now : F) (a : Account F) : Type 0 where
    pub worst : fl.is_nan (capacity a now).worst_pace ≡ false
    pub total : fl.is_nan (capacity a now).total_pace ≡ false

module _ {F : Type 0} ⦃fl : Float64 F⦄ ⦃tx : Text⦄ (ieee : IsIeee F) (now : F) where
  fewer_hits-IsWeakOrder : IsWeakOrder (HasPaces now) fewer_hits
  fewer_hits-IsWeakOrder = (int_asc-IsLevel (HasPaces now) (λ a. get_hits (some a))).weak

  by_capacity-IsWeakOrder :
      (tie : Account F → Account F → Bool)
      → IsWeakOrder (HasPaces now) tie
      → IsWeakOrder (HasPaces now) (by_capacity tie now)
  unfolding by_capacity
  by_capacity-IsWeakOrder tie w =
      level-IsWeakOrder (nat_desc-IsLevel (HasPaces now) (λ a. (capacity a now).known_window_count))
        (level-IsWeakOrder (nat_desc-IsLevel (HasPaces now) (λ a. freshness_rank (some a) now)) (
          level-IsWeakOrder
            (float_desc-IsLevel (HasPaces now) ieee (λ a. (capacity a now).worst_pace)
              (λ a h. h.worst))
            (level-IsWeakOrder
              (float_desc-IsLevel (HasPaces now) ieee (λ a. (capacity a now).total_pace)
                (λ a h. h.total))
              (level-IsWeakOrder
                (float_desc-IsLevel (HasPaces now) ieee (λ a. (capacity a now).raw_floor)
                  (λ a h. raw_floor_num ieee a now))
                w))))

  pub max_quota_less-IsWeakOrder : IsWeakOrder (HasPaces now) (max_quota_less now)
  unfolding max_quota_less
  max_quota_less-IsWeakOrder = by_capacity-IsWeakOrder fewer_hits fewer_hits-IsWeakOrder

  pub least_used_less-IsWeakOrder : IsWeakOrder (HasPaces now) (least_used_less now)
  unfolding least_used_less
  least_used_less-IsWeakOrder =
      level-IsWeakOrder (int_asc-IsLevel (HasPaces now) (λ a. get_hits (some a))) (
        by_capacity-IsWeakOrder (λ x y. str_lt x.id y.id)
          (str_asc-IsWeakOrder (HasPaces now) (λ a. a.id)))

  pub depleted_less-IsWeakOrder : IsWeakOrder (HasPaces now) (depleted_less now)
  unfolding depleted_less
  depleted_less-IsWeakOrder =
      level-IsWeakOrder
        (float_desc-IsLevel (HasPaces now) ieee (λ a. (capacity a now).raw_floor)
          (λ a h. raw_floor_num ieee a now))
        fewer_hits-IsWeakOrder

-- A list in blocks: `rank` is constant on each and grows from one to the next, and `within` says
-- how a block is ordered.
module _ {A : Type 0} (rank : A → ℕ) (within : ℕ → A → A → Bool) where
  abbrev pub before : A → A → Bool
  before a b = if rank a == rank b then within (rank b) a b else ltb (rank a) (rank b)

  before_later :
      (m : ℕ) (a : A) (xs : List A)
      → rank a ≡ m
      → All (λ b. m < rank b) xs
      → All (λ b. before b a ≡ false) xs
  before_later m a [] e h = tt
  before_later m a (x ∷ xs) e h = (ground arith, before_later m a xs e h.1)

  before_same :
      (m : ℕ) (a : A) (xs : List A)
      → rank a ≡ m
      → All (λ b. rank b ≡ m) xs
      → All (λ b. within m b a ≡ false) xs
      → All (λ b. before b a ≡ false) xs
  before_same m a [] e h s = tt
  before_same m a (x ∷ xs) e h s = (ground arith, before_same m a xs e h.1 s.1)

  pub block-append :
      (m : ℕ) (xs ys : List A)
      → All (λ a. rank a ≡ m) xs
      → IsSorted (within m) xs
      → All (λ b. m < rank b) ys
      → IsSorted before ys
      → IsSorted before (xs ++ ys)
  block-append m [] ys hx sx hy sy = sy
  block-append m (x ∷ xs) ys hx sx hy sy = (
    All-append (λ b. before b x ≡ false) xs ys (before_same m x xs hx.0 hx.1 sx.0)
        (before_later m x ys hx.0 hy),
    block-append m xs ys hx.1 sx.1 hy sy,
  )

never_less-IsSorted : {A : Type 0} (xs : List A) → IsSorted (λ (a b : A). false) xs
never_less-IsSorted [] = tt
never_less-IsSorted {A} (x ∷ xs) = (all_refl xs, never_less-IsSorted xs)
  where
    all_refl : (ys : List A) → All (λ (y : A). false ≡ false) ys
    all_refl [] = tt
    all_refl (y ∷ ys) = (refl, all_refl ys)

module _ {F : Type 0} ⦃fl : Float64 F⦄ ⦃tx : Text⦄ where
  -- 0 healthy, 1 in reserve, 2 depleted, 3 in cooldown.
  abbrev pub standing : F → Account F → ℕ
  standing now a =
      if is_cooling a now
      then 3
      else (if (capacity a now).is_depleted
          then 2
          else (if is_reserve_candidate (some a) now then 1 else 0))

  -- How accounts of one standing are ordered; those in cooldown keep the pool's order.
  abbrev pub within_standing : F → ℕ → Account F → Account F → Bool
  within_standing now zero = max_quota_less now
  within_standing now (suc zero) = max_quota_less now
  within_standing now (suc (suc zero)) = depleted_less now
  within_standing now (suc (suc (suc n))) = λ a b. false

  select_reserve :
      (now : F) (xs : List (Account F))
      → All (λ a. tier now a ≡ 0) xs
      → All (λ a. standing now a ≡ 0) (select (λ a. not (is_reserve_candidate (some a) now)) xs)
        × All (λ a. standing now a ≡ 1) (select (λ a. is_reserve_candidate (some a) now) xs)
  select_reserve now [] h = (tt, tt)
  select_reserve now (x ∷ xs) h = ground (arith, select_reserve now xs h.1)

  partition-All :
      (P : Account F → Type 0) (xs : List (Option (Account F))) (now : F)
      → All P (usable xs)
      → All P (partition xs now).eligible × All P (partition xs now).depleted
  unfolding partition add_to_tier
  partition-All P [] now h = (tt, tt)
  partition-All P (none ∷ rest) now h = partition-All P rest now h
  partition-All P (some a ∷ rest) now h = elim (Bool-cases (is_restricted (some a))) [
    | inl e ↦ rw e (partition-All P rest now (rw e at h))
    | inr e ↦
        let h' : P a × All P (usable rest) = rw e at h in
        let (el, de) = partition-All P rest now h'.1 in
        elim (Bool-cases (is_cooling a now)) [
          | inl c ↦ rw (e, c) (el, de)
          | inr c ↦ elim (Bool-cases (capacity a now).is_depleted) [
            | inl d ↦ rw (e, c, d) (el, (h'.0, de))
            | inr d ↦ rw (e, c, d) ((h'.0, el), de)
          ]
        ]
  ]

  -- Under "max_quota", which also stands for every unknown strategy, healthy accounts come first,
  -- then those in reserve, then the depleted, then those in cooldown; inside the first two by the
  -- quota comparator and inside the third by the depletion comparator. float64 must obey IEEE 754 and the paces be numbers.
  pub order_candidates-IsSorted_max_quota :
      (ieee : IsIeee F) (candidates : List (Option (Account F))) (strategy : String)
      (pool : Option (Pool F)) (now : F)
      → str_eq strategy "least_used" ≡ false
      → str_eq strategy "round_robin" ≡ false
      → All (HasPaces now) (usable candidates)
      → IsSorted
          (before (standing now) (within_standing now))
          (order_candidates candidates strategy pool now)
  unfolding order_candidates order_eligible max_quota_order AreTiers
  order_candidates-IsSorted_max_quota ieee candidates strategy pool now h₁ h₂ paces =
      rw (h₁, h₂, append_assoc)
        (block-append rank within 0 healthy _ healthy_rank healthy_sorted
          (All-append (λ b. 0 < rank b) reserve _ (All-map (λ a h. omega arith) _ reserve_rank)
            (All-append (λ b. 0 < rank b) depleted _ (All-map (λ a h. omega arith) _ depleted_rank)
              (All-map (λ a h. omega arith) _ cool_rank)))
          (block-append rank within 1 reserve _ reserve_rank reserve_sorted
            (All-append (λ b. 1 < rank b) depleted _ (All-map (λ a h. omega arith) _ depleted_rank)
              (All-map (λ a h. omega arith) _ cool_rank))
            (block-append rank within 2 depleted _ depleted_rank depleted_sorted
              (All-map (λ a h. omega arith) _ cool_rank) cool_sorted)))
    where
      rank : Account F → ℕ
      rank = standing now

      within : ℕ → Account F → Account F → Bool
      within = within_standing now

      t : Tiers F
      t = partition candidates now

      is_healthy : Account F → Bool
      is_healthy a = not (is_reserve_candidate (some a) now)

      in_reserve : Account F → Bool
      in_reserve a = is_reserve_candidate (some a) now

      healthy : List (Account F)
      healthy = slice_stable (max_quota_less now) (select is_healthy t.eligible)

      reserve : List (Account F)
      reserve = slice_stable (max_quota_less now) (select in_reserve t.eligible)

      depleted : List (Account F)
      depleted = slice_stable (depleted_less now) t.depleted

      split :
          All (λ a. rank a ≡ 0) (select is_healthy t.eligible)
          × All (λ a. rank a ≡ 1) (select in_reserve t.eligible)
      split = select_reserve now t.eligible (partition-AreTiers candidates now).0

      have_paces : All (HasPaces now) t.eligible × All (HasPaces now) t.depleted
      have_paces = partition-All (HasPaces now) candidates now paces

      healthy_rank : All (λ a. rank a ≡ 0) healthy
      healthy_rank = slice_stable-All _ _ (select is_healthy t.eligible) split.0

      reserve_rank : All (λ a. rank a ≡ 1) reserve
      reserve_rank = slice_stable-All _ _ (select in_reserve t.eligible) split.1

      depleted_rank : All (λ a. rank a ≡ 2) depleted
      depleted_rank =
          slice_stable-All _ _ t.depleted
            (All-map (λ a h. ground arith) _ (partition-AreTiers candidates now).1)

      cool_rank : All (λ a. rank a ≡ 3) t.cooldown
      cool_rank = All-map (λ a h. ground arith) _ (partition-AreTiers candidates now).2

      healthy_sorted : IsSorted (max_quota_less now) healthy
      healthy_sorted =
          slice_stable-IsSorted (max_quota_less-IsWeakOrder ieee now) _
            (select-All _ is_healthy _ have_paces.0)

      reserve_sorted : IsSorted (max_quota_less now) reserve
      reserve_sorted =
          slice_stable-IsSorted (max_quota_less-IsWeakOrder ieee now) _
            (select-All _ in_reserve _ have_paces.0)

      depleted_sorted : IsSorted (depleted_less now) depleted
      depleted_sorted = slice_stable-IsSorted (depleted_less-IsWeakOrder ieee now) _ have_paces.1

      cool_sorted : IsSorted (before rank within) t.cooldown
      cool_sorted = subst (IsSorted (before rank within)) (append-nil t.cooldown) (
          block-append rank within 3 t.cooldown [] cool_rank (never_less-IsSorted t.cooldown) tt tt)
