-- ===== src/Scheduler/Order.antt =====
-- `OrderCandidates` rearranges the accounts that may be used, tier by tier.
use mathlib.Core.List.{perm_middle, perm_append_comm}
use mathlib.Core.List.Perm
use agy_go.Prelude.{
  ◌≡◌, Bool, false, not, ◌||◌, String, List, [], ◌∷◌, ◌++◌, Option, none, some, Perm, arith, ℕ,
  str_eq, if◌then◌else◌, ltb, take, drop, select, All, ◌+◌, ◌≤◌, All-append, All-map, zero, suc,
  Bool-cases, Option-cases, inl, inr, take-append-drop, subst, append-nil,
}
use agy_go.Go.Float.{Float64}
use agy_go.Go.Text.{Text}
use agy_go.Go.Sort.{slice_stable-perm, slice_stable-All, IsSorted}
use agy_go.Storage.{Account, Pool}
use agy_go.Scheduler.{
  Tiers, is_cooling, capacity, is_reserve_candidate, add_to_tier, partition, depleted_less,
  find_index, rotate, cursor, max_quota_order, order_eligible, order_candidates,
}

module _ {ℓ} {A : Type ℓ} where
  take-drop-perm : (n : ℕ) (xs : List A) → Perm (drop n xs ++ take n xs) xs
  take-drop-perm n xs =
      Perm.trans (perm_append_comm (drop n xs) (take n xs))
        (subst (Perm _) (take-append-drop n xs) Perm.rfl)

  select-perm : (p : A → Bool) (xs : List A) → Perm (select (λ a. not (p a)) xs ++ select p xs) xs
  select-perm p [] = Perm.rfl
  select-perm p (x ∷ xs) = elim (Bool-cases (p x)) [
    | inl e ↦ rw e (
        Perm.trans (perm_middle (select (λ a. not (p a)) xs) (select p xs))
          (Perm.cons x (select-perm p xs)))
    | inr e ↦ rw e (Perm.cons x (select-perm p xs))
  ]

  pub select-All {κ} :
      (P : A → Type κ) (p : A → Bool) (xs : List A) → All P xs → All P (select p xs)
  select-All P p [] h = tt
  select-All P p (x ∷ xs) h = ground (arith, select-All P p xs h.1)

module _ {ℓ κ} {A : Type ℓ} (P : A → Type κ) where
  All-take : (n : ℕ) (xs : List A) → All P xs → All P (take n xs)
  All-take zero xs h = tt
  All-take (suc n) [] h = tt
  All-take (suc n) (x ∷ xs) h = (h.0, All-take n xs h.1)

  All-drop : (n : ℕ) (xs : List A) → All P xs → All P (drop n xs)
  All-drop zero xs h = h
  All-drop (suc n) [] h = tt
  All-drop (suc n) (x ∷ xs) h = All-drop n xs h.1

-- A list ascends by a rank if its front has one rank and the rest has no smaller one.
module _ {A : Type 0} (rank : A → ℕ) where
  abbrev Ascends : List A → Type 0
  Ascends = IsSorted (λ a b. ltb (rank a) (rank b))

  above_front :
      (m : ℕ) (a : A) (xs : List A)
      → rank a ≡ m
      → All (λ b. m ≤ rank b) xs
      → All (λ b. ltb (rank b) (rank a) ≡ false) xs
  above_front m a [] e h = tt
  above_front m a (x ∷ xs) e h = (ground arith, above_front m a xs e h.1)

  Ascends-append :
      (m : ℕ) (xs ys : List A)
      → All (λ a. rank a ≡ m) xs
      → All (λ b. m ≤ rank b) ys
      → Ascends ys
      → Ascends (xs ++ ys)
  Ascends-append m [] ys hx hy s = s
  Ascends-append m (x ∷ xs) ys hx hy s = (
    above_front m x (xs ++ ys) hx.0
        (All-append (λ b. m ≤ rank b) xs ys (All-map (λ b e. omega arith) xs hx.1) hy),
    Ascends-append m xs ys hx.1 hy s,
  )

module _ {F : Type 0} ⦃fl : Float64 F⦄ ⦃tx : Text⦄ where
  -- One of the two statuses that keep an account out of every order.
  abbrev pub is_barred : Account F → Bool
  is_barred a = str_eq a.status "validation_required" || str_eq a.status "auth_error"

  -- The candidates that are there and may be used.
  abbrev pub usable : List (Option (Account F)) → List (Account F)
  usable [] = []
  usable (none ∷ rest) = usable rest
  usable (some a ∷ rest) = let others = usable rest in if is_barred a then others else a ∷ others

  abbrev pub contents : Tiers F → List (Account F)
  contents t = t.eligible ++ (t.depleted ++ t.cooldown)

  add_to_tier-perm :
      (a : Account F) (now : F) (t : Tiers F)
      → Perm (contents (add_to_tier a now t)) (a ∷ contents t)
  unfolding add_to_tier
  add_to_tier-perm a now t = elim (Bool-cases (is_cooling a now)) [
    | inl e ↦
        rw (e, add_to_tier)
          (Perm.trans (Perm.append_left t.eligible (perm_middle t.depleted t.cooldown))
            (perm_middle t.eligible (t.depleted ++ t.cooldown)))
    | inr e ↦ elim (Bool-cases (capacity a now).is_depleted) [
      | inl d ↦ rw (e, add_to_tier, d) (perm_middle t.eligible (t.depleted ++ t.cooldown))
      | inr d ↦ rw (e, add_to_tier, d) Perm.rfl
    ]
  ]

  partition-perm :
      (xs : List (Option (Account F))) (now : F) → Perm (contents (partition xs now)) (usable xs)
  unfolding partition
  partition-perm [] now = Perm.rfl
  partition-perm (none ∷ rest) now = partition-perm rest now
  partition-perm (some a ∷ rest) now = elim (Bool-cases (is_barred a)) [
    | inl e ↦ rw e (partition-perm rest now)
    | inr e ↦ rw e (
        Perm.trans (add_to_tier-perm a now (partition rest now))
          (Perm.cons a (partition-perm rest now)))
  ]

  rotate-perm : (last : Option String) (xs : List (Account F)) → Perm (rotate last xs) xs
  unfolding rotate
  rotate-perm none xs = Perm.rfl
  rotate-perm (some last) xs = elim (Option-cases (find_index last xs)) [
    | inl e ↦ rw (e, rotate) Perm.rfl
    | inr (i, e) ↦ rw (e, rotate) (take-drop-perm (i + 1) xs)
  ]

  max_quota_order-perm : (now : F) (xs : List (Account F)) → Perm (max_quota_order now xs) xs
  unfolding max_quota_order
  max_quota_order-perm now xs =
      Perm.trans (Perm.append (slice_stable-perm _ _) (slice_stable-perm _ _))
        (select-perm (λ a. is_reserve_candidate (some a) now) xs)

  order_eligible-perm :
      (strategy : String) (pool : Option (Pool F)) (now : F) (xs : List (Account F))
      → Perm (order_eligible strategy pool now xs) xs
  unfolding order_eligible
  order_eligible-perm strategy pool now xs = elim (Bool-cases (str_eq strategy "least_used")) [
    | inl e ↦ rw e (slice_stable-perm _ xs)
    | inr e ↦ elim (Bool-cases (str_eq strategy "round_robin")) [
      | inl r ↦ rw (e, r) (rotate-perm (cursor pool) xs)
      | inr r ↦ rw (e, r) (max_quota_order-perm now xs)
    ]
  ]

  -- Under every strategy the result holds, as often as the candidates do, each candidate that is there
  -- and whose status is neither validation_required nor auth_error, and nothing else.
  pub order_candidates-perm :
      (candidates : List (Option (Account F))) (strategy : String) (pool : Option (Pool F))
      (now : F)
      → Perm (order_candidates candidates strategy pool now) (usable candidates)
  unfolding order_candidates
  order_candidates-perm candidates strategy pool now =
      Perm.trans
        (Perm.append (order_eligible-perm strategy pool now (partition candidates now).eligible)
          (Perm.append (slice_stable-perm _ _) Perm.rfl))
        (partition-perm candidates now)

  -- 0 for an account that can serve now, 1 for a depleted one, 2 for one in cooldown.
  abbrev pub tier : F → Account F → ℕ
  tier now a = if is_cooling a now then 2 else (if (capacity a now).is_depleted then 1 else 0)

  -- Each list of the loop holds the accounts of one tier.
  unfoldable pub AreTiers : Tiers F → F → Type 0
  AreTiers t now =
      All (λ a. tier now a ≡ 0) t.eligible
      × All (λ a. tier now a ≡ 1) t.depleted
      × All (λ a. tier now a ≡ 2) t.cooldown

  pub partition-AreTiers :
      (xs : List (Option (Account F))) (now : F) → AreTiers (partition xs now) now
  unfolding partition AreTiers add_to_tier
  partition-AreTiers [] now = (tt, tt, tt)
  partition-AreTiers (none ∷ rest) now = partition-AreTiers rest now
  partition-AreTiers (some a ∷ rest) now = ground (arith, partition-AreTiers rest now)

  pub rotate-All :
      (P : Account F → Type 0) (last : Option String) (xs : List (Account F))
      → All P xs
      → All P (rotate last xs)
  unfolding rotate
  rotate-All P none xs h = h
  rotate-All P (some last) xs h = elim (Option-cases (find_index last xs)) [
    | inl e ↦ rw (e, rotate) h
    | inr (i, e) ↦
        rw (e, rotate)
          (All-append P (drop (i + 1) xs) (take (i + 1) xs) (All-drop P (i + 1) xs h)
            (All-take P (i + 1) xs h))
  ]

  order_eligible-All :
      (P : Account F → Type 0) (strategy : String) (pool : Option (Pool F)) (now : F)
      (xs : List (Account F))
      → All P xs
      → All P (order_eligible strategy pool now xs)
  unfolding order_eligible max_quota_order
  order_eligible-All P strategy pool now xs h = elim (Bool-cases (str_eq strategy "least_used")) [
    | inl e ↦ rw e (slice_stable-All _ P xs h)
    | inr e ↦ elim (Bool-cases (str_eq strategy "round_robin")) [
      | inl r ↦ rw (e, r) (rotate-All P (cursor pool) xs h)
      | inr r ↦
          rw (e, r)
            (All-append P _ _ (slice_stable-All _ P _ (select-All P _ xs h))
              (slice_stable-All _ P _ (select-All P _ xs h)))
    ]
  ]

  -- Under every strategy no depleted account stands before one that can serve, and none in cooldown
  -- before one that is not.
  pub order_candidates-IsSorted-tier :
      (candidates : List (Option (Account F))) (strategy : String) (pool : Option (Pool F))
      (now : F)
      → IsSorted
          (λ a b. ltb (tier now a) (tier now b))
          (order_candidates candidates strategy pool now)
  unfolding order_candidates AreTiers
  order_candidates-IsSorted-tier candidates strategy pool now =
      let t = partition candidates now in
      let (e, d, c) = partition-AreTiers candidates now in
      let depleted = slice_stable-All (depleted_less now) (λ a. tier now a ≡ 1) t.depleted d in
      Ascends-append (tier now) 0 _ _
        (order_eligible-All (λ a. tier now a ≡ 0) strategy pool now t.eligible e)
        (All-map (λ a h. omega arith) _
          (All-append (λ a. 1 ≤ tier now a) _ t.cooldown (All-map (λ a h. omega arith) _ depleted)
            (All-map (λ a h. omega arith) _ c)))
        (Ascends-append (tier now) 1 _ _ depleted (All-map (λ a h. omega arith) _ c) (
          subst (Ascends (tier now)) (append-nil t.cooldown)
            (Ascends-append (tier now) 2 t.cooldown [] c tt tt)))
