-- ===== src/Tests/Scheduling.antt =====
-- Orders of a few accounts.
use agy_go.Prelude.{◌≡◌, refl, [], ◌∷◌, none, some, Perm, ltb}
use agy_go.Prelude.Int.{pos}
use agy_go.Go.Sort.{IsSorted}
use agy_go.Quota.Parse.{parse_quota_fraction, clamp_fraction}
use agy_go.Quota.Capacity.{compute_capacity_state}
use agy_go.Scheduler.{order_candidates, is_restricted, is_cooling}
use agy_go.Scheduler.Order.{usable, tier, order_candidates-perm, order_candidates-IsSorted-tier}
use agy_go.Scheduler.Compare.{
  before, standing, within_standing, order_candidates-IsSorted_max_quota,
}
use agy_go.Scheduler.Rotation.{with_cursor, reservations, reservations_round}
use agy_go.Tests.Concrete.{fixed, fixed-IsIeee, plain, alice, bob, carol, two}

order_candidates-perm_example :
    Perm
      (order_candidates
        (some carol ∷ some alice ∷ none ∷ some bob ∷ [])
        "least_used"
        (some two)
        (pos 7))
      (usable (some carol ∷ some alice ∷ none ∷ some bob ∷ []))
order_candidates-perm_example =
    order_candidates-perm (some carol ∷ some alice ∷ none ∷ some bob ∷ []) "least_used" (some two)
      (pos 7)

order_candidates-IsSorted-tier_example :
    IsSorted
      (λ a b. ltb (tier (pos 7) a) (tier (pos 7) b))
      (order_candidates (some alice ∷ some bob ∷ []) "least_used" (some two) (pos 7))
order_candidates-IsSorted-tier_example =
    order_candidates-IsSorted-tier (some alice ∷ some bob ∷ []) "least_used" (some two) (pos 7)

order_candidates-IsSorted_max_quota_example :
    IsSorted
      (before (standing (pos 7)) (within_standing (pos 7)))
      (order_candidates (some alice ∷ some bob ∷ []) "max_quota" (some two) (pos 7))
unfolding is_restricted
order_candidates-IsSorted_max_quota_example =
    order_candidates-IsSorted_max_quota fixed-IsIeee (some alice ∷ some bob ∷ []) "max_quota"
      (some two) (pos 7) refl refl
      (record { worst = refl; total = refl }, (record { worst = refl; total = refl }, tt))

reservations_round_example :
    reservations 2 (pos 7) (with_cursor two (alice ∷ bob ∷ []) "alice")
    ≡ (bob ∷ alice ∷ [], with_cursor two (alice ∷ bob ∷ []) "alice")
unfolding is_restricted is_cooling compute_capacity_state parse_quota_fraction clamp_fraction
reservations_round_example =
    reservations_round two (pos 7) [] alice (bob ∷ [])
      (
        record { named = refl; unrestricted = refl; ready = refl },
        (record { named = refl; unrestricted = refl; ready = refl }, tt),
      )
      ((refl, tt), (tt, tt))
