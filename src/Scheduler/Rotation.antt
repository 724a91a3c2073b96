-- ===== src/Scheduler/Rotation.antt =====
-- The round-robin strategy over successive reservations.
use agy_go.Prelude.{
  ◌≡◌, refl, sym, ap, subst, ◌∙◌, false, String, List, [], ◌∷◌, ◌++◌, Option, none, some, arith, ℕ,
  zero, suc, str_eq, eq_refl, map, length, length-append, take, drop, All, append-nil, append_assoc,
}
use native.Mathlib.Numerals.{add-one}
use agy_go.Go.Float.{Float64}
use agy_go.Go.Text.{Text}
use agy_go.Go.Sort.{slice_stable}
use agy_go.Storage.{Account, Pool}
use agy_go.Storage.Reserve.{no_faults, reserve_round_robin_account}
use agy_go.Scheduler.{
  is_restricted, add_to_tier, partition, find_index, rotate, order_eligible, order_candidates,
}
use agy_go.Scheduler.Order.{tier, rotate-All}

module _ {ℓ} {A : Type ℓ} where
  drop_past :
      (front : List A) (x : A) (back : List A)
      → drop (suc (length front)) (front ++ (x ∷ back)) ≡ back
  drop_past [] x back = refl
  drop_past (a ∷ front) x back = drop_past front x back

  take_past :
      (front : List A) (x : A) (back : List A)
      → take (suc (length front)) (front ++ (x ∷ back)) ≡ front ++ (x ∷ [])
  take_past [] x back = refl
  take_past (a ∷ front) x back = ap (◌∷◌ a) (take_past front x back)

module _ {ℓ} {A : Type ℓ} where
  abbrev last_of : A → List A → A
  last_of x [] = x
  last_of x (y ∷ ys) = last_of y ys

  last_of-snoc : (a x : A) (xs : List A) → last_of a (xs ++ (x ∷ [])) ≡ x
  last_of-snoc a x [] = refl
  last_of-snoc a x (y ∷ ys) = last_of-snoc y x ys

  snoc_form :
      (front : List A) (x : A) (back : List A)
      → (before : List A) × (front ++ (x ∷ back) ≡ before ++ (last_of x back ∷ []))
  snoc_form [] x [] = ([], refl)
  snoc_form [] x (y ∷ back) = let (before, e) = snoc_form [] y back in (x ∷ before, ap (◌∷◌ x) e)
  snoc_form (a ∷ front) x back =
      let (before, e) = snoc_form front x back in (a ∷ before, ap (◌∷◌ a) e)

  length_round :
      (front : List A) (x : A) (back : List A)
      → length (back ++ (front ++ (x ∷ []))) ≡ length (front ++ (x ∷ back))
  length_round front x back = omega (
    arith,
    length-append back (front ++ (x ∷ [])),
    length-append front (x ∷ []),
    length-append front (x ∷ back),
  )

  cons_form :
      (front : List A) (x : A) (back : List A)
      → (a : A) × (others : List A) × (front ++ (x ∷ back) ≡ a ∷ others)
  cons_form [] x back = (x, back, refl)
  cons_form (a ∷ front) x back = (a, front ++ (x ∷ back), refl)

module _ {F : Type 0} where
  -- The ids of the accounts differ.
  abbrev pub AreDistinct : List (Account F) → Type 0
  AreDistinct [] = Unit
  AreDistinct (a ∷ rest) = All (λ b. str_eq a.id b.id ≡ false) rest × AreDistinct rest

module _ {F : Type 0} ⦃fl : Float64 F⦄ ⦃tx : Text⦄ where
  -- The account has an id and can serve at that time.
  pub record CanServe (now : F) (a : Account F) : Type 0 where
    pub named : str_eq a.id "" ≡ false
    pub unrestricted : is_restricted (some a) ≡ false
    pub ready : tier now a ≡ 0

  partition-CanServe :
      (xs : List (Account F)) (now : F)
      → All (CanServe now) xs
      → partition (map some xs) now ≡ record { eligible = xs; depleted = []; cooldown = [] }
  unfolding partition add_to_tier
  partition-CanServe [] now h = refl
  partition-CanServe (x ∷ xs) now h =
      ground (arith, partition-CanServe xs now h.1, h.0.unrestricted, h.0.ready)

  order_candidates-rotate :
      (pool : Pool F) (now : F)
      → All (CanServe now) pool.accounts
      → order_candidates (map some pool.accounts) "round_robin" (some pool) now
        ≡ rotate pool.round_robin_last_account_id pool.accounts
  unfolding order_candidates order_eligible slice_stable
  order_candidates-rotate pool now h =
      rw (partition-CanServe pool.accounts now h)
        (append-nil (rotate pool.round_robin_last_account_id pool.accounts))

  find_index_at :
      (front : List (Account F)) (x : Account F) (back : List (Account F))
      → AreDistinct (front ++ (x ∷ back))
      → find_index x.id (front ++ (x ∷ back)) ≡ some (length front)
  unfolding find_index
  find_index_at [] x back h = rw (eq_refl x.id)
  find_index_at (a ∷ front) x back h =
      ground (arith, find_index_at front x back h.1, at_front front h.0)
    where
      at_front :
          (xs : List (Account F))
          → All (λ b. str_eq a.id b.id ≡ false) (xs ++ (x ∷ back))
          → str_eq a.id x.id ≡ false
      at_front [] k = k.0
      at_front (y ∷ ys) k = at_front ys k.1

  -- Behind the cursor first, then what stands before it, then the account at the cursor.
  rotate_at :
      (front : List (Account F)) (x : Account F) (back : List (Account F))
      → AreDistinct (front ++ (x ∷ back))
      → rotate (some x.id) (front ++ (x ∷ back)) ≡ back ++ (front ++ (x ∷ []))
  unfolding rotate
  rotate_at front x back h = rw (
    find_index_at front x back h,
    rotate,
    add-one,
    drop_past front x back,
    take_past front x back,
  )

  -- A pool with those accounts and that cursor.
  abbrev pub with_cursor : Pool F → List (Account F) → String → Pool F
  with_cursor pool xs last = record pool { round_robin_last_account_id = some last; accounts = xs }

  -- The accounts that successive reservations give, and the pool after them.
  abbrev gather :
      Option (Option (Account F)) × Pool F
      → (Pool F → List (Account F) × Pool F)
      → List (Account F) × Pool F
  gather (some (some a), pool) next = let (others, last) = next pool in (a ∷ others, last)
  gather (some none, pool) next = next pool
  gather (none, pool) next = next pool

  abbrev pub reservations : ℕ → F → Pool F → List (Account F) × Pool F
  reservations zero now pool = ([], pool)
  reservations (suc n) now pool =
      gather (reserve_round_robin_account order_candidates no_faults now pool)
        (λ p. reservations n now p)

  reserve_first :
      (order : List (Option (Account F)) → String → Option (Pool F) → F → List (Account F))
      (now : F) (p : Pool F) (a y : Account F) (others rest : List (Account F))
      → p.accounts ≡ a ∷ others
      → order (map some p.accounts) "round_robin" (some p) now ≡ y ∷ rest
      → str_eq y.id "" ≡ false
      → reserve_round_robin_account order no_faults now p
        ≡ (some (some y), record p { round_robin_last_account_id = some y.id })
  unfolding reserve_round_robin_account
  reserve_first order now p a y others rest e f named = ground (arith, e, f, named)

  module _ (pool : Pool F) (now : F) (xs : List (Account F)) (serve : All (CanServe now) xs)
      (distinct : AreDistinct xs) where
    -- Where every account can serve, a reservation gives the head of the rotation and moves the
    -- cursor there.
    reserve_rotation :
        (a y : Account F) (others rest : List (Account F)) (last : String)
        → xs ≡ a ∷ others
        → rotate (some last) xs ≡ y ∷ rest
        → str_eq y.id "" ≡ false
        → reserve_round_robin_account order_candidates no_faults now (with_cursor pool xs last)
          ≡ (some (some y), with_cursor pool xs y.id)
    reserve_rotation a y others rest last e r named =
        reserve_first order_candidates now (with_cursor pool xs last) a y others rest e
          (order_candidates-rotate (with_cursor pool xs last) now serve ∙ r) named

    reserve_behind :
        (front : List (Account F)) (x y : Account F) (back rest : List (Account F))
        → xs ≡ front ++ (x ∷ back)
        → back ++ (front ++ (x ∷ [])) ≡ y ∷ rest
        → reserve_round_robin_account order_candidates no_faults now (with_cursor pool xs x.id)
          ≡ (some (some y), with_cursor pool xs y.id)
    reserve_behind front x y back rest e r =
        let (a, others, c) = cons_form front x back in
        reserve_rotation a y others rest x.id (e ∙ c) (rotated ∙ r)
          (subst (All (CanServe now)) (rotated ∙ r)
            (rotate-All (CanServe now) (some x.id) xs serve)).0.named
      where
        rotated : rotate (some x.id) xs ≡ back ++ (front ++ (x ∷ []))
        rotated = ap (rotate (some x.id)) e ∙ rotate_at front x back (subst AreDistinct e distinct)

    -- So many reservations give these accounts in turn and leave that cursor.
    Gives : String → List (Account F) → String → Type 0
    Gives from l to =
        reservations (length l) now (with_cursor pool xs from) ≡ (l, with_cursor pool xs to)

    Gives-cons :
        (from : String) (y : Account F) (l : List (Account F)) (to : String)
        → reserve_round_robin_account order_candidates no_faults now (with_cursor pool xs from)
          ≡ (some (some y), with_cursor pool xs y.id)
        → Gives y.id l to
        → Gives from (y ∷ l) to
    unfolding Gives
    Gives-cons from y l to e g =
        ap (λ r. gather r (λ p. reservations (length l) now p)) e
        ∙ ap (λ (r : List (Account F) × Pool F). (y ∷ r.0, r.1)) g

    -- A sweep over what stands behind the cursor, and whatever follows it.
    sweep :
        (mid front : List (Account F)) (x : Account F) (back l : List (Account F)) (to : String)
        → xs ≡ front ++ (x ∷ (mid ++ back))
        → Gives (last_of x mid).id l to
        → Gives x.id (mid ++ l) to
    sweep [] front x back l to e g = g
    sweep (y ∷ mid) front x back l to e g =
        Gives-cons x.id y (mid ++ l) to
          (reserve_behind front x y (y ∷ (mid ++ back)) (mid ++ back ++ (front ++ (x ∷ []))) e refl)
          (sweep mid (front ++ (x ∷ [])) y back l to
            (e ∙ sym (append_assoc front (x ∷ []) (y ∷ (mid ++ back)))) g)

    -- At the last account the rotation starts over.
    around :
        (front : List (Account F)) (z a : Account F) (others l : List (Account F)) (to : String)
        → xs ≡ front ++ (z ∷ [])
        → xs ≡ a ∷ others
        → Gives a.id l to
        → Gives z.id (a ∷ l) to
    around front z a others l to ez ea g =
        Gives-cons z.id a l to (reserve_behind front z a [] others ez (sym ez ∙ ea)) g

    -- What comes after the sweep to the end: the accounts up to the cursor.
    restart :
        (front : List (Account F)) (x : Account F) (back : List (Account F))
        → xs ≡ front ++ (x ∷ back)
        → Gives (last_of x back).id (front ++ (x ∷ [])) x.id
    unfolding Gives
    restart [] x back e =
        let (before, b) = snoc_form [] x back in
        around before (last_of x back) x back [] x.id (e ∙ b) e refl
    restart (a ∷ front) x back e =
        let (before, b) = snoc_form (a ∷ front) x back in
        around before (last_of x back) a (front ++ (x ∷ back)) (front ++ (x ∷ [])) x.id (e ∙ b) e (
          subst (λ l. Gives a.id l x.id) (append-nil (front ++ (x ∷ [])))
            (sweep (front ++ (x ∷ [])) [] a back [] x.id
              (e ∙ ap (◌∷◌ a) (sym (append_assoc front (x ∷ []) back)))
              (subst (λ z. Gives z.id [] x.id) (sym (last_of-snoc a x front)) refl)))

    whole_round :
        (front : List (Account F)) (x : Account F) (back : List (Account F))
        → xs ≡ front ++ (x ∷ back)
        → Gives x.id (back ++ (front ++ (x ∷ []))) x.id
    whole_round front x back e =
        sweep back front x [] (front ++ (x ∷ [])) x.id
          (e ∙ ap (λ l. front ++ (x ∷ l)) (sym (append-nil back))) (restart front x back e)

  -- As many reservations as there are accounts give each account once, first those behind the
  -- cursor, and leave the cursor where it was, so that the next round is the same: where every
  -- account can serve and the ids differ, nobody is starved.
  pub reservations_round :
      (pool : Pool F) (now : F) (front : List (Account F)) (x : Account F) (back : List (Account F))
      → All (CanServe now) (front ++ (x ∷ back))
      → AreDistinct (front ++ (x ∷ back))
      → reservations
          (length (front ++ (x ∷ back)))
          now
          (with_cursor pool (front ++ (x ∷ back)) x.id)
        ≡ (back ++ (front ++ (x ∷ [])), with_cursor pool (front ++ (x ∷ back)) x.id)
  unfolding Gives
  reservations_round pool now front x back serve distinct =
      subst
        (λ n.
          reservations n now (with_cursor pool (front ++ (x ∷ back)) x.id)
          ≡ (back ++ (front ++ (x ∷ [])), with_cursor pool (front ++ (x ∷ back)) x.id))
        (length_round front x back)
        (whole_round pool now (front ++ (x ∷ back)) serve distinct front x back refl)
