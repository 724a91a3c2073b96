-- ===== src/Quota/Refresh/Stored.antt =====
-- What `finalizeAndPersistQuota` leaves of the account that was probed.
use agy_go.Prelude.{
  ◌≡◌, ◌↔◌, ◌⊎◌, refl, ap, ◌∙◌, true, false, String, Option, none, some, eq_iff, arith, Bool-cases,
  inl, inr,
}
use agy_go.Prelude.Int.{ℤ}
use agy_go.Go.Float.{Float64, IsIeee}
use agy_go.Storage.{Account, Pool, QuotaState, find_account, is_same_account}
use agy_go.Proxy.Failover.{map_some}
use agy_go.Proxy.Failover.Laws.{find_in-update_found}
use agy_go.Quota.Refresh.{
  same_text, same_float, is_as_probed, store_quota, recompute_compat_quota,
  finalize_and_persist_quota,
}
use agy_go.Quota.Refresh.Snapshot.{IsSnapshot, recompute_compat_quota-IsSnapshot}

same_text_iff : (a b : Option String) → (same_text a b ≡ true) ↔ (a ≡ b)
same_text_iff none none = (λ h. refl, λ h. refl)
same_text_iff none (some b) = ground arith
same_text_iff (some a) none = ground arith
same_text_iff (some a) (some b) = ground (arith, eq_iff a b)

module _ {F : Type 0} ⦃fl : Float64 F⦄ where
  -- Both are missing, or both are there and equal as numbers.
  abbrev pub AreSameTime : Option F → Option F → Type 0
  AreSameTime a b =
      ((a ≡ none) × (b ≡ none))
      ⊎ ((x : F) × (y : F) × (a ≡ some x) × (b ≡ some y) × (fl.eq x y ≡ true))

  same_float_iff : (a b : Option F) → (same_float a b ≡ true) ↔ AreSameTime a b
  same_float_iff none none = (λ h. inl (refl, refl), λ h. refl)
  same_float_iff none (some b) = ground arith
  same_float_iff (some a) none = ground arith
  same_float_iff (some a) (some b) = (λ h. inr (a, b, refl, refl, h), λ h. equal h)
    where
      equal : AreSameTime (some a) (some b) → fl.eq a b ≡ true
      equal (inl (e, d)) = absurd (cc e)
      equal (inr (x, y, e, d, h)) = cc

  -- The pool still holds the tokens and the restriction of the account as it was probed.
  pub record IsAsProbed (account stored : Account F) : Type 0 where
    pub access : stored.access_token ≡ account.access_token
    pub refresh : stored.refresh_token ≡ account.refresh_token
    pub status : stored.status ≡ account.status
    pub limit : AreSameTime stored.rate_limited_until account.rate_limited_until
    pub url : stored.validation_url ≡ account.validation_url

  probed_of_test :
      (account stored : Account F) → is_as_probed account stored ≡ true → IsAsProbed account stored
  probed_of_test account stored h = record {
    access = ground (arith, eq_iff stored.access_token account.access_token);
    refresh = ground (arith, eq_iff stored.refresh_token account.refresh_token);
    status = ground (arith, eq_iff stored.status account.status);
    limit = (same_float_iff stored.rate_limited_until account.rate_limited_until).0 (ground arith);
    url = (same_text_iff stored.validation_url account.validation_url).0 (ground arith);
  }

  test_of_probed :
      (account stored : Account F) → IsAsProbed account stored → is_as_probed account stored ≡ true
  test_of_probed account stored p = ground (
    arith,
    (eq_iff stored.access_token account.access_token).1 p.access,
    (eq_iff stored.refresh_token account.refresh_token).1 p.refresh,
    (eq_iff stored.status account.status).1 p.status,
    (same_float_iff stored.rate_limited_until account.rate_limited_until).1 p.limit,
    (same_text_iff stored.validation_url account.validation_url).1 p.url,
  )

  store_quota_same :
      (account : Account F) (q : QuotaState F) (a : Account F)
      → is_same_account account (store_quota account q a) ≡ is_same_account account a
  unfolding store_quota
  store_quota_same account q a = elim (Bool-cases (is_as_probed account a)) [
    | inl e ↦ rw e refl
    | inr e ↦ rw e refl
  ]

  -- The restriction is cleared if it is as probed, else it stays.
  abbrev pub Restriction : Account F → Account F → Account F → Type 0
  Restriction account stored after =
      (IsAsProbed account stored
        × (after.status ≡ "")
        × (after.rate_limited_until ≡ none)
        × (after.validation_url ≡ none))
      ⊎ ((¬ IsAsProbed account stored)
          × (after.status ≡ stored.status)
          × (after.rate_limited_until ≡ stored.rate_limited_until)
          × (after.validation_url ≡ stored.validation_url))

  store_quota-Restriction :
      (account stored : Account F) (q : QuotaState F)
      → Restriction account stored (store_quota account q stored)
        × ((store_quota account q stored).last_quota ≡ some q)
  unfolding store_quota
  store_quota-Restriction account stored q = elim (Bool-cases (is_as_probed account stored)) [
    | inl e ↦ rw e (inl (probed_of_test account stored e, refl, refl, refl), refl)
    | inr e ↦ rw e (inr (λ p. cc (e, test_of_probed account stored p), refl, refl, refl), refl)
  ]

  -- Where the pool holds the account, the transaction succeeds and float64 obeys IEEE 754, the account
  -- is found afterwards with a snapshot of the probed windows, dated now, whose legacy fraction is the
  -- least of the known fractions of the two Gemini windows, with that window's reset time, and is
  -- missing if none is known. Its status, cooldown and validation link are cleared if both tokens and
  -- these three are still those that the probe saw, and stay as they are if not.
  pub finalize_and_persist_quota_found :
      IsIeee F
      → (account stored : Account F) (q : QuotaState F) (now : ℤ) (pool : Pool F)
      → find_account (some pool) (some account) ≡ some stored
      → (after : Account F) × (find_account
            (some (finalize_and_persist_quota false account q now pool).1)
            (some account)
          ≡ some after)
        × ((lq : QuotaState F) × (after.last_quota ≡ some lq) × IsSnapshot q now lq)
        × Restriction account stored after
  unfolding find_account finalize_and_persist_quota
  finalize_and_persist_quota_found ieee account stored q now pool h =
      let dated : QuotaState F = record (recompute_compat_quota q) { updated_at = some now } in
      let found =
        find_in-update_found account (store_quota account dated) pool.accounts
          (store_quota_same account dated) in
      let (restriction, quota) = store_quota-Restriction account stored dated in
      (
        store_quota account dated stored,
        found ∙ ap (map_some (store_quota account dated)) h,
        (dated, quota, recompute_compat_quota-IsSnapshot ieee q now),
        restriction,
      )
