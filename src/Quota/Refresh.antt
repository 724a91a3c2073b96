-- ===== src/Quota/Refresh.antt =====
-- internal/quota/refresh.go and `NextBackoffDelay` of quota.go: the background refresh of quotas. One
-- worker runs for an account at a time, and a failure puts the next attempt off. A Go map is a function;
-- what the workers ask over the network is their outcome.
pub mod Laws
pub mod Snapshot
pub mod Stored
use agy_go.Prelude.{
  ◌≡◌, ℕ, ◌+◌, Bool, true, false, not, ◌&&◌, ◌||◌, String, List, [], ◌∷◌, ◌++◌, Option, none, some,
  str_eq, if◌then◌else◌, ◌==◌,
}
use agy_go.Prelude.Int.{ℤ, pos}
use agy_go.Go.Float.{Float64}
use agy_go.Storage.{
  Account, Pool, QuotaState, QuotaWindow, AnyValue, nil, find_account, update_found,
}

-- In seconds; an attempt is never negative here.
unfoldable pub next_backoff_delay : ℕ → ℕ
next_backoff_delay attempt =
    if attempt == 0
    then 30
    else (if attempt == 1
        then 60
        else (if attempt == 2 then 120 else (if attempt == 3 then 240 else 300)))

pub record RetryEntry (F : Type 0) : Type 0 where
  pub attempt : ℕ
  pub next_at : F

-- A worker before and after it has recorded how its query went.
pub data Worker : Type 0 where
  querying recorded : String → Worker

pub record RefreshState (F : Type 0) : Type 0 where
  pub in_flight : String → Bool
  pub retry : String → Option (RetryEntry F)
  pub workers : List Worker

abbrev pub put : {A : Type 0} → (String → A) → String → A → String → A
put f k v j = if str_eq k j then v else f j

unfoldable pub reset_refresh_state : {F : Type 0} → RefreshState F
reset_refresh_state = record { in_flight = λ k. false; retry = λ k. none; workers = [] }

-- The account's key, "" if it has none.
abbrev pub key_of : {F : Type 0} → Account F → String
key_of a = if str_eq a.id "" then a.email else a.id

abbrev same_text : Option String → Option String → Bool
same_text none none = true
same_text (some a) (some b) = str_eq a b
same_text _ _ = false

module _ {F : Type 0} ⦃fl : Float64 F⦄ where
  abbrev is_waiting : Option (RetryEntry F) → F → Bool
  is_waiting none now = false
  is_waiting (some e) now = fl.lt now e.next_at

  -- Whether a refresh is started, and the state with its worker.
  unfoldable pub schedule_quota_refresh : Account F → F → RefreshState F → Bool × RefreshState F
  schedule_quota_refresh account now st =
      let key = key_of account in
      if str_eq key ""
      then (false, st)
      else (if st.in_flight key
          then (false, st)
          else (if is_waiting (st.retry key) now then (false, st) else (
            true,
            record st {
              in_flight = put st.in_flight key true;
              workers = querying key ∷ st.workers;
            },
          )))

  abbrev attempt_of : Option (RetryEntry F) → ℕ
  attempt_of none = 0
  attempt_of (some e) = e.attempt

  -- The first of the worker's two sections under the lock, at the time `now`.
  unfoldable pub record_outcome : String → Bool → ℤ → RefreshState F → RefreshState F
  unfolding next_backoff_delay
  record_outcome key failed now st =
      let attempt = attempt_of (st.retry key) in
      let next = fl.add (fl.of_int now) (fl.of_int (pos (next_backoff_delay attempt))) in
      record st {
        retry =
            put st.retry key
              (if failed then some (record { attempt = attempt + 1; next_at = next }) else none);
      }

  -- The deferred second section.
  unfoldable pub release : String → RefreshState F → RefreshState F
  release key st = record st { in_flight = put st.in_flight key false }

  -- Sections under the lock happen one after another, of the callers and of all workers.
  pub data Step (st : RefreshState F) : RefreshState F → Type 0 where
    schedules : (account : Account F) (now : F) → Step st (schedule_quota_refresh account now st).1
    records :
        (front back : List Worker) (key : String) (failed : Bool) (now : ℤ)
        → st.workers ≡ front ++ (querying key ∷ back)
        → Step st
            (record (record_outcome key failed now st) { workers = front ++ (recorded key ∷ back) })
    releases :
        (front back : List Worker) (key : String)
        → st.workers ≡ front ++ (recorded key ∷ back)
        → Step st (record (release key st) { workers = front ++ back })

  pub data Reach (st : RefreshState F) : RefreshState F → Type 0 where
    here : Reach st st
    next : {t u : RefreshState F} → Reach st t → Step t u → Reach st u

  -- A window with a known fraction.
  abbrev known_window : Option (QuotaWindow F) → Option (F × AnyValue F)
  known_window none = none
  known_window (some w) = elim w.fraction [ none ↦ none | some f ↦ some (f, w.reset_time) ]

  -- The least of the known windows, the first of equals.
  abbrev least : Option (F × AnyValue F) → Option (F × AnyValue F) → Option (F × AnyValue F)
  least none w = w
  least (some v) none = some v
  least (some v) (some w) = if fl.lt w.0 v.0 then some w else some v

  unfoldable pub recompute_compat_quota : QuotaState F → QuotaState F
  recompute_compat_quota q =
      elim (least (known_window q.gemini_5h) (known_window q.gemini_weekly)) [
        | none ↦ record q { remaining_fraction = none; reset_time = nil }
        | some (f, r) ↦ record q { remaining_fraction = some f; reset_time = r }
      ]

  abbrev same_float : Option F → Option F → Bool
  same_float none none = true
  same_float (some a) (some b) = fl.eq a b
  same_float _ _ = false

  -- The account of the pool has the tokens and the restriction that the probe saw.
  abbrev is_as_probed : Account F → Account F → Bool
  is_as_probed account stored =
      str_eq stored.access_token account.access_token
      && (str_eq stored.refresh_token account.refresh_token
          && (str_eq stored.status account.status
              && (same_float stored.rate_limited_until account.rate_limited_until
                  && same_text stored.validation_url account.validation_url)))

  unfoldable pub store_quota : Account F → QuotaState F → Account F → Account F
  store_quota account q stored =
      let kept = record stored { last_quota = some q } in
      if is_as_probed account stored
      then record kept { status = ""; rate_limited_until = none; validation_url = none }
      else kept

  -- `true` is the error; `now` is `time.Now().Unix()`.
  unfoldable pub finalize_and_persist_quota :
      Bool → Account F → QuotaState F → ℤ → Pool F → Bool × Pool F
  unfolding recompute_compat_quota store_quota update_found
  finalize_and_persist_quota fails account q now pool =
      let dated = record (recompute_compat_quota q) { updated_at = some now } in
      if fails then (true, pool) else (
        false,
        record pool { accounts = update_found account (store_quota account dated) pool.accounts },
      )
