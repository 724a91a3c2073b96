-- ===== src/Proxy/Handle.antt =====
-- internal/proxy/proxy.go: `HandleProxy` from the loaded pool on, with the order of the candidates and
-- the loop over them. The trace of the dispatches is kept beside the result.
pub mod Laws
use agy_go.Prelude.{
  ◌≡◌, refl, ℕ, suc, Bool, true, false, not, ◌&&◌, ◌||◌, String, List, [], ◌∷◌, Option, none, some,
  arith, str_eq, if◌then◌else◌, ltb, map,
}
use agy_go.Prelude.Int.{ℤ}
use agy_go.Go.Float.{Float64}
use agy_go.Go.Text.{Text}
use agy_go.Go.Sort.{slice_stable}
use agy_go.Storage.{Account, Pool}
use agy_go.Storage.Reserve.{Faults, reserve_round_robin_candidates}
use agy_go.Scheduler.{is_restricted, is_cooling, order_candidates}
use agy_go.Proxy.Commitment.{
  ResponseCommitter, new_response_committer, is_committed, Failure, all_exhausted, no_accounts,
  bad_request, http_error, DispatchAction, failover_next, terminal, DispatchOutcome,
}
use agy_go.Proxy.Dispatch.{Attempt, Backend, Result, dispatch_account}

-- How the request ended, with every dispatch and its outcome in order.
pub record Run (F : Type 0) : Type 0 where
  pub pool : Pool F
  pub client : ResponseCommitter
  pub trace : List (Account F × DispatchOutcome)

abbrev last_error : Option Failure → Option Failure → Option Failure
last_error before none = before
last_error before (some e) = some e

abbrev active_id_of : Option String → String
active_id_of none = ""
active_id_of (some s) = s

abbrev strategy_of : String → String
strategy_of s = if str_eq s "" then "max_quota" else s

module _ {F : Type 0} where
  abbrev pub ended : Pool F → ResponseCommitter → Run F
  ended pool client = record { pool = pool; client = client; trace = [] }

  abbrev pub log : Account F × DispatchOutcome → Run F → Run F
  log entry run = record run { trace = entry ∷ run.trace }

  -- Whether the loop dispatches with the account.
  abbrev pub is_tried : Bool → Account F → Bool
  is_tried is_generation acc = not (is_generation && is_restricted (some acc))

  -- After the loop.
  unfoldable pub exhausted : Option Failure → Pool F → ResponseCommitter → Run F
  unfolding is_committed http_error
  exhausted err pool client =
      ended pool (if is_committed client then client else http_error client (all_exhausted err) 503)

  -- What follows a dispatch: the next candidate, by `next`, or the end.
  unfoldable pub after :
      (Option Failure → Pool F → ResponseCommitter → Run F)
      → Option Failure
      → Account F
      → Result F
      → Run F
  unfolding is_committed
  after next err acc r =
      log (acc, r.outcome)
        (elim (is_committed r.client) [
          | true ↦ ended r.pool r.client
          | false ↦ elim r.outcome.action [
            | failover_next ↦ next (last_error err r.outcome.err) r.pool r.client
            | terminal ↦ ended r.pool r.client
          ]
        ])

module _ {F : Type 0} ⦃fl : Float64 F⦄ where
  -- `score` in the order of a request that generates nothing.
  unfoldable pub score : String → F → Account F → ℕ
  unfolding is_restricted is_cooling
  score active_id now a =
      if is_restricted (some a)
      then 3
      else (if is_cooling a now then 2 else (if str_eq a.id active_id then 0 else 1))

  unfoldable pub other_candidates : Pool F → F → List (Account F)
  unfolding score
  other_candidates pool now =
      let active_id = active_id_of pool.active_account_id in
      slice_stable (λ a b. ltb (score active_id now a) (score active_id now b)) pool.accounts

module _ {F : Type 0} ⦃fl : Float64 F⦄ ⦃tx : Text⦄ where
  -- The candidates of the request, and the pool in which the rotation has moved on.
  unfoldable pub candidates_for : Faults → Bool → F → Pool F → List (Account F) × Pool F
  unfolding other_candidates order_candidates reserve_round_robin_candidates
  candidates_for faults is_generation now pool =
      let strategy = strategy_of pool.strategy in
      let ordered = order_candidates (map some pool.accounts) strategy (some pool) now in
      if not is_generation
      then (other_candidates pool now, pool)
      else (if str_eq strategy "round_robin"
          then (let reserved = reserve_round_robin_candidates order_candidates faults now pool in
              elim reserved.0 [ some cs ↦ (cs, reserved.1) | none ↦ (ordered, reserved.1) ])
          else (ordered, pool))

module _ {F : Type 0} ⦃fl : Float64 F⦄ ⦃tx : Text⦄ (backend : Backend) (world : ℕ → Attempt)
    (is_generation is_sse : Bool) where
  -- The loop over the candidates. `attempt` numbers the attempts made so far; `world n` is what
  -- happens outside during the n-th.
  unfoldable pub serve : ℕ → Option Failure → List (Account F) → Pool F → ResponseCommitter → Run F
  unfolding exhausted after dispatch_account
  serve attempt err [] pool client = exhausted err pool client
  serve attempt err (acc ∷ rest) pool client = elim (is_tried is_generation acc) [
    | false ↦ serve attempt err rest pool client
    | true ↦
        after (λ e p cl. serve (suc attempt) e rest p cl) err acc
          (dispatch_account backend (world (suc attempt)) is_generation is_sse acc pool client)
  ]

  -- With the accounts of the loaded pool.
  unfoldable pub handle_loaded : List (Account F) → Faults → F → Pool F → Run F
  unfolding serve candidates_for new_response_committer http_error
  handle_loaded [] faults now pool = ended pool (http_error new_response_committer no_accounts 503)
  handle_loaded (_ ∷ _) faults now pool =
      let chosen = candidates_for faults is_generation now pool in
      serve 0 none chosen.0 chosen.1 new_response_committer

  -- `unread` is the status for a body that could not be read.
  unfoldable pub handle_proxy : Option ℕ → Bool → Faults → F → Pool F → Run F
  unfolding handle_loaded
  handle_proxy (some status) load_fails faults now pool =
      ended pool (http_error new_response_committer bad_request status)
  handle_proxy none true faults now pool =
      ended pool (http_error new_response_committer no_accounts 503)
  handle_proxy none false faults now pool = handle_loaded pool.accounts faults now pool
