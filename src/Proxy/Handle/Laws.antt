-- ===== src/Proxy/Handle/Laws.antt =====
-- The loop over the candidates: no replay, one response, every candidate its turn.
use agy_go.Prelude.{
  ◌≡◌, refl, ap, ◌⊎◌, inl, inr, ℕ, suc, Bool, true, false, List, [], ◌∷◌, ◌++◌, Option, none, some,
  Bool-cases, map, select, All,
}
use agy_go.Go.Float.{Float64}
use agy_go.Go.Text.{Text}
use agy_go.Storage.{Account, Pool}
use agy_go.Storage.Reserve.{Faults}
use agy_go.Proxy.Commitment.{
  ResponseCommitter, is_committed, new_response_committer, HasResponded, http_error-HasResponded,
  failover_next, terminal, DispatchOutcome, Failure, client_gone, request_creation_failed,
}
use agy_go.Proxy.Dispatch.{Attempt, Backend, Result}
use agy_go.Proxy.Dispatch.Laws.{Verdict, retry, answered, silent, dispatch_account-Verdict}
use agy_go.Proxy.Handle.{
  Run, log, is_tried, ended, exhausted, after, candidates_for, serve, handle_loaded, handle_proxy,
}

module _ {F : Type 0} where
  -- Every dispatch but the last let another account try.
  abbrev pub IsRelay : List (Account F × DispatchOutcome) → Type 0
  IsRelay [] = Unit
  IsRelay (e ∷ []) = Unit
  IsRelay (e ∷ f ∷ rest) = (e.1.action ≡ failover_next) × IsRelay (f ∷ rest)

  -- The last dispatch ended the request without an answer.
  abbrev pub IsSilent : List (Account F × DispatchOutcome) → Type 0
  IsSilent [] = ⊥
  IsSilent (e ∷ []) =
      (e.1.action ≡ terminal)
      × ((e.1.reason ≡ client_gone) ⊎ (e.1.reason ≡ request_creation_failed))
  IsSilent (e ∷ f ∷ rest) = IsSilent (f ∷ rest)

  -- The end of a request: one response at most, and none only in silence.
  pub record IsHandled (run : Run F) : Type 0 where
    pub one_response :
        HasResponded new_response_committer run.client
        ⊎ ((run.client ≡ new_response_committer) × IsSilent run.trace)
    pub relay : IsRelay run.trace

module _ {F : Type 0} (is_generation : Bool) where
  -- The end of a request that finds the writer as `c` and has `candidates` to try.
  pub record IsServed (candidates : List (Account F)) (c : ResponseCommitter) (run : Run F)
      : Type 0 where
    -- Only a dispatch that let another account try was followed by another one.
    pub relay : IsRelay run.trace
    pub one_response : HasResponded c run.client ⊎ ((run.client ≡ c) × IsSilent run.trace)
    -- The accounts are the first of those that may be tried.
    pub in_order :
        (later : List (Account F)) × (map (λ e. e.0) run.trace ++ later
          ≡ select (is_tried is_generation) candidates)
    pub all_tried :
        All (λ e. e.1.action ≡ failover_next) run.trace
        → map (λ e. e.0) run.trace ≡ select (is_tried is_generation) candidates

  IsRelay-log :
      (e : Account F × DispatchOutcome) (t : List (Account F × DispatchOutcome))
      → e.1.action ≡ failover_next
      → IsRelay t
      → IsRelay (e ∷ t)
  IsRelay-log e [] h k = tt
  IsRelay-log e (f ∷ rest) h k = (h, k)

  IsSilent-log :
      (e : Account F × DispatchOutcome) (t : List (Account F × DispatchOutcome))
      → IsSilent t
      → IsSilent (e ∷ t)
  IsSilent-log e [] k = absurd k
  IsSilent-log e (f ∷ rest) k = k

  skipped :
      (acc : Account F) (rest : List (Account F)) (c : ResponseCommitter) (run : Run F)
      → is_tried is_generation acc ≡ false
      → IsServed rest c run
      → IsServed (acc ∷ rest) c run
  skipped acc rest c run h s = record {
    relay = s.relay;
    one_response = s.one_response;
    in_order = rw h s.in_order;
    all_tried = rw h s.all_tried;
  }

  followed :
      (acc : Account F) (o : DispatchOutcome) (rest : List (Account F)) (c : ResponseCommitter)
      (run : Run F)
      → is_tried is_generation acc ≡ true
      → o.action ≡ failover_next
      → IsServed rest c run
      → IsServed (acc ∷ rest) c (log (acc, o) run)
  followed acc o rest c run h f s = record {
    relay = IsRelay-log (acc, o) run.trace f s.relay;
    one_response = elim s.one_response [
      | inl r ↦ inl (record { committed = r.committed; one_header = r.one_header })
      | inr q ↦ inr (q.0, IsSilent-log (acc, o) run.trace q.1)
    ];
    in_order = rw h (s.in_order.0, ap (λ xs. acc ∷ xs) s.in_order.1);
    all_tried = λ a. rw h (ap (λ xs. acc ∷ xs) (s.all_tried a.1));
  }

  finished :
      (acc : Account F) (o : DispatchOutcome) (rest : List (Account F))
      (c client : ResponseCommitter) (pool : Pool F)
      → is_tried is_generation acc ≡ true
      → o.action ≡ terminal
      → HasResponded c client ⊎ ((client ≡ c) × IsSilent ((acc, o) ∷ []))
      → IsServed (acc ∷ rest) c (log (acc, o) (ended pool client))
  finished acc o rest c client pool h t r = record {
    relay = tt;
    one_response = r;
    in_order = rw h (select (is_tried is_generation) rest, refl);
    all_tried = λ a. absurd (cc (a.0, t));
  }

new_uncommitted : is_committed new_response_committer ≡ false
unfolding is_committed new_response_committer
new_uncommitted = refl

module _ {F : Type 0} (is_generation : Bool) (rest : List (Account F)) (c : ResponseCommitter)
    (fresh : is_committed c ≡ false) (next : Option Failure → Pool F → ResponseCommitter → Run F)
    (served : (e : Option Failure) (p : Pool F) → IsServed is_generation rest c (next e p c)) where
  -- One dispatch, with what follows it.
  after-IsServed :
      (err : Option Failure) (acc : Account F) (r : Result F)
      → is_tried is_generation acc ≡ true
      → Verdict c r
      → IsServed is_generation (acc ∷ rest) c (after next err acc r)
  unfolding after
  after-IsServed err acc r h (retry a k) =
      simp (k, fresh, a, after)
        (followed is_generation acc r.outcome rest c _ h a (served _ r.pool))
  after-IsServed err acc r h (answered a k) =
      simp (k.committed, after)
        (finished is_generation acc r.outcome rest c r.client r.pool h a (inl k))
  after-IsServed err acc r h (silent a k s) =
      simp (k, fresh, a, after)
        (finished is_generation acc r.outcome rest c c r.pool h a (inr (refl, (a, s))))

module _ {F : Type 0} ⦃fl : Float64 F⦄ ⦃tx : Text⦄ (backend : Backend) (world : ℕ → Attempt)
    (is_generation is_sse : Bool) where
  -- From a writer that nothing has been written to, the loop serves the request: a dispatch follows
  -- another one only if that let it, exactly one response is begun unless the last dispatch ended in
  -- silence, the accounts are tried in the order of the candidates, and if all let another one try,
  -- then every candidate that may be tried was.
  pub serve-IsServed :
      (attempt : ℕ) (err : Option Failure) (candidates : List (Account F)) (pool : Pool F)
      (c : ResponseCommitter)
      → is_committed c ≡ false
      → IsServed is_generation candidates c
          (serve backend world is_generation is_sse attempt err candidates pool c)
  unfolding serve exhausted
  serve-IsServed attempt err [] pool c fresh =
      rw (fresh, serve, exhausted)
        record {
          relay = tt;
          one_response = inl (http_error-HasResponded c _ 503);
          in_order = ([], refl);
          all_tried = λ a. refl;
        }
  serve-IsServed attempt err (acc ∷ rest) pool c fresh =
      elim (Bool-cases (is_tried is_generation acc)) [
        | inl h ↦
            rw (h, serve)
              (after-IsServed is_generation rest c fresh
                (λ e p cl. serve backend world is_generation is_sse (suc attempt) e rest p cl)
                (λ e p. serve-IsServed (suc attempt) e rest p c fresh) err acc _ h
                (dispatch_account-Verdict backend (world (suc attempt)) is_generation is_sse acc
                  pool c))
        | inr h ↦
            rw (h, serve)
              (skipped is_generation acc rest c _ h (serve-IsServed attempt err rest pool c fresh))
      ]

  handle_loaded-IsHandled :
      (accounts : List (Account F)) (faults : Faults) (now : F) (pool : Pool F)
      → IsHandled (handle_loaded backend world is_generation is_sse accounts faults now pool)
  unfolding handle_loaded
  handle_loaded-IsHandled [] faults now pool = record {
    one_response = inl (http_error-HasResponded _ _ _);
    relay = tt;
  }
  handle_loaded-IsHandled (a ∷ rest) faults now pool =
      let chosen = candidates_for faults is_generation now pool in
      let s = serve-IsServed 0 none chosen.0 chosen.1 new_response_committer new_uncommitted in
      record { one_response = s.one_response; relay = s.relay }

  -- Every request, however its body, the pool and the backend behave, ends with exactly one begun
  -- response, unless its last dispatch found that the client had gone or that no request could be
  -- made; and the request is sent again only after a dispatch that lets another account try.
  pub handle_proxy-IsHandled :
      (unread : Option ℕ) (load_fails : Bool) (faults : Faults) (now : F) (pool : Pool F)
      → IsHandled
          (handle_proxy backend world is_generation is_sse unread load_fails faults now pool)
  unfolding handle_proxy
  handle_proxy-IsHandled (some status) load_fails faults now pool = record {
    one_response = inl (http_error-HasResponded _ _ _);
    relay = tt;
  }
  handle_proxy-IsHandled none true faults now pool = record {
    one_response = inl (http_error-HasResponded _ _ _);
    relay = tt;
  }
  handle_proxy-IsHandled none false faults now pool =
      handle_loaded-IsHandled pool.accounts faults now pool
