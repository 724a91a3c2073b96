-- ===== src/Proxy/Dispatch/Laws.antt =====
-- What one dispatch may do to the client's response, and when it lets another account try.
use agy_go.Prelude.{
  ◌≡◌, ◌≢◌, refl, ◌⊎◌, inl, inr, Bool, true, false, ◌||◌, Option, none, some, arith, ltb,
  Bool-cases, ◌≤◌,
}
use agy_go.Go.Float.{Float64}
use agy_go.Go.Text.{Text}
use agy_go.Storage.{Account, Pool}
use agy_go.Proxy.Commitment.{
  ResponseCommitter, HasResponded, http_error-HasResponded, send_buffered-HasResponded,
  failover_next, terminal, client_gone, request_creation_failed, Failure,
}
use agy_go.Proxy.Stream.{send_stream, send_stream-HasResponded}
use agy_go.Proxy.Classify.{is_quota_error, is_validation_error, is_auth_error}
use agy_go.Proxy.Dispatch.{
  Attempt, Response, Reply, response, no_response, Refresh, refreshed, refused, Body, whole,
  unreadable, Backend, Result, read_error_body, read_body, on_error, on_refusal, on_success,
  on_reply, on_refresh, dispatch_account,
}

-- The three ways in which a dispatch leaves the response `c`.
pub data Verdict {F : Type 0} (c : ResponseCommitter) (r : Result F) : Type 0 where
  -- Another account may try, and nothing has been written.
  retry : r.outcome.action ≡ failover_next → r.client ≡ c → Verdict c r
  -- The client has got its one response.
  answered : r.outcome.action ≡ terminal → HasResponded c r.client → Verdict c r
  -- The client has gone, or no request could be made: nothing has been written, and that is the end.
  silent :
      r.outcome.action ≡ terminal
      → r.client ≡ c
      → (r.outcome.reason ≡ client_gone) ⊎ (r.outcome.reason ≡ request_creation_failed)
      → Verdict c r

module _ ⦃tx : Text⦄ (backend : Backend) where
  -- An answer that allows another attempt: a complete refusal by the backend that names the account.
  pub record IsRetryable (r : Response) : Type 0 where
    pub refused_status : 400 ≤ r.status
    pub complete : read_error_body r ≡ whole
    pub marked :
        (is_validation_error r.status (backend.text_of r.body)
          || (is_quota_error r.status (backend.text_of r.body)
              || is_auth_error r.status (backend.text_of r.body)))
        ≡ true

module _ {F : Type 0} ⦃fl : Float64 F⦄ ⦃tx : Text⦄ (backend : Backend) where
  on_error-Verdict :
      (at : Attempt) (acc : Account F) (r : Response) (pool : Pool F) (c : ResponseCommitter)
      → Verdict c (on_error backend at acc r pool c)
  unfolding on_error
  on_error-Verdict at acc r pool c =
      elim (Bool-cases (is_validation_error r.status (backend.text_of r.body))) [
        | inl v ↦ rw (v, on_error) (retry refl refl)
        | inr v ↦ elim (Bool-cases (is_quota_error r.status (backend.text_of r.body))) [
          | inl q ↦ rw (v, q, on_error) (retry refl refl)
          | inr q ↦ elim (Bool-cases (is_auth_error r.status (backend.text_of r.body))) [
            | inl a ↦ rw (v, q, a, on_error) (retry refl refl)
            | inr a ↦ rw (v, q, a, on_error) (answered refl (send_buffered-HasResponded c _ _))
          ]
        ]
      ]

  on_refusal-Verdict :
      (at : Attempt) (acc : Account F) (r : Response) (pool : Pool F) (c : ResponseCommitter)
      → Verdict c (on_refusal backend at acc r pool c)
  unfolding on_refusal
  on_refusal-Verdict at acc r pool c = go (read_error_body r) refl
    where
      go : (b : Body) → read_error_body r ≡ b → Verdict c (on_refusal backend at acc r pool c)
      go (unreadable code) e = rw (e, on_refusal) (answered refl (http_error-HasResponded c _ code))
      go whole e = elim (Bool-cases (ltb r.status 400)) [
        | inl l ↦ rw (e, l, on_refusal) (answered refl (send_buffered-HasResponded c _ _))
        | inr l ↦ rw (e, l, on_refusal) (on_error-Verdict at acc r pool c)
      ]

  on_success-Verdict :
      (at : Attempt) (is_generation is_sse : Bool) (acc : Account F) (r : Response) (pool : Pool F)
      (c : ResponseCommitter)
      → Verdict c (on_success backend at is_generation is_sse acc r pool c)
  unfolding on_success
  on_success-Verdict at is_generation is_sse acc r pool c =
      elim (Bool-cases (is_sse || tx.contains (tx.to_lower r.content_type) "text/event-stream")) [
        | inl s ↦
            streamed s (send_stream c r.status r.content_length r.body r.ending at.takes).1 refl
        | inr s ↦ buffered s (read_body r) refl
      ]
    where
      streamed :
          (is_sse || tx.contains (tx.to_lower r.content_type) "text/event-stream") ≡ true
          → (o : Option Failure)
          → (send_stream c r.status r.content_length r.body r.ending at.takes).1 ≡ o
          → Verdict c (on_success backend at is_generation is_sse acc r pool c)
      streamed s none e =
          rw (s, e, on_success)
            (answered refl
              (send_stream-HasResponded c r.status r.content_length r.body r.ending at.takes))
      streamed s (some f) e =
          rw (s, e, on_success)
            (answered refl
              (send_stream-HasResponded c r.status r.content_length r.body r.ending at.takes))

      buffered :
          (is_sse || tx.contains (tx.to_lower r.content_type) "text/event-stream") ≡ false
          → (b : Body) → read_body r ≡ b
          → Verdict c (on_success backend at is_generation is_sse acc r pool c)
      buffered s (unreadable code) e =
          rw (s, e, on_success) (answered refl (http_error-HasResponded c _ code))
      buffered s whole e = rw (s, e, on_success) (answered refl (send_buffered-HasResponded c _ _))

  on_reply-Verdict :
      (at : Attempt) (is_generation is_sse : Bool) (acc : Account F) (reply : Reply) (pool : Pool F)
      (c : ResponseCommitter)
      → Verdict c (on_reply backend at is_generation is_sse acc reply pool c)
  unfolding on_reply
  on_reply-Verdict at is_generation is_sse acc (no_response true timeout) pool c =
      silent refl refl (inl refl)
  on_reply-Verdict at is_generation is_sse acc (no_response false timeout) pool c =
      answered refl (http_error-HasResponded c _ _)
  on_reply-Verdict at is_generation is_sse acc (response r) pool c =
      elim (Bool-cases (ltb r.status 300)) [
        | inl l ↦ rw (l, on_reply) (on_success-Verdict at is_generation is_sse acc r pool c)
        | inr l ↦ rw (l, on_reply) (on_refusal-Verdict at acc r pool c)
      ]

  on_refresh-Verdict :
      (at : Attempt) (is_generation is_sse : Bool) (acc : Account F) (refresh : Refresh)
      (pool : Pool F) (c : ResponseCommitter)
      → Verdict c (on_refresh backend at is_generation is_sse acc refresh pool c)
  unfolding on_refresh
  on_refresh-Verdict at is_generation is_sse acc (refused invalid) pool c = retry refl refl
  on_refresh-Verdict at is_generation is_sse acc refreshed pool c =
      elim (Bool-cases at.request_made) [
        | inl m ↦ rw (m, on_refresh) (on_reply-Verdict at is_generation is_sse acc at.reply pool c)
        | inr m ↦ rw (m, on_refresh) (silent refl refl (inr refl))
      ]

  -- A dispatch that lets another account try has written nothing to the client; one that ends the
  -- request has begun exactly one response, unless the client had gone or no request could be made.
  pub dispatch_account-Verdict :
      (at : Attempt) (is_generation is_sse : Bool) (acc : Account F) (pool : Pool F)
      (c : ResponseCommitter)
      → Verdict c (dispatch_account backend at is_generation is_sse acc pool c)
  unfolding dispatch_account
  dispatch_account-Verdict at is_generation is_sse acc pool c =
      on_refresh-Verdict at is_generation is_sse acc at.refresh pool c

  retry_of_error :
      (at : Attempt) (acc : Account F) (r : Response) (pool : Pool F) (c : ResponseCommitter)
      → (on_error backend at acc r pool c).outcome.action ≡ failover_next
      → (is_validation_error r.status (backend.text_of r.body)
          || (is_quota_error r.status (backend.text_of r.body)
              || is_auth_error r.status (backend.text_of r.body)))
        ≡ true
  unfolding on_error
  retry_of_error at acc r pool c h = ground arith

  retry_of_refusal :
      (at : Attempt) (acc : Account F) (r : Response) (pool : Pool F) (c : ResponseCommitter)
      (b : Body)
      → read_error_body r ≡ b
      → (on_refusal backend at acc r pool c).outcome.action ≡ failover_next
      → IsRetryable backend r
  unfolding on_refusal
  retry_of_refusal at acc r pool c (unreadable code) e h = absurd (cc (rw (e, on_refusal) at h))
  retry_of_refusal at acc r pool c whole e h = elim (Bool-cases (ltb r.status 400)) [
    | inl l ↦ absurd (cc (rw (e, l, on_refusal) at h))
    | inr l ↦ record {
      refused_status = ground arith;
      complete = e;
      marked = retry_of_error at acc r pool c (rw (e, l, on_refusal) at h);
    }
  ]

  terminal_of_success :
      (at : Attempt) (is_generation is_sse : Bool) (acc : Account F) (r : Response) (pool : Pool F)
      (c : ResponseCommitter)
      → (o : Option Failure)
      → (send_stream c r.status r.content_length r.body r.ending at.takes).1 ≡ o
      → (b : Body) → read_body r ≡ b
      → (on_success backend at is_generation is_sse acc r pool c).outcome.action ≡ terminal
  unfolding on_success
  terminal_of_success at is_generation is_sse acc r pool c o e b e' =
      elim (Bool-cases (is_sse || tx.contains (tx.to_lower r.content_type) "text/event-stream")) [
        | inl s ↦ streamed s o e
        | inr s ↦ buffered s b e'
      ]
    where
      streamed :
          (is_sse || tx.contains (tx.to_lower r.content_type) "text/event-stream") ≡ true
          → (o : Option Failure)
          → (send_stream c r.status r.content_length r.body r.ending at.takes).1 ≡ o
          → (on_success backend at is_generation is_sse acc r pool c).outcome.action ≡ terminal
      streamed s none e = rw (s, e, on_success) refl
      streamed s (some f) e = rw (s, e, on_success) refl

      buffered :
          (is_sse || tx.contains (tx.to_lower r.content_type) "text/event-stream") ≡ false
          → (b : Body) → read_body r ≡ b
          → (on_success backend at is_generation is_sse acc r pool c).outcome.action ≡ terminal
      buffered s (unreadable code) e = rw (s, e, on_success) refl
      buffered s whole e = rw (s, e, on_success) refl

  retry_of_reply :
      (at : Attempt) (is_generation is_sse : Bool) (acc : Account F) (reply : Reply) (pool : Pool F)
      (c : ResponseCommitter)
      → (on_reply backend at is_generation is_sse acc reply pool c).outcome.action ≡ failover_next
      → (r : Response) × (reply ≡ response r) × IsRetryable backend r
  unfolding on_reply
  retry_of_reply at is_generation is_sse acc (no_response true timeout) pool c h = absurd (cc h)
  retry_of_reply at is_generation is_sse acc (no_response false timeout) pool c h = absurd (cc h)
  retry_of_reply at is_generation is_sse acc (response r) pool c h =
      elim (Bool-cases (ltb r.status 300)) [
        | inl l ↦ absurd (served (rw (l, on_reply) at h))
        | inr l ↦ (r, refl, retry_of_refusal at acc r pool c _ refl (rw (l, on_reply) at h))
      ]
    where
      served :
          (on_success backend at is_generation is_sse acc r pool c).outcome.action ≢ failover_next
      served e = cc (e, terminal_of_success at is_generation is_sse acc r pool c _ refl _ refl)

  retry_of_refresh :
      (at : Attempt) (is_generation is_sse : Bool) (acc : Account F) (refresh : Refresh)
      (pool : Pool F) (c : ResponseCommitter)
      → (on_refresh backend at is_generation is_sse acc refresh pool c).outcome.action
        ≡ failover_next
      → ((invalid : Bool) × (refresh ≡ refused invalid))
        ⊎ ((r : Response) × (at.reply ≡ response r) × IsRetryable backend r)
  unfolding on_refresh
  retry_of_refresh at is_generation is_sse acc (refused invalid) pool c h = inl (invalid, refl)
  retry_of_refresh at is_generation is_sse acc refreshed pool c h =
      elim (Bool-cases at.request_made) [
        | inl m ↦
            inr
              (retry_of_reply at is_generation is_sse acc at.reply pool c (rw (m, on_refresh) at h))
        | inr m ↦ absurd (cc (rw (m, on_refresh) at h))
      ]

  -- Where a dispatch lets another account try, either the token refresh was refused, or the backend
  -- refused the request completely, with status 400 or more and a mark of a validation, quota or auth
  -- error.
  pub dispatch_account-failover :
      (at : Attempt) (is_generation is_sse : Bool) (acc : Account F) (pool : Pool F)
      (c : ResponseCommitter)
      → (dispatch_account backend at is_generation is_sse acc pool c).outcome.action ≡ failover_next
      → ((invalid : Bool) × (at.refresh ≡ refused invalid))
        ⊎ ((r : Response) × (at.reply ≡ response r) × IsRetryable backend r)
  unfolding dispatch_account
  dispatch_account-failover at is_generation is_sse acc pool c h =
      retry_of_refresh at is_generation is_sse acc at.refresh pool c h
