-- ===== src/Proxy/Dispatch.antt =====
-- internal/proxy/proxy.go: `dispatchAccount`, one attempt with one account. What the outside does in
-- the attempt is a value of `Attempt`. Logging, audit events and metrics are left out: nothing that
-- the function decides depends on them.
pub mod Laws
use Prim.Native.String.{len}
use agy_go.Prelude.{
  ◌≡◌, refl, ℕ, ◌+◌, Bool, true, false, not, ◌&&◌, ◌||◌, String, List, [], ◌∷◌, Option, none, some,
  arith, str_eq, if◌then◌else◌, ltb, ◌*◌,
}
use agy_go.Prelude.Int.{ℤ}
use agy_go.Go.Float.{Float64}
use agy_go.Go.Text.{Text, Instant}
use agy_go.Storage.{Account, Pool}
use agy_go.Proxy.Commitment.{
  ResponseCommitter, Failure, token_refresh, invalid_credentials, request_creation,
  client_disconnected, ambiguous_transport, persistence, committed_stream, body_read,
  upstream_request_failed, response_incomplete, http_error, send_buffered, DispatchAction,
  failover_next, terminal, Reason, token_refresh_failed, request_creation_failed, client_gone,
  ambiguous_transport_failure, body_read_error, upstream_redirect, validation_error,
  quota_exhausted, auth_failure, explicit_non_retryable, committed_stream_truncated,
  committed_stream_success, terminal_success, DispatchOutcome,
}
use agy_go.Proxy.Stream.{BodyEnd, eof, broken, send_stream}
use agy_go.Proxy.Classify.{is_quota_error, is_validation_error, is_auth_error}
use agy_go.Proxy.Failover.{
  record_success, record_quota_error, record_validation_error, record_auth_error,
}

-- The answer of the token refresh.
pub data Refresh : Type 0 where
  refreshed : Refresh
  -- Whether the error is `ErrInvalidCredentials`.
  refused : Bool → Refresh

-- A response: the header fields that are asked for, the body as the reads give it, and its end.
pub record Response : Type 0 where
  pub status : ℕ
  pub retry_after : String
  pub content_type : String
  pub content_length : String
  pub body : List String
  pub ending : BodyEnd

pub data Reply : Type 0 where
  -- `client.Do` failed: whether the client had gone, and whether the error is a timeout.
  no_response : Bool → Bool → Reply
  response : Response → Reply

pub record Attempt : Type 0 where
  pub refresh : Refresh
  pub request_made : Bool
  pub reply : Reply
  -- Whether the transaction that records the attempt fails, and the clock that it reads.
  pub persist_fails : Bool
  pub now : ℤ
  -- How many writes of a stream the client takes.
  pub takes : ℕ

-- The bytes of a body that are read in one go.
abbrev pub body_length : List String → ℕ
body_length [] = 0
body_length (b ∷ rest) = len b + body_length rest

-- The three reads end alike: the whole body, or the code of the page that is sent instead.
pub data Body : Type 0 where
  whole : Body
  unreadable : ℕ → Body

abbrev code_of : Bool → ℕ
code_of timeout = if timeout then 504 else 502

-- `io.ReadAll(io.LimitReader(resp.Body, max+1))` with its two checks: beyond the limit there is no
-- read error.
unfoldable pub read_error_body : Response → Body
read_error_body r =
    if ltb (64 * 1_048_576) (body_length r.body)
    then unreadable 502
    else elim r.ending [ eof ↦ whole | broken timeout ↦ unreadable (code_of timeout) ]

-- `io.ReadAll(resp.Body)`
unfoldable pub read_body : Response → Body
read_body r = elim r.ending [ eof ↦ whole | broken timeout ↦ unreadable (code_of timeout) ]

pub record Result (F : Type 0) : Type 0 where
  pub pool : Pool F
  pub client : ResponseCommitter
  pub outcome : DispatchOutcome

abbrev persist_error : Bool → Option Failure
persist_error failed = if failed then some persistence else none

-- What the dispatch knows of its surroundings: the text of a body, the delay until a time, and the
-- verification link in an error body.
pub record Backend : Type 0 where
  pub text_of : List String → String
  pub until : Instant → ℤ
  pub extract_validation_url : String → Option String

module _ {F : Type 0} ⦃fl : Float64 F⦄ ⦃tx : Text⦄ (backend : Backend) where
  abbrev fail_over : Pool F → ResponseCommitter → Reason → Option Failure → Result F
  fail_over pool client reason err = record {
    pool = pool;
    client = client;
    outcome = record { action = failover_next; reason = reason; err = err };
  }

  abbrev finish : Pool F → ResponseCommitter → Reason → Option Failure → Result F
  finish pool client reason err = record {
    pool = pool;
    client = client;
    outcome = record { action = terminal; reason = reason; err = err };
  }

  -- A complete answer of status 400 or more.
  on_error : Attempt → Account F → Response → Pool F → ResponseCommitter → Result F
  on_error at acc r pool client =
      let body = backend.text_of r.body in
      if is_validation_error r.status body
      then (let recorded =
            record_validation_error at.persist_fails acc (backend.extract_validation_url body)
              at.now pool in
          fail_over recorded.1 client validation_error (persist_error recorded.0))
      else (if is_quota_error r.status body
          then (let recorded =
                record_quota_error at.persist_fails backend.until acc r.retry_after at.now pool in
              fail_over recorded.2 client quota_exhausted (persist_error recorded.1))
          else (if is_auth_error r.status body
              then (let recorded = record_auth_error at.persist_fails acc at.now pool in
                  fail_over recorded.1 client auth_failure (persist_error recorded.0))
              else finish pool (send_buffered client r.status body) explicit_non_retryable none))

  -- Status 300 or more.
  on_refusal : Attempt → Account F → Response → Pool F → ResponseCommitter → Result F
  unfolding on_error read_error_body
  on_refusal at acc r pool client = elim (read_error_body r) [
    | unreadable code ↦
        finish pool (http_error client response_incomplete code) body_read_error
          (some ambiguous_transport)
    | whole ↦
        if ltb r.status 400
        then finish pool (send_buffered client r.status (backend.text_of r.body)) upstream_redirect
            none
        else on_error at acc r pool client
  ]

  -- Status below 300.
  on_success : Attempt → Bool → Bool → Account F → Response → Pool F → ResponseCommitter → Result F
  unfolding read_body
  on_success at is_generation is_sse acc r pool client =
      let recorded = record_success at.persist_fails acc is_generation at.now pool in
      if is_sse || tx.contains (tx.to_lower r.content_type) "text/event-stream"
      then (let sent = send_stream client r.status r.content_length r.body r.ending at.takes in
          elim sent.1 [
            | some e ↦ finish recorded.1 sent.0 committed_stream_truncated (some e)
            | none ↦ finish recorded.1 sent.0 committed_stream_success none
          ])
      else elim (read_body r) [
        | unreadable code ↦
            finish pool (http_error client upstream_request_failed code) body_read_error
              (some body_read)
        | whole ↦
            finish recorded.1 (send_buffered client r.status (backend.text_of r.body))
              terminal_success none
      ]

  on_reply : Attempt → Bool → Bool → Account F → Reply → Pool F → ResponseCommitter → Result F
  unfolding on_refusal on_success
  on_reply at is_generation is_sse acc (no_response gone timeout) pool client =
      if gone
      then finish pool client client_gone (some client_disconnected)
      else finish pool (http_error client upstream_request_failed (code_of timeout))
          ambiguous_transport_failure (some ambiguous_transport)
  on_reply at is_generation is_sse acc (response r) pool client =
      if ltb r.status 300
      then on_success at is_generation is_sse acc r pool client
      else on_refusal at acc r pool client

  on_refresh : Attempt → Bool → Bool → Account F → Refresh → Pool F → ResponseCommitter → Result F
  unfolding on_reply
  on_refresh at is_generation is_sse acc (refused invalid) pool client =
      let pool' =
        if invalid then (record_auth_error at.persist_fails acc at.now pool).1 else pool in
      fail_over pool' client token_refresh_failed
        (some (if invalid then invalid_credentials else token_refresh))
  on_refresh at is_generation is_sse acc refreshed pool client =
      if at.request_made
      then on_reply at is_generation is_sse acc at.reply pool client
      else finish pool client request_creation_failed (some request_creation)

  unfoldable pub dispatch_account :
      Attempt → Bool → Bool → Account F → Pool F → ResponseCommitter → Result F
  unfolding on_refresh
  dispatch_account at is_generation is_sse acc pool client =
      on_refresh at is_generation is_sse acc at.refresh pool client
