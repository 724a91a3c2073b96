-- ===== src/Proxy/Commitment.antt =====
-- internal/proxy/commitment.go: what has been written to the client, and the outcome of a dispatch.
-- The wrapped ResponseWriter is the two lists of what it was given.
use agy_go.Prelude.{
  ◌≡◌, ℕ, ◌+◌, Bool, true, false, String, List, [], ◌∷◌, ◌++◌, Option, arith, length, length-append,
  if◌then◌else◌,
}

pub data CommitState : Type 0 where
  not_committed headers_committed body_committed stream_committed : CommitState

-- The pages that the proxy writes itself.
pub data Failure : Type 0 where
  token_refresh invalid_credentials request_creation client_disconnected ambiguous_transport
        persistence committed_stream body_read :
      Failure

pub data Page : Type 0 where
  upstream_request_failed response_incomplete : Page
  all_exhausted : Option Failure → Page
  no_accounts bad_request : Page

pub data Chunk : Type 0 where
  page : Page → Chunk
  bytes : String → Chunk

-- `headers` holds the codes that `w.WriteHeader` was called with, `written` what `w.Write` took.
pub record ResponseCommitter : Type 0 where
  pub state : CommitState
  pub status : ℕ
  pub headers : List ℕ
  pub written : List Chunk

unfoldable pub new_response_committer : ResponseCommitter
new_response_committer = record { state = not_committed; status = 0; headers = []; written = [] }

abbrev is_not_committed : CommitState → Bool
is_not_committed not_committed = true
is_not_committed _ = false

unfoldable pub is_committed : ResponseCommitter → Bool
is_committed c = if is_not_committed c.state then false else true

unfoldable pub write_header : ResponseCommitter → ℕ → ResponseCommitter
write_header c status =
    if is_not_committed c.state
    then record c {
      state = headers_committed;
      status = status;
      headers = c.headers ++ (status ∷ []);
    }
    else record c { headers = c.headers ++ (status ∷ []) }

-- The state change of `Write`, which comes before the data is handed on.
unfoldable pub start_write : ResponseCommitter → ResponseCommitter
start_write c = if is_not_committed c.state then record c { state = headers_committed } else c

-- A write that the client takes.
unfoldable pub write : ResponseCommitter → Chunk → ResponseCommitter
unfolding start_write
write c b = record (start_write c) { written = c.written ++ (b ∷ []) }

unfoldable pub mark_stream : ResponseCommitter → ResponseCommitter
mark_stream c = record c { state = stream_committed }

unfoldable pub mark_body : ResponseCommitter → ResponseCommitter
mark_body c = record c { state = body_committed }

-- `http.Error(w, text, code)` of net/http: the header, then the text.
unfoldable pub http_error : ResponseCommitter → Page → ℕ → ResponseCommitter
unfolding write_header write
http_error c p code = write (write_header c code) (page p)

-- `SendBuffered`. (Its headers are not modelled.)
unfoldable pub send_buffered : ResponseCommitter → ℕ → String → ResponseCommitter
unfolding write_header write mark_body
send_buffered c status body = mark_body (write (write_header c status) (bytes body))

pub data DispatchAction : Type 0 where
  failover_next terminal : DispatchAction

pub data Reason : Type 0 where
  token_refresh_failed request_creation_failed client_gone ambiguous_transport_failure
        body_read_error upstream_redirect validation_error quota_exhausted auth_failure
        explicit_non_retryable committed_stream_truncated committed_stream_success
        terminal_success :
      Reason

pub record DispatchOutcome : Type 0 where
  pub action : DispatchAction
  pub reason : Reason
  pub err : Option Failure

-- One response was begun, and the writer says so.
pub record HasResponded (c c' : ResponseCommitter) : Type 0 where
  pub committed : is_committed c' ≡ true
  pub one_header : length c'.headers ≡ length c.headers + 1

pub http_error-HasResponded :
    (c : ResponseCommitter) (p : Page) (code : ℕ) → HasResponded c (http_error c p code)
unfolding http_error is_committed
http_error-HasResponded c p code = ground (arith, length-append c.headers (code ∷ []))

pub send_buffered-HasResponded :
    (c : ResponseCommitter) (status : ℕ) (body : String)
    → HasResponded c (send_buffered c status body)
unfolding send_buffered is_committed
send_buffered-HasResponded c status body = ground (arith, length-append c.headers (status ∷ []))

-- The operations on a committer.
pub data Operation : Type 0 where
  writes_header : ℕ → Operation
  writes : Chunk → Operation
  fails_to_write marks_stream marks_body : Operation

abbrev pub operate : ResponseCommitter → Operation → ResponseCommitter
operate c (writes_header status) = write_header c status
operate c (writes b) = write c b
operate c fails_to_write = start_write c
operate c marks_stream = mark_stream c
operate c marks_body = mark_body c

abbrev pub operate_all : ResponseCommitter → List Operation → ResponseCommitter
operate_all c [] = c
operate_all c (o ∷ os) = operate_all (operate c o) os

operate_commits : (c : ResponseCommitter) (o : Operation) → is_committed (operate c o) ≡ true
unfolding is_committed write_header write mark_stream mark_body
operate_commits c (writes_header status) = ground arith
operate_commits c (writes b) = ground arith
operate_commits c fails_to_write = ground arith
operate_commits c marks_stream = ground arith
operate_commits c marks_body = ground arith

committed_stays :
    (c : ResponseCommitter) (os : List Operation)
    → is_committed c ≡ true
    → is_committed (operate_all c os) ≡ true
committed_stays c [] h = h
committed_stays c (o ∷ os) h = committed_stays (operate c o) os (operate_commits c o)

-- Whatever is done to a writer commits it, and no later operation takes that back.
operate_all-is_committed :
    (c : ResponseCommitter) (o : Operation) (os : List Operation)
    → is_committed (operate_all c (o ∷ os)) ≡ true
operate_all-is_committed c o os = committed_stays (operate c o) os (operate_commits c o)
