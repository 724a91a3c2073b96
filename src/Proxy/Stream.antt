-- ===== src/Proxy/Stream.antt =====
-- internal/proxy/stream.go: forwarding a response chunk by chunk.
use Prim.Native.String.{len}
use agy_go.Prelude.{
  ◌≡◌, refl, sym, ap, subst, ℕ, zero, suc, ◌+◌, ◌∙◌, Bool, true, String, List, [], ◌∷◌, ◌++◌, map,
  Option, none, some, arith, length, length-append, if◌then◌else◌, append_assoc, append-nil, str_eq,
}
use agy_go.Prelude.Int.{ℤ, pos, eqb_ℤ}
use agy_go.Go.Text.{Text}
use agy_go.Proxy.Commitment.{
  ResponseCommitter, Chunk, bytes, Failure, client_disconnected, committed_stream, is_committed,
  write_header, start_write, write, mark_stream, HasResponded,
}

-- How the body of a response ends; `broken` says whether the read error was a timeout.
pub data BodyEnd : Type 0 where
  eof : BodyEnd
  broken : Bool → BodyEnd

-- The loop: `takes` is the number of writes that the client still takes. It returns the number of
-- bytes read and the failed write, if there was one.
stream_loop : ResponseCommitter → List String → ℕ → ℕ → ResponseCommitter × ℕ × Option Failure
stream_loop c [] takes sent = (c, sent, none)
stream_loop c (b ∷ rest) zero sent = (start_write c, sent + len b, some client_disconnected)
stream_loop c (b ∷ rest) (suc takes) sent =
    stream_loop (write c (bytes b)) rest takes (sent + len b)

-- What follows a loop that was not broken off by the client.
stream_end : BodyEnd → Option ℤ → ℕ → Option Failure
stream_end (broken timeout) expected sent = some committed_stream
stream_end eof none sent = none
stream_end eof (some n) sent = if eqb_ℤ (pos sent) n then none else some committed_stream

write_commits : (c : ResponseCommitter) (b : Chunk) → is_committed (write c b) ≡ true
unfolding is_committed write
write_commits c b = ground arith

written_then :
    (c : ResponseCommitter) (b : String) (rest : List String)
    → (write c (bytes b)).written ++ map bytes rest ≡ c.written ++ map bytes (b ∷ rest)
unfolding write
written_then c b rest = append_assoc c.written (bytes b ∷ []) (map bytes rest)

start_written :
    (c : ResponseCommitter) (status : ℕ) → (mark_stream (write_header c status)).written ≡ c.written
unfolding mark_stream write_header
start_written c status = ground arith

no_failure :
    (f g : Option Failure) → elim f [ some e ↦ some e | none ↦ g ] ≡ none → (f ≡ none) × (g ≡ none)
no_failure none g h = (refl, h)
no_failure (some e) g h = absurd (cc h)

stream_end-none :
    (ending : BodyEnd) (expected : Option ℤ) (sent : ℕ)
    → stream_end ending expected sent ≡ none
    → (ending ≡ eof) × ((n : ℤ) → expected ≡ some n → eqb_ℤ (pos sent) n ≡ true)
unfolding stream_end
stream_end-none (broken timeout) expected sent h = absurd (cc h)
stream_end-none eof none sent h = (refl, λ n e. absurd (cc e))
stream_end-none eof (some m) sent h = (refl, λ n e. ground arith)

module _ ⦃tx : Text⦄ where
  -- The Content-Length header as a number, if it is there and is one.
  unfoldable pub expected_length : String → Option ℤ
  expected_length content_length =
      if str_eq content_length "" then none else tx.parse_int content_length

  -- `content_length` is that header; the header fields themselves are not modelled.
  unfoldable pub send_stream :
      ResponseCommitter
      → ℕ
      → String
      → List String
      → BodyEnd
      → ℕ
      → ResponseCommitter × Option Failure
  unfolding stream_loop stream_end expected_length
  send_stream c status content_length chunks ending takes =
      let run = stream_loop (mark_stream (write_header c status)) chunks takes 0 in
      (
        run.0,
        elim run.2 [
          | some e ↦ some e
          | none ↦ stream_end ending (expected_length content_length) run.1
        ],
      )

  loop_headers :
      (c : ResponseCommitter) (chunks : List String) (takes sent : ℕ)
      → is_committed c ≡ true
      → let c' = (stream_loop c chunks takes sent).0 in
        (is_committed c' ≡ true) × (c'.headers ≡ c.headers)
  unfolding stream_loop
  loop_headers c [] takes sent h = (h, refl)
  loop_headers c (b ∷ rest) zero sent h =
      (unfold is_committed start_write in ground arith, unfold start_write in ground arith)
  loop_headers c (b ∷ rest) (suc takes) sent h =
      let (committed, same) =
        loop_headers (write c (bytes b)) rest takes (sent + len b) (write_commits c (bytes b)) in
      (committed, same ∙ (unfold write in ground arith))

  -- A stream begins one response, whatever happens to it.
  pub send_stream-HasResponded :
      (c : ResponseCommitter) (status : ℕ) (content_length : String) (chunks : List String)
      (ending : BodyEnd) (takes : ℕ)
      → HasResponded c (send_stream c status content_length chunks ending takes).0
  unfolding send_stream
  send_stream-HasResponded c status content_length chunks ending takes =
      let start : ResponseCommitter = mark_stream (write_header c status) in
      let (committed, same) =
        loop_headers start chunks takes 0 (unfold is_committed mark_stream in refl) in
      record {
        committed = committed;
        one_header =
            ap length same
            ∙ (unfold mark_stream write_header in
                ground (arith, length-append c.headers (status ∷ [])));
      }

  abbrev total : List String → ℕ
  total [] = 0
  total (b ∷ rest) = len b + total rest

  loop_done :
      (c : ResponseCommitter) (chunks : List String) (takes sent : ℕ)
      → (stream_loop c chunks takes sent).2 ≡ none
      → let run = stream_loop c chunks takes sent in
        (run.0.written ≡ c.written ++ map bytes chunks) × (run.1 ≡ sent + total chunks)
  unfolding stream_loop
  loop_done c [] takes sent h = (sym (append-nil c.written), omega arith)
  loop_done c (b ∷ rest) zero sent h = absurd (cc h)
  loop_done c (b ∷ rest) (suc takes) sent h =
      let (all, count) = loop_done (write c (bytes b)) rest takes (sent + len b) h in
      (all ∙ written_then c b rest, omega (arith, count))

  -- A stream that is reported as complete is complete: every chunk reached the client in order, the
  -- body ended by itself, and its length is the announced one, if one was announced.
  pub send_stream_complete :
      (c : ResponseCommitter) (status : ℕ) (content_length : String) (chunks : List String)
      (ending : BodyEnd) (takes : ℕ)
      → (send_stream c status content_length chunks ending takes).1 ≡ none
      → ((send_stream c status content_length chunks ending takes).0.written
          ≡ c.written ++ map bytes chunks)
        × (ending ≡ eof)
        × ((n : ℤ) → expected_length content_length ≡ some n → eqb_ℤ (pos (total chunks)) n ≡ true)
  unfolding send_stream
  send_stream_complete c status content_length chunks ending takes h =
      let start : ResponseCommitter = mark_stream (write_header c status) in
      let run = stream_loop start chunks takes 0 in
      let (unbroken, ended) = no_failure run.2 _ h in
      let (all, count) = loop_done start chunks takes 0 unbroken in
      let (whole, fits) = stream_end-none ending (expected_length content_length) run.1 ended in
      (
        all ∙ ap (λ l. l ++ map bytes chunks) (start_written c status),
        whole,
        λ n e. subst (λ k. eqb_ℤ (pos k) n ≡ true) (omega (arith, count)) (fits n e),
      )
