-- ===== src/Tests/Serving.antt =====
-- A request that is refused for the first account and answered for the second, and its parts.
use agy_go.Prelude.{
  ◌≡◌, refl, ◌⊎◌, ℕ, Bool, true, false, [], ◌∷◌, ◌++◌, none, some, map, ◌==◌, if◌then◌else◌,
}
use agy_go.Prelude.Int.{ℤ, pos, eqb_ℤ, ◌+ℤ◌}
use agy_go.Storage.{Account, find_account, find_in}
use agy_go.Storage.Reserve.{no_faults}
use agy_go.Scheduler.Order.{tier}
use agy_go.Quota.Parse.{IsDelay, parse_retry_after}
use agy_go.Proxy.Commitment.{new_response_committer, is_committed, bytes}
use agy_go.Proxy.Stream.{eof, expected_length, send_stream, send_stream_complete}
use agy_go.Proxy.Classify.{is_quota_error, is_validation_error}
use agy_go.Proxy.Failover.{record_quota_error, record_validation_error, record_auth_error}
use agy_go.Proxy.Failover.Laws.{record_quota_error_cools}
use agy_go.Proxy.Failover.Withdrawn.{Recorded, record_errors-Recorded}
use agy_go.Proxy.Dispatch.{Attempt, Response, response, refreshed, refused, dispatch_account}
use agy_go.Proxy.Dispatch.Laws.{
  Verdict, IsRetryable, dispatch_account-Verdict, dispatch_account-failover,
}
use agy_go.Proxy.Handle.{serve, handle_proxy}
use agy_go.Proxy.Handle.Laws.{IsServed, IsHandled, serve-IsServed, handle_proxy-IsHandled}
use agy_go.Tests.Concrete.{fixed, plain, surroundings, alice, bob, two}

abbrev limited : Response
limited = record {
  status = 429;
  retry_after = "3";
  content_type = "";
  content_length = "";
  body = "slow down" ∷ [];
  ending = eof;
}

abbrev fine : Response
fine = record limited { status = 200; body = "hello" ∷ [] }

abbrev attempt : Response → Attempt
attempt r = record {
  refresh = refreshed;
  request_made = true;
  reply = response r;
  persist_fails = false;
  now = pos 7;
  takes = 2;
}

abbrev world : ℕ → Attempt
world n = if n == 1 then attempt limited else attempt fine

handle_proxy-IsHandled_example :
    IsHandled (handle_proxy surroundings world true false none false no_faults (pos 7) two)
handle_proxy-IsHandled_example =
    handle_proxy-IsHandled surroundings world true false none false no_faults (pos 7) two

serve-IsServed_example :
    IsServed true
      (bob ∷ alice ∷ [])
      new_response_committer
      (serve surroundings world true false 0 none (bob ∷ alice ∷ []) two new_response_committer)
unfolding new_response_committer is_committed
serve-IsServed_example =
    serve-IsServed surroundings world true false 0 none (bob ∷ alice ∷ []) two
      new_response_committer refl

dispatch_account-Verdict_example :
    Verdict new_response_committer
      (dispatch_account surroundings (attempt fine) true true bob two new_response_committer)
dispatch_account-Verdict_example =
    dispatch_account-Verdict surroundings (attempt fine) true true bob two new_response_committer

dispatch_account-failover_example :
    ((invalid : Bool) × ((attempt limited).refresh ≡ refused invalid))
    ⊎ ((r : Response) × ((attempt limited).reply ≡ response r) × IsRetryable surroundings r)
unfolding dispatch_account is_quota_error is_validation_error
dispatch_account-failover_example =
    dispatch_account-failover surroundings (attempt limited) true false bob two
      new_response_committer refl

send_stream_complete_example :
    ((send_stream new_response_committer 200 "3" ("a" ∷ "bc" ∷ []) eof 2).0.written
      ≡ new_response_committer.written ++ map bytes ("a" ∷ "bc" ∷ []))
    × (eof ≡ eof)
    × ((n : ℤ) → expected_length "3" ≡ some n → eqb_ℤ (pos 3) n ≡ true)
unfolding send_stream
send_stream_complete_example =
    send_stream_complete new_response_committer 200 "3" ("a" ∷ "bc" ∷ []) eof 2 refl

record_errors-Recorded_example :
    Recorded false bob "validation_required"
      (fixed.add (fixed.of_int (pos 7)) (fixed.of_int (pos 86400)))
      two
      (record_validation_error false bob none (pos 7) two)
    × Recorded false bob "auth_error"
        (fixed.add (fixed.of_int (pos 7)) (fixed.of_int (pos 3600)))
        two
        (record_auth_error false bob (pos 7) two)
unfolding find_account find_in
record_errors-Recorded_example = record_errors-Recorded false bob bob none (pos 7) two refl

record_quota_error_cools_example :
    IsDelay (parse_retry_after surroundings.until "3" (pos 300))
    × ((a : Account ℤ) × (find_account
            (some (record_quota_error false surroundings.until bob "3" (pos 7) two).2)
            (some bob)
          ≡ some a)
        × (tier (pos 11_000) a ≡ 2))
unfolding find_account find_in parse_retry_after ◌+ℤ◌
record_quota_error_cools_example =
    record_quota_error_cools surroundings.until bob bob "3" (pos 7) two (pos 11_000) refl refl
