-- ===== src/Proxy/Classify.antt =====
-- How an answer of the backend is read: `IsQuotaError` of internal/quota/quota.go, `IsValidationError`
-- and `IsAuthError` of internal/auth/auth.go, and the request tests of internal/proxy/proxy.go.
use agy_go.Prelude.{
  ◌≡◌, ◌⊎◌, ℕ, Bool, true, false, not, ◌||◌, String, List, [], ◌∷◌, arith, if◌then◌else◌, ◌==◌,
}
use agy_go.Go.Text.{Text}

module _ ⦃tx : Text⦄ where
  -- The loop over markers.
  contains_any : String → List String → Bool
  contains_any text [] = false
  contains_any text (m ∷ ms) =
      let later = contains_any text ms in if tx.contains text m then true else later

  unfoldable pub is_quota_error : ℕ → String → Bool
  unfolding contains_any
  is_quota_error status body =
      if status == 429
      then true
      else (if not (status == 403)
          then false
          else contains_any (tx.to_lower body) (
              "resource_exhausted" ∷ "quota_exceeded" ∷ "rate_limit_exceeded" ∷ "quota exceeded"
              ∷ "quota exhausted" ∷ "exceeded your current quota" ∷ "insufficient quota" ∷ []))

  unfoldable pub is_validation_error : ℕ → String → Bool
  unfolding contains_any
  is_validation_error status body =
      if not (status == 403)
      then false
      else contains_any (tx.to_lower body)
          ("validation_required" ∷ "verify your account" ∷ "verify your account to continue" ∷ [])

  unfoldable pub is_auth_error : ℕ → String → Bool
  unfolding contains_any
  is_auth_error status body =
      if status == 401
      then true
      else (if status == 403
          then contains_any (tx.to_lower body) (
              "unauthenticated" ∷ "invalid_grant" ∷ "access_token_expired" ∷ "account is disabled"
              ∷ "user disabled" ∷ [])
          else false)

  -- The body matters only for 403: any other status is retried exactly if it is 401 or 429.
  retryable_status :
      (status : ℕ) (body : String)
      → (is_validation_error status body
          || (is_quota_error status body || is_auth_error status body))
        ≡ true
      → (status ≡ 401) ⊎ ((status ≡ 403) ⊎ (status ≡ 429))
  unfolding is_validation_error is_quota_error is_auth_error
  retryable_status status body h = ground arith

  -- `target` is the request URI, or the path where that is empty.
  unfoldable pub is_generation_request : String → Bool
  is_generation_request target = tx.contains (tx.to_lower target) "generatecontent"

  unfoldable pub is_stream_request : String → String → Bool
  unfolding is_generation_request
  is_stream_request target accept =
      if is_generation_request target
      then true
      else tx.contains (tx.to_lower target) "stream"
        || tx.contains (tx.to_lower accept) "text/event-stream"
