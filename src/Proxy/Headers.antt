-- ===== src/Proxy/Headers.antt =====
-- internal/proxy/proxy.go: which header fields pass through the proxy. An `http.Header` is a list of
-- entries, each with its canonical key; the server that parsed it gives no key twice.
pub mod Names
pub mod Laws
use Prim.Native.String.{◌++◌ as str_append}
use agy_go.Prelude.{
  ◌≡◌, refl, sym, ap, Bool, true, false, not, ◌||◌, String, List, [], ◌∷◌, ◌++◌, Option, none, some,
  arith, str_eq, if◌then◌else◌, select, eq_iff, eq_refl, Bool-cases, inl, inr, ◌∙◌,
}
use agy_go.Go.Text.{Text}

abbrev pub Headers : Type 0
Headers = List (String × List String)

abbrev pub member : String → List String → Bool
member s [] = false
member s (t ∷ rest) = let later = member s rest in str_eq s t || later

-- `headers.Values(key)`, and the indexing that it stands on.
abbrev pub lookup : String → Headers → Option (List String)
lookup key [] = none
lookup key (entry ∷ rest) =
    let later = lookup key rest in if str_eq entry.0 key then some entry.1 else later

abbrev pub values : Option (List String) → List String
values none = []
values (some vs) = vs

-- `headers.Set(key, value)`
unfoldable pub set : String → String → Headers → Headers
set key value [] = (key, value ∷ []) ∷ []
set key value (entry ∷ rest) =
    let later = set key value rest in
    if str_eq entry.0 key then (key, value ∷ []) ∷ rest else entry ∷ later

-- `hopByHopHeaders`
abbrev pub hop_by_hop_headers : List String
hop_by_hop_headers =
    "connection" ∷ "keep-alive" ∷ "proxy-authenticate" ∷ "proxy-authorization" ∷ "proxy-connection"
    ∷ "te" ∷ "trailer" ∷ "transfer-encoding" ∷ "upgrade" ∷ []

module _ ⦃tx : Text⦄ where
  add_names : List String → List String → List String
  add_names [] names = names
  add_names (part ∷ rest) names =
      let trimmed = tx.to_lower (tx.trim_space part) in
      let later = add_names rest names in if str_eq trimmed "" then later else trimmed ∷ later

  add_values : List String → List String → List String
  unfolding add_names
  add_values [] names = names
  add_values (val ∷ rest) names = add_names (tx.split val ",") (add_values rest names)

  -- The set of names is a list; only membership is asked.
  unfoldable pub hop_by_hop_names : Headers → List String
  unfolding add_values
  hop_by_hop_names headers = add_values (values (lookup "Connection" headers)) hop_by_hop_headers

  unfoldable pub keep : List String → Headers → Headers
  keep excluded headers = select (λ e. not (member (tx.to_lower e.0) excluded)) headers

  unfoldable pub response_excluded : Headers → List String
  unfolding hop_by_hop_names
  response_excluded headers = "transfer-encoding" ∷ "content-length" ∷ hop_by_hop_names headers

  unfoldable pub filter_response_headers : Headers → Headers
  unfolding keep response_excluded
  filter_response_headers headers = keep (response_excluded headers) headers

  unfoldable pub request_excluded : Bool → Headers → List String
  unfolding hop_by_hop_names
  request_excluded is_generation headers =
      let names =
        "expect"
        ∷ "accept-encoding"
        ∷ "authorization"
        ∷ "content-length"
        ∷ "host"
        ∷ hop_by_hop_names headers in
      if is_generation then "x-idempotency-key" ∷ "idempotency-key" ∷ names else names

  -- `host` is the answer of `GetBackendHost`.
  unfoldable pub filter_request_headers : Bool → String → String → String → Headers → Headers
  unfolding keep request_excluded set
  filter_request_headers is_generation host access_token client_ua headers =
      set "Accept-Encoding" "identity" (
        set "User-Agent" client_ua (
          set "Authorization" (str_append "Bearer " access_token)
            (set "Host" host (keep (request_excluded is_generation headers) headers))))
