-- ===== src/Tests/Fields.antt =====
-- The header fields of a request and of a response, and a body of three bytes.
use Prim.Native.String.{◌++◌ as str_append}
use agy_go.Prelude.{
  ◌≡◌, ◌↔◌, ◌⊎◌, ◌≤◌, refl, ℕ, String, List, false, length, take, true, [], ◌∷◌, none, some, All,
}
use agy_go.Prelude.Int.{pos, ◌≤ℤ◌}
use agy_go.Proxy.Headers.{Headers, lookup, filter_response_headers, filter_request_headers}
use agy_go.Proxy.Headers.Laws.{
  IsWithheldResponse, IsWithheldRequest, lookup-filter_response_headers,
  lookup-filter_request_headers,
}
use agy_go.Proxy.RequestBody.{
  read, max_request_body_bytes, read_request_body, read_request_body_framed,
}
use agy_go.Tests.Concrete.{plain}

abbrev arriving : List ℕ
arriving = 7 ∷ 8 ∷ 9 ∷ 10 ∷ []

abbrev announced : List ℕ
announced = 7 ∷ 8 ∷ 9 ∷ []

abbrev fields : Headers
fields =
    ("Connection", "x-secret" ∷ [])
    ∷ ("x-secret", "1" ∷ [])
    ∷ ("Authorization", "mine" ∷ [])
    ∷ ("Accept", "text/html" ∷ "text/plain" ∷ [])
    ∷ []

lookup-filter_response_headers_example :
    (IsWithheldResponse "x-secret" fields
      × (lookup "x-secret" (filter_response_headers fields) ≡ none))
    ⊎ ((¬ IsWithheldResponse "x-secret" fields)
        × (lookup "x-secret" (filter_response_headers fields) ≡ lookup "x-secret" fields))
lookup-filter_response_headers_example = lookup-filter_response_headers "x-secret" fields

lookup-filter_request_headers_example :
    let sent = filter_request_headers true "host" "token" "agent" fields in
    (lookup "Authorization" sent ≡ some (str_append "Bearer " "token" ∷ []))
    × (lookup "Host" sent ≡ some ("host" ∷ []))
    × (lookup "User-Agent" sent ≡ some ("agent" ∷ []))
    × (lookup "Accept-Encoding" sent ≡ some ("identity" ∷ []))
    × ((IsWithheldRequest true "Accept" fields × (lookup "Accept" sent ≡ none))
        ⊎ ((¬ IsWithheldRequest true "Accept" fields)
            × (lookup "Accept" sent ≡ lookup "Accept" fields)))
lookup-filter_request_headers_example =
    lookup-filter_request_headers true "host" "token" "agent" "Accept" fields refl refl refl refl

read_request_body_framed_example :
    (read_request_body (pos 3) ("3" ∷ "3" ∷ []) "" arriving false ≡ read announced) ↔ (
      (pos 3 ≤ℤ pos max_request_body_bytes)
      × (◌≡◌ {A = String} "" "")
      × All {A = String} (λ cl. cl ≡ "3") ("3" ∷ [])
      × ((n : ℕ) × (plain.parse_int (plain.trim_space "3") ≡ some (pos n))
          × (announced ≡ take n arriving)
          × (n ≤ length arriving)
          × (n ≤ max_request_body_bytes)))
read_request_body_framed_example =
    read_request_body_framed (pos 3) "3" ("3" ∷ []) "" arriving announced false
