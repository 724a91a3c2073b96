-- ===== src/Proxy/Headers/Laws.antt =====
-- What a filtered header answers for each key.
use Prim.Native.String.{◌++◌ as str_append}
use agy_go.Prelude.{
  ◌≡◌, ◌↔◌, ◌⊎◌, refl, ap, sym, subst, Bool, true, false, String, List, [], ◌∷◌, none, some, arith,
  str_eq, if◌then◌else◌, eq_iff, eq_refl, Bool-cases, inl, inr, ◌∙◌,
}
use agy_go.Go.Text.{Text}
use agy_go.Proxy.Headers.{
  Headers, member, lookup, set, keep, response_excluded, filter_response_headers, request_excluded,
  filter_request_headers,
}
use agy_go.Proxy.Headers.Names.{Among, IsHopByHop, hop_by_hop_names_iff}

lookup-set : (key value : String) (hs : Headers) → lookup key (set key value hs) ≡ some (value ∷ [])
unfolding set
lookup-set key value [] = rw (eq_refl key) refl
lookup-set key value (entry ∷ rest) = elim (Bool-cases (str_eq entry.0 key)) [
  | inl e ↦ rw (e, set, eq_refl key) refl
  | inr e ↦ rw (e, set, e) (lookup-set key value rest)
]

set_keeps :
    (key other value : String) (hs : Headers)
    → str_eq other key ≡ false
    → lookup key (set other value hs) ≡ lookup key hs
unfolding set
set_keeps key other value [] h = rw h refl
set_keeps key other value (entry ∷ rest) h = elim (Bool-cases (str_eq entry.0 other)) [
  | inl e ↦ rw (e, set, h, ap (λ s. str_eq s key) ((eq_iff entry.0 other).0 e) ∙ h) refl
  | inr e ↦ rw (e, set, set_keeps key other value rest h) refl
]

module _ ⦃tx : Text⦄ where
  lookup-keep :
      (excluded : List String) (key : String) (hs : Headers)
      → lookup key (keep excluded hs)
        ≡ (if member (tx.to_lower key) excluded then none else lookup key hs)
  unfolding keep
  lookup-keep excluded key [] = ground arith
  lookup-keep excluded key (entry ∷ rest) = elim (Bool-cases (str_eq entry.0 key)) [
    | inl e ↦ ground (
      arith,
      e,
      lookup-keep excluded key rest,
      ap (λ s. member (tx.to_lower s) excluded) ((eq_iff entry.0 key).0 e),
    )
    | inr e ↦ ground (arith, e, lookup-keep excluded key rest)
  ]

  -- The names that do not reach the client.
  abbrev pub IsWithheldResponse : String → Headers → Type 0
  IsWithheldResponse name hs =
      Among name ("content-length" ∷ "transfer-encoding" ∷ []) ⊎ IsHopByHop name hs

  -- The names that do not reach the backend as the client sent them.
  abbrev pub IsWithheldRequest : Bool → String → Headers → Type 0
  IsWithheldRequest is_generation name hs =
      Among name ("host" ∷ "content-length" ∷ "authorization" ∷ "accept-encoding" ∷ "expect" ∷ [])
      ⊎ ((is_generation ≡ true) × Among name ("idempotency-key" ∷ "x-idempotency-key" ∷ []))
      ⊎ IsHopByHop name hs

  response_excluded_iff :
      (name : String) (hs : Headers)
      → (member name (response_excluded hs) ≡ true) ↔ IsWithheldResponse name hs
  unfolding response_excluded
  response_excluded_iff name hs = ground (
    arith,
    eq_iff name "transfer-encoding",
    eq_iff name "content-length",
    hop_by_hop_names_iff name hs,
  )

  request_excluded_iff :
      (is_generation : Bool) (name : String) (hs : Headers)
      → (member name (request_excluded is_generation hs) ≡ true)
        ↔ IsWithheldRequest is_generation name hs
  unfolding request_excluded
  request_excluded_iff is_generation name hs = ground (
    arith,
    eq_iff name "host",
    eq_iff name "content-length",
    eq_iff name "authorization",
    eq_iff name "accept-encoding",
    eq_iff name "expect",
    eq_iff name "idempotency-key",
    eq_iff name "x-idempotency-key",
    hop_by_hop_names_iff name hs,
  )

  -- A field is dropped or passes, as its name is excluded or not.
  passes_or_not :
      (excluded : List String) (Withheld : Type 0) (key : String) (hs : Headers)
      → (member (tx.to_lower key) excluded ≡ true) ↔ Withheld
      → (Withheld × (lookup key (keep excluded hs) ≡ none))
        ⊎ ((¬ Withheld) × (lookup key (keep excluded hs) ≡ lookup key hs))
  passes_or_not excluded Withheld key hs iff =
      elim (Bool-cases (member (tx.to_lower key) excluded)) [
        | inl e ↦ inl (iff.0 e, lookup-keep excluded key hs ∙ rw e refl)
        | inr e ↦ inr (λ w. cc (e, iff.1 w), lookup-keep excluded key hs ∙ rw e refl)
      ]

  -- Towards the client a field has no value if its name, in lower case, is content-length,
  -- transfer-encoding or a hop-by-hop name, be it one of the fixed ones or one that a Connection field
  -- lists; every other field keeps its values.
  pub lookup-filter_response_headers :
      (key : String) (hs : Headers)
      → let out = filter_response_headers hs in
        (IsWithheldResponse (tx.to_lower key) hs × (lookup key out ≡ none))
        ⊎ ((¬ IsWithheldResponse (tx.to_lower key) hs) × (lookup key out ≡ lookup key hs))
  unfolding filter_response_headers
  lookup-filter_response_headers key hs =
      passes_or_not (response_excluded hs) (IsWithheldResponse (tx.to_lower key) hs) key hs
        (response_excluded_iff (tx.to_lower key) hs)

  -- Towards the backend the four fields that the proxy sets have its values alone, whatever the
  -- client sent. A field under any other key has no value if its name, in lower case, is one of host,
  -- content-length, authorization, accept-encoding and expect, or, for a generation, one of the two
  -- idempotency keys, or a hop-by-hop name, be it one of the fixed ones or one that a Connection field
  -- lists; every other field keeps its values.
  pub lookup-filter_request_headers :
      (is_generation : Bool) (host token ua key : String) (hs : Headers)
      → str_eq "Accept-Encoding" key ≡ false
      → str_eq "User-Agent" key ≡ false
      → str_eq "Authorization" key ≡ false
      → str_eq "Host" key ≡ false
      → let sent = filter_request_headers is_generation host token ua hs in
        (lookup "Authorization" sent ≡ some (str_append "Bearer " token ∷ []))
        × (lookup "Host" sent ≡ some (host ∷ []))
        × (lookup "User-Agent" sent ≡ some (ua ∷ []))
        × (lookup "Accept-Encoding" sent ≡ some ("identity" ∷ []))
        × ((IsWithheldRequest is_generation (tx.to_lower key) hs × (lookup key sent ≡ none))
            ⊎ ((¬ IsWithheldRequest is_generation (tx.to_lower key) hs)
                × (lookup key sent ≡ lookup key hs)))
  unfolding filter_request_headers
  lookup-filter_request_headers is_generation host token ua key hs h₁ h₂ h₃ h₄ =
      let kept = keep (request_excluded is_generation hs) hs in
      let bearer = str_append "Bearer " token in
      let with_host = set "Host" host kept in
      let with_token = set "Authorization" bearer with_host in
      let with_ua = set "User-Agent" ua with_token in
      (
        set_keeps "Authorization" "Accept-Encoding" "identity" with_ua refl
            ∙ (set_keeps "Authorization" "User-Agent" ua with_token refl
                ∙ lookup-set "Authorization" bearer with_host),
        set_keeps "Host" "Accept-Encoding" "identity" with_ua refl
            ∙ (set_keeps "Host" "User-Agent" ua with_token refl
                ∙ (set_keeps "Host" "Authorization" bearer with_host refl
                    ∙ lookup-set "Host" host kept)),
        set_keeps "User-Agent" "Accept-Encoding" "identity" with_ua refl
            ∙ lookup-set "User-Agent" ua with_token,
        lookup-set "Accept-Encoding" "identity" with_ua,
        subst
            (λ o.
              (IsWithheldRequest is_generation (tx.to_lower key) hs × (o ≡ none))
              ⊎ ((¬ IsWithheldRequest is_generation (tx.to_lower key) hs) × (o ≡ lookup key hs)))
            (sym (
              set_keeps key "Accept-Encoding" "identity" with_ua h₁
              ∙ (set_keeps key "User-Agent" ua with_token h₂
                  ∙ (set_keeps key "Authorization" bearer with_host h₃
                      ∙ set_keeps key "Host" host kept h₄))))
            (passes_or_not (request_excluded is_generation hs)
              (IsWithheldRequest is_generation (tx.to_lower key) hs) key hs
              (request_excluded_iff is_generation (tx.to_lower key) hs)),
      )
