-- ===== src/Proxy/RequestBody.antt =====
-- internal/proxy/proxy.go: `ReadRequestBody`. The body is the list of bytes that arrive, `broken` says
-- that reading then fails with an error other than the end of the body.
use agy_go.Prelude.{
  ◌≡◌, ◌↔◌, refl, ℕ, ◌*◌, ◌≤◌, Bool, true, false, not, ◌&&◌, String, List, [], ◌∷◌, Option, none,
  some, arith, str_eq, eq_iff, if◌then◌else◌, ltb, length, take, All,
}
use agy_go.Prelude.Int.{ℤ, pos, negsuc, ltb_ℤ, ◌≤ℤ◌}
use agy_go.Go.Text.{Text}

abbrev pub max_request_body_bytes : ℕ
max_request_body_bytes = 64 * 1_048_576

-- Two kinds of errors are told apart by the caller.
pub data BodyResult : Type 0 where
  read : List ℕ → BodyResult
  bad_request too_large : BodyResult

-- Every further Content-Length is the first one.
abbrev all_same : String → List String → Bool
all_same first [] = true
all_same first (cl ∷ rest) = let later = all_same first rest in str_eq cl first && later

equal_of_all_same :
    (first : String) (rest : List String) → all_same first rest ≡ true → All (λ cl. cl ≡ first) rest
equal_of_all_same first [] h = tt
equal_of_all_same first (cl ∷ rest) h =
    ground (arith, eq_iff cl first, equal_of_all_same first rest)

all_same_of_equal :
    (first : String) (rest : List String) → All (λ cl. cl ≡ first) rest → all_same first rest ≡ true
all_same_of_equal first [] h = refl
all_same_of_equal first (cl ∷ rest) h =
    ground (arith, eq_iff cl first, all_same_of_equal first rest)

-- `io.ReadFull` into a buffer of the announced length.
read_full : ℕ → List ℕ → BodyResult
read_full n sent = if ltb (length sent) n then bad_request else read (take n sent)

read_announced : Option ℤ → List ℕ → BodyResult
unfolding read_full
read_announced none sent = bad_request
read_announced (some (negsuc n)) sent = bad_request
read_announced (some (pos n)) sent =
    if ltb max_request_body_bytes n then too_large else read_full n sent

-- `io.ReadAll` of the limited reader.
read_all : List ℕ → Bool → BodyResult
read_all sent broken =
    if ltb max_request_body_bytes (length sent)
    then too_large
    else (if broken then bad_request else read sent)

module _ ⦃tx : Text⦄ where
  abbrev is_chunked : List String → Bool
  is_chunked [] = false
  is_chunked (coding ∷ []) = str_eq (tx.to_lower (tx.trim_space coding)) "chunked"
  is_chunked (_ ∷ _ ∷ _) = false

  -- The Content-Length fields, and the Transfer-Encoding.
  read_framed : List String → String → List ℕ → Bool → BodyResult
  unfolding read_announced read_all
  read_framed [] te sent broken =
      if not (str_eq te "") && not (is_chunked (tx.split te ","))
      then bad_request
      else read_all sent broken
  read_framed (first ∷ rest) te sent broken =
      if not (str_eq te "")
      then bad_request
      else (if all_same first rest
          then read_announced (tx.parse_int (tx.trim_space first)) sent
          else bad_request)

  -- `declared` is `r.ContentLength`.
  unfoldable pub read_request_body : ℤ → List String → String → List ℕ → Bool → BodyResult
  unfolding read_framed
  read_request_body declared content_lengths te sent broken =
      if ltb_ℤ (pos max_request_body_bytes) declared
      then too_large
      else read_framed content_lengths te sent broken

  length_of_announced :
      (o : Option ℤ) (sent body : List ℕ)
      → read_announced o sent ≡ read body
      → (n : ℕ) × (o ≡ some (pos n))
        × (body ≡ take n sent)
        × (n ≤ length sent)
        × (n ≤ max_request_body_bytes)
  unfolding read_announced read_full
  length_of_announced none sent body h = absurd (cc h)
  length_of_announced (some (negsuc n)) sent body h = absurd (cc h)
  length_of_announced (some (pos n)) sent body h =
      (n, refl, ground arith, ground arith, ground arith)

  announced_of_length :
      (n : ℕ) (o : Option ℤ) (sent body : List ℕ)
      → o ≡ some (pos n)
      → body ≡ take n sent
      → n ≤ length sent
      → n ≤ max_request_body_bytes
      → read_announced o sent ≡ read body
  unfolding read_announced read_full
  announced_of_length n o sent body e b available limit = rw (e, b) (ground arith)

  -- Under Content-Length fields exactly those bodies are read which are framed by them alone: the
  -- declared length is within the limit, there is no Transfer-Encoding, all fields are the same text,
  -- and the body is as many of the bytes that arrive as they announce, all of which did arrive, and no
  -- more than the limit.
  pub read_request_body_framed :
      (declared : ℤ) (first : String) (rest : List String) (te : String) (sent body : List ℕ)
      (broken : Bool)
      → (read_request_body declared (first ∷ rest) te sent broken ≡ read body) ↔ (
          (declared ≤ℤ pos max_request_body_bytes)
          × (te ≡ "")
          × All (λ cl. cl ≡ first) rest
          × ((n : ℕ) × (tx.parse_int (tx.trim_space first) ≡ some (pos n))
              × (body ≡ take n sent)
              × (n ≤ length sent)
              × (n ≤ max_request_body_bytes)))
  unfolding read_request_body read_framed
  read_request_body_framed declared first rest te sent body broken = (
    λ h. (
      ground arith,
      ground (arith, eq_iff te ""),
      equal_of_all_same first rest (ground arith),
      length_of_announced (tx.parse_int (tx.trim_space first)) sent body (ground arith),
    ),
    λ (small, plain, equal, (n, e, b, available, limit)). ground (
      arith,
      eq_iff te "",
      all_same_of_equal first rest equal,
      announced_of_length n (tx.parse_int (tx.trim_space first)) sent body e b available limit,
    ),
  )
