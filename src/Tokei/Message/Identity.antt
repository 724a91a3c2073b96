-- ===== src/Tokei/Message/Identity.antt =====
-- internal/tokei/proto.go: `primaryIdentity`, the key by which usages are told apart. The prefixes are
-- the bytes of `response:`, `provider:` and `message:`.
use agy_go.Prelude.{◌≡◌, refl, ap, ℕ, not, List, [], ◌∷◌, ◌++◌, if◌then◌else◌, ◌∙◌, sym, arith}
use agy_go.Tokei.Message.{RawUsage, is_empty}

abbrev pub response_prefix : List ℕ
response_prefix = 114 ∷ 101 ∷ 115 ∷ 112 ∷ 111 ∷ 110 ∷ 115 ∷ 101 ∷ 58 ∷ []

abbrev pub provider_prefix : List ℕ
provider_prefix = 112 ∷ 114 ∷ 111 ∷ 118 ∷ 105 ∷ 100 ∷ 101 ∷ 114 ∷ 58 ∷ []

abbrev pub message_prefix : List ℕ
message_prefix = 109 ∷ 101 ∷ 115 ∷ 115 ∷ 97 ∷ 103 ∷ 101 ∷ 58 ∷ []

unfoldable pub primary_identity : RawUsage → List ℕ
primary_identity u =
    if not (is_empty u.response_id)
    then response_prefix ++ u.response_id
    else (if not (is_empty u.provider_assigned_message_id)
        then provider_prefix ++ u.provider_assigned_message_id
        else (if not (is_empty u.message_id) then message_prefix ++ u.message_id else []))

-- Which of the three ids leads, and the id.
pub data Leading : Type 0 where
  nobody : Leading
  by_response by_provider by_message : List ℕ → Leading

abbrev pub leading : RawUsage → Leading
leading u =
    if not (is_empty u.response_id)
    then by_response u.response_id
    else (if not (is_empty u.provider_assigned_message_id)
        then by_provider u.provider_assigned_message_id
        else (if not (is_empty u.message_id) then by_message u.message_id else nobody))

abbrev key : Leading → List ℕ
key nobody = []
key (by_response id) = response_prefix ++ id
key (by_provider id) = provider_prefix ++ id
key (by_message id) = message_prefix ++ id

-- The first byte tells the prefixes apart.
abbrev first : List ℕ → ℕ
first [] = 0
first (b ∷ bs) = b

key_injective : (a b : Leading) → key a ≡ key b → a ≡ b
key_injective nobody nobody h = refl
key_injective nobody (by_response id) h = absurd (omega (arith, ap first h))
key_injective nobody (by_provider id) h = absurd (omega (arith, ap first h))
key_injective nobody (by_message id) h = absurd (omega (arith, ap first h))
key_injective (by_response id) nobody h = absurd (omega (arith, ap first h))
key_injective (by_response id) (by_response id') h = cc h
key_injective (by_response id) (by_provider id') h = absurd (omega (arith, ap first h))
key_injective (by_response id) (by_message id') h = absurd (omega (arith, ap first h))
key_injective (by_provider id) nobody h = absurd (omega (arith, ap first h))
key_injective (by_provider id) (by_response id') h = absurd (omega (arith, ap first h))
key_injective (by_provider id) (by_provider id') h = cc h
key_injective (by_provider id) (by_message id') h = absurd (omega (arith, ap first h))
key_injective (by_message id) nobody h = absurd (omega (arith, ap first h))
key_injective (by_message id) (by_response id') h = absurd (omega (arith, ap first h))
key_injective (by_message id) (by_provider id') h = absurd (omega (arith, ap first h))
key_injective (by_message id) (by_message id') h = cc h

primary_identity-leading : (u : RawUsage) → primary_identity u ≡ key (leading u)
unfolding primary_identity
primary_identity-leading u = ground arith

-- Two usages have the same identity only if the same one of the three ids leads in both, with the same
-- value, or neither has an id.
pub primary_identity-injective :
    (u v : RawUsage) → primary_identity u ≡ primary_identity v → leading u ≡ leading v
primary_identity-injective u v h =
    key_injective (leading u) (leading v)
      (sym (primary_identity-leading u) ∙ h ∙ primary_identity-leading v)
