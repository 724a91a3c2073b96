-- ===== src/Proxy/Headers/Names.antt =====
-- Which names `HopByHopNames` collects.
use agy_go.Prelude.{
  ◌≡◌, ◌≢◌, ◌↔◌, ◌⊎◌, refl, ap, subst, ◌∙◌, true, String, List, [], ◌∷◌, arith, str_eq, eq_iff,
  Bool-cases, inl, inr,
}
use agy_go.Go.Text.{Text}
use agy_go.Proxy.Headers.{
  Headers, member, lookup, values, hop_by_hop_headers, add_names, add_values, hop_by_hop_names,
}

-- A name is one of the list.
abbrev pub Among : String → List String → Type 0
Among s [] = ⊥
Among s (t ∷ rest) = (s ≡ t) ⊎ Among s rest

pub member_iff : (s : String) (names : List String) → (member s names ≡ true) ↔ Among s names
member_iff s [] = (λ h. absurd (cc h), λ h. absurd h)
member_iff s (t ∷ rest) = ground (arith, eq_iff s t, member_iff s rest)

module _ ⦃tx : Text⦄ where
  -- One of the comma-separated parts, in lower case and without the spaces round it.
  abbrev pub IsPart : String → List String → Type 0
  IsPart name parts =
      (part : String) × Among part parts × (name ≡ tx.to_lower (tx.trim_space part)) × (name ≢ "")

  -- A name that a Connection field lists.
  abbrev pub IsListed : String → List String → Type 0
  IsListed name lines = (line : String) × Among line lines × IsPart name (tx.split line ",")

  -- A name of a hop-by-hop field: one of the fixed ones, or one that a Connection field lists.
  abbrev pub IsHopByHop : String → Headers → Type 0
  IsHopByHop name hs =
      Among name (
        "connection" ∷ "keep-alive" ∷ "proxy-authenticate" ∷ "proxy-authorization"
        ∷ "proxy-connection" ∷ "te" ∷ "trailer" ∷ "transfer-encoding" ∷ "upgrade" ∷ [])
      ⊎ IsListed name (values (lookup "Connection" hs))

  IsPart-later :
      (name part : String) (rest : List String) → IsPart name rest → IsPart name (part ∷ rest)
  IsPart-later name part rest (p, among, e, full) = (p, inr among, e, full)

  IsListed-later :
      (name line : String) (rest : List String) → IsListed name rest → IsListed name (line ∷ rest)
  IsListed-later name line rest (l, among, part) = (l, inr among, part)

  IsPart-of_member :
      (name : String) (parts names : List String)
      → member name (add_names parts names) ≡ true
      → IsPart name parts ⊎ (member name names ≡ true)
  unfolding add_names
  IsPart-of_member name [] names h = inr h
  IsPart-of_member name (part ∷ rest) names h =
      elim (Bool-cases (str_eq (tx.to_lower (tx.trim_space part)) "")) [
        | inl e ↦ later (IsPart-of_member name rest names (rw e at h))
        | inr e ↦ elim (Bool-cases (str_eq name (tx.to_lower (tx.trim_space part)))) [
          | inl d ↦
              let same = (eq_iff name (tx.to_lower (tx.trim_space part))).0 d in
              inl (part, inl refl, same, λ z. cc (d, e, z))
          | inr d ↦ later (IsPart-of_member name rest names (rw (e, d) at h))
        ]
      ]
    where
      later :
          IsPart name rest ⊎ (member name names ≡ true)
          → IsPart name (part ∷ rest) ⊎ (member name names ≡ true)
      later (inl p) = inl (IsPart-later name part rest p)
      later (inr m) = inr m

  member_of_part :
      (name : String) (parts names : List String)
      → IsPart name parts ⊎ (member name names ≡ true)
      → member name (add_names parts names) ≡ true
  unfolding add_names
  member_of_part name [] names (inl (p, among, e, full)) = absurd among
  member_of_part name [] names (inr m) = m
  member_of_part name (part ∷ rest) names (inr m) =
      ground (arith, member_of_part name rest names (inr m))
  member_of_part name (part ∷ rest) names (inl (p, inl here, e, full)) =
      let same : name ≡ tx.to_lower (tx.trim_space part) =
        e ∙ ap (λ q. tx.to_lower (tx.trim_space q)) here in
      ground (
        arith,
        same,
        full,
        eq_iff name (tx.to_lower (tx.trim_space part)),
        eq_iff (tx.to_lower (tx.trim_space part)) "",
      )
  member_of_part name (part ∷ rest) names (inl (p, inr among, e, full)) =
      ground (arith, member_of_part name rest names (inl (p, among, e, full)))

  IsListed-of_member :
      (name : String) (lines names : List String)
      → member name (add_values lines names) ≡ true
      → IsListed name lines ⊎ (member name names ≡ true)
  unfolding add_values
  IsListed-of_member name [] names h = inr h
  IsListed-of_member name (line ∷ rest) names h =
      split (IsListed-of_member name rest names)
        (IsPart-of_member name (tx.split line ",") (add_values rest names) h)
    where
      later :
          IsListed name rest ⊎ (member name names ≡ true)
          → IsListed name (line ∷ rest) ⊎ (member name names ≡ true)
      later (inl l) = inl (IsListed-later name line rest l)
      later (inr m) = inr m

      split :
          (member name (add_values rest names) ≡ true
            → IsListed name rest ⊎ (member name names ≡ true))
          → IsPart name (tx.split line ",") ⊎ (member name (add_values rest names) ≡ true)
          → IsListed name (line ∷ rest) ⊎ (member name names ≡ true)
      split others (inl part) = inl (line, inl refl, part)
      split others (inr m) = later (others m)

  member_of_listed :
      (name : String) (lines names : List String)
      → IsListed name lines ⊎ (member name names ≡ true)
      → member name (add_values lines names) ≡ true
  unfolding add_values
  member_of_listed name [] names (inl (l, among, part)) = absurd among
  member_of_listed name [] names (inr m) = m
  member_of_listed name (line ∷ rest) names (inr m) =
      member_of_part name (tx.split line ",") (add_values rest names)
        (inr (member_of_listed name rest names (inr m)))
  member_of_listed name (line ∷ rest) names (inl (l, inl here, part)) =
      member_of_part name (tx.split line ",") (add_values rest names)
        (inl (subst (λ k. IsPart name (tx.split k ",")) here part))
  member_of_listed name (line ∷ rest) names (inl (l, inr among, part)) =
      member_of_part name (tx.split line ",") (add_values rest names)
        (inr (member_of_listed name rest names (inl (l, among, part))))

  pub hop_by_hop_names_iff :
      (name : String) (hs : Headers)
      → (member name (hop_by_hop_names hs) ≡ true) ↔ IsHopByHop name hs
  unfolding hop_by_hop_names
  hop_by_hop_names_iff name hs =
      (λ h. there (IsListed-of_member name _ _ h), λ h. member_of_listed name _ _ (back h))
    where
      there :
          IsListed name (values (lookup "Connection" hs)) ⊎ (member name hop_by_hop_headers ≡ true)
          → IsHopByHop name hs
      there (inl l) = inr l
      there (inr m) = inl ((member_iff name hop_by_hop_headers).0 m)

      back :
          IsHopByHop name hs
          → IsListed name (values (lookup "Connection" hs))
            ⊎ (member name hop_by_hop_headers ≡ true)
      back (inl m) = inr ((member_iff name hop_by_hop_headers).1 m)
      back (inr l) = inl l
