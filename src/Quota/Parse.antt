-- ===== src/Quota/Parse.antt =====
-- internal/quota/quota.go: fractions, timestamps and the Retry-After header.
use agy_go.Prelude.{
  ◌≡◌, false, ◌||◌, String, List, [], ◌∷◌, Option, none, some, str_eq, arith, if◌then◌else◌,
}
use agy_go.Prelude.Int.{ℤ, pos, negsuc, ltb_ℤ, ◌≤ℤ◌}
use agy_go.Go.Float.{Float64, IsIeee}
use agy_go.Go.Text.{Text, Layout, Instant}
use agy_go.Storage.{AnyValue, nil, float64, float32, int, int64, string, other}

module _ {F : Type 0} ⦃fl : Float64 F⦄ where
  -- The end of `ParseQuotaFraction`, once the value is a float64.
  unfoldable pub clamp_fraction : F → Option F
  clamp_fraction f =
      if fl.is_nan f || fl.is_inf f
      then none
      else if fl.lt f (fl.ratio 0 1)
      then some (fl.ratio 0 1)
      else if fl.lt (fl.ratio 1 1) f
      then some (fl.ratio 1 1)
      else some f

  -- A number between 0.0 and 1.0.
  pub record IsFraction (f : F) : Type 0 where
    pub num : fl.is_nan f ≡ false
    pub not_below : fl.lt f (fl.ratio 0 1) ≡ false
    pub not_above : fl.lt (fl.ratio 1 1) f ≡ false

  pub clamp_fraction-IsFraction : IsIeee F → (v f : F) → clamp_fraction v ≡ some f → IsFraction f
  unfolding clamp_fraction
  clamp_fraction-IsFraction ieee v f e = ground (
    arith,
    ieee.lt_irrefl (fl.ratio 0 1),
    ieee.lt_irrefl (fl.ratio 1 1),
    ieee.ratio_num 0 1,
    ieee.ratio_num 1 1,
    ieee.ratio_mono 0 1 1,
  )

module _ {F : Type 0} ⦃fl : Float64 F⦄ ⦃tx : Text⦄ where
  unfoldable pub parse_quota_fraction : AnyValue F → Option F
  parse_quota_fraction nil = none
  parse_quota_fraction (float64 v) = clamp_fraction v
  parse_quota_fraction (float32 v) = clamp_fraction v
  parse_quota_fraction (int n) = clamp_fraction (fl.of_int n)
  parse_quota_fraction (int64 n) = clamp_fraction (fl.of_int n)
  parse_quota_fraction (string s) = elim (fl.parse (tx.trim_space s)) [
    | none ↦ none
    | some parsed ↦ clamp_fraction parsed
  ]
  parse_quota_fraction other = none

  -- Where float64 obeys IEEE 754, a fraction that is returned is a number between 0.0 and 1.0,
  -- whatever the value and its type.
  pub parse_quota_fraction-IsFraction :
      IsIeee F → (v : AnyValue F) (f : F) → parse_quota_fraction v ≡ some f → IsFraction f
  unfolding parse_quota_fraction
  parse_quota_fraction-IsFraction ieee nil f e = cc
  parse_quota_fraction-IsFraction ieee (float64 v) f e = clamp_fraction-IsFraction ieee v f e
  parse_quota_fraction-IsFraction ieee (float32 v) f e = clamp_fraction-IsFraction ieee v f e
  parse_quota_fraction-IsFraction ieee (int n) f e =
      clamp_fraction-IsFraction ieee (fl.of_int n) f e
  parse_quota_fraction-IsFraction ieee (int64 n) f e =
      clamp_fraction-IsFraction ieee (fl.of_int n) f e
  parse_quota_fraction-IsFraction ieee (string s) f e = parsed (fl.parse (tx.trim_space s)) e
    where
      parsed :
          (o : Option F)
          → elim o [ none ↦ none | some p ↦ clamp_fraction p ] ≡ some f
          → IsFraction f
      parsed none h = cc
      parsed (some p) h = clamp_fraction-IsFraction ieee p f h
  parse_quota_fraction-IsFraction ieee other f e = cc

  -- The layouts that are tried in turn on a text that is no number.
  parse_iso : String → Option F
  parse_iso str =
      let clean = tx.replace_first str "Z" "+00:00" in
      elim (tx.parse_time Layout.rfc3339 str) [
        | some t ↦ some (fl.of_int t.unix)
        | none ↦ elim (tx.parse_time Layout.rfc3339_nano str) [
          | some t ↦ some (fl.div (fl.of_int t.unix_nano) (fl.ratio 1_000_000_000 1))
          | none ↦ elim (tx.parse_time Layout.offset_seconds clean) [
            | some t ↦ some (fl.of_int t.unix)
            | none ↦ elim (tx.parse_time Layout.local_seconds clean) [
              | some t ↦ some (fl.of_int t.unix)
              | none ↦ none
            ]
          ]
        ]
      ]

  unfoldable pub parse_timestamp_text : String → Option F
  unfolding parse_iso
  parse_timestamp_text v =
      let str = tx.trim_space v in
      let upper = tx.to_upper str in
      if str_eq str ""
      then none
      else if str_eq upper "N/A"
          || str_eq upper "NONE"
          || str_eq upper "NULL"
          || str_eq upper "READY"
      then none
      else elim (fl.parse str) [ some num ↦ some num | none ↦ parse_iso str ]

  unfoldable pub parse_iso_or_timestamp : AnyValue F → Option F
  unfolding parse_timestamp_text
  parse_iso_or_timestamp nil = none
  parse_iso_or_timestamp (float64 v) = some v
  parse_iso_or_timestamp (float32 v) = some v
  parse_iso_or_timestamp (int n) = some (fl.of_int n)
  parse_iso_or_timestamp (int64 n) = some (fl.of_int n)
  parse_iso_or_timestamp (string s) = parse_timestamp_text s
  parse_iso_or_timestamp other = none

-- The clamp that both forms of the header share.
clamp_delay : ℤ → ℤ
clamp_delay seconds =
    if ltb_ℤ seconds (pos 5)
    then pos 5
    else (if ltb_ℤ (pos 86400) seconds then pos 86400 else seconds)

abbrev pub IsDelay : ℤ → Type 0
IsDelay d = (pos 5 ≤ℤ d) × (d ≤ℤ pos 86400)

clamp_delay-IsDelay : (seconds : ℤ) → IsDelay (clamp_delay seconds)
unfolding clamp_delay
clamp_delay-IsDelay (pos n) = ground arith
clamp_delay-IsDelay (negsuc n) = ground arith

module _ ⦃tx : Text⦄ where
  -- `until t` is `int64(time.Until(t).Seconds())`.
  parse_date : (Instant → ℤ) → String → List Layout → ℤ → ℤ
  unfolding clamp_delay
  parse_date until raw [] default_sec = default_sec
  parse_date until raw (layout ∷ rest) default_sec =
      let later = parse_date until raw rest default_sec in
      elim (tx.parse_time layout raw) [ some t ↦ clamp_delay (until t) | none ↦ later ]

  unfoldable pub parse_retry_after : (Instant → ℤ) → String → ℤ → ℤ
  unfolding clamp_delay parse_date
  parse_retry_after until raw default_sec =
      let trimmed = tx.trim_space raw in
      if str_eq trimmed "" then default_sec else elim (tx.parse_int trimmed) [
        | some seconds ↦ clamp_delay seconds
        | none ↦
            parse_date until trimmed
              (Layout.rfc1123 ∷ Layout.rfc1123z ∷ Layout.rfc850 ∷ Layout.ansic ∷ []) default_sec
      ]

  parse_date-IsDelay :
      (until : Instant → ℤ) (raw : String) (layouts : List Layout) (default_sec : ℤ)
      → IsDelay default_sec
      → IsDelay (parse_date until raw layouts default_sec)
  unfolding parse_date
  parse_date-IsDelay until raw [] d h = h
  parse_date-IsDelay until raw (layout ∷ rest) d h =
      elim (tx.parse_time layout raw)
        as (λ o.
          IsDelay
            (elim o [ some t ↦ clamp_delay (until t) | none ↦ parse_date until raw rest d ])) [
              | some t ↦ clamp_delay-IsDelay (until t)
              | none ↦ parse_date-IsDelay until raw rest d h
            ]

  -- Whatever the header says, a delay within 5 s and 24 h is returned if the default is one.
  pub parse_retry_after-IsDelay :
      (until : Instant → ℤ) (raw : String) (default_sec : ℤ)
      → IsDelay default_sec
      → IsDelay (parse_retry_after until raw default_sec)
  unfolding parse_retry_after
  parse_retry_after-IsDelay until raw d h = ground (
    arith,
    parse_date-IsDelay until (tx.trim_space raw)
        (Layout.rfc1123 ∷ Layout.rfc1123z ∷ Layout.rfc850 ∷ Layout.ansic ∷ []) d h,
  )
