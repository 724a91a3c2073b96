-- ===== src/Go/Text.antt =====
-- The functions of strings, strconv and time on text that the program calls, as parameters: no
-- theorem depends on what they answer unless it says so.
use agy_go.Prelude.{ℕ, Bool, String, List, Option}
use agy_go.Prelude.Int.{ℤ}

-- The layouts that are given to time.Parse.
pub data Layout : Type 0 where
  rfc3339 rfc3339_nano offset_seconds local_seconds rfc1123 rfc1123z rfc850 ansic : Layout

-- A parsed time, by its `Unix()` and its `UnixNano()`.
pub record Instant : Type 0 where
  pub unix : ℤ
  pub unix_nano : ℤ

pub record Text : Type 0 where
  pub trim_space : String → String
  pub to_lower : String → String
  pub to_upper : String → String
  -- `strings.Replace(s, old, new, 1)`
  pub replace_first : String → String → String → String
  -- `strings.Contains(s, substr)`
  pub contains : String → String → Bool
  -- `strings.Split(s, sep)`
  pub split : String → String → List String
  pub has_prefix : String → String → Bool
  pub trim_prefix : String → String → String
  -- The number of bytes of `hex.DecodeString(s)`.
  pub hex_length : String → Option ℕ
  -- `none` is the error.
  pub parse_int : String → Option ℤ
  -- `strconv.Atoi(s)`
  pub atoi : String → Option ℤ
  pub parse_time : Layout → String → Option Instant
