-- ===== src/Tokei/Record.antt =====
-- internal/tokei/reader.go and types.go: the counters of a `UsageRecord`, as `upsert` merges them from
-- the usages of one identity, and `Normalize`. The model, the provider and the time of a record are
-- left out.
pub mod Order
use agy_go.Prelude.{ℕ, ◌+◌, ◌%◌, ◌^◌, List, [], ◌∷◌, if◌then◌else◌, ltb}
use agy_go.Tokei.Message.{RawUsage}

pub record Counters : Type 0 where
  pub input_tokens : ℕ
  pub cache_read_tokens : ℕ
  pub cache_creation_tokens : ℕ
  pub visible_output_tokens : ℕ
  pub reasoning_tokens : ℕ
  pub total_output_tokens : ℕ
  pub total_tokens : ℕ

-- `if new > old { old = new }`
abbrev pub raise : ℕ → ℕ → ℕ
raise old new = if ltb old new then new else old

-- The sums of uint64 wrap around.
unfoldable pub normalize : Counters → Counters
normalize c =
    let output =
      raise c.total_output_tokens ((c.visible_output_tokens + c.reasoning_tokens) % 2 ^ 64) in
    record c {
      total_output_tokens = output;
      total_tokens = (c.input_tokens + c.cache_read_tokens + output) % 2 ^ 64;
    }

unfoldable pub new_record : RawUsage → Counters
unfolding normalize
new_record u = normalize (record {
  input_tokens = u.input_tokens;
  cache_read_tokens = u.cache_read_tokens;
  cache_creation_tokens = u.cache_creation_tokens;
  visible_output_tokens = u.visible_output_tokens;
  reasoning_tokens = u.reasoning_tokens;
  total_output_tokens = u.total_output_tokens;
  total_tokens = 0;
})

unfoldable pub merge : Counters → RawUsage → Counters
unfolding normalize
merge c u = normalize (record c {
  input_tokens = raise c.input_tokens u.input_tokens;
  cache_read_tokens = raise c.cache_read_tokens u.cache_read_tokens;
  cache_creation_tokens = raise c.cache_creation_tokens u.cache_creation_tokens;
  visible_output_tokens = raise c.visible_output_tokens u.visible_output_tokens;
  reasoning_tokens = raise c.reasoning_tokens u.reasoning_tokens;
  total_output_tokens = raise c.total_output_tokens u.total_output_tokens;
})

unfoldable pub merge_all : Counters → List RawUsage → Counters
unfolding merge
merge_all c [] = c
merge_all c (u ∷ us) = merge_all (merge c u) us

-- The usages of one identity in the order in which they arrive, at least one.
unfoldable pub record_of : RawUsage → List RawUsage → Counters
unfolding new_record merge_all
record_of u us = merge_all (new_record u) us
