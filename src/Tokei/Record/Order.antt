-- ===== src/Tokei/Record/Order.antt =====
-- internal/tokei/reader.go: the order of the usages that are merged into a record.
use agy_go.Prelude.{
  ◌≡◌, refl, ap, sym, subst, ◌∙◌, All, ℕ, ◌+◌, ◌%◌, ◌^◌, ◌<◌, ◌≤◌, List, ◌∷◌, arith,
}
use mathlib.Core.List.{Permᴰ}
use agy_go.Tokei.Message.{RawUsage}
use agy_go.Tokei.Record.{Counters, raise, normalize, new_record, merge, merge_all, record_of}

raise_comm : (a b c : ℕ) → raise (raise a b) c ≡ raise (raise a c) b
raise_comm a b c = ground arith

sum_le :
    (a b c d : ℕ) → c < 2 ^ 63 → d < 2 ^ 63 → a ≤ c → b ≤ d → (a + b) % 2 ^ 64 ≤ (c + d) % 2 ^ 64
sum_le a b c d h k l m = omega arith

raise_zero : (a : ℕ) → a ≡ raise 0 a
raise_zero a = ground arith

raise_le : (a b : ℕ) → a ≤ raise a b
raise_le a b = ground arith

raise_less : (a b c : ℕ) → a < c → b < c → raise a b < c
raise_less a b c h k = ground arith

-- A value that a later one exceeds leaves no trace.
raise_later : (m s t s' : ℕ) → s ≤ s' → raise (raise (raise m s) t) s' ≡ raise (raise m t) s'
raise_later m s t s' h = ground arith

output_comm :
    (t t1 t2 s1 s2 s : ℕ)
    → s1 ≤ s
    → s2 ≤ s
    → raise (raise (raise (raise t t1) s1) t2) s ≡ raise (raise (raise (raise t t2) s2) t1) s
output_comm t t1 t2 s1 s2 s h k =
    raise_later (raise t t1) s1 t2 s h
    ∙ ap (λ m. raise m s) (raise_comm t t1 t2)
    ∙ sym (raise_later (raise t t2) s2 t1 s k)

below :
    (v v1 v2 r r1 r2 : ℕ)
    → v < 2 ^ 63
    → v1 < 2 ^ 63
    → v2 < 2 ^ 63
    → r < 2 ^ 63
    → r1 < 2 ^ 63
    → r2 < 2 ^ 63
    → (raise v v1 + raise r r1) % 2 ^ 64 ≤ (raise (raise v v1) v2 + raise (raise r r1) r2) % 2 ^ 64
below v v1 v2 r r1 r2 hv hv1 hv2 hr hr1 hr2 =
    let a = raise_less v v1 (2 ^ 63) hv hv1 in
    let b = raise_less r r1 (2 ^ 63) hr hr1 in
    let c = raise_less (raise v v1) v2 (2 ^ 63) a hv2 in
    let d = raise_less (raise r r1) r2 (2 ^ 63) b hr2 in
    sum_le (raise v v1) (raise r r1) (raise (raise v v1) v2) (raise (raise r r1) r2) c d
      (raise_le (raise v v1) v2) (raise_le (raise r r1) r2)

total_comm :
    (t t1 t2 v v1 v2 r r1 r2 : ℕ)
    → v < 2 ^ 63
    → v1 < 2 ^ 63
    → v2 < 2 ^ 63
    → r < 2 ^ 63
    → r1 < 2 ^ 63
    → r2 < 2 ^ 63
    → raise
        (raise (raise (raise t t1) ((raise v v1 + raise r r1) % 2 ^ 64)) t2)
        ((raise (raise v v1) v2 + raise (raise r r1) r2) % 2 ^ 64)
      ≡ raise
          (raise (raise (raise t t2) ((raise v v2 + raise r r2) % 2 ^ 64)) t1)
          ((raise (raise v v2) v1 + raise (raise r r2) r1) % 2 ^ 64)
total_comm t t1 t2 v v1 v2 r r1 r2 hv hv1 hv2 hr hr1 hr2 =
    output_comm t t1 t2 _ _ _ (below v v1 v2 r r1 r2 hv hv1 hv2 hr hr1 hr2) (
      subst (λ s. (raise v v2 + raise r r2) % 2 ^ 64 ≤ s % 2 ^ 64)
        (λ j. raise_comm v v2 v1 j + raise_comm r r2 r1 j)
        (below v v2 v1 r r2 r1 hv hv2 hv1 hr hr2 hr1))
    ∙ ap
        (λ s.
          raise (raise (raise (raise t t2) ((raise v v2 + raise r r2) % 2 ^ 64)) t1) (s % 2 ^ 64))
        (λ j. raise_comm v v1 v2 j + raise_comm r r1 r2 j)

-- The output's parts are small enough for their sum not to wrap around.
pub record IsSmall (visible reasoning : ℕ) : Type 0 where
  pub few_visible : visible < 2 ^ 63
  pub few_reasoning : reasoning < 2 ^ 63

abbrev pub HasSmall : RawUsage → Type 0
HasSmall u = IsSmall u.visible_output_tokens u.reasoning_tokens

abbrev AreSmall : Counters → Type 0
AreSmall c = IsSmall c.visible_output_tokens c.reasoning_tokens

-- The counters by the numbers that decide them.
counters : ℕ → ℕ → ℕ → ℕ → ℕ → ℕ → Counters
counters i cr cc v r t = record {
  input_tokens = i;
  cache_read_tokens = cr;
  cache_creation_tokens = cc;
  visible_output_tokens = v;
  reasoning_tokens = r;
  total_output_tokens = t;
  total_tokens = (i + cr + t) % 2 ^ 64;
}

counters-path :
    {i i' cr cr' cc cc' v v' r r' t t' : ℕ}
    → i ≡ i'
    → cr ≡ cr'
    → cc ≡ cc'
    → v ≡ v'
    → r ≡ r'
    → t ≡ t'
    → counters i cr cc v r t ≡ counters i' cr' cc' v' r' t'
counters-path a b c d e f j = counters (a j) (b j) (c j) (d j) (e j) (f j)

merge-AreSmall : (c : Counters) (u : RawUsage) → AreSmall c → HasSmall u → AreSmall (merge c u)
unfolding merge normalize
merge-AreSmall c u h k = record {
  few_visible =
      raise_less c.visible_output_tokens u.visible_output_tokens (2 ^ 63) h.few_visible
        k.few_visible;
  few_reasoning =
      raise_less c.reasoning_tokens u.reasoning_tokens (2 ^ 63) h.few_reasoning k.few_reasoning;
}

merge_comm :
    (c : Counters) (u v : RawUsage)
    → AreSmall c
    → HasSmall u
    → HasSmall v
    → merge (merge c u) v ≡ merge (merge c v) u
unfolding merge normalize counters
merge_comm c u w hc hu hw =
    counters-path (raise_comm c.input_tokens u.input_tokens w.input_tokens)
      (raise_comm c.cache_read_tokens u.cache_read_tokens w.cache_read_tokens)
      (raise_comm c.cache_creation_tokens u.cache_creation_tokens w.cache_creation_tokens)
      (raise_comm c.visible_output_tokens u.visible_output_tokens w.visible_output_tokens)
      (raise_comm c.reasoning_tokens u.reasoning_tokens w.reasoning_tokens)
      (total_comm c.total_output_tokens u.total_output_tokens w.total_output_tokens
        c.visible_output_tokens u.visible_output_tokens w.visible_output_tokens c.reasoning_tokens
        u.reasoning_tokens w.reasoning_tokens hc.few_visible hu.few_visible hw.few_visible
        hc.few_reasoning hu.few_reasoning hw.few_reasoning)

All-perm : {us vs : List RawUsage} → Permᴰ us vs → All HasSmall us → All HasSmall vs
All-perm Permᴰ.nil h = h
All-perm (Permᴰ.cons e p) h = (subst HasSmall e h.0, All-perm p h.1)
All-perm (Permᴰ.swap {l = l} e f) h = (subst HasSmall f h.1.0, (subst HasSmall e h.0, h.1.1))
All-perm (Permᴰ.trans p q) h = All-perm q (All-perm p h)

merge_all-perm :
    (c : Counters) {us vs : List RawUsage}
    → Permᴰ us vs
    → AreSmall c
    → All HasSmall us
    → merge_all c us ≡ merge_all c vs
unfolding merge_all
merge_all-perm c Permᴰ.nil hc h = refl
merge_all-perm c (Permᴰ.cons {a = a} {l₁ = us} {l₂ = vs} e p) hc h =
    merge_all-perm (merge c a) p (merge-AreSmall c a hc h.0) h.1
    ∙ ap (λ u. merge_all (merge c u) vs) e
merge_all-perm c (Permᴰ.swap {a = a} {b = b} {l = l} e f) hc h =
    ap (λ d. merge_all d l) (merge_comm c a b hc h.0 h.1.0)
    ∙ (λ j. merge_all (merge (merge c (f j)) (e j)) l)
merge_all-perm c (Permᴰ.trans p q) hc h =
    merge_all-perm c p hc h ∙ merge_all-perm c q hc (All-perm p h)

no_counters : Counters
no_counters = counters 0 0 0 0 0 0

new_record-merge : (u : RawUsage) → new_record u ≡ merge no_counters u
unfolding new_record merge normalize counters no_counters
new_record-merge u =
    counters-path (raise_zero _) (raise_zero _) (raise_zero _) (raise_zero _) (raise_zero _) (λ j.
      raise (raise_zero u.total_output_tokens j)
        ((raise_zero u.visible_output_tokens j + raise_zero u.reasoning_tokens j) % 2 ^ 64))

-- The counters of a record do not depend on the order in which the usages of its identity arrive,
-- the first one included, where their visible and reasoning tokens are below 2 ^ 63.
pub record_of-perm :
    (u v : RawUsage) (us vs : List RawUsage)
    → Permᴰ (u ∷ us) (v ∷ vs)
    → All HasSmall (u ∷ us)
    → record_of u us ≡ record_of v vs
unfolding record_of merge_all no_counters counters
record_of-perm u v us vs p h =
    ap (λ c. merge_all c us) (new_record-merge u)
    ∙ merge_all-perm no_counters p
        (record { few_visible = omega arith; few_reasoning = omega arith }) h
    ∙ ap (λ c. merge_all c vs) (sym (new_record-merge v))
