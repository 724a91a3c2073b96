-- ===== src/Tokei/Alias.antt =====
-- internal/tokei/reader.go: the aliases of generations. Every usage names up to three identities, which
-- `root` and `link` of `ReadConversation` join into groups. A Go map is the list of its entries, the
-- newest first; a missing key gives the empty string.
pub mod Forest
pub mod Search
pub mod Groups
pub mod Chains
pub mod Told
use agy_go.Prelude.{
  ℕ, zero, suc, Bool, true, false, not, ◌&&◌, ◌||◌, List, [], ◌∷◌, ◌++◌, Option, none, some,
  if◌then◌else◌, length, ◌==◌,
}
use agy_go.Go.Bytes.{Bytes, is_empty, eqb, less}
use agy_go.Tokei.Message.{RawUsage}
use agy_go.Tokei.Message.Step.{StepEvent}
use agy_go.Tokei.Message.Gen.{GenEvent}
use agy_go.Tokei.Message.Identity.{response_prefix, provider_prefix, message_prefix}

abbrev pub Parents : Type 0
Parents = List (Bytes × Bytes)

abbrev pub parent_of : Parents → Bytes → Bytes
parent_of [] k = []
parent_of ((j, p) ∷ ps) k = let older = parent_of ps k in if eqb j k then p else older

-- `parents[id] = id` where the key is missing.
abbrev pub with_key : Bytes → Parents → Parents
with_key id ps = if is_empty (parent_of ps id) then (id, id) ∷ ps else ps

-- The root, and the map with the path to it cut short. `none` is no Go value: the fuel was used up.
unfoldable pub root : ℕ → Bytes → Parents → Option (Bytes × Parents)
root zero id ps = none
root (suc fuel) id ps = elim (eqb (parent_of (with_key id ps) id) id) [
  | true ↦ some (id, with_key id ps)
  | false ↦ elim (root fuel (parent_of (with_key id ps) id) (with_key id ps)) [
    | none ↦ none
    | some (r, ps') ↦ some (r, (id, r) ∷ ps')
  ]
]

-- A path to a root meets each key once at most.
abbrev pub fuel_of : Parents → ℕ
fuel_of ps = suc (length ps)

-- `strings.HasPrefix`
abbrev pub has_prefix : Bytes → Bytes → Bool
has_prefix s [] = true
has_prefix [] (p ∷ ps) = false
has_prefix (b ∷ s) (p ∷ ps) = let later = has_prefix s ps in b == p && later

pub data Linking : Type 0 where
  linked : Parents → Linking
  ambiguous stuck : Linking

abbrev pub is_ambiguous : Bytes → Bytes → Bool
is_ambiguous a b =
    not (eqb a b)
    && ((has_prefix a response_prefix && has_prefix b response_prefix)
        || (has_prefix a provider_prefix && has_prefix b provider_prefix))

-- `parents[b] = a`, where the two are swapped if `a < b`.
abbrev pub join : Bytes → Bytes → Parents → Parents
join a b ps = if less a b then (a, b) ∷ ps else (b, a) ∷ ps

-- One round of the loop in `link`.
unfoldable pub link_pair : Bytes → Bytes → Parents → Linking
unfolding root
link_pair first id ps = elim (root (fuel_of ps) first ps) [
  | none ↦ stuck
  | some (a, ps1) ↦ elim (root (fuel_of ps1) id ps1) [
    | none ↦ stuck
    | some (b, ps2) ↦ if is_ambiguous a b then ambiguous else linked (join a b ps2)
  ]
]

abbrev pub then_link : Linking → (Parents → Linking) → Linking
then_link (linked ps) f = f ps
then_link ambiguous f = ambiguous
then_link stuck f = stuck

unfoldable pub link_rest : Bytes → List Bytes → Parents → Linking
unfolding link_pair
link_rest first [] ps = linked ps
link_rest first (id ∷ ids) ps = then_link (link_pair first id ps) (λ ps'. link_rest first ids ps')

abbrev pub identified : Bytes → Bytes → List Bytes → List Bytes
identified prefix id rest = if not (is_empty id) then (prefix ++ id) ∷ rest else rest

-- The identities of a usage, in the order in which `link` collects them.
abbrev pub ids_of : RawUsage → List Bytes
ids_of u = identified response_prefix u.response_id (
    identified provider_prefix u.provider_assigned_message_id
      (identified message_prefix u.message_id []))

unfoldable pub link_ids : List Bytes → Parents → Linking
unfolding link_rest
link_ids [] ps = linked ps
link_ids (first ∷ ids) ps = link_rest first ids ps

-- The usages one after another, up to an error.
unfoldable pub link_all : List RawUsage → Parents → Linking
unfolding link_ids
link_all [] ps = linked ps
link_all (u ∷ us) ps = then_link (link_ids (ids_of u) ps) (λ ps'. link_all us ps')

-- The usage of an event, if it has one, and its retries.
abbrev pub usages : Option RawUsage → List RawUsage → List RawUsage
usages none retries = retries
usages (some u) retries = u ∷ retries

abbrev pub step_usages : List StepEvent → List RawUsage
step_usages [] = []
step_usages (ev ∷ evs) = usages ev.usage ev.retries ++ step_usages evs

abbrev pub gen_usages : List GenEvent → List RawUsage
gen_usages [] = []
gen_usages (ev ∷ evs) = usages ev.usage ev.retries ++ gen_usages evs

-- The loops over the events, on the empty map.
unfoldable pub link_events : List StepEvent → List GenEvent → Linking
unfolding link_all
link_events steps gens = link_all (step_usages steps ++ gen_usages gens) []
