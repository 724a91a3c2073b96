-- ===== src/Tokei/Alias/Chains.antt =====
-- internal/tokei/reader.go: what the loops over the identities of a usage, and over all usages, keep of
-- the groups, and which identities they join.
use agy_go.Prelude.{◌≡◌, refl, sym, subst, false, List, [], ◌∷◌, ◌++◌, Bool-cases, inl, inr}
use mathlib.Core.List.{Memᴰ}
use agy_go.Go.Bytes.{Bytes, is_empty}
use agy_go.Tokei.Message.{RawUsage}
use agy_go.Tokei.Message.Identity.{response_prefix, provider_prefix, message_prefix}
use agy_go.Tokei.Alias.{
  Parents, Linking, linked, ambiguous, stuck, then_link, link_pair, link_rest, ids_of, identified,
  link_ids, link_all,
}
use agy_go.Tokei.Alias.Forest.{Root, Root-unique}
use agy_go.Tokei.Alias.Search.{root-fuel_of}
use agy_go.Tokei.Alias.Groups.{
  Shared, Linked, shared, Joined, IsSound, Grows, Outcome, Grows-trans, link_pair_lem,
}

pub weaken :
    (us : List RawUsage) {P Q : Parents → Type 0} (o : Linking)
    → ((ps : Parents) → P ps → Q ps)
    → Outcome us P o
    → Outcome us Q o
weaken us (linked ps) f h = f ps h
weaken us ambiguous f h = h
weaken us stuck f h = h

then_link-Outcome :
    (us : List RawUsage) (P Q : Parents → Type 0) (o : Linking) (f : Parents → Linking)
    → Outcome us P o
    → ((ps : Parents) → P ps → Outcome us Q (f ps))
    → Outcome us Q (then_link o f)
then_link-Outcome us P Q (linked ps) f h g = g ps h
then_link-Outcome us P Q ambiguous f h g = h
then_link-Outcome us P Q stuck f h g = h

AreNamed : List Bytes → Type 0
AreNamed ids = (id : Bytes) → Memᴰ id ids → is_empty id ≡ false

link_rest_lem :
    {us : List RawUsage} (first : Bytes) (ids : List Bytes) (ps : Parents)
    → IsSound us ps
    → is_empty first ≡ false
    → AreNamed ids
    → ((id : Bytes) → Memᴰ id ids → Linked us first id)
    → Outcome us
        (λ ps'. Grows us ps ps' × ((id : Bytes) → Memᴰ id ids → Joined ps' first id))
        (link_rest first ids ps)
unfolding link_rest AreNamed
link_rest_lem first [] ps i nf n l = (record { after = i; kept = λ j. j }, λ id m. elim m [ ])
link_rest_lem {us} first (id ∷ ids) ps i nf n l =
    then_link-Outcome us _ _ (link_pair first id ps) (λ ps'. link_rest first ids ps')
      (link_pair_lem first id ps i nf (n id (Memᴰ.head refl)) (l id (Memᴰ.head refl)))
      (λ ps' p.
        weaken us (link_rest first ids ps') (λ ps'' q. (Grows-trans p.0 q.0, found p.1 q.0 q.1))
          (link_rest_lem first ids ps' p.0.after nf (λ j m. n j (Memᴰ.tail m))
            (λ j m. l j (Memᴰ.tail m))))
  where
    found :
        {ps' ps'' : Parents}
        → Joined ps' first id
        → Grows us ps' ps''
        → ((j : Bytes) → Memᴰ j ids → Joined ps'' first j)
        → (j : Bytes) → Memᴰ j (id ∷ ids)
        → Joined ps'' first j
    found {ps'} {ps''} h g f j (Memᴰ.head e) = subst (Joined ps'' first) (sym e) (g.kept h)
    found h g f j (Memᴰ.tail m) = f j m

pub Joined-trans : {ps : Parents} {x y z : Bytes} → Joined ps x y → Joined ps y z → Joined ps x z
Joined-trans {ps} {x} {y} {z} j k = record {
  top = j.top;
  left = j.left;
  right = subst (Root ps z) (Root-unique k.left j.right) k.right;
}

pub Joined-sym : {ps : Parents} {x y : Bytes} → Joined ps x y → Joined ps y x
Joined-sym j = record { top = j.top; left = j.right; right = j.left }

link_ids_lem :
    {us : List RawUsage} (ids : List Bytes) (ps : Parents)
    → IsSound us ps
    → AreNamed ids
    → ((x y : Bytes) → Memᴰ x ids → Memᴰ y ids → Linked us x y)
    → Outcome us
        (λ ps'. Grows us ps ps' × ((x y : Bytes) → Memᴰ x ids → Memᴰ y ids → Joined ps' x y))
        (link_ids ids ps)
unfolding link_ids AreNamed
link_ids_lem [] ps i n l = (record { after = i; kept = λ j. j }, λ x y m. elim m [ ])
link_ids_lem {us} (first ∷ ids) ps i n l =
    weaken us (link_rest first ids ps)
      (λ ps' p.
        (p.0, λ x y m m'. Joined-trans (Joined-sym (to_first p.0 p.1 x m)) (to_first p.0 p.1 y m')))
      (link_rest_lem first ids ps i nf (λ j m. n j (Memᴰ.tail m))
        (λ j m. l first j (Memᴰ.head refl) (Memᴰ.tail m)))
  where
    nf : is_empty first ≡ false
    nf = n first (Memᴰ.head refl)

    to_first :
        {ps' : Parents}
        → Grows us ps ps'
        → ((j : Bytes) → Memᴰ j ids → Joined ps' first j)
        → (j : Bytes) → Memᴰ j (first ∷ ids)
        → Joined ps' first j
    to_first {ps'} g f j (Memᴰ.head e) =
        let c = root-fuel_of first ps' g.after.forest nf in
        record {
          top = c.top;
          left = c.is_root;
          right = subst (λ k. Root ps' k c.top) (sym e) c.is_root;
        }
    to_first g f j (Memᴰ.tail m) = f j m

identified-AreNamed :
    (prefix id : Bytes) (rest : List Bytes)
    → is_empty (prefix ++ id) ≡ false
    → AreNamed rest
    → AreNamed (identified prefix id rest)
unfolding AreNamed
identified-AreNamed prefix id rest n h j m = elim (Bool-cases (is_empty id)) [
  | inl e ↦ h j (rw e at m)
  | inr e ↦ named (rw e at m)
]
  where
    named : Memᴰ j ((prefix ++ id) ∷ rest) → is_empty j ≡ false
    named (Memᴰ.head e') = rw e' n
    named (Memᴰ.tail m') = h j m'

ids_of-AreNamed : (u : RawUsage) → AreNamed (ids_of u)
unfolding AreNamed
ids_of-AreNamed u = identified-AreNamed response_prefix u.response_id _ refl (
    identified-AreNamed provider_prefix u.provider_assigned_message_id _ refl
      (identified-AreNamed message_prefix u.message_id [] refl (λ j m. elim m [ ])))

pub link_all_lem :
    {us : List RawUsage} (vs : List RawUsage) (ps : Parents)
    → IsSound us ps
    → ((u : RawUsage) → Memᴰ u vs → Memᴰ u us)
    → Outcome us
        (λ ps'. Grows us ps ps' × ((x y : Bytes) → Shared vs x y → Joined ps' x y))
        (link_all vs ps)
unfolding link_all
link_all_lem [] ps i l = (record { after = i; kept = λ j. j }, λ x y s. elim s.in_list [ ])
link_all_lem {us} (u ∷ vs) ps i l =
    then_link-Outcome us _ _ (link_ids (ids_of u) ps) (λ ps'. link_all vs ps')
      (link_ids_lem (ids_of u) ps i (ids_of-AreNamed u) (λ x y m m'.
        shared
          (record { usage = u; in_list = l u (Memᴰ.head refl); names_left = m; names_right = m' })))
      (λ ps' p.
        weaken us (link_all vs ps')
          (λ ps'' q. (
            Grows-trans p.0 q.0,
            λ x y s. found p.1 q.0 q.1 s.usage s.in_list s.names_left s.names_right,
          ))
          (link_all_lem vs ps' p.0.after (λ v m. l v (Memᴰ.tail m))))
  where
    found :
        {ps' ps'' : Parents} {x y : Bytes}
        → ((x y : Bytes) → Memᴰ x (ids_of u) → Memᴰ y (ids_of u) → Joined ps' x y)
        → Grows us ps' ps''
        → ((x y : Bytes) → Shared vs x y → Joined ps'' x y)
        → (v : RawUsage) → Memᴰ v (u ∷ vs)
        → Memᴰ x (ids_of v)
        → Memᴰ y (ids_of v)
        → Joined ps'' x y
    found {x = x} {y = y} h g f v (Memᴰ.head e) m m' =
        g.kept (h x y (subst (λ w. Memᴰ x (ids_of w)) e m) (subst (λ w. Memᴰ y (ids_of w)) e m'))
    found {x = x} {y = y} h g f v (Memᴰ.tail l') m m' =
        f x y (record { usage = v; in_list = l'; names_left = m; names_right = m' })
