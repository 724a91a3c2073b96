-- ===== src/Tokei/Alias/Groups.antt =====
-- internal/tokei/reader.go: `link`, and the groups of identities that usages name together.
use agy_go.Prelude.{
  ◌≡◌, refl, ap, subst, true, false, List, some, arith, if◌then◌else◌, Bool-cases, inl, inr,
}
use mathlib.Core.List.{Memᴰ}
use agy_go.Go.Bytes.{Bytes, is_empty, eqb, less, eqb_refl, eqb→path, eqb_sym, less_total}
use agy_go.Tokei.Message.{RawUsage}
use agy_go.Tokei.Alias.{
  Parents, parent_of, root, fuel_of, Linking, linked, ambiguous, stuck, is_ambiguous, join,
  link_pair, ids_of,
}
use agy_go.Tokei.Alias.Forest.{
  Root, Root-unique, Root-is_top, IsForest, is_top, Root-join, IsForest-insert,
}
use agy_go.Tokei.Alias.Search.{Found, root-fuel_of}

-- Two identities that a usage of the list names both.
pub record Shared (us : List RawUsage) (x y : Bytes) : Type 0 where
  pub usage : RawUsage
  pub in_list : Memᴰ usage us
  pub names_left : Memᴰ x (ids_of usage)
  pub names_right : Memᴰ y (ids_of usage)

pub data Linked (us : List RawUsage) : Bytes → Bytes → Type 0 where
  shared : {x y : Bytes} → Shared us x y → Linked us x y
  same : {x : Bytes} → Linked us x x
  turned : {x y : Bytes} → Linked us x y → Linked us y x
  chained : {x y z : Bytes} → Linked us x y → Linked us y z → Linked us x z

pub record Joined (ps : Parents) (x y : Bytes) : Type 0 where
  pub top : Bytes
  pub left : Root ps x top
  pub right : Root ps y top

-- A map whose groups hold linked identities only.
pub record IsSound (us : List RawUsage) (ps : Parents) : Type 0 where
  pub forest : IsForest ps
  pub sound : (k r : Bytes) → is_empty k ≡ false → Root ps k r → Linked us k r

-- Two groups of which each has an identity that tells it from the other, and which a usage connects.
pub record Ambiguity (us : List RawUsage) : Type 0 where
  pub one : Bytes
  pub other : Bytes
  pub connected : Linked us one other
  pub distinct : is_ambiguous one other ≡ true

abbrev pub Outcome : List RawUsage → (Parents → Type 0) → Linking → Type 0
Outcome us P (linked ps) = P ps
Outcome us P ambiguous = Ambiguity us
Outcome us P stuck = ⊥

-- A later map, which separates nothing.
pub record Grows (us : List RawUsage) (ps ps' : Parents) : Type 0 where
  pub after : IsSound us ps'
  pub kept : {x y : Bytes} → Joined ps x y → Joined ps' x y

join-IsForest :
    (a b : Bytes) (ps : Parents)
    → IsForest ps
    → is_empty a ≡ false
    → is_empty b ≡ false
    → is_empty (parent_of ps a) ≡ false
    → is_empty (parent_of ps b) ≡ false
    → IsForest (join a b ps)
join-IsForest a b ps f na nb ea eb = elim (Bool-cases (less a b)) [
  | inl h ↦ rw h (IsForest-insert a b f nb (rw h (ground arith)) (rw eb (ground arith)))
  | inr h ↦ rw h (
      IsForest-insert b a f na (ground (arith, less_total a b, eqb_sym a b)) (rw ea (ground arith)))
]

-- The root that the join leaves of a root.
moved : Bytes → Bytes → Bytes → Bytes
moved a b s = if less a b then (if eqb a s then b else s) else (if eqb b s then a else s)

join-Root :
    {ps : Parents} {j s : Bytes} (a b : Bytes)
    → is_top ps a ≡ true
    → is_top ps b ≡ true
    → is_empty a ≡ false
    → is_empty b ≡ false
    → Root ps j s
    → Root (join a b ps) j (moved a b s)
unfolding moved
join-Root a b ta tb na nb w = elim (Bool-cases (less a b)) [
  | inl h ↦ rw h (Root-join a b ta tb nb w)
  | inr h ↦ rw h (Root-join b a tb ta na w)
]

moved_both : (a b : Bytes) → moved a b a ≡ moved a b b
unfolding moved
moved_both a b = elim (Bool-cases (eqb a b)) [
  | inl h ↦ ap (moved a b) (eqb→path a b h)
  | inr h ↦ rw (h, eqb_refl a, eqb_refl b) (ground (arith, eqb_sym a b))
]

moved-Linked : (us : List RawUsage) (a b s : Bytes) → Linked us a b → Linked us s (moved a b s)
unfolding moved
moved-Linked us a b s w = elim (Bool-cases (less a b)) [
  | inl h ↦ elim (Bool-cases (eqb a s)) [
    | inl g ↦ rw (h, g) (subst (λ t. Linked us t b) (eqb→path a s g) w)
    | inr g ↦ rw (h, g) same
  ]
  | inr h ↦ elim (Bool-cases (eqb b s)) [
    | inl g ↦ rw (h, g) (subst (λ t. Linked us t a) (eqb→path b s g) (turned w))
    | inr g ↦ rw (h, g) same
  ]
]

-- A search keeps a map sound.
Found-IsSound :
    {us : List RawUsage} {ps : Parents} {k : Bytes}
    → IsSound us ps
    → (c : Found (fuel_of ps) k ps) → IsSound us c.after
Found-IsSound {us} {ps} w c = record {
  forest = c.forest;
  sound = λ j s n v.
      let e = root-fuel_of j ps w.forest n in
      subst (Linked us j) (Root-unique (c.kept e.is_root) v) (w.sound j e.top n e.is_root);
}

module _ {us : List RawUsage} {ps : Parents} (a b : Bytes) (ta : is_top ps a ≡ true)
    (tb : is_top ps b ≡ true) (na : is_empty a ≡ false) (nb : is_empty b ≡ false)
    (w : Linked us a b) where
  join-IsSound : IsSound us ps → IsForest (join a b ps) → IsSound us (join a b ps)
  join-IsSound i f = record {
    forest = f;
    sound = λ j s n v.
        let e = root-fuel_of j ps i.forest n in
        let here = join-Root a b ta tb na nb e.is_root in
        subst (Linked us j) (Root-unique here v)
          (chained (i.sound j e.top n e.is_root) (moved-Linked us a b e.top w));
  }

  join-kept : {x y : Bytes} → Joined ps x y → Joined (join a b ps) x y
  join-kept j = record {
    top = moved a b j.top;
    left = join-Root a b ta tb na nb j.left;
    right = join-Root a b ta tb na nb j.right;
  }

  join-Joined : {x y : Bytes} → Root ps x a → Root ps y b → Joined (join a b ps) x y
  join-Joined {x} {y} v v' = record {
    top = moved a b b;
    left = subst (Root (join a b ps) x) (moved_both a b) (join-Root a b ta tb na nb v);
    right = join-Root a b ta tb na nb v';
  }

pub Grows-trans :
    {us : List RawUsage} {ps ps' ps'' : Parents}
    → Grows us ps ps'
    → Grows us ps' ps''
    → Grows us ps ps''
Grows-trans g h = record { after = h.after; kept = λ j. h.kept (g.kept j) }

link_pair-root :
    (first id a b : Bytes) (ps ps1 ps2 : Parents)
    → root (fuel_of ps) first ps ≡ some (a, ps1)
    → root (fuel_of ps1) id ps1 ≡ some (b, ps2)
    → link_pair first id ps ≡ (if is_ambiguous a b then ambiguous else linked (join a b ps2))
unfolding link_pair
link_pair-root first id a b ps ps1 ps2 e f = rw (link_pair, e, f) refl

pub link_pair_lem :
    {us : List RawUsage} (first id : Bytes) (ps : Parents)
    → IsSound us ps
    → is_empty first ≡ false
    → is_empty id ≡ false
    → Linked us first id
    → Outcome us (λ ps'. Grows us ps ps' × Joined ps' first id) (link_pair first id ps)
link_pair_lem {us} first id ps i nf nid l =
    let c = root-fuel_of first ps i.forest nf in
    let i1 = Found-IsSound i c in
    let d = root-fuel_of id c.after c.forest nid in
    let i2 = Found-IsSound i1 d in
    let v = d.kept (c.kept c.is_root) in
    let v' = d.kept d.is_root in
    let la = i2.sound first c.top nf v in
    let lb = i2.sound id d.top nid v' in
    let w = chained (turned la) (chained l lb) in
    rw (link_pair-root first id c.top d.top ps c.after d.after c.returned d.returned)
      (elim (Bool-cases (is_ambiguous c.top d.top)) [
        | inl h ↦ rw h (record { one = c.top; other = d.top; connected = w; distinct = h })
        | inr h ↦
            let ta = Root-is_top v in
            let tb = Root-is_top v' in
            let ea = d.entries c.top c.entry in
            let f = join-IsForest c.top d.top d.after d.forest c.named d.named ea d.entry in
            rw h (
              record {
                after = join-IsSound c.top d.top ta tb c.named d.named w i2 f;
                kept = λ j. join-kept c.top d.top ta tb c.named d.named w (record {
                  top = j.top;
                  left = d.kept (c.kept j.left);
                  right = d.kept (c.kept j.right);
                });
              },
              join-Joined c.top d.top ta tb c.named d.named w v v',
            )
      ])
