-- ===== src/Tokei/Alias/Told.antt =====
-- internal/tokei/reader.go: the groups after all usages, against the chains of usages that name
-- neighbours.
use agy_go.Prelude.{
  ◌++◌, ◌||◌, true, ◌≡◌, ◌↔◌, ◌⊎◌, refl, sym, ◌∙◌, subst, false, List, [], some, inl, inr,
}
use agy_go.Go.Bytes.{eqb, less, Bytes, is_empty}
use agy_go.Tokei.Message.{RawUsage}
use agy_go.Tokei.Message.Step.{StepEvent}
use agy_go.Tokei.Message.Gen.{GenEvent}
use agy_go.Tokei.Alias.{step_usages, gen_usages, link_events, Parents, root, fuel_of, link_all}
use agy_go.Tokei.Alias.Forest.{Root-order, Root, own, up, Root-unique, IsForest-nil}
use agy_go.Tokei.Alias.Search.{root-fuel_of}
use agy_go.Tokei.Alias.Groups.{
  Shared, Linked, shared, same, turned, chained, Joined, IsSound, Outcome,
}
use agy_go.Tokei.Alias.Chains.{weaken, Joined-trans, Joined-sym, link_all_lem}

-- Linked identities are equal or joined.
Linked-Joined :
    {us : List RawUsage} {ps : Parents} {x y : Bytes}
    → ((x y : Bytes) → Shared us x y → Joined ps x y)
    → Linked us x y
    → (x ≡ y) ⊎ Joined ps x y
Linked-Joined f (shared {x = x} {y = y} s) = inr (f x y s)
Linked-Joined f same = inl refl
Linked-Joined f (turned w) = elim (Linked-Joined f w) [
  | inl e ↦ inl (sym e)
  | inr j ↦ inr (Joined-sym j)
]
Linked-Joined {us} {ps} f (chained {x = x} {y = y} {z = z} w v) = elim (Linked-Joined f w) [
  | inl e ↦ subst (λ t. (t ≡ z) ⊎ Joined ps t z) (sym e) (Linked-Joined f v)
  | inr j ↦ elim (Linked-Joined f v) [
    | inl e ↦ inr (subst (Joined ps x) e j)
    | inr k ↦ inr (Joined-trans j k)
  ]
]

-- What `root` returns for two identities, with fuel for the map.
pub record AreTold (us : List RawUsage) (x y : Bytes) (ps : Parents) : Type 0 where
  pub root_left : Bytes
  pub root_right : Bytes
  pub map_left : Parents
  pub map_right : Parents
  pub left : root (fuel_of ps) x ps ≡ some (root_left, map_left)
  pub right : root (fuel_of ps) y ps ≡ some (root_right, map_right)
  pub member : Linked us x root_left
  pub greatest : (eqb x root_left || less x root_left) ≡ true
  pub agree : (root_left ≡ root_right) ↔ Linked us x y

tell :
    {us : List RawUsage} {ps : Parents} (x y : Bytes)
    → is_empty x ≡ false
    → is_empty y ≡ false
    → IsSound us ps
    → ((x y : Bytes) → Shared us x y → Joined ps x y)
    → AreTold us x y ps
tell {us} {ps} x y nx ny i f =
    let c = root-fuel_of x ps i.forest nx in
    let d = root-fuel_of y ps i.forest ny in
    record {
      root_left = c.top;
      root_right = d.top;
      map_left = c.after;
      map_right = d.after;
      left = c.returned;
      right = d.returned;
      member = i.sound x c.top nx c.is_root;
      greatest = Root-order i.forest c.is_root;
      agree = (
        λ e.
            chained (subst (Linked us x) e (i.sound x c.top nx c.is_root))
              (turned (i.sound y d.top ny d.is_root)),
        λ w. elim (Linked-Joined f w) [
          | inl e ↦ Root-unique (subst (λ t. Root ps t c.top) e c.is_root) d.is_root
          | inr j ↦ Root-unique c.is_root j.left ∙ Root-unique j.right d.is_root
        ],
      );
    }

nothing-IsSound : {us : List RawUsage} → IsSound us []
nothing-IsSound {us} = record { forest = IsForest-nil; sound = λ k r n. alone }
  where
    alone : {k r : Bytes} → Root [] k r → Linked us k r
    alone (own t) = same
    alone (up i w) = absurd (cc i)

link_all-AreTold :
    (us : List RawUsage) (x y : Bytes)
    → is_empty x ≡ false
    → is_empty y ≡ false
    → Outcome us (AreTold us x y) (link_all us [])
link_all-AreTold us x y nx ny =
    weaken us (link_all us []) (λ ps p. tell x y nx ny p.0.after p.1)
      (link_all_lem us [] nothing-IsSound (λ u m. m))

-- The loops over the events end. Either they give a map in which the search for the root of an
-- identity ends, with an identity that is linked to it and not less, and two identities have the same
-- root exactly if a chain of usages, each of which names two neighbours, leads from the one to the
-- other; or they fail, and then such a chain connects two identities that differ and are both
-- responses' or both providers'. This holds for identities that are not empty.
pub link_events-AreTold :
    (steps : List StepEvent) (gens : List GenEvent) (x y : Bytes)
    → is_empty x ≡ false
    → is_empty y ≡ false
    → Outcome
        (step_usages steps ++ gen_usages gens)
        (AreTold (step_usages steps ++ gen_usages gens) x y)
        (link_events steps gens)
unfolding link_events
link_events-AreTold steps gens = link_all-AreTold (step_usages steps ++ gen_usages gens)
