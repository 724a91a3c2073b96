-- ===== src/Tokei/Alias/Search.antt =====
-- internal/tokei/reader.go: the search of `root` on a forest.
use agy_go.Prelude.{
  ◌≡◌, refl, ℕ, zero, suc, ◌<◌, true, false, ◌∷◌, some, arith, Bool-cases, inl, inr,
}
use agy_go.Go.Bytes.{Bytes, is_empty, eqb, eqb_refl}
use agy_go.Tokei.Alias.{Parents, parent_of, with_key, root, fuel_of}
use agy_go.Tokei.Alias.Forest.{
  is_top, Root, own, up, IsForest, above, above_bound, above_less, keep, IsForest-insert,
  Root-order,
}

-- What `root` returns: the root of the key, and a map with the same roots.
pub record Found (fuel : ℕ) (k : Bytes) (ps : Parents) : Type 0 where
  pub top : Bytes
  pub after : Parents
  pub returned : root fuel k ps ≡ some (top, after)
  pub is_root : Root ps k top
  pub named : is_empty top ≡ false
  pub entry : is_empty (parent_of after top) ≡ false
  pub forest : IsForest after
  pub kept : {j s : Bytes} → Root ps j s → Root after j s
  pub entries :
      (j : Bytes) → is_empty (parent_of ps j) ≡ false → is_empty (parent_of after j) ≡ false

entry_insert :
    (ps : Parents) (j k r : Bytes)
    → is_empty r ≡ false
    → is_empty (parent_of ps j) ≡ false
    → is_empty (parent_of ((k, r) ∷ ps) j) ≡ false
entry_insert ps j k r n e = elim (Bool-cases (eqb k j)) [ inl g ↦ rw g n | inr g ↦ rw g e ]

Found-new :
    (fuel : ℕ) (k : Bytes) (ps : Parents)
    → IsForest ps
    → is_empty k ≡ false
    → is_empty (parent_of ps k) ≡ true
    → Found (suc fuel) k ps
unfolding root
Found-new fuel k ps f n e =
    let t : is_top ps k ≡ true = rw e refl in
    record {
      top = k;
      after = (k, k) ∷ ps;
      returned = rw (root, with_key, e, eqb_refl k, eqb_refl k, with_key, e) refl;
      is_root = own t;
      named = n;
      entry = rw (eqb_refl k) n;
      forest = IsForest-insert k k f n (rw (eqb_refl k) refl) (rw (eqb_refl k) refl);
      kept = keep (own t) n;
      entries = λ j. entry_insert ps j k k n;
    }

Found-own :
    (fuel : ℕ) (k : Bytes) (ps : Parents)
    → IsForest ps
    → is_empty k ≡ false
    → is_empty (parent_of ps k) ≡ false
    → eqb (parent_of ps k) k ≡ true
    → Found (suc fuel) k ps
unfolding root
Found-own fuel k ps f n e h = record {
  top = k;
  after = ps;
  returned = rw (root, with_key, e, h, with_key, e) refl;
  is_root = own (rw (e, h) refl);
  named = n;
  entry = e;
  forest = f;
  kept = λ w. w;
  entries = λ j l. l;
}

Found-up :
    (fuel : ℕ) (k : Bytes) (ps : Parents)
    → is_empty (parent_of ps k) ≡ false
    → eqb (parent_of ps k) k ≡ false
    → IsForest ps
    → Found fuel (parent_of ps k) ps
    → Found (suc fuel) k ps
unfolding root
Found-up fuel k ps e h f c =
    let i : is_top ps k ≡ false = rw (e, h) refl in
    let o = Root-order f (up i c.is_root) in
    record {
      top = c.top;
      after = (k, c.top) ∷ c.after;
      returned = rw (root, with_key, e, h, with_key, e, c.returned) refl;
      is_root = up i c.is_root;
      named = c.named;
      entry = entry_insert c.after c.top k c.top c.named c.entry;
      forest =
          IsForest-insert k c.top c.forest c.named o
            (elim (Bool-cases (eqb k c.top)) [ inl g ↦ rw g refl | inr g ↦ rw (g, c.entry) refl ]);
      kept = λ w. keep (c.kept (up i c.is_root)) c.named (c.kept w);
      entries = λ j l. entry_insert c.after j k c.top c.named (c.entries j l);
    }

-- Fuel for the keys above is enough.
root_lem :
    (fuel : ℕ) (k : Bytes) (ps : Parents)
    → IsForest ps
    → is_empty k ≡ false
    → above k ps < fuel
    → Found fuel k ps
root_lem zero k ps f n l = absurd (omega arith)
root_lem (suc fuel) k ps f n l = elim (Bool-cases (is_empty (parent_of ps k))) [
  | inl e ↦ Found-new fuel k ps f n e
  | inr e ↦ elim (Bool-cases (eqb (parent_of ps k) k)) [
    | inl h ↦ Found-own fuel k ps f n e h
    | inr h ↦
        let i : is_top ps k ≡ false = rw (e, h) refl in
        let fewer = above_less k (parent_of ps k) ps (f.order k i) (f.closed k i) in
        Found-up fuel k ps e h f (root_lem fuel (parent_of ps k) ps f e (omega arith))
  ]
]

pub root-fuel_of :
    (k : Bytes) (ps : Parents) → IsForest ps → is_empty k ≡ false → Found (fuel_of ps) k ps
root-fuel_of k ps f n = let few = above_bound k ps in root_lem (fuel_of ps) k ps f n (omega arith)
