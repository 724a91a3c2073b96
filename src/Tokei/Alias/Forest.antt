-- ===== src/Tokei/Alias/Forest.antt =====
-- The map of parents as a forest: roots, and what `root` keeps of it.
use agy_go.Prelude.{
  ◌≡◌, refl, ap, sym, ◌∙◌, subst, ℕ, suc, ◌≤◌, ◌<◌, Bool, true, false, not, ◌||◌, [], ◌∷◌, arith,
  if◌then◌else◌, length, Bool-cases, inl, inr,
}
use agy_go.Go.Bytes.{
  Bytes, is_empty, eqb, less, eqb_refl, eqb→path, less_irrefl, less_trans, eqb_sym,
}
use agy_go.Tokei.Alias.{Parents, parent_of}

-- A key without an entry is its own root, as soon as it is asked for.
abbrev pub is_top : Parents → Bytes → Bool
is_top ps k = is_empty (parent_of ps k) || eqb (parent_of ps k) k

pub data Root (ps : Parents) : Bytes → Bytes → Type 0 where
  own : {k : Bytes} → is_top ps k ≡ true → Root ps k k
  up : {k r : Bytes} → is_top ps k ≡ false → Root ps (parent_of ps k) r → Root ps k r

pub Root-unique : {ps : Parents} {k r s : Bytes} → Root ps k r → Root ps k s → r ≡ s
Root-unique (own t) (own t') = refl
Root-unique (own t) (up i w) = absurd (cc (sym t ∙ i))
Root-unique (up i w) (own t) = absurd (cc (sym t ∙ i))
Root-unique (up i w) (up i' w') = Root-unique w w'

pub Root-is_top : {ps : Parents} {k r : Bytes} → Root ps k r → is_top ps r ≡ true
Root-is_top (own t) = t
Root-is_top (up i w) = Root-is_top w

-- Parents are greater than their children, and have entries.
pub record IsForest (ps : Parents) : Type 0 where
  pub order : (k : Bytes) → is_top ps k ≡ false → less k (parent_of ps k) ≡ true
  pub closed : (k : Bytes) → is_top ps k ≡ false → is_empty (parent_of ps (parent_of ps k)) ≡ false

-- The entries whose key is greater.
abbrev pub above : Bytes → Parents → ℕ
above k [] = 0
above k ((j, p) ∷ ps) = let others = above k ps in if less k j then suc others else others

pub above_bound : (k : Bytes) (ps : Parents) → above k ps ≤ length ps
above_bound k [] = omega arith
above_bound k ((j, p) ∷ ps) = ground (arith, above_bound k ps)

above_mono : (k p : Bytes) (ps : Parents) → less k p ≡ true → above p ps ≤ above k ps
above_mono k p [] h = omega arith
above_mono k p ((j, q) ∷ ps) h = ground (arith, above_mono k p ps h, less_trans k p j h)

pub above_less :
    (k p : Bytes) (ps : Parents)
    → less k p ≡ true
    → is_empty (parent_of ps p) ≡ false
    → above p ps < above k ps
above_less k p [] h e = absurd (cc e)
above_less k p ((j, q) ∷ ps) h e = elim (Bool-cases (eqb j p)) [
  | inl f ↦
      let same = eqb→path j p f in rw (same, less_irrefl p, h) (ground (arith, above_mono k p ps h))
  | inr f ↦ ground (arith, above_less k p ps h (rw f at e), less_trans k p j h)
]

insert_order :
    {ps : Parents} (k r : Bytes)
    → IsForest ps
    → (eqb k r || less k r) ≡ true
    → (j : Bytes) → is_top ((k, r) ∷ ps) j ≡ false
    → less j (parent_of ((k, r) ∷ ps) j) ≡ true
insert_order {ps} k r f o j i = elim (Bool-cases (eqb k j)) [
  | inl h ↦
      let later = rw (eqb→path k j h) at o in
      let away = rw h at i in rw h (ground (arith, eqb_sym j r))
  | inr h ↦ rw h (f.order j (rw h at i))
]

insert_closed :
    {ps : Parents} (k r : Bytes)
    → IsForest ps
    → is_empty r ≡ false
    → (eqb k r || not (is_empty (parent_of ps r))) ≡ true
    → (j : Bytes) → is_top ((k, r) ∷ ps) j ≡ false
    → is_empty (parent_of ((k, r) ∷ ps) (parent_of ((k, r) ∷ ps) j)) ≡ false
insert_closed {ps} k r f n e j i = elim (Bool-cases (eqb k j)) [
  | inl h ↦ rw h (ground arith)
  | inr h ↦ let old = f.closed j (rw h at i) in rw h (ground arith)
]

pub IsForest-insert :
    {ps : Parents} (k r : Bytes)
    → IsForest ps
    → is_empty r ≡ false
    → (eqb k r || less k r) ≡ true
    → (eqb k r || not (is_empty (parent_of ps r))) ≡ true
    → IsForest ((k, r) ∷ ps)
IsForest-insert k r f n o e = record {
  order = insert_order k r f o;
  closed = insert_closed k r f n e;
}

-- A key that is given a root of the map as its parent.
new_entry :
    {ps : Parents} (k r : Bytes) → is_top ps r ≡ true → is_empty r ≡ false → Root ((k, r) ∷ ps) k r
new_entry {ps} k r t n = elim (Bool-cases (eqb k r)) [
  | inl h ↦ rw (eqb→path k r h) (own (rw (eqb_refl r) (ground (arith, eqb_refl r))))
  | inr h ↦ up (rw (eqb_refl k) (ground (arith, eqb_sym k r))) (rw (eqb_refl k) (own (rw h t)))
]

keep_here :
    {ps : Parents} (k r j s : Bytes)
    → Root ps k r
    → is_empty r ≡ false
    → Root ps j s
    → eqb k j ≡ true
    → Root ((k, r) ∷ ps) j s
keep_here {ps} k r j s w n v h =
    let same = eqb→path k j h in
    let v' = subst (λ i. Root ps i s) (sym same) v in
    subst (λ i. Root ((k, r) ∷ ps) i s) same
      (subst (λ t. Root ((k, r) ∷ ps) k t) (Root-unique w v') (new_entry k r (Root-is_top w) n))

-- Cutting the path of a key short to its root moves no root.
pub keep :
    {ps : Parents} {k r j s : Bytes}
    → Root ps k r
    → is_empty r ≡ false
    → Root ps j s
    → Root ((k, r) ∷ ps) j s
keep {ps} {k} {r} w n (own {k = j} t) = elim (Bool-cases (eqb k j)) [
  | inl h ↦ keep_here k r j j w n (own t) h
  | inr h ↦ own (rw h t)
]
keep {ps} {k} {r} w n (up {k = j} {r = s} i v) =
    let rest = keep w n v in
    elim (Bool-cases (eqb k j)) [
      | inl h ↦ keep_here k r j s w n (up i v) h
      | inr h ↦ up (rw h i) (rw h rest)
    ]

-- The greater of two roots becomes the parent of the other one: the latter's group moves to it.
pub Root-join :
    {ps : Parents} {j s : Bytes} (b a : Bytes)
    → is_top ps b ≡ true
    → is_top ps a ≡ true
    → is_empty a ≡ false
    → Root ps j s
    → Root ((b, a) ∷ ps) j (if eqb b s then a else s)
Root-join {ps} b a tb ta n (own {k = j} t) = elim (Bool-cases (eqb b j)) [
  | inl h ↦ rw h (subst (λ i. Root ((b, a) ∷ ps) i a) (eqb→path b j h) (new_entry b a ta n))
  | inr h ↦ rw h (own (rw h t))
]
Root-join {ps} b a tb ta n (up {k = j} i v) =
    let rest = Root-join b a tb ta n v in
    elim (Bool-cases (eqb b j)) [
      | inl h ↦ absurd (cc (sym tb ∙ ap (is_top ps) (eqb→path b j h) ∙ i))
      | inr h ↦ up (rw h i) (rw h rest)
    ]

pub Root-order :
    {ps : Parents} {k r : Bytes} → IsForest ps → Root ps k r → (eqb k r || less k r) ≡ true
Root-order f (own {k} t) = rw (eqb_refl k) refl
Root-order {ps} f (up {k} {r} i w) =
    let here = f.order k i in
    let rest = Root-order f w in
    elim (Bool-cases (eqb (parent_of ps k) r)) [
      | inl h ↦
          let last = subst (λ t. less k t ≡ true) (eqb→path (parent_of ps k) r h) here in
          ground arith
      | inr h ↦ ground (arith, less_trans k (parent_of ps k) r)
    ]

pub IsForest-nil : IsForest []
IsForest-nil = record { order = λ k i. absurd (cc i); closed = λ k i. absurd (cc i) }
