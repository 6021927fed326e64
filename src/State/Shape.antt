-- ===== src/State/Shape.antt =====
-- What a file of runtime/state/state.c keeps of a tree: the labels of the nodes and how they hang
-- together, without the addresses; and how a tree is rebuilt from its records one by one.
use mathlib.Core.Path.{subst}
use phantomid.Common.{
  ℕ, ◌+◌, ◌≤◌, ◌≡◌, refl, sym, ap, ◌∙◌, inl, inr, Bool, false, List, [], ◌∷◌, ◌++◌, arith, ◌==◌,
  if◌then◌else◌, Bool-cases,
}
use phantomid.Common.CString.{Str, str_eq, str_eq_self}
use phantomid.Tree.Store.{Node}
use phantomid.Tree.Forest.{Forest, nil, tree}

-- What a record keeps of a node.
pub record Label : Type 0 where
  pub id : Str
  pub creation_time : ℕ
  pub is_root : Bool
  pub is_active : Bool

pub data Shape : Type 0 where
  empty : Shape
  branch : Label → Shape → Shape → Shape

abbrev pub label : Node → Label
label n = record {
  id = n.id;
  creation_time = n.creation_time;
  is_root = n.is_root;
  is_active = n.is_active;
}

abbrev pub shape : Forest → Shape
shape nil = empty
shape (tree p n kids rest) = branch (label n) (shape kids) (shape rest)

abbrev pub beside : Shape → Shape → Shape
beside empty f = f
beside (branch l kids rest) f = branch l kids (beside rest f)

abbrev pub leaf : Label → Shape
leaf l = branch l empty empty

-- The trees of `f` become the last children of the first node found with the id.
abbrev pub under : Str → Shape → Shape → Shape
under s f empty = empty
under s f (branch l kids rest) =
    if str_eq l.id s
    then branch l (beside kids f) rest
    else branch l (under s f kids) (under s f rest)

-- How many nodes have the id.
abbrev pub times : Str → Shape → ℕ
times s empty = 0
times s (branch l kids rest) = (if str_eq l.id s then 1 else 0) + times s kids + times s rest

-- The labels in preorder, each with the id of the node it hangs on.
abbrev pub entries : Str → Shape → List (Str × Label)
entries s empty = []
entries s (branch l kids rest) = (s, l) ∷ (entries l.id kids ++ entries s rest)

abbrev pub rebuild : List (Str × Label) → Shape → Shape
rebuild [] f = f
rebuild ((s, l) ∷ es) f = rebuild es (under s (leaf l) f)

-- Each entry finds one node to hang on.
abbrev pub Finds : List (Str × Label) → Shape → Type 0
Finds [] f = Unit
Finds ((s, l) ∷ es) f = (times s f ≡ 1) × Finds es (under s (leaf l) f)

beside_assoc : (f g h : Shape) → beside (beside f g) h ≡ beside f (beside g h)
beside_assoc empty g h = refl
beside_assoc (branch l kids rest) g h = ap (branch l kids) (beside_assoc rest g h)

times-beside : (s : Str) (f g : Shape) → times s (beside f g) ≡ times s f + times s g
times-beside s empty g = omega arith
times-beside s (branch l kids rest) g = omega (arith, times-beside s rest g)

under_absent : (s : Str) (f S : Shape) → times s S ≡ 0 → under s f S ≡ S
under_absent s f empty e = refl
under_absent s f (branch l kids rest) e = elim (Bool-cases (str_eq l.id s)) [
  | inl here ↦ absurd (ground arith)
  | inr away ↦
      rw (away, under_absent s f kids (ground arith), under_absent s f rest (ground arith)) refl
]

times-under :
    (i s : Str) (f S : Shape) → times s S ≡ 1 → times i (under s f S) ≡ times i S + times i f
times-under i s f empty e = absurd (omega (arith, e))
times-under i s f (branch l kids rest) e = elim (Bool-cases (str_eq l.id s)) [
  | inl here ↦ rw here (omega (arith, times-beside i kids f))
  | inr away ↦ elim (Bool-cases (times s kids == 1)) [
    | inl in_kids ↦
        rw (away, under_absent s f rest (ground arith))
          (omega (arith, times-under i s f kids (ground arith)))
    | inr in_rest ↦
        rw (away, under_absent s f kids (ground arith))
          (omega (arith, times-under i s f rest (ground arith)))
  ]
]

under-under : (s : Str) (a b S : Shape) → under s b (under s a S) ≡ under s (beside a b) S
under-under s a b empty = refl
under-under s a b (branch l kids rest) = elim (Bool-cases (str_eq l.id s)) [
  | inl here ↦ rw (here, here) (ap (λ (ks : Shape). branch l ks rest) (beside_assoc kids a b))
  | inr away ↦ rw (away, away) (rw (under-under s a b kids, under-under s a b rest) refl)
]

under-beside :
    (i : Str) (f g h : Shape) → times i g ≡ 0 → under i f (beside g h) ≡ beside g (under i f h)
under-beside i f empty h e = refl
under-beside i f (branch l kids rest) h e = elim (Bool-cases (str_eq l.id i)) [
  | inl here ↦ absurd (ground arith)
  | inr away ↦
      rw (away, under_absent i f kids (ground arith), under-beside i f rest h (ground arith)) refl
]

-- Children of the leaf that has just been hung up.
under-leaf :
    (s : Str) (l : Label) (f S : Shape)
    → times l.id S ≡ 0
    → under l.id f (under s (leaf l) S) ≡ under s (branch l f empty) S
under-leaf s l f empty e = refl
under-leaf s l f (branch m kids rest) e =
    let other : str_eq m.id l.id ≡ false = ground arith in
    elim (Bool-cases (str_eq m.id s)) [
      | inl here ↦
          rw (here, other)
            (rw
              (
                under-beside l.id f kids (leaf l) (ground arith),
                under_absent l.id f rest (ground arith),
                str_eq_self l.id,
              )
              refl)
      | inr away ↦
          rw (away, other)
            (rw (under-leaf s l f kids (ground arith), under-leaf s l f rest (ground arith)) refl)
    ]

rebuild-append :
    (xs ys : List (Str × Label)) (f : Shape) → rebuild (xs ++ ys) f ≡ rebuild ys (rebuild xs f)
rebuild-append [] ys f = refl
rebuild-append ((s, l) ∷ xs) ys f = rebuild-append xs ys (under s (leaf l) f)

Finds-append :
    (xs ys : List (Str × Label)) (f : Shape)
    → Finds xs f
    → Finds ys (rebuild xs f)
    → Finds (xs ++ ys) f
Finds-append [] ys f a b = b
Finds-append ((s, l) ∷ xs) ys f (e, a) b = (e, Finds-append xs ys (under s (leaf l) f) a b)

beside-empty : (f : Shape) → beside f empty ≡ f
beside-empty empty = refl
beside-empty (branch l kids rest) = ap (branch l kids) (beside-empty rest)

under-empty : (s : Str) (S : Shape) → under s empty S ≡ S
under-empty s empty = refl
under-empty s (branch l kids rest) = elim (Bool-cases (str_eq l.id s)) [
  | inl here ↦ rw here (ap (λ (ks : Shape). branch l ks rest) (beside-empty kids))
  | inr away ↦ rw (away, under-empty s kids, under-empty s rest) refl
]

-- No id occurs twice in the two together.
abbrev pub Apart : Shape → Shape → Type 0
Apart f S = (i : Str) → times i f + times i S ≤ 1

-- One after the other, the entries of a forest with ids of its own hang up that forest, and each
-- finds its place.
pub rebuild-entries :
    (s : Str) (f S : Shape)
    → times s S ≡ 1
    → Apart f S
    → (rebuild (entries s f) S ≡ under s f S) × Finds (entries s f) S
rebuild-entries s empty S e apart = (sym (under-empty s S), tt)
rebuild-entries s (branch l kids rest) S e apart =
    let own : times l.id S ≡ 0 = ground (arith, apart l.id, str_eq_self l.id) in
    let S1 = under s (leaf l) S in
    let S2 = under s (branch l kids empty) S in
    let grown = λ (i : Str). times-under i s (leaf l) S e in
    let grown2 = λ (i : Str). times-under i s (branch l kids empty) S e in
    let (ks, found_ks) =
      rebuild-entries l.id kids S1 (ground (arith, own, grown l.id, str_eq_self l.id, apart l.id))
        (λ i. ground (arith, apart i, grown i)) in
    let after : rebuild (entries l.id kids) S1 ≡ S2 = ks ∙ under-leaf s l kids S own in
    let (rs, found_rs) =
      rebuild-entries s rest S2 (ground (arith, apart s, grown2 s))
        (λ i. ground (arith, apart i, grown2 i)) in
    (
      rebuild-append (entries l.id kids) (entries s rest) S1
          ∙ ap (rebuild (entries s rest)) after
          ∙ rs
          ∙ under-under s (branch l kids empty) rest S,
      (
        e,
        Finds-append (entries l.id kids) (entries s rest) S1 found_ks
            (subst (Finds (entries s rest)) (sym after) found_rs),
      ),
    )
