-- ===== src/State/Relabel.antt =====
-- A node of a forest gets the label of a record, as in a round of the loop of `state_load` of
-- runtime/state/state.c: what stays of the forest and of its memory, and what shape it has.
use mathlib.Core.Path.{subst, ap₂}
use phantomid.Common.{
  ℕ, ◌%◌, ◌<◌, ◌≡◌, refl, sym, ap, ◌∙◌, inl, inr, true, false, ◌∷◌, some, arith, u64_mod, ◌==◌,
  if◌then◌else◌, eq→==, ==_iff, Bool-cases, take,
}
use phantomid.Common.CString.{Str, str_eq, str_eq_iff, cstr}
use phantomid.Tree.Store.{Ptr, null, Node, Heap, Tree, write, write_self, write_ne}
use phantomid.Tree.Forest.{
  Forest, nil, tree, roots, count, join, occ, All, Holds, Parents, occ-join,
}
use phantomid.Tree.Invariant.{Represents, Fits}
use phantomid.State.{NodeState, restore}
use phantomid.State.Shape.{Label, label, shape, Shape, branch, leaf, under, beside}
use phantomid.Tree.Attach.{attach}

-- The label that a record gives.
abbrev pub kept : NodeState → Label
kept state = record {
  id = take 63 (cstr state.id);
  creation_time = state.creation_time;
  is_root = state.is_root;
  is_active = state.is_active;
}

module _ (c : Ptr) (state : NodeState) where
  abbrev pub relabel : Forest → Forest
  relabel nil = nil
  relabel (tree p n kids rest) =
      tree p (if p == c then restore state n else n) (relabel kids) (relabel rest)

  pub roots-relabel : (f : Forest) → roots (relabel f) ≡ roots f
  roots-relabel nil = refl
  roots-relabel (tree p n kids rest) = ap (◌∷◌ p) (roots-relabel rest)

  pub count-relabel : (f : Forest) → count (relabel f) ≡ count f
  count-relabel nil = refl
  count-relabel (tree p n kids rest) = omega (arith, count-relabel kids, count-relabel rest)

  pub occ-relabel : (a : Ptr) (f : Forest) → occ a (relabel f) ≡ occ a f
  occ-relabel a nil = refl
  occ-relabel a (tree p n kids rest) = omega (arith, occ-relabel a kids, occ-relabel a rest)

  pub relabel_absent : (f : Forest) → occ c f ≡ 0 → relabel f ≡ f
  relabel_absent nil e = refl
  relabel_absent (tree p n kids rest) e =
      let away : (p == c) ≡ false = ground arith in
      rw (away, relabel_absent kids (ground arith), relabel_absent rest (ground arith)) refl

  pub relabel-join : (f g : Forest) → occ c g ≡ 0 → relabel (join f g) ≡ join (relabel f) g
  relabel-join nil g e = relabel_absent g e
  relabel-join (tree p n kids rest) g e =
      ap (tree p (if p == c then restore state n else n) (relabel kids)) (relabel-join rest g e)

  Parents-relabel : (par : Ptr) (f : Forest) → Parents par f → Parents par (relabel f)
  unfolding restore
  Parents-relabel par nil ps = tt
  Parents-relabel par (tree p n kids rest) (e, k, r) = (
    elim (p == c) as (λ b. (if b then restore state n else n).parent ≡ par) [
      | true ↦ e
      | false ↦ e
    ],
    Parents-relabel p kids k,
    Parents-relabel par rest r,
  )

  Fits-relabel : (f : Forest) → All Fits f → All Fits (relabel f)
  unfolding restore
  Fits-relabel nil fs = tt
  Fits-relabel (tree p n kids rest) (e, k, r) = (
    elim (p == c) as (λ b. Fits p (if b then restore state n else n)) [ true ↦ e | false ↦ e ],
    Fits-relabel kids k,
    Fits-relabel rest r,
  )

  module _ (h : Heap) (node : Node) (old : h c ≡ some node) where
    Holds-relabel :
        (f : Forest) → Holds h f → Holds (write h c (some (restore state node))) (relabel f)
    unfolding restore
    Holds-relabel nil held = tt
    Holds-relabel (tree p n kids rest) (ne, at_p, cs, hk, hr) = (
      ne,
      at (λ (here : p ≡ c). cc (ap h here)),
      elim (p == c) as (λ b. (if b then restore state n else n).children ≡ roots kids) [
        | true ↦ cs
        | false ↦ cs
      ]
          ∙ sym (roots-relabel kids),
      Holds-relabel kids hk,
      Holds-relabel rest hr,
    )
      where
        at :
            (p ≡ c → node ≡ n)
            → write h c (some (restore state node)) p ≡ some (if p == c then restore state n else n)
        at same = elim (Bool-cases (p == c)) [
          | inl here ↦
              let e : p ≡ c = (==_iff p c).0 here in
              rw here (
                ap (write h c (some (restore state node))) e
                ∙ write_self h c (some (restore state node))
                ∙ ap (λ (m : Node). some (restore state m)) (same e))
          | inr away ↦ rw away (write_ne h _ (λ e. cc (eq→== p c e)) ∙ at_p)
        ]

  -- The memory where the node at `c` has been relabelled holds the forest where it has been.
  pub Represents-relabel :
      (t : Tree) (node : Node) (main lost : Forest)
      → t.heap c ≡ some node
      → 0 < occ c main
      → Represents t main lost
      → Represents
          (record t { heap = write t.heap c (some (restore state node)) })
          (relabel main)
          lost
  Represents-relabel t node main lost old there r =
      let absent : occ c lost ≡ 0 = omega (arith, r.distinct c, occ-join c main lost) in
      let whole : relabel (join main lost) ≡ join (relabel main) lost =
        relabel-join main lost absent in
      record {
        rooted = roots-relabel main ∙ r.rooted;
        held =
            subst (Holds (write t.heap c (some (restore state node)))) whole
              (Holds-relabel t.heap node old (join main lost) r.held);
        parents = subst (Parents null) whole (Parents-relabel null (join main lost) r.parents);
        distinct =
            λ a. omega (arith, r.distinct a, occ-relabel a (join main lost), ap (occ a) whole);
        fits = subst (All Fits) whole (Fits-relabel (join main lost) r.fits);
        only = λ a e.
            let gone : occ a (join main lost) ≡ 0 =
              omega (arith, e, occ-relabel a (join main lost), ap (occ a) whole) in
            write_ne t.heap _ (λ at. omega (
              arith,
              gone,
              there,
              occ-join c main lost,
              ap (λ (x : Ptr). occ x (join main lost)) at,
            ))
            ∙ r.only a gone;
        total =
            r.total ∙ ap (λ n. n % u64_mod) (sym (count-relabel (join main lost)) ∙ ap count whole);
      }

  pub All-relabel_max :
      (max : ℕ) (f : Forest)
      → All (λ p n. n.max_children ≡ max) f
      → All (λ p n. n.max_children ≡ max) (relabel f)
  unfolding restore
  All-relabel_max max nil fs = tt
  All-relabel_max max (tree p n kids rest) (e, k, r) = (
    elim (p == c) as (λ b. (if b then restore state n else n).max_children ≡ max) [
      | true ↦ e
      | false ↦ e
    ],
    All-relabel_max max kids k,
    All-relabel_max max rest r,
  )

shape-join-leaf :
    (c : Ptr) (state : NodeState) (m : Node) (f : Forest)
    → occ c f ≡ 0
    → shape (relabel c state (join f (tree c m nil nil))) ≡ beside (shape f) (leaf (kept state))
unfolding restore
shape-join-leaf c state m nil fresh = rw (eq→== c c refl) refl
shape-join-leaf c state m (tree p n kids rest) fresh =
    let away : (p == c) ≡ false = ground arith in
    rw (away, relabel_absent c state kids (ground arith))
      (ap (branch (label n) (shape kids)) (shape-join-leaf c state m rest (ground arith)))

-- The new leaf, with its label, is a leaf of the shape, where `q` is the node with the id.
pub shape-relabel :
    (c : Ptr) (state : NodeState) (q : Ptr) (m : Node) (s : Str) (f : Forest)
    → occ c f ≡ 0
    → All (λ p n. (p ≡ q → n.id ≡ s) × (n.id ≡ s → p ≡ q)) f
    → shape (relabel c state (attach q c m f)) ≡ under s (leaf (kept state)) (shape f)
unfolding attach
shape-relabel c state q m s nil fresh at = refl
shape-relabel c state q m s (tree p n kids rest) fresh ((to, from), ks, rs) =
    let other : (p == c) ≡ false = ground arith in
    elim (Bool-cases (p == q)) [
      | inl here ↦
          let same : str_eq n.id s ≡ true = (str_eq_iff n.id s).1 (to ((==_iff p q).0 here)) in
          rw (here, same, relabel_absent c state rest (ground arith))
            (rw other (
              ap (λ (ks : Shape). branch (label n) ks (shape rest))
                (shape-join-leaf c state m kids (ground arith))))
      | inr away ↦
          let differ : str_eq n.id s ≡ false = ground (arith, str_eq_iff n.id s, from, eq→== p q) in
          rw (away, differ)
            (rw other (
              ap₂ (branch (label n)) (shape-relabel c state q m s kids (ground arith) ks)
                (shape-relabel c state q m s rest (ground arith) rs)))
    ]
