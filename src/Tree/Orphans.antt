-- ===== src/Tree/Orphans.antt =====
-- `handle_orphans` of runtime/tree/tree.c: where the children of a node go that is deleted.
use phantomid.Common.{
  ℕ, ◌-◌, ◌≤◌, ◌≡◌, refl, sym, ap, ◌∙◌, ◌≢◌, true, List, [], ◌∷◌, ◌++◌, Option, some, arith, ◌==◌,
  if◌then◌else◌, ltb, ◌>>=◌, eq→==, ne→==, length,
}
use phantomid.Tree.Store.{Ptr, null, Node, Heap, write, write_self, write_ne, deref, deref_lem}
use phantomid.Tree.Forest.{Forest, nil, tree, roots, occ, Holds, Holds-frame, ne_of_occ}

-- `child->parent = NULL; child->is_root = true`
unfoldable pub cut_off : Heap → Ptr → Option Heap
cut_off h c =
    deref h c >>= λ child. some (write h c (some (record child { parent = null; is_root = true })))

-- The body of the loop where the node has a parent, at `g`.
unfoldable pub reassign : Heap → Ptr → Ptr → Option Heap
reassign h g c = deref h g >>= λ parent.
    if ltb (length parent.children) parent.max_children
    then (deref h c >>= λ child.
        let h' = write h c (some (record child { parent = g })) in
        deref h' g >>= λ parent'.
        some (write h' g (some (record parent' { children = parent'.children ++ c ∷ [] }))))
    else cut_off h c

-- The two loops.
unfoldable pub reassign_all : Heap → Ptr → List Ptr → Option Heap
reassign_all h g [] = some h
reassign_all h g (c ∷ cs) = reassign h g c >>= λ h'. reassign_all h' g cs

unfoldable pub cut_off_all : Heap → List Ptr → Option Heap
cut_off_all h [] = some h
cut_off_all h (c ∷ cs) = cut_off h c >>= λ h'. cut_off_all h' cs

unfoldable pub rehome : Heap → Ptr → List Ptr → Option Heap
rehome h parent children =
    if length children == 0
    then some h
    else if parent == null
    then cut_off_all h children
    else reassign_all h parent children

unfoldable pub handle_orphans : Heap → Node → Option Heap
handle_orphans h node = rehome h node.parent node.children

-- Without children there is nothing to do, and the loops do nothing.
pub rehome_at :
    (h : Heap) (g : Ptr) (cs : List Ptr) → g ≢ null → rehome h g cs ≡ reassign_all h g cs
unfolding rehome reassign_all
rehome_at h g [] e = refl
rehome_at h g (c ∷ cs) e = rw (ne→== g null e) (ground arith)

pub rehome-null : (h : Heap) (cs : List Ptr) → rehome h null cs ≡ cut_off_all h cs
unfolding rehome cut_off_all
rehome-null h [] = refl
rehome-null h (c ∷ cs) = ground arith

-- The first `r` trees of a forest, and the others.
abbrev pub first_trees : ℕ → Forest → Forest
first_trees r nil = nil
first_trees r (tree p n kids rest) =
    if r == 0 then nil else tree p n kids (first_trees (r - 1) rest)

abbrev pub other_trees : ℕ → Forest → Forest
other_trees r nil = nil
other_trees r (tree p n kids rest) = if r == 0 then tree p n kids rest else other_trees (r - 1) rest

-- The trees below the node at `g`.
abbrev pub adopt : Ptr → Forest → Forest
adopt g nil = nil
adopt g (tree p n kids rest) = tree p (record n { parent = g }) kids (adopt g rest)

-- The trees as trees of their own.
abbrev pub set_free : Forest → Forest
set_free nil = nil
set_free (tree p n kids rest) =
    tree p (record n { parent = null; is_root = true }) kids (set_free rest)

pub first_none : (f : Forest) → first_trees 0 f ≡ nil
first_none nil = refl
first_none (tree p n kids rest) = refl

pub other_all : (f : Forest) → other_trees 0 f ≡ f
other_all nil = refl
other_all (tree p n kids rest) = refl

pub roots-adopt : (g : Ptr) (f : Forest) → roots (adopt g f) ≡ roots f
roots-adopt g nil = refl
roots-adopt g (tree p n kids rest) = ap (◌∷◌ p) (roots-adopt g rest)

-- The loop without a parent sets all the trees free.
pub cut_off_all-set_free :
    (h : Heap) (f : Forest)
    → Holds h f
    → ((a : Ptr) → occ a f ≤ 1)
    → (h' : Heap) × (cut_off_all h (roots f) ≡ some h')
      × Holds h' (set_free f)
      × ((a : Ptr) → occ a f ≡ 0 → h' a ≡ h a)
unfolding cut_off_all cut_off
cut_off_all-set_free h nil held one = (h, refl, tt, λ a e. refl)
cut_off_all-set_free h (tree c n kids rest) (ne, at_c, cs, hk, hr) one =
    let h1 = write h c (some (record n { parent = null; is_root = true })) in
    let frame = λ (f : Forest) (off : occ c f ≡ 0).
      Holds-frame h h1 f (λ a i. write_ne h _ (ne_of_occ a c f i off)) in
    let (h', done, held, same) =
      cut_off_all-set_free h1 rest (frame rest (ground (arith, one c)) hr)
        (λ a. omega (arith, one a)) in
    (
      h',
      rw (deref_lem h c ne at_c, ◌>>=◌) done,
      (
        ne,
        same c (ground (arith, one c)) ∙ write_self h c _,
        cs,
        Holds-frame h1 h' kids (λ a i. same a (omega (arith, one a)))
            (frame kids (ground (arith, one c)) hk),
        held,
      ),
      λ a e. same a (omega arith) ∙ write_ne h _ (λ at. ground (arith, eq→== c a (sym at))),
    )

-- The room that is left in a node's array.
abbrev pub room : Node → ℕ
room n = n.max_children - length n.children
