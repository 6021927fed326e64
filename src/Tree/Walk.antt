-- ===== src/Tree/Walk.antt =====
-- The traversals and the depth of a context that represents a forest, and `tree_destroy`.
use Prim.Native.Nat.{max}
use mathlib.Core.Path.{subst}
use mathlib.Core.List.Perm
use mathlib.Core.List.{Perm}
use phantomid.Common.{
  ℕ, zero, suc, ◌≤◌, ◌<◌, ◌≡◌, refl, sym, ap, ◌∙◌, inl, inr, true, false, List, [], ◌∷◌, Option,
  some, none, arith, ◌==◌, if◌then◌else◌, ◌>>=◌, ltb, eq→==, ne→==, ==_iff, Bool-cases,
}
use phantomid.Tree.Store.{
  Ptr, null, Node, Heap, Tree, deref, deref_lem, write, write_self, write_ne,
}
use phantomid.Tree.Queue.{max_queue_size}
use phantomid.Tree.Forest.{
  Forest, nil, tree, roots, count, height, occ, preorder, Holds, height-le-count, Holds-join_left,
  Holds-join_right, Holds-frame, occ-join,
}
use phantomid.Tree.Invariant.{Represents, root_list}
use phantomid.Tree.Lookup.{start, nil_of_no_roots}
use phantomid.Tree.Traverse.{
  dfs_children, dfs_helper, tree_traverse_dfs, tree_traverse_bfs, visits, dfs_children-visits,
  bfs_loop-visits, get_depth_helper, depth_children, tree_get_depth, depth_children-height,
}

>>=-some : {A : Type 0} (o : Option A) → (o >>= λ a. some a) ≡ o
>>=-some none = refl
>>=-some (some a) = refl

module _ (k : ℕ) (t : Tree) (main lost : Forest) (fuel : count main < k)
    (r : Represents t main lost) where
  held_main : Holds t.heap main
  held_main = Holds-join_left t.heap main lost r.held

  one_root : (t.root == null) ≡ false → roots main ≡ t.root ∷ []
  one_root there = r.rooted ∙ rw there refl

  no_root : (t.root == null) ≡ true → main ≡ nil
  no_root gone = nil_of_no_roots main (r.rooted ∙ rw gone refl)

  -- Let the context hold a forest whose tree has fewer than `k` nodes. Then `tree_traverse_dfs`
  -- returns without a fault, and it has called the visitor on the nodes of the tree, each once, in
  -- preorder.
  pub tree_traverse_dfs-preorder :
      {S : Type 0} (visitor : Ptr → Node → S → S) (s : S)
      → tree_traverse_dfs visitor k (some t) s ≡ some (visits visitor (preorder main) s)
  unfolding tree_traverse_dfs dfs_children
  tree_traverse_dfs-preorder visitor s = elim (Bool-cases (t.root == null)) [
    | inl gone ↦ rw gone (ap (λ f. some (visits visitor (preorder f) s)) (sym (no_root gone)))
    | inr there ↦ rw there (
        sym (>>=-some _)
        ∙ ap (λ ps. dfs_children visitor (dfs_helper visitor k t.heap) ps s) (sym (one_root there))
        ∙ dfs_children-visits visitor k t.heap main s held_main
            (omega (arith, height-le-count main)))
  ]

  -- Let the context hold a forest whose tree has fewer than `k` nodes and at most 1000. Then
  -- `tree_traverse_bfs` returns without a fault, and it has called the visitor on the nodes of the
  -- tree, each once, in some order.
  pub tree_traverse_bfs-perm :
      {S : Type 0} (visitor : Ptr → Node → S → S) (s : S)
      → count main ≤ max_queue_size
      → (xs : List (Ptr × Node)) × (tree_traverse_bfs visitor k (some t) s
          ≡ some (visits visitor xs s))
        × Perm xs (preorder main)
  unfolding tree_traverse_bfs
  tree_traverse_bfs-perm visitor s small = elim (Bool-cases (t.root == null)) [
    | inl gone ↦
        ([], rw gone refl, subst (λ f. Perm [] (preorder f)) (sym (no_root gone)) (Perm.refl []))
    | inr there ↦
        let (xs, ran, perm) =
          bfs_loop-visits visitor k t.heap _ main s (start t.root).0
            ((start t.root).1 ∙ sym (one_root there)) held_main fuel small in
        (xs, rw there ran, perm)
  ]

  -- Let the context hold a forest whose tree has fewer than `k` nodes. Then `tree_get_depth`
  -- returns the height of the tree, 0 for the empty one.
  pub tree_get_depth-height : tree_get_depth k (some t) ≡ some (height main)
  unfolding tree_get_depth depth_children
  tree_get_depth-height = elim (Bool-cases (t.root == null)) [
    | inl gone ↦ rw gone (ap (λ f. some (height f)) (sym (no_root gone)))
    | inr there ↦
        let deep : depth_children (get_depth_helper k t.heap) (t.root ∷ []) 0
            ≡ some (max 0 (height main)) =
          ap (λ ps. depth_children (get_depth_helper k t.heap) ps 0) (sym (one_root there))
          ∙ depth_children-height k t.heap main 0 held_main (omega (arith, height-le-count main)) in
        rw there (ground (arith, deep))
  ]

-- The loop of `cleanup_node` over the children.
unfoldable pub cleanup_children : (Heap → Ptr → Option Heap) → Heap → List Ptr → Option Heap
cleanup_children cleanup h [] = some h
cleanup_children cleanup h (c ∷ cs) = cleanup h c >>= λ h'. cleanup_children cleanup h' cs

-- `cleanup_node`; the fuel bounds the depth of the calls.
unfoldable pub cleanup_node : ℕ → Heap → Ptr → Option Heap
cleanup_node zero h p = none
cleanup_node (suc k) h p =
    if p == null
    then some h
    else (deref h p >>= λ node.
        cleanup_children (cleanup_node k) h node.children >>= λ h'. some (write h' p none))

-- `tree_destroy`: the heap that is left.
unfoldable pub tree_destroy : ℕ → Heap → Option Tree → Option Heap
tree_destroy k h none = some h
tree_destroy k h (some t) = cleanup_node k t.heap t.root

-- All nodes of the forest are freed, and no other.
abbrev pub Freed : Heap → Forest → Heap → Type 0
Freed h f h' = (a : Ptr) → (0 < occ a f → h' a ≡ none) × (occ a f ≡ 0 → h' a ≡ h a)

Freed-tree :
    (h h1 h3 : Heap) (p : Ptr) (n : Node) (kids rest : Forest)
    → ((a : Ptr) → occ a (tree p n kids rest) ≤ 1)
    → Freed h kids h1
    → Freed (write h1 p none) rest h3
    → Freed h (tree p n kids rest) h3
Freed-tree h h1 h3 p n kids rest one freed1 freed3 a = (gone, same)
  where
    gone : 0 < occ a (tree p n kids rest) → h3 a ≡ none
    gone i = elim (Bool-cases (ltb 0 (occ a rest))) [
      | inl inside ↦ (freed3 a).0 (ground arith)
      | inr outside ↦ elim (Bool-cases (p == a)) [
        | inl at ↦
            (freed3 a).1 (ground arith)
            ∙ ap (write h1 p none) (sym ((==_iff p a).0 at))
            ∙ write_self h1 p none
        | inr off ↦
            (freed3 a).1 (ground arith)
            ∙ write_ne h1 none (λ e. cc (eq→== p a (sym e)))
            ∙ (freed1 a).0 (ground arith)
      ]
    ]

    same : occ a (tree p n kids rest) ≡ 0 → h3 a ≡ h a
    same e =
        (freed3 a).1 (omega arith)
        ∙ write_ne h1 none (λ at. ground (arith, eq→== p a (sym at)))
        ∙ (freed1 a).1 (omega arith)

cleanup_children-Freed :
    (k : ℕ) (h : Heap) (f : Forest)
    → Holds h f
    → ((a : Ptr) → occ a f ≤ 1)
    → height f < k
    → (h' : Heap) × (cleanup_children (cleanup_node k) h (roots f) ≡ some h') × Freed h f h'
unfolding cleanup_children cleanup_node
cleanup_children-Freed zero h f held one fuel = absurd (omega arith)
cleanup_children-Freed (suc k) h nil held one fuel =
    (h, refl, λ a. (λ i. absurd (omega arith), λ e. refl))
cleanup_children-Freed (suc k) h (tree p n kids rest) (ne, at_p, cs, hk, hr) one fuel =
    let (h1, ran1, freed1) =
      cleanup_children-Freed k h kids hk (λ a. omega (arith, one a)) (omega arith) in
    let h2 = write h1 p none in
    let frame = λ (a : Ptr) (i : 0 < occ a rest).
      write_ne h1 none (λ (at : a ≡ p). ground (arith, one a, eq→== p a (sym at)))
      ∙ (freed1 a).1 (omega (arith, one a)) in
    let (h3, ran3, freed3) =
      cleanup_children-Freed (suc k) h2 rest (Holds-frame h h2 rest frame hr)
        (λ a. omega (arith, one a)) (omega arith) in
    let below = ap (cleanup_children (cleanup_node k) h) cs ∙ ran1 in
    (
      h3,
      rw (ne→== p null ne, deref_lem h p ne at_p, cleanup_node, ◌>>=◌) (rw (below, ◌>>=◌) ran3),
      Freed-tree h h1 h3 p n kids rest one freed1 freed3,
    )

-- The loop over the one root is the call at the root.
cleanup_root :
    (k : ℕ) (t : Tree) (main : Forest) {h' : Heap}
    → count main < k
    → roots main ≡ root_list t.root
    → cleanup_children (cleanup_node k) t.heap (roots main) ≡ some h'
    → cleanup_node k t.heap t.root ≡ some h'
unfolding cleanup_children cleanup_node
cleanup_root zero t main fuel rooted ran = absurd (omega arith)
cleanup_root (suc k) t main {h'} fuel rooted ran = elim (Bool-cases (t.root == null)) [
  | inl gone ↦
      let none_there : roots main ≡ [] = rooted ∙ rw gone refl in
      rw (gone, cleanup_node)
        (sym (ap (cleanup_children (cleanup_node (suc k)) t.heap) none_there) ∙ ran)
  | inr there ↦
      let one_there : roots main ≡ t.root ∷ [] = rooted ∙ rw there refl in
      sym (>>=-some (cleanup_node (suc k) t.heap t.root))
      ∙ sym (ap (cleanup_children (cleanup_node (suc k)) t.heap) one_there)
      ∙ ran
]

-- Let the context hold a forest whose tree has fewer than `k` nodes. Then `tree_destroy` returns
-- without a fault: it has freed the nodes of the tree and no other cell, so the lost trees stay
-- allocated.
pub tree_destroy-Freed :
    (k : ℕ) (h : Heap) (t : Tree) (main lost : Forest)
    → count main < k
    → Represents t main lost
    → (h' : Heap) × (tree_destroy k h (some t) ≡ some h') × Freed t.heap main h' × Holds h' lost
unfolding tree_destroy
tree_destroy-Freed k h t main lost fuel r =
    let held = Holds-join_left t.heap main lost r.held in
    let (h', ran, freed) =
      cleanup_children-Freed k t.heap main held
        (λ a. omega (arith, r.distinct a, occ-join a main lost))
        (omega (arith, height-le-count main)) in
    let kept =
      Holds-frame t.heap h' lost
        (λ a i. (freed a).1 (omega (arith, r.distinct a, occ-join a main lost)))
        (Holds-join_right t.heap main lost r.held) in
    (h', cleanup_root k t main fuel r.rooted ran, freed, kept)
