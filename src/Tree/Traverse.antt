-- ===== src/Tree/Traverse.antt =====
-- The traversals of runtime/tree/tree.c. A visitor, which is not NULL, maps a node and the user data to the new user
-- data; none of the program's visitors writes to the tree.
use phantomid.Common.{
  ℕ, zero, suc, ◌+◌, ◌≤◌, ◌<◌, ◌≡◌, refl, sym, ◌∙◌, ap, true, false, List, [], ◌∷◌, ◌++◌, Option,
  none, some, arith, ◌==◌, if◌then◌else◌, ◌>>=◌, ne→==, length, ltb,
}
use Prim.Native.Nat.{max}
use mathlib.Core.List.Perm
use mathlib.Core.List.{Perm, perm_append_comm}
use phantomid.Tree.Store.{Ptr, null, Node, Heap, Tree, deref, deref_lem}
use phantomid.Tree.Queue.{
  NodeQueue, max_queue_size, queue_init, queue_push, queue_pop, push_all, contents, IsValid, round,
  size_of_nil,
}
use phantomid.Tree.Forest.{
  Forest, nil, tree, roots, count, height, join, preorder, Holds, count-join, roots-join,
  length-roots-le, Holds-join, preorder-join,
}

module _ {S : Type 0} (visitor : Ptr → Node → S → S) where
  -- The loop over a node's children in `dfs_helper`.
  unfoldable pub dfs_children : (Ptr → S → Option S) → List Ptr → S → Option S
  dfs_children visit [] s = some s
  dfs_children visit (c ∷ cs) s = visit c s >>= dfs_children visit cs

  -- `dfs_helper`; the fuel bounds the depth of the calls.
  unfoldable pub dfs_helper : ℕ → Heap → Ptr → S → Option S
  dfs_helper zero h p s = none
  dfs_helper (suc k) h p s =
      if p == null
      then some s
      else (deref h p >>= λ node. dfs_children (dfs_helper k h) node.children (visitor p node s))

  -- `tree_traverse_dfs`
  unfoldable pub tree_traverse_dfs : ℕ → Option Tree → S → Option S
  tree_traverse_dfs k none s = some s
  tree_traverse_dfs k (some t) s = if t.root == null then some s else dfs_helper k t.heap t.root s

  -- The loop of `tree_traverse_bfs`; the fuel bounds its rounds.
  unfoldable pub bfs_loop : ℕ → Heap → NodeQueue → S → Option S
  bfs_loop zero h q s = none
  bfs_loop (suc k) h q s = elim (q.size == 0) [
    | true ↦ some s
    | false ↦ deref h (queue_pop q).0 >>= λ node.
        bfs_loop k h (push_all (queue_pop q).1 node.children) (visitor (queue_pop q).0 node s)
  ]

  -- `tree_traverse_bfs`
  unfoldable pub tree_traverse_bfs : ℕ → Option Tree → S → Option S
  tree_traverse_bfs k none s = some s
  tree_traverse_bfs k (some t) s =
      if t.root == null
      then some s
      else bfs_loop k t.heap (queue_push (queue_init (λ _. null)) t.root).1 s

  -- The visits in a given order.
  abbrev pub visits : List (Ptr × Node) → S → S
  visits [] s = s
  visits ((p, n) ∷ ns) s = visits ns (visitor p n s)

  pub visits-append :
      (xs ys : List (Ptr × Node)) (s : S) → visits (xs ++ ys) s ≡ visits ys (visits xs s)
  visits-append [] ys s = refl
  visits-append ((p, n) ∷ xs) ys s = visits-append xs ys (visitor p n s)

  -- The calls for the trees of a forest visit it in preorder.
  pub dfs_children-visits :
      (k : ℕ) (h : Heap) (f : Forest) (s : S)
      → Holds h f
      → height f < k
      → dfs_children (dfs_helper k h) (roots f) s ≡ some (visits (preorder f) s)
  unfolding dfs_helper dfs_children
  dfs_children-visits zero h f s held fuel = absurd (omega arith)
  dfs_children-visits (suc k) h nil s held fuel = refl
  dfs_children-visits (suc k) h (tree p n kids rest) s (e, at_p, cs, hk, hr) fuel =
      let below : dfs_children (dfs_helper k h) n.children (visitor p n s)
          ≡ some (visits (preorder kids) (visitor p n s)) =
        ap (λ ps. dfs_children (dfs_helper k h) ps (visitor p n s)) cs
        ∙ dfs_children-visits k h kids (visitor p n s) hk (omega arith) in
      rw (ne→== p null e, deref_lem h p e at_p, dfs_helper, ◌>>=◌)
        (rw (below, ◌>>=◌)
          (dfs_children-visits (suc k) h rest (visits (preorder kids) (visitor p n s)) hr
              (omega arith)
            ∙ ap some (sym (visits-append (preorder kids) (preorder rest) (visitor p n s)))))

  -- With room in the queue for every node the loop visits each node once, in some order.
  pub bfs_loop-visits :
      (k : ℕ) (h : Heap) (q : NodeQueue) (f : Forest) (s : S)
      → IsValid q
      → contents q ≡ roots f
      → Holds h f
      → count f < k
      → count f ≤ max_queue_size
      → (xs : List (Ptr × Node)) × (bfs_loop k h q s ≡ some (visits xs s)) × Perm xs (preorder f)
  unfolding bfs_loop
  bfs_loop-visits zero h q f s v c held fuel room = absurd (omega arith)
  bfs_loop-visits (suc k) h q nil s v c held fuel room =
      ([], rw (size_of_nil q c, bfs_loop), Perm.refl [])
  bfs_loop-visits (suc k) h q (tree p n kids rest) s v c (e, at_p, cs, hk, hr) fuel room =
      let step =
        round q p (roots rest) n.children v c
          (omega (arith, length-roots-le rest, length-roots-le kids, ap (λ xs. length xs) cs)) in
      let (xs, seen, perm) =
        bfs_loop-visits k h (push_all (queue_pop q).1 n.children) (join rest kids) (visitor p n s)
          step.valid (step.after ∙ ap (λ xs. roots rest ++ xs) cs ∙ sym (roots-join rest kids))
          (Holds-join h rest kids hr hk) (omega (arith, count-join rest kids))
          (omega (arith, count-join rest kids)) in
      let reordered : Perm (preorder (join rest kids)) (preorder kids ++ preorder rest) =
        rw (preorder-join rest kids) (perm_append_comm (preorder rest) (preorder kids)) in
      (
        (p, n) ∷ xs,
        rw (step.busy, step.popped, deref_lem h p e at_p, bfs_loop, ◌>>=◌) seen,
        Perm.cons (p, n) (Perm.trans perm reordered),
      )

-- The longest way down, through the children: the loop of `get_depth_helper`.
unfoldable pub depth_children : (Ptr → Option ℕ) → List Ptr → ℕ → Option ℕ
depth_children depth_of [] max_depth = some max_depth
depth_children depth_of (c ∷ cs) max_depth = depth_of c >>= λ depth.
    depth_children depth_of cs (if ltb max_depth depth then depth else max_depth)

-- `get_depth_helper`; the fuel bounds the depth of the calls.
unfoldable pub get_depth_helper : ℕ → Heap → Ptr → Option ℕ
get_depth_helper zero h p = none
get_depth_helper (suc k) h p =
    if p == null
    then some 0
    else (deref h p >>= λ node.
        depth_children (get_depth_helper k h) node.children 0 >>= λ d. some (d + 1))

-- `tree_get_depth`
unfoldable pub tree_get_depth : ℕ → Option Tree → Option ℕ
tree_get_depth k none = some 0
tree_get_depth k (some t) = if t.root == null then some 0 else get_depth_helper k t.heap t.root

max_step : (m d : ℕ) → (if ltb m d then d else m) ≡ max m d
max_step m d = ground arith

pub depth_children-height :
    (k : ℕ) (h : Heap) (f : Forest) (m : ℕ)
    → Holds h f
    → height f < k
    → depth_children (get_depth_helper k h) (roots f) m ≡ some (max m (height f))
unfolding get_depth_helper depth_children
depth_children-height zero h f m held fuel = absurd (omega arith)
depth_children-height (suc k) h nil m held fuel = ap some (omega arith)
depth_children-height (suc k) h (tree p n kids rest) m (e, at_p, cs, hk, hr) fuel =
    let below : depth_children (get_depth_helper k h) n.children 0 ≡ some (max 0 (height kids)) =
      ap (λ ps. depth_children (get_depth_helper k h) ps 0) cs
      ∙ depth_children-height k h kids 0 hk (omega arith) in
    rw (ne→== p null e, deref_lem h p e at_p, get_depth_helper, ◌>>=◌)
      (rw (below, max_step m (max 0 (height kids) + 1), ◌>>=◌)
        (depth_children-height (suc k) h rest _ hr (omega arith) ∙ ap some (omega arith)))
