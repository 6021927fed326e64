-- ===== src/Tree/Deleted.antt =====
-- What `tree_delete_node` does to the forest, on every branch.
use mathlib.Core.Path.{subst}
use phantomid.Common.{
  ℕ, ◌<◌, ◌≤◌, ◌≡◌, refl, sym, ap, ◌∙◌, ◌≢◌, inl, inr, Bool, true, false, List, [], ◌∷◌, ◌++◌, some,
  arith, ◌>>=◌, ne→==,
}
use phantomid.Common.CString.{Str}
use phantomid.Tree.Store.{Ptr, null, Node, Tree, deref_lem}
use phantomid.Tree.Queue.{max_queue_size}
use phantomid.Tree.Forest.{
  Forest, nil, tree, roots, count, join, All, Holds, Holds-join_left, occ_of_Any,
}
use phantomid.Tree.Site.{
  Site, Top, without, edit, first, later, Located, at_top, below, located, Holds-Top, Holds-Site,
}
use phantomid.Tree.Orphans.{first_trees, other_trees, adopt, set_free, room}
use phantomid.Tree.Lookup.{find_node-Found, Named-held, nil_of_no_roots}
use phantomid.Tree.Delete.{delete_in, delete_found}
use phantomid.Tree.DeleteBelow.{delete_below}
use phantomid.Tree.DeleteRoot.{delete_root}
use phantomid.Tree.Invariant.{Represents, root_list}

-- The parent `n` once the child at `q` is out of its array.
abbrev pub left_over : {q : Ptr} {m : Node} {ks kids : Forest} → Node → Top q m ks kids → Node
left_over n top = record n { children = roots (without top) }

-- The branches of `tree_delete_node`, and what each makes of the forest.
pub data Outcome (t : Tree) (node_id : Str) (main lost : Forest) : Bool → Tree → Type 0 where
  no_such_node : All (λ p n. n.id ≢ node_id) main → Outcome t node_id main lost false t
  -- The root goes: its children are lost to the context.
  root_deleted :
      {u : Tree} {q : Ptr} {m : Node} {ks : Forest}
      → main ≡ tree q m ks nil
      → m.id ≡ node_id
      → Represents u nil (join (set_free ks) lost)
      → Outcome t node_id main lost true u
  -- A node below `n` at `g` goes: its first children go to `n`, behind the others, as far as there is
  -- room; the rest are lost to the context.
  child_deleted :
      {u : Tree} {q g : Ptr} {m n : Node} {ks kids : Forest} (s : Site g n kids main)
      (top : Top q m ks kids)
      → m.id ≡ node_id
      → (let r = room (left_over n top) in
          Represents u
            (edit s
              (record n { children = roots (without top) ++ roots (first_trees r ks) })
              (join (without top) (adopt g (first_trees r ks))))
            (join (set_free (other_trees r ks)) lost))
      → Outcome t node_id main lost true u

not_empty : {q : Ptr} {m : Node} {ks f : Forest} → Top q m ks f → roots f ≢ []
not_empty first e = cc
not_empty (later s) e = cc

-- A root list that is not empty has one element.
root_list_one : (p q : Ptr) (qs : List Ptr) → q ∷ qs ≡ root_list p → (q ≡ p) × (qs ≡ [])
root_list_one p q qs e = ground arith

one_root :
    {q p : Ptr} {m : Node} {ks f : Forest}
    → Top q m ks f
    → roots f ≡ root_list p
    → (q ≡ p) × (f ≡ tree q m ks nil)
one_root {q} {p} {m} {ks} (first {rest}) e =
    let (same, alone) = root_list_one p q (roots rest) e in
    (same, ap (tree q m ks) (nil_of_no_roots rest alone))
one_root {p} (later {p = a} {rest} s) e = absurd (not_empty s (root_list_one p a (roots rest) e).1)

module _ (k : ℕ) (t : Tree) (main lost : Forest) (fuel : count main < k)
    (small : count main ≤ max_queue_size) (r : Represents t main lost) where
  held_main : Holds t.heap main
  held_main = Holds-join_left t.heap main lost r.held

  delete_at :
      (node_id : Str) (q : Ptr) (node : Node)
      → t.heap q ≡ some node
      → node.id ≡ node_id
      → Located q main
      → (u : Tree) × (delete_found t q node ≡ some (true, u)) × Outcome t node_id main lost true u
  delete_at node_id q node at_q id (at_top {m} {ks} top) =
      let both : (q ≡ t.root) × (main ≡ tree q m ks nil) = one_root top r.rooted in
      let (at_root, whole) = both in
      let same : node ≡ m = cc (Holds-Top t.heap top held_main).1 in
      let (u, ran, rep) =
        delete_root t q m ks lost (subst (λ f. Represents t f lost) whole r) (sym at_root) in
      (
        u,
        ap (delete_found t q) same ∙ ran,
        root_deleted whole (ap (λ (n : Node). n.id) (sym same) ∙ id) rep,
      )
  delete_at node_id q node at_q id (below {m} s top) =
      let kids_held = (Holds-Site t.heap s held_main).3 in
      let same : node ≡ m = cc (Holds-Top t.heap top kids_held).1 in
      let (u, ran, rep) = delete_below t main lost r s top in
      (
        u,
        ap (delete_found t q) same ∙ ran,
        child_deleted s top (ap (λ (n : Node). n.id) (sym same) ∙ id) rep,
      )

  -- Let the context hold a forest whose tree has fewer than `k` nodes and at most 1000. Then
  -- `tree_delete_node` returns without a fault, and its result and the context it leaves are one of
  -- the branches of `Outcome`: false and the same context where no node of the tree has the id;
  -- true and an empty tree where the root goes, its children lost; true and, where another node
  -- goes, its first children behind the other children of its parent, as far as the array has room,
  -- the rest lost.
  pub delete_in-Outcome :
      (node_id : Str)
      → (done : Bool) × (u : Tree) × (delete_in k t node_id ≡ some (done, u))
        × Outcome t node_id main lost done u
  unfolding delete_in
  delete_in-Outcome node_id =
      let (q, found, is) = find_node-Found k t node_id main r.rooted held_main fuel small in
      elim is [
        | inl (e, none_there) ↦
            (false, t, rw (found ∙ ap some e, ◌>>=◌) refl, no_such_node none_there)
        | inr there ↦
            let (ne, node_there) = Named-held t.heap node_id q main held_main there in
            let (node, at_q, id) = node_there in
            let (u, ran, is_so) =
              delete_at node_id q node at_q id
                (located q main (occ_of_Any (λ p n. n.id ≡ node_id) q main there)) in
            (
              true,
              u,
              rw (found, ◌>>=◌) (rw (ne→== q null ne, deref_lem t.heap q ne at_q, ◌>>=◌) ran),
              is_so,
            )
      ]
