-- ===== src/Tree/Lookup.antt =====
-- `tree_find_node` of runtime/tree/tree.c, and that it finds a node by its id.
use mathlib.Core.Path.{subst}
use phantomid.Common.{
  ℕ, zero, suc, ◌≤◌, ◌<◌, ◌≡◌, refl, sym, ap, ◌∙◌, ◌≢◌, ◌⊎◌, inl, inr, true, false, [], ◌∷◌, ◌++◌,
  Option, none, some, arith, ◌==◌, if◌then◌else◌, ◌>>=◌, Bool-cases, length,
}
use phantomid.Common.CString.{Str, str_eq, str_eq_iff}
use phantomid.Tree.Store.{Ptr, null, Node, Heap, Tree, deref, deref_lem}
use phantomid.Tree.Queue.{
  NodeQueue, max_queue_size, queue_init, queue_push, queue_pop, push_all, contents, IsValid, Round,
  round, size_of_nil,
}
use phantomid.Tree.Invariant.{root_list}
use phantomid.Tree.Forest.{
  Forest, nil, tree, roots, count, join, All, Any, Holds, count-join, roots-join, length-roots-le,
  Holds-join, All-join, Any-join,
}

-- The loop of `tree_find_node`; the fuel bounds its rounds.
unfoldable pub find_loop : ℕ → Heap → Str → NodeQueue → Option Ptr
find_loop zero h node_id q = none
find_loop (suc k) h node_id q = elim (q.size == 0) [
  | true ↦ some null
  | false ↦ deref h (queue_pop q).0 >>= λ node. elim (str_eq node.id node_id) [
    | true ↦ some (queue_pop q).0
    | false ↦ find_loop k h node_id (push_all (queue_pop q).1 node.children)
  ]
]

-- `tree_find_node` of a context that is not NULL. What the local array holds at first is not read.
unfoldable pub find_node : ℕ → Tree → Str → Option Ptr
find_node k t node_id =
    if t.root == null
    then some null
    else find_loop k t.heap node_id (queue_push (queue_init (λ _. null)) t.root).1

unfoldable pub tree_find_node : ℕ → Option Tree → Option Str → Option Ptr
tree_find_node k (some t) (some node_id) = find_node k t node_id
tree_find_node k ctx node_id = some null

-- The node at the address `r` has the id.
abbrev pub Named : Str → Ptr → Ptr → Node → Type 0
Named node_id r p n = (p ≡ r) × (n.id ≡ node_id)

-- NULL and no node has the id, or the address of a node that has it.
abbrev pub Found : Str → Forest → Ptr → Type 0
Found node_id f r = (r ≡ null) × All (λ p n. n.id ≢ node_id) f ⊎ Any (Named node_id r) f

-- The first pointer of the queue is no match: what the rest gives, it gives for the whole.
Found-tree :
    (node_id : Str) (r p : Ptr) (n : Node) (kids rest : Forest)
    → n.id ≢ node_id
    → Found node_id (join rest kids) r
    → Found node_id (tree p n kids rest) r
Found-tree node_id r p n kids rest miss (inl (e, none_there)) =
    let parts = All-join (λ p n. n.id ≢ node_id) rest kids none_there in
    inl (e, (miss, parts.1, parts.0))
Found-tree node_id r p n kids rest miss (inr there) =
    elim (Any-join (Named node_id r) rest kids there) [
      | inl in_rest ↦ inr (inr (inr in_rest))
      | inr in_kids ↦ inr (inr (inl in_kids))
    ]

-- With room in the queue for every node the loop decides whether some node has the id.
pub find_loop-Found :
    (k : ℕ) (h : Heap) (node_id : Str) (q : NodeQueue) (f : Forest)
    → IsValid q
    → contents q ≡ roots f
    → Holds h f
    → count f < k
    → count f ≤ max_queue_size
    → (r : Ptr) × (find_loop k h node_id q ≡ some r) × Found node_id f r
unfolding find_loop
find_loop-Found zero h node_id q f v c held fuel room = absurd (omega arith)
find_loop-Found (suc k) h node_id q nil v c held fuel room =
    (null, rw (size_of_nil q c, find_loop), inl (refl, tt))
find_loop-Found (suc k) h node_id q (tree p n kids rest) v c (e, at_p, cs, hk, hr) fuel room =
    elim (Bool-cases (str_eq n.id node_id)) [
      | inl hit ↦ (
        p,
        rw (step.busy, step.popped, deref_lem h p e at_p, find_loop, ◌>>=◌)
            (rw hit (ap some step.popped)),
        inr (inl (refl, (str_eq_iff _ _).0 hit)),
      )
      | inr miss ↦
          let (r, found, is) =
            find_loop-Found k h node_id (push_all (queue_pop q).1 n.children) (join rest kids)
              step.valid next (Holds-join h rest kids hr hk) (omega (arith, count-join rest kids))
              (omega (arith, count-join rest kids)) in
          (
            r,
            rw (step.busy, step.popped, deref_lem h p e at_p, find_loop, ◌>>=◌) (rw miss found),
            Found-tree node_id r p n kids rest (λ same. cc ((str_eq_iff _ _).1 same)) is,
          )
    ]
  where
    step : Round q p (roots rest) n.children
    step =
        round q p (roots rest) n.children v c
          (omega (arith, length-roots-le rest, length-roots-le kids, ap (λ xs. length xs) cs))

    next : contents (push_all (queue_pop q).1 n.children) ≡ roots (join rest kids)
    next = step.after ∙ ap (λ xs. roots rest ++ xs) cs ∙ sym (roots-join rest kids)

-- The node that has been found stands in the heap.
pub Named-held :
    (h : Heap) (node_id : Str) (r : Ptr) (f : Forest)
    → Holds h f
    → Any (Named node_id r) f
    → (r ≢ null) × ((n : Node) × (h r ≡ some n) × (n.id ≡ node_id))
Named-held h node_id r nil held there = absurd there
Named-held h node_id r (tree p n kids rest) (ne, at_p, cs, hk, hr) (inl (e, same)) =
    ((λ z. ne (e ∙ z)), (n, ap h (sym e) ∙ at_p, same))
Named-held h node_id r (tree p n kids rest) (ne, at_p, cs, hk, hr) (inr (inl k)) =
    Named-held h node_id r kids hk k
Named-held h node_id r (tree p n kids rest) (ne, at_p, cs, hk, hr) (inr (inr k)) =
    Named-held h node_id r rest hr k

-- The first pointer that goes into the queue is the root.
pub start :
    (p : Ptr)
    → let q = (queue_push (queue_init (λ _. null)) p).1 in IsValid q × (contents q ≡ p ∷ [])
unfolding queue_init queue_push
start p = (omega arith, refl)

pub nil_of_no_roots : (f : Forest) → roots f ≡ [] → f ≡ nil
nil_of_no_roots nil e = refl
nil_of_no_roots (tree p n kids rest) e = cc

All-of_no_roots {ℓ} : (P : Ptr → Node → Type ℓ) (f : Forest) → roots f ≡ [] → All P f
All-of_no_roots P nil e = tt
All-of_no_roots P (tree p n kids rest) e = cc

-- Let the context's root lead to a tree that is held in memory, of fewer than `k` nodes and at most
-- 1000. Then `tree_find_node` returns without a fault: a node of the tree with the id, or NULL
-- where no node of the tree has it.
pub find_node-Found :
    (k : ℕ) (t : Tree) (node_id : Str) (main : Forest)
    → roots main ≡ root_list t.root
    → Holds t.heap main
    → count main < k
    → count main ≤ max_queue_size
    → (r : Ptr) × (find_node k t node_id ≡ some r) × Found node_id main r
unfolding find_node
find_node-Found k t node_id main rooted held fuel room = elim (Bool-cases (t.root == null)) [
  | inl gone ↦ (null, rw gone refl, inl (refl, All-of_no_roots _ main (rooted ∙ rw gone refl)))
  | inr there ↦
      let one_there : roots main ≡ t.root ∷ [] = rooted ∙ rw there refl in
      let (r, found, is) =
        find_loop-Found k t.heap node_id _ main (start t.root).0 ((start t.root).1 ∙ sym one_there)
          held fuel room in
      (
        r,
        subst
            (λ b.
              (if b
                then some null
                else find_loop k t.heap node_id (queue_push (queue_init (λ _. null)) t.root).1)
              ≡ some r)
            (sym there) found,
        is,
      )
]
