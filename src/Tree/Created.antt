-- ===== src/Tree/Created.antt =====
-- What `tree_create_node` does to the forest, on every branch.
use mathlib.Core.Path.{subst}
use phantomid.Common.{
  ℕ, ◌≤◌, ◌<◌, ◌≡◌, refl, sym, ap, ◌∙◌, ◌≢◌, inl, inr, Bool, true, false, [], Option, some, none,
  arith, ◌==◌, leb, ◌>>=◌, eq→==, ne→==, ==_iff, Bool-cases, Option-cases, length,
}
use phantomid.Common.CString.{Str}
use phantomid.Tree.Store.{Ptr, null, Node, Tree, write_ne, deref_lem}
use phantomid.Tree.Queue.{max_queue_size}
use phantomid.Tree.Forest.{
  Forest, nil, tree, count, occ, All, Any, Holds, Holds-frame, ne_of_occ, allocated,
  Holds-join_left, occ_of_Any,
}
use phantomid.Tree.Attach.{attach}
use phantomid.Tree.Lookup.{Named, find_node, find_node-Found, Named-held, nil_of_no_roots}
use phantomid.Tree.Create.{
  Env, create_node, free_node, make_root, attach_node, place, with_node, named, create_in,
}
use phantomid.Tree.CreateSteps.{free-with_node, make_root-with_node, attach_node-with_node}
use phantomid.Tree.Invariant.{Represents, root_list}

-- The branches of `tree_create_node`, and what each makes of the forest. The new node is `fresh`
-- with the parent or the root flag set.
pub data Outcome (max : ℕ) (env : Env) (t : Tree) (parent_id : Option Str) (main lost : Forest)
    : Ptr → Tree → Type 0 where
  no_memory : create_node max env ≡ none → Outcome max env t parent_id main lost null t
  no_parent_given :
      {u : Tree}
      → parent_id ≡ none
      → t.root ≢ null
      → Represents u main lost
      → Outcome max env t parent_id main lost null u
  no_such_parent :
      {u : Tree} {sought : Str}
      → parent_id ≡ some sought
      → t.root ≢ null
      → All (λ p n. n.id ≢ sought) main
      → Represents u main lost
      → Outcome max env t parent_id main lost null u
  parent_full :
      {u : Tree} {sought : Str} {q : Ptr} {parent : Node}
      → parent_id ≡ some sought
      → Any (Named sought q) main
      → t.heap q ≡ some parent
      → parent.id ≡ sought
      → parent.max_children ≤ length parent.children
      → Represents u main lost
      → Outcome max env t parent_id main lost null u
  rooted :
      {u : Tree} {blank : Node}
      → create_node max env ≡ some blank
      → t.root ≡ null
      → Represents u (tree env.node (record (named blank env t) { is_root = true }) nil nil) lost
      → Outcome max env t parent_id main lost env.node u
  attached :
      {u : Tree} {sought : Str} {q : Ptr} {parent blank : Node}
      → create_node max env ≡ some blank
      → parent_id ≡ some sought
      → Any (Named sought q) main
      → t.heap q ≡ some parent
      → parent.id ≡ sought
      → Represents u (attach q env.node (record (named blank env t) { parent = q }) main) lost
      → Outcome max env t parent_id main lost env.node u

pub create_node_lem :
    (max : ℕ) (env : Env) (blank : Node)
    → create_node max env ≡ some blank
    → (env.node ≢ null) × (blank.parent ≡ null) × (blank.children ≡ [])
unfolding create_node
create_node_lem max env blank made = ground arith

bare_named :
    (env : Env) (t : Tree) (blank : Node) → blank.children ≡ [] → (named blank env t).children ≡ []
unfolding named
bare_named env t blank e = e

module _ (k max : ℕ) (env : Env) (t : Tree) (main lost : Forest) (fresh : t.heap env.node ≡ none)
    (fuel : count main < k) (small : count main ≤ max_queue_size) (r : Represents t main lost) where
  -- Without a root the new node becomes the root.
  place_root :
      (blank : Node) (parent_id : Option Str)
      → create_node max env ≡ some blank
      → t.root ≡ null
      → Outcome max env t parent_id main lost env.node
          (make_root (with_node t env.node (named blank env t)) env.node (named blank env t))
  unfolding named
  place_root blank parent_id made no_root =
      let (ok, orphan, bare) = create_node_lem max env blank made in
      rooted made no_root (
        make_root-with_node t env.node (named blank env t) lost ok fresh orphan bare (
          subst (λ f. Represents t f lost) (nil_of_no_roots main (r.rooted ∙ ap root_list no_root))
            r))

  abbrev with_new : Node → Tree
  with_new blank = with_node t env.node (named blank env t)

  held_main : Holds t.heap main
  held_main = Holds-join_left t.heap main lost r.held

  -- The forest stands in the heap where the new node has been written already.
  held_with_new : (blank : Node) → Holds (with_new blank).heap main
  unfolding with_node
  held_with_new blank =
      Holds-frame t.heap _ main
        (λ a i.
          write_ne t.heap _
            (ne_of_occ a env.node main i (allocated t.heap env.node main held_main fresh)))
        held_main

  root-with_new : (blank : Node) → (with_new blank).root ≡ t.root
  unfolding with_node
  root-with_new blank = refl

  same_test : (blank : Node) {b : Bool} → (t.root == null) ≡ b → ((with_new blank).root == null) ≡ b
  same_test blank e = ap (λ x. x == null) (root-with_new blank) ∙ e

  heap-with_new : (blank : Node) (q : Ptr) → q ≢ env.node → (with_new blank).heap q ≡ t.heap q
  unfolding with_node
  heap-with_new blank q e = write_ne t.heap _ e

  -- The parent is found.
  place_at :
      (blank : Node) (sought : Str) (q : Ptr)
      → create_node max env ≡ some blank
      → (t.root == null) ≡ false
      → find_node k (with_new blank) sought ≡ some q
      → Any (Named sought q) main
      → (p : Ptr) × (u : Tree) × (place k
            (with_new blank)
            env.node
            (named blank env t)
            (some sought)
          ≡ some (p, u))
        × Outcome max env t (some sought) main lost p u
  unfolding place
  place_at blank sought q made has_root found there =
      let (ne, node_there) =
        Named-held (with_new blank).heap sought q main (held_with_new blank) there in
      let (parent, at_q, id) = node_there in
      let in_main = occ_of_Any (λ p n. n.id ≡ sought) q main there in
      let old : t.heap q ≡ some parent =
        sym (
          heap-with_new blank q (λ e. omega (
            arith,
            in_main,
            allocated t.heap env.node main held_main fresh,
            ap (λ a. occ a main) e,
          )))
        ∙ at_q in
      elim (Bool-cases (leb parent.max_children (length parent.children))) [
        | inl full ↦ (
          null,
          free_node (with_new blank) env.node,
          rw (same_test blank has_root, found, ◌>>=◌)
              (rw (ne→== q null ne, deref_lem _ q ne at_q, ◌>>=◌) (rw full refl)),
          parent_full refl there old id (ground arith)
              (free-with_node t env.node (named blank env t) main lost fresh r),
        )
        | inr room ↦
            let (ok, orphan, bare) = create_node_lem max env blank made in
            (
              env.node,
              attach_node (with_new blank) env.node (named blank env t) q parent,
              rw (same_test blank has_root, found, ◌>>=◌)
                  (rw (ne→== q null ne, deref_lem _ q ne at_q, ◌>>=◌) (rw room refl)),
              attached made refl there old id (
                  attach_node-with_node t env.node (named blank env t) q parent main lost ok fresh
                    old in_main (ground arith) (bare_named env t blank bare) r),
            )
      ]

  place-some :
      (blank : Node) (sought : Str)
      → create_node max env ≡ some blank
      → (t.root == null) ≡ false
      → (p : Ptr) × (u : Tree) × (place k
            (with_new blank)
            env.node
            (named blank env t)
            (some sought)
          ≡ some (p, u))
        × Outcome max env t (some sought) main lost p u
  unfolding place
  place-some blank sought made has_root =
      let (q, found, is) =
        find_node-Found k (with_new blank) sought main
          (r.rooted ∙ ap root_list (sym (root-with_new blank))) (held_with_new blank) fuel small in
      elim is [
        | inl (e, none_there) ↦ (
          null,
          free_node (with_new blank) env.node,
          rw (same_test blank has_root, found ∙ ap some e, ◌>>=◌) refl,
          no_such_parent refl (λ z. cc (eq→== _ _ z)) none_there
              (free-with_node t env.node (named blank env t) main lost fresh r),
        )
        | inr there ↦ place_at blank sought q made has_root found there
      ]

  place-Outcome :
      (blank : Node) (parent_id : Option Str)
      → create_node max env ≡ some blank
      → (p : Ptr) × (u : Tree) × (place k (with_new blank) env.node (named blank env t) parent_id
          ≡ some (p, u))
        × Outcome max env t parent_id main lost p u
  unfolding place
  place-Outcome blank none made = elim (Bool-cases (t.root == null)) [
    | inl gone ↦ (
      env.node,
      _,
      rw (same_test blank gone) refl,
      place_root blank none made ((==_iff _ _).0 gone),
    )
    | inr there ↦ (
      null,
      _,
      rw (same_test blank there) refl,
      no_parent_given refl (λ e. cc (eq→== _ _ e))
          (free-with_node t env.node (named blank env t) main lost fresh r),
    )
  ]
  place-Outcome blank (some sought) made = elim (Bool-cases (t.root == null)) [
    | inl gone ↦ (
      env.node,
      _,
      rw (same_test blank gone) refl,
      place_root blank (some sought) made ((==_iff _ _).0 gone),
    )
    | inr there ↦ place-some blank sought made there
  ]

  -- Let the context hold a forest whose tree has fewer than `k` nodes and at most 1000, and let the
  -- address that `calloc` gives be free. Then `tree_create_node` returns without a fault, and its
  -- result and the context it leaves are one of the branches of `Outcome`: NULL and the same forest
  -- where memory fails, where no parent is given and there is a root, where there is a root and no
  -- node of the tree has the parent's id, and where the parent found is full; else the new node, as
  -- the root of a tree that had none, whatever parent is named, or as the last child of a node with
  -- the id.
  pub create_in-Outcome :
      (parent_id : Option Str)
      → (p : Ptr) × (u : Tree) × (create_in k max env t parent_id ≡ some (p, u))
        × Outcome max env t parent_id main lost p u
  unfolding create_in
  create_in-Outcome parent_id = elim (Option-cases (create_node max env)) [
    | inl failed ↦ (null, t, rw (failed, create_in) refl, no_memory failed)
    | inr (blank, made) ↦
        let (p, u, placed, is) = place-Outcome blank parent_id made in
        (p, u, rw (made, create_in) placed, is)
  ]
