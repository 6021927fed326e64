-- ===== src/State/LoadRoot.antt =====
-- The first round of the loop of `state_load` of runtime/state/state.c: into a tree without a root a node
-- is put as the root, whatever parent its record names.
use phantomid.Common.{ℕ, ◌≡◌, refl, ◌∙◌, true, some, arith, eq→==, ==_iff}
use phantomid.Common.CString.{Str, cstr}
use phantomid.Tree.Store.{null, Node, Tree}
use phantomid.Tree.Forest.{nil, tree}
use phantomid.Tree.Invariant.{Represents}
use phantomid.Tree.Create.{Env, create_node, make_root, place, with_node, named, create_in}
use phantomid.Tree.CreateSteps.{make_root-with_node}
use phantomid.State.{NodeState, restore}
use phantomid.State.Shape.{leaf, shape}
use phantomid.State.Relabel.{kept, relabel}
use phantomid.State.LoadNode.{
  Gives, Grown, grown, create_node-HasRoom, create_node-some, named_room,
}

module _ (k max : ℕ) (envs : ℕ → Env) (gives : Gives envs) (n : ℕ) (state : NodeState) where
  named_bare :
      (blank : Node) (t : Tree)
      → ((named blank (envs n) t).children ≡ blank.children)
        × ((named blank (envs n) t).parent ≡ blank.parent)
  unfolding named
  named_bare blank t = (refl, refl)

  create_root :
      (t : Tree) (blank : Node) (s : Str)
      → create_node max (envs n) ≡ some blank
      → t.root ≡ null
      → create_in k max (envs n) t (some s)
        ≡ some (
          (envs n).node,
          make_root
              (with_node t (envs n).node (named blank (envs n) t))
              (envs n).node
              (named blank (envs n) t),
        )
  unfolding create_in place with_node
  create_root t blank s made no_root = rw (made, create_in) (rw (eq→== t.root null no_root) refl)

  pub load_node-root :
      (t : Tree)
      → Represents t nil nil
      → t.root ≡ null
      → Grown k max envs gives n state t (leaf (kept state)) 1
  unfolding restore
  load_node-root t r no_root =
      let (blank, made) = create_node-some max (envs n) (gives.given n).0 (gives.given n).1 in
      let (room, bare, orphan) = create_node-HasRoom max (envs n) made in
      let c = (envs n).node in
      let m = named blank (envs n) t in
      let root = tree c (record m { is_root = true }) nil nil in
      let (u, f, ran, loaded, is_shape, is_count) =
        grown k max envs gives n state t (make_root (with_node t c m) c m) root
          (create_root t blank (cstr state.parent_id) made no_root)
          (make_root-with_node t c m nil (gives.given n).0 (r.only c refl)
            ((named_bare blank t).1 ∙ orphan) ((named_bare blank t).0 ∙ bare) r)
          (ground (arith, eq→== c c refl))
          (named_room k max envs gives n state blank t room, tt, tt)
          (λ i early. ground (arith, ==_iff c (envs i).node, gives.apart n i)) in
      (u, f, ran, loaded, is_shape ∙ alone m, is_count)
    where
      alone :
          (m : Node)
          → shape (
              relabel
                (envs n).node
                state
                (tree (envs n).node (record m { is_root = true }) nil nil))
            ≡ leaf (kept state)
      alone m = rw (eq→== (envs n).node (envs n).node refl) refl
