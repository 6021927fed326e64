-- ===== src/Tree/Made.antt =====
-- The node that `tree_create_node` of runtime/tree/tree.c returns, in the memory.
use phantomid.Common.{
  ℕ, ◌<◌, ◌≡◌, refl, sym, ap, ◌∙◌, ◌≢◌, ◌⊎◌, inl, inr, true, Option, some, arith, ◌==◌, eq→==,
  ==_iff, Bool-cases,
}
use phantomid.Common.CString.{Str}
use phantomid.Tree.Store.{Ptr, null, Node, Heap, Tree}
use phantomid.Tree.Forest.{Forest, nil, tree, occ, Holds, Holds-join_left, occ_of_Any, occ-join}
use phantomid.Tree.Attach.{attach, occ-attach}
use phantomid.Tree.Invariant.{Represents}
use phantomid.Tree.Create.{Env, named}
use phantomid.Tree.Created
use phantomid.Tree.Created.{create_node_lem}

-- An address that occurs holds a node.
pub held_at :
    (h : Heap) (c : Ptr) (f : Forest) → Holds h f → 0 < occ c f → (n : Node) × (h c ≡ some n)
held_at h c nil held there = absurd (omega (arith, there))
held_at h c (tree p n kids rest) (ne, at_p, cs, hk, hr) there = elim (Bool-cases (p == c)) [
  | inl here ↦ (n, ap h (sym ((==_iff p c).0 here)) ∙ at_p)
  | inr away ↦ elim (Bool-cases (occ c kids == 0)) [
    | inl gone ↦ held_at h c rest hr (ground arith)
    | inr deep ↦ held_at h c kids hk (ground arith)
  ]
]

-- The new node is NULL or stands in the memory.
pub made :
    (max : ℕ) (env : Env) (t : Tree) (main lost : Forest)
    → Represents t main lost
    → {parent_id : Option Str} {p : Ptr} {u : Tree}
    → Created.Outcome max env t parent_id main lost p u
    → (p ≡ null) ⊎ ((p ≢ null) × (n : Node) × (u.heap p ≡ some n))
made max env t main lost r (Created.no_memory failed) = inl refl
made max env t main lost r (Created.no_parent_given e has_root r') = inl refl
made max env t main lost r (Created.no_such_parent e has_root f r') = inl refl
made max env t main lost r (Created.parent_full e there at_q id full r') = inl refl
made max env t main lost r {u} (Created.rooted {blank} at_memory no_root r') =
    let root = tree env.node (record (named blank env t) { is_root = true }) nil nil in
    let (n, at) =
      held_at u.heap env.node root (Holds-join_left u.heap root lost r'.held)
        (ground (arith, eq→== env.node env.node refl)) in
    inr ((create_node_lem max env blank at_memory).0, n, at)
made max env t main lost r {u}
      (Created.attached {sought} {q} {parent} {blank} at_memory e there at_q id r') =
    let in_main = occ_of_Any (λ p n. n.id ≡ sought) q main there in
    let single : occ q main ≡ 1 = omega (arith, in_main, r.distinct q, occ-join q main lost) in
    let leaf = record (named blank env t) { parent = q } in
    let grown = occ-attach q env.node leaf env.node main (omega (arith, single)) in
    let (n, at) =
      held_at u.heap env.node (attach q env.node leaf main) (Holds-join_left u.heap _ lost r'.held)
        (ground (arith, grown, single, eq→== env.node env.node refl)) in
    inr ((create_node_lem max env blank at_memory).0, n, at)
