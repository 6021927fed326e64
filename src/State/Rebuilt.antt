-- ===== src/State/Rebuilt.antt =====
-- The records of a tree loaded into a context without nodes, as `state_load` of runtime/state/state.c
-- does it: the same tree, at other addresses.
use mathlib.Core.Path.{subst}
use phantomid.Common.{
  ℕ, suc, ◌≤◌, ◌≡◌, refl, sym, ap, ◌∙◌, List, [], ◌∷◌, some, none, arith, ◌==◌, ◌>>=◌, inl, inr,
  Bool-cases, append-nil, length,
}
use phantomid.Common.CString.{Str, str_eq_self}
use phantomid.Tree.Store.{Ptr, null, Node, Tree}
use phantomid.Tree.Queue.{max_queue_size}
use phantomid.Tree.Forest.{Forest, nil, tree, count, roots, All}
use phantomid.Tree.Lookup.{nil_of_no_roots}
use phantomid.Tree.Invariant.{Represents, root_list}
use phantomid.Tree.Create.{Env, new_tree}
use phantomid.Tree.History.{new_tree-Represents}
use phantomid.State.{NodeState, node_state}
use phantomid.State.Saved.{stored_id}
use phantomid.State.Shape.{label, leaf, shape, times, entries, rebuild, rebuild-entries, Finds}
use phantomid.State.LoadNode.{Gives}
use phantomid.State.Loaded.{
  states, length-states, Stored, kept-node_state, states-Stand, load_states, load_states-rebuild,
}
use phantomid.State.LoadRoot.{load_node-root}

abbrev pub nothing : ℕ → Tree
nothing counter = new_tree (λ _. none) counter

-- A tree with the shape has been loaded.
abbrev pub Again : ℕ → ℕ → (ℕ → Env) → ℕ → Forest → Type 0
Again k max envs counter main =
    (u : Tree) × (f : Forest) × (load_states k max envs (states none main) (nothing counter)
      ≡ some u)
    × Represents u f nil
    × (shape f ≡ shape main)

load_single :
    (k max : ℕ) (envs : ℕ → Env) (counter : ℕ) (p : Ptr) (n : Node) (kids : Forest)
    → Gives envs
    → suc (count kids) ≤ k
    → suc (count kids) ≤ max_queue_size
    → suc (count kids) ≤ max
    → ((i : Str) → times i (shape (tree p n kids nil)) ≤ 1)
    → Stored n.id
    → All (λ p n. Stored n.id) kids
    → Again k max envs counter (tree p n kids nil)
load_single k max envs counter p n kids gives fuel small few once own stored =
    let sts = states (some n.id) kids in
    let first = node_state n (stored_id none) in
    let number = length-states (some n.id) kids in
    let (u, g, ran, loaded, is_shape, is_count) =
      load_node-root k max envs gives (length sts) first (nothing counter)
        (new_tree-Represents counter) (no_root counter) in
    let rooted : shape g ≡ leaf (label n) =
      is_shape ∙ ap leaf (kept-node_state n (stored_id none) own) in
    let (rebuilt, finds) =
      rebuild-entries n.id (shape kids) (leaf (label n)) (ground (arith, str_eq_self n.id))
        (λ i. ground (arith, once i)) in
    let (v, f, rest, rep, same) =
      load_states-rebuild k max envs sts (entries n.id (shape kids)) u g gives
        (states-Stand n.id kids own stored) loaded
        (subst (Finds (entries n.id (shape kids))) (sym rooted) finds)
        (omega (arith, fuel, number, is_count)) (omega (arith, small, number, is_count))
        (omega (arith, few, number, is_count)) in
    (
      v,
      f,
      ap (λ (xs : List NodeState). load_states k max envs (first ∷ xs) (nothing counter))
            (append-nil sts)
          ∙ rw (ran, ◌>>=◌) rest,
      rep,
      same ∙ ap (rebuild (entries n.id (shape kids))) rooted ∙ rebuilt ∙ rw (str_eq_self n.id) refl,
    )
  where
    no_root : (counter : ℕ) → (nothing counter).root ≡ null
    no_root counter = unfold new_tree in refl

-- The records of a whole tree, from nothing.
pub load_main :
    (k max : ℕ) (envs : ℕ → Env) (counter : ℕ) (main : Forest) (root : Ptr)
    → Gives envs
    → roots main ≡ root_list root
    → count main ≤ k
    → count main ≤ max_queue_size
    → count main ≤ max
    → ((i : Str) → times i (shape main) ≤ 1)
    → All (λ p n. Stored n.id) main
    → Again k max envs counter main
load_main k max envs counter nil root gives rooted fuel small few once stored =
    (nothing counter, nil, refl, new_tree-Represents counter, refl)
load_main k max envs counter (tree p n kids rest) root gives rooted fuel small few once
      (own, ks, rs) =
    let alone : rest ≡ nil = nil_of_no_roots rest (no_more root rooted) in
    subst (λ (f : Forest). Again k max envs counter (tree p n kids f)) (sym alone)
      (load_single k max envs counter p n kids gives (omega (arith, fuel)) (omega (arith, small))
        (omega (arith, few)) (λ i. omega (arith, once i)) own ks)
  where
    no_more : (root : Ptr) → (p ∷ roots rest) ≡ root_list root → roots rest ≡ []
    no_more root e = elim (Bool-cases (root == null)) [
      | inl gone ↦ cc (gone)
      | inr there ↦ cc (there)
    ]
