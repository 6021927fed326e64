-- ===== src/Tree/Tests.antt =====
-- The tree on small inputs: runs of runtime/tree/tree.c and instances of the theorems.
use mathlib.Core.List.{Perm}
use phantomid.Common.{
  ℕ, ◌≡◌, refl, Bool, true, false, List, [], ◌∷◌, Option, some, none, arith, ◌==◌, if◌then◌else◌,
}
use phantomid.Common.CString.{Str, str_eq}
use phantomid.Tree.Store.{Ptr, null, Node, Heap, Tree, write, deref}
use phantomid.Tree.Queue.{NodeQueue, contents, IsValid, queue_init, queue_push, queue_pop, push_all}
use phantomid.Tree.Forest.{Forest, nil, tree, preorder, Holds}
use phantomid.Tree.Invariant.{Represents}
use phantomid.Tree.NodeId.{generate_node_id, generate_node_id_inj}
use phantomid.Tree.BoundedQueue.{queue-refines}
use phantomid.Tree.Lookup.{Found, find_node, find_loop, find_node-Found}
use phantomid.Tree.Traverse.{tree_traverse_dfs, tree_traverse_bfs, visits}
use phantomid.Tree.Walk.{
  Freed, tree_destroy, tree_destroy-Freed, tree_traverse_dfs-preorder, tree_traverse_bfs-perm,
}
use phantomid.Tree.Create.{
  Env, create_node, named, with_node, place, make_root, attach_node, free_node, create_in, new_tree,
}
use phantomid.Tree.Created
use phantomid.Tree.Created.{create_in-Outcome}
use phantomid.Tree.Delete.{delete_in, delete_found, unlink, unlink_from, remove_child, drop_node}
use phantomid.Tree.Orphans.{handle_orphans, rehome, reassign_all, reassign}
use phantomid.Tree.Deleted
use phantomid.Tree.Deleted.{delete_in-Outcome}
use phantomid.Tree.History.{begin, create, Sound, Reach-Sound}

abbrev node : Str → Bool → Ptr → List Ptr → Node
node id is_root parent children = record {
  id = id;
  creation_time = 7;
  is_root = is_root;
  is_active = true;
  parent = parent;
  children = children;
  max_children = 2;
  user_data = null;
}

-- The root at 1 with the children at 2 and 3; the one at 2 has a child at 4.
abbrev root_node : Node
root_node = node (b'r' ∷ []) true null (2 ∷ 3 ∷ [])

abbrev node_a : Node
node_a = node (b'a' ∷ []) false 1 (4 ∷ [])

abbrev node_b : Node
node_b = node (b'b' ∷ []) false 1 []

abbrev node_c : Node
node_c = node (b'c' ∷ []) false 2 []

abbrev sample_heap : Heap
sample_heap p =
    if p == 1
    then some root_node
    else if p == 2
    then some node_a
    else if p == 3
    then some node_b
    else if p == 4
    then some node_c
    else none

abbrev sample : Tree
sample = record { heap = sample_heap; root = 1; total_nodes = 4; counter = 4 }

abbrev sample_forest : Forest
sample_forest = tree 1 root_node (tree 2 node_a (tree 4 node_c nil nil) (tree 3 node_b nil nil)) nil

sample-Represents : Represents sample sample_forest nil
sample-Represents = record {
  rooted = refl;
  held = ground arith;
  parents = ground arith;
  distinct = λ a. ground arith;
  fits = omega arith;
  only = λ a e. ground arith;
  total = refl;
}

abbrev env : Env
env = record { node = 5; array = true; created = 8; stamped = 8 }

-- The lists of the children, and what the calls return.
abbrev children_at : Ptr → Tree → Option (List Ptr)
children_at p t = elim (t.heap p) [ none ↦ none | some n ↦ some n.children ]

abbrev after {ℓ} : {A B : Type ℓ} → Option (A × Tree) → (A → Tree → B) → Option B
after none f = none
after (some (a, u)) f = some (f a u)

-- A child of "b" at 5.
create_runs :
    after {B = Ptr × ℕ × Option (List Ptr)}
      (create_in 10 2 env sample (some (b'b' ∷ [])))
      (λ p u. (p, u.total_nodes, children_at 3 u))
    ≡ some (5, 5, some (5 ∷ []))
unfolding create_in create_node named with_node place find_node find_loop queue_init queue_push
    queue_pop push_all str_eq deref write attach_node generate_node_id
create_runs = refl

-- The root has no room for a third child.
create_full :
    after {B = Ptr × ℕ × Option (List Ptr)}
      (create_in 10 2 env sample (some (b'r' ∷ [])))
      (λ p u. (p, u.total_nodes, children_at 1 u))
    ≡ some (null, 4, some (2 ∷ 3 ∷ []))
unfolding create_in create_node named with_node place find_node find_loop queue_init queue_push
    queue_pop push_all str_eq deref write free_node generate_node_id
create_full = refl

-- The child of "a" goes to the root.
delete_runs :
    after {B = Bool × ℕ × Option (List Ptr) × Option (List Ptr)}
      (delete_in 10 sample (b'a' ∷ []))
      (λ done u. (done, u.total_nodes, children_at 1 u, children_at 2 u))
    ≡ some (true, 3, some (3 ∷ 4 ∷ []), none)
unfolding delete_in delete_found unlink unlink_from remove_child handle_orphans rehome reassign_all
    reassign drop_node find_node find_loop queue_init queue_push queue_pop push_all str_eq deref
    write
delete_runs = refl

create_in-Outcome_example :
    (p : Ptr) × (u : Tree) × (create_in 10 2 env sample (some (b'b' ∷ [])) ≡ some (p, u))
    × Created.Outcome 2 env sample (some (b'b' ∷ [])) sample_forest nil p u
create_in-Outcome_example =
    create_in-Outcome 10 2 env sample sample_forest nil refl (omega arith) (omega arith)
      sample-Represents (some (b'b' ∷ []))

delete_in-Outcome_example :
    (done : Bool) × (u : Tree) × (delete_in 10 sample (b'a' ∷ []) ≡ some (done, u))
    × Deleted.Outcome sample (b'a' ∷ []) sample_forest nil done u
delete_in-Outcome_example =
    delete_in-Outcome 10 sample sample_forest nil (omega arith) (omega arith) sample-Represents
      (b'a' ∷ [])

-- The first address is free in the empty context.
new_is_free : (new_tree (λ _. none) 0).heap 5 ≡ none
unfolding new_tree
new_is_free = refl

abbrev empty : Tree
empty = new_tree (λ _. none) 0

first_created : (p : Ptr) × (u : Tree) × (create_in 1001 2 env empty none ≡ some (p, u)) × (p ≡ 5)
unfolding create_in create_node place make_root with_node named new_tree
first_created = (5, _, refl, refl)

Reach-Sound_example : Sound 1 first_created.1
Reach-Sound_example =
    Reach-Sound {k = 1001} {max = 2} (omega arith)
      (create env none begin (omega arith) new_is_free first_created.2)

find_node-Found_example :
    (p : Ptr) × (find_node 10 sample (b'c' ∷ []) ≡ some p) × Found (b'c' ∷ []) sample_forest p
find_node-Found_example =
    find_node-Found 10 sample (b'c' ∷ []) sample_forest refl (sample-Represents.held) (omega arith)
      (omega arith)

tree_traverse_dfs-preorder_example :
    tree_traverse_dfs (λ p n s. p ∷ s) 10 (some sample) []
    ≡ some (visits (λ p n s. p ∷ s) (preorder sample_forest) [])
tree_traverse_dfs-preorder_example =
    tree_traverse_dfs-preorder 10 sample sample_forest nil (omega arith) sample-Represents
      (λ p n s. p ∷ s) []

tree_traverse_bfs-perm_example :
    (xs : List (Ptr × Node)) × (tree_traverse_bfs (λ p n s. p ∷ s) 10 (some sample) []
      ≡ some (visits (λ p n s. p ∷ s) xs []))
    × Perm xs (preorder sample_forest)
tree_traverse_bfs-perm_example =
    tree_traverse_bfs-perm 10 sample sample_forest nil (omega arith) sample-Represents
      (λ p n s. p ∷ s) [] (omega arith)

tree_destroy-Freed_example :
    (h : Heap) × (tree_destroy 10 (λ _. none) (some sample) ≡ some h)
    × Freed sample_heap sample_forest h
    × Holds h nil
tree_destroy-Freed_example =
    tree_destroy-Freed 10 (λ _. none) sample sample_forest nil (omega arith) sample-Represents

generate_node_id_inj_example : ◌≡◌ {A = ℕ} 7 7 × (◌≡◌ {A = ℕ} 9 9)
generate_node_id_inj_example =
    generate_node_id_inj 7 9 7 9 (omega arith) (omega arith) (omega arith) (omega arith) refl

-- The ring that holds the root.
abbrev ring : NodeQueue
ring = record { nodes = λ i. if i == 999 then 1 else null; front = 999; rear = 0; size = 1 }

ring-IsValid : IsValid ring
ring-IsValid = record { front_in = omega arith; size_in = omega arith; rear_at = refl }

queue-refines_example :
    IsValid (queue_push ring 2).1
    × (◌≡◌ {A = Bool × List Ptr}
        ((queue_push ring 2).0, contents (queue_push ring 2).1)
        (true, 1 ∷ 2 ∷ []))
    × IsValid (queue_pop ring).1
    × (◌≡◌ {A = Ptr × List Ptr} ((queue_pop ring).0, contents (queue_pop ring).1) (1, []))
queue-refines_example = queue-refines ring 2 ring-IsValid
