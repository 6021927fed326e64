-- ===== src/Tree/Create.antt =====
-- `tree_create`, `create_node` and `tree_create_node` of runtime/tree/tree.c, and `tree_has_root`
-- and `tree_get_size`.
use phantomid.Common.{
  ℕ, ◌+◌, ◌%◌, Bool, true, false, not, ◌||◌, [], ◌∷◌, ◌++◌, Option, none, some, leb, ◌==◌,
  if◌then◌else◌, ◌>>=◌, length, u64_mod,
}
use phantomid.Common.CString.{Str}
use phantomid.Tree.Store.{Ptr, null, Node, Heap, Tree, write, deref}
use phantomid.Tree.NodeId.{generate_node_id}
use phantomid.Tree.Lookup.{find_node}

-- What the system gives to one call: the addresses that `calloc` returns for the node (NULL if it
-- fails), whether it gives the children's array, and the two readings of the clock.
pub record Env : Type 0 where
  pub node : Ptr
  pub array : Bool
  pub created : ℕ
  pub stamped : ℕ

-- `tree_create`, of a context that is there and a mutex that is initialised.
unfoldable pub new_tree : Heap → ℕ → Tree
new_tree heap counter = record { heap = heap; root = null; total_nodes = 0; counter = counter }

unfoldable pub tree_create : Bool → Bool → Heap → ℕ → Option Tree
tree_create calloc_ok mutex_ok heap counter =
    if not calloc_ok then none else if not mutex_ok then none else some (new_tree heap counter)

-- `create_node`; `max` is `MAX_CHILDREN`, which the build defines.
unfoldable pub create_node : ℕ → Env → Option Node
create_node max env =
    if env.node == null || not env.array
    then none
    else some (record {
      id = [];
      creation_time = env.created;
      is_root = false;
      is_active = true;
      parent = null;
      children = [];
      max_children = max;
      user_data = null;
    })

-- `free(node->children); free(node)`
unfoldable pub free_node : Tree → Ptr → Tree
free_node t p = record t { heap = write t.heap p none }

-- The new node, which is in the heap already, becomes the root.
unfoldable pub make_root : Tree → Ptr → Node → Tree
make_root t p node = record t {
  heap = write t.heap p (some (record node { is_root = true }));
  root = p;
  total_nodes = (t.total_nodes + 1) % u64_mod;
}

-- The new node is attached to the parent at `q`.
unfoldable pub attach_node : Tree → Ptr → Node → Ptr → Node → Tree
attach_node t p node q parent = record t {
  heap =
      write (write t.heap p (some (record node { parent = q }))) q
        (some (record parent { children = parent.children ++ p ∷ [] }));
  total_nodes = (t.total_nodes + 1) % u64_mod;
}

-- The branches of `tree_create_node` once the node has its id.
unfoldable pub place : ℕ → Tree → Ptr → Node → Option Str → Option (Ptr × Tree)
place k t p node none =
    if t.root == null then some (p, make_root t p node) else some (null, free_node t p)
place k t p node (some parent_id) =
    if t.root == null
    then some (p, make_root t p node)
    else (find_node k t parent_id >>= λ q.
        if q == null
        then some (null, free_node t p)
        else (deref t.heap q >>= λ parent.
            if leb parent.max_children (length parent.children)
            then some (null, free_node t p)
            else some (p, attach_node t p node q parent)))

-- The context where the node has been allocated and has its id.
unfoldable pub with_node : Tree → Ptr → Node → Tree
with_node t p node = record t {
  heap = write t.heap p (some node);
  counter = (t.counter + 1) % u64_mod;
}

-- `node->id` after `generate_node_id(node->id)`
unfoldable pub named : Node → Env → Tree → Node
named blank env t = record blank { id = generate_node_id env.stamped t.counter }

-- `tree_create_node` of a context that is not NULL: the new node's address, or NULL.
unfoldable pub create_in : ℕ → ℕ → Env → Tree → Option Str → Option (Ptr × Tree)
create_in k max env t parent_id = elim (create_node max env) [
  | none ↦ some (null, t)
  | some blank ↦
      place k (with_node t env.node (named blank env t)) env.node (named blank env t) parent_id
]

-- `tree_create_node`
unfoldable pub tree_create_node :
    ℕ → ℕ → Env → Option Tree → Option Str → Option (Ptr × Option Tree)
tree_create_node k max env none parent_id = some (null, none)
tree_create_node k max env (some t) parent_id =
    create_in k max env t parent_id >>= λ made. some (made.0, some made.1)

-- `tree_has_root` and `tree_get_size`
unfoldable pub tree_has_root : Option Tree → Bool
tree_has_root none = false
tree_has_root (some t) = not (t.root == null)

unfoldable pub tree_get_size : Option Tree → ℕ
tree_get_size none = 0
tree_get_size (some t) = t.total_nodes
