-- ===== src/Tree/Delete.antt =====
-- `tree_delete_node` of runtime/tree/tree.c.
use phantomid.Common.{
  ℕ, ◌+◌, ◌-◌, ◌%◌, Bool, true, false, List, [], ◌∷◌, Option, none, some, ◌==◌, if◌then◌else◌,
  ◌>>=◌, u64_mod,
}
use phantomid.Common.CString.{Str}
use phantomid.Tree.Store.{Ptr, null, Node, Tree, write, deref}
use phantomid.Tree.Lookup.{find_node}
use phantomid.Tree.Orphans.{handle_orphans}

-- The search for the node in its parent's array, and the `memmove` that closes the gap. Where the
-- node is not there, the length that is passed to `memmove` wraps: a fault.
unfoldable pub remove_child : Ptr → List Ptr → Option (List Ptr)
remove_child node [] = none
remove_child node (c ∷ cs) =
    let rest = remove_child node cs in
    if c == node then some cs else (rest >>= λ others. some (c ∷ others))

-- The node is taken out of its parent's array, or is no longer the root.
unfoldable pub unlink_from : Tree → Ptr → Ptr → Option Tree
unlink_from t p parent_ptr =
    if parent_ptr == null
    then some (if p == t.root then record t { root = null } else t)
    else (deref t.heap parent_ptr >>= λ parent. remove_child p parent.children >>= λ others.
        some (record t {
          heap = write t.heap parent_ptr (some (record parent { children = others }));
        }))

unfoldable pub unlink : Tree → Ptr → Node → Option Tree
unlink t p node = unlink_from t p node.parent

-- `free(node->children); free(node); ctx->total_nodes--`
unfoldable pub drop_node : Tree → Ptr → Tree
drop_node t p = record t {
  heap = write t.heap p none;
  total_nodes = (t.total_nodes + u64_mod - 1) % u64_mod;
}

-- `tree_delete_node` once the node is found, at `p`.
unfoldable pub delete_found : Tree → Ptr → Node → Option (Bool × Tree)
delete_found t p node = unlink t p node >>= λ t'.
    handle_orphans t'.heap node >>= λ h. some (true, drop_node (record t' { heap = h }) p)

-- `tree_delete_node` of a context and an id that are not NULL.
unfoldable pub delete_in : ℕ → Tree → Str → Option (Bool × Tree)
delete_in k t node_id = find_node k t node_id >>= λ p.
    if p == null then some (false, t) else (deref t.heap p >>= λ node. delete_found t p node)

-- `tree_delete_node`
unfoldable pub tree_delete_node : ℕ → Option Tree → Option Str → Option (Bool × Option Tree)
tree_delete_node k (some t) (some node_id) =
    delete_in k t node_id >>= λ done. some (done.0, some done.1)
tree_delete_node k ctx node_id = some (false, ctx)
