-- ===== src/Tree/Store.antt =====
-- The nodes of tree.h at their addresses, and the tree's context.
use phantomid.Common.{
  ℕ, ◌≡◌, refl, ◌≢◌, Bool, List, Option, none, some, ◌==◌, if◌then◌else◌, eq→==, ne→==,
}
use phantomid.Common.CString.{Str}

abbrev pub Ptr : Type 0
Ptr = ℕ

abbrev pub null : Ptr
null = 0

-- `TreeNode`. The list is the used front of the array `children`, so its length is `child_count`;
-- the array has room for `max_children`. The string is what stands in `id` before its terminator.
pub record Node : Type 0 where
  pub id : Str
  pub creation_time : ℕ
  pub is_root : Bool
  pub is_active : Bool
  pub parent : Ptr
  pub children : List Ptr
  pub max_children : ℕ
  pub user_data : Ptr

-- The nodes that are allocated, by address.
abbrev pub Heap : Type 0
Heap = Ptr → Option Node

-- One cell of the heap is changed: a field is assigned, or (`none`) the node is freed.
unfoldable pub write : Heap → Ptr → Option Node → Heap
write h p c a = if a == p then c else h a

-- `TreeContext`, with the memory that its pointers point to and the counter that is static in
-- `generate_node_id`.
pub record Tree : Type 0 where
  pub heap : Heap
  pub root : Ptr
  pub total_nodes : ℕ
  pub counter : ℕ

-- `*p`: a fault at NULL and at an address that holds no node.
unfoldable pub deref : Heap → Ptr → Option Node
deref h p = if p == null then none else h p

pub deref_lem : (h : Heap) (p : Ptr) {n : Node} → p ≢ null → h p ≡ some n → deref h p ≡ some n
unfolding deref
deref_lem h p e held = rw (ne→== p null e) held

pub write_self : (h : Heap) (p : Ptr) (c : Option Node) → write h p c p ≡ c
unfolding write
write_self h p c = rw (eq→== p p refl)

pub write_ne : (h : Heap) {p a : Ptr} (c : Option Node) → a ≢ p → write h p c a ≡ h a
unfolding write
write_ne h {p} {a} c e = rw (ne→== a p e)
