-- ===== src/State.antt =====
-- runtime/state/state.c and state.h: the tree saved in a file and loaded from it.
use phantomid.Common.{
  ℕ, zero, suc, ◌+◌, ◌-◌, ◌/◌, ◌%◌, Bool, true, false, not, ◌&&◌, ◌||◌, List, [], ◌∷◌, ◌++◌, Option,
  none, some, ltb, leb, ◌==◌, if◌then◌else◌, ◌>>=◌, length, take, drop, u64_mod,
}
use phantomid.Common.CString.{Str, Bytes, cstr, strncpy}
use phantomid.Common.Files.{File, open_wb, open_rb, fwrite, fread, fseek}
use phantomid.Interface.State.{magic_number}
use phantomid.Interface.State.Saving.{sum_chunks}
use phantomid.Tree.Store.{Ptr, null, Node, Heap, Tree, deref, write}
use phantomid.Tree.Traverse.{tree_traverse_dfs}
use phantomid.Tree.Create.{Env, create_in}
pub mod Flags
pub mod Saved
pub mod Verify
pub mod Shape
pub mod Relabel
pub mod Ids
pub mod LoadNode
pub mod Loaded
pub mod LoadRoot
pub mod Rebuilt
pub mod Restored
pub mod AnyFile
mod Tests

abbrev pub state_version : ℕ
state_version = 1

-- `StateHeader`
pub record StateHeader : Type 0 where
  pub magic : ℕ
  pub version : ℕ
  pub flags : ℕ
  pub timestamp : ℕ
  pub node_count : ℕ
  pub checksum : ℕ

-- `NodeState`
pub record NodeState : Type 0 where
  pub id : Bytes
  pub parent_id : Bytes
  pub creation_time : ℕ
  pub is_root : Bool
  pub is_active : Bool
  pub child_count : ℕ

-- `StateContext`
pub record StateContext : Type 0 where
  pub filename : Str
  pub flags : ℕ
  pub header : StateHeader

-- `state_create`; the Booleans say whether `calloc`, `strdup` and `pthread_mutex_init` succeed.
unfoldable pub new_context : Str → ℕ → StateContext
new_context filename now = record {
  filename = filename;
  flags = 0;
  header = record {
    magic = magic_number;
    version = state_version;
    flags = 0;
    timestamp = now;
    node_count = 0;
    checksum = 0;
  };
}

unfoldable pub state_create : Bool → Bool → Bool → ℕ → Option Str → Option StateContext
state_create calloc_ok strdup_ok mutex_ok now none = none
state_create calloc_ok strdup_ok mutex_ok now (some filename) =
    if calloc_ok && strdup_ok && mutex_ok then some (new_context filename now) else none

-- `count_nodes`
unfoldable pub count_nodes : Ptr → Node → ℕ → ℕ
count_nodes p node count = (count + 1) % u64_mod

-- The array of 64 zeros that `{0}` gives.
abbrev pub zeros : ℕ → Bytes
zeros zero = []
zeros (suc n) = 0 ∷ zeros n

-- `state.parent_id`
unfoldable pub parent_id_of : Heap → Node → Option Bytes
parent_id_of h node =
    if node.parent == null
    then some (zeros 64)
    else (deref h node.parent >>= λ parent. some (strncpy (zeros 64) parent.id 63))

-- The record that `save_node` writes.
unfoldable pub node_state : Node → Bytes → NodeState
node_state node parent_id = record {
  id = strncpy (zeros 64) node.id 63;
  parent_id = parent_id;
  creation_time = node.creation_time;
  is_root = node.is_root;
  is_active = node.is_active;
  child_count = length node.children;
}

-- What the system answers to the calls of `state_save`. A write is taken to be whole: the code does
-- not look at what `fwrite` returns.
pub record SaveEnv : Type 0 where
  pub opened : Bool
  pub now : ℕ
  pub malloc_ok : Bool

abbrev pub counted : ℕ → ℕ → StateContext → StateContext
counted node_count now ctx = record ctx {
  header = record ctx.header { node_count = node_count; timestamp = now };
}

abbrev pub sealed : ℕ → StateContext → StateContext
sealed sum ctx = record ctx { header = record ctx.header { checksum = sum } }

-- The assignments of `state_load` to a node that has been created.
unfoldable pub restore : NodeState → Node → Node
restore state node = record node {
  id = take 63 (cstr state.id);
  creation_time = state.creation_time;
  is_root = state.is_root;
  is_active = state.is_active;
}

-- One round of the loop of `state_load`, where a record has been read.
unfoldable pub load_node : ℕ → ℕ → Env → NodeState → Tree → Option Tree
load_node k max env state t = create_in k max env t (some (cstr state.parent_id)) >>= λ made.
    if made.0 == null
    then some made.1
    else (deref made.1.heap made.0 >>= λ node.
        some (record made.1 { heap = write made.1.heap made.0 (some (restore state node)) }))

-- The layout of the records is the compiler's: the images give their bytes, of the sizes given.
module _ (header_size node_size : ℕ) (header_image : StateHeader → Bytes)
    (node_image : NodeState → Bytes) (parse_header : Bytes → StateHeader)
    (parse_node : Bytes → NodeState) where
  -- `save_node`, of a stream and a node that are there; a bad parent pointer is a fault.
  unfoldable pub save_node : Heap → Ptr → Node → Option File → Option File
  save_node h p node file = file >>= λ to.
      parent_id_of h node >>= λ parent_id. some (fwrite to (node_image (node_state node parent_id)))

  -- `state_save` from the `ftell` on.
  unfoldable pub finish_save :
      ℕ → SaveEnv → StateContext → File → Option (Bool × StateContext × Option Bytes)
  finish_save k env ctx file =
      if not env.malloc_ok
      then some (true, ctx, some file.content)
      else (sum_chunks k (fseek file header_size) 0 >>= λ sum. some (
        true,
        sealed sum ctx,
        some (fwrite (fseek file 0) (header_image (sealed sum ctx).header)).content,
      ))

  -- `state_save` of a file that is open.
  unfoldable pub write_tree :
      ℕ → SaveEnv → StateContext → Tree → Option (Bool × StateContext × Option Bytes)
  write_tree k env ctx t = tree_traverse_dfs count_nodes k (some t) 0 >>= λ node_count.
      tree_traverse_dfs (save_node t.heap) k (some t)
        (some (fwrite open_wb (header_image (counted node_count env.now ctx).header)))
      >>= λ saved. saved >>= λ file. finish_save k env (counted node_count env.now ctx) file

  -- `state_save`: the result, the context, and the new content of the file, none where it has not
  -- been opened.
  unfoldable pub state_save :
      ℕ
      → SaveEnv
      → Option StateContext
      → Option Tree
      → Option (Bool × Option StateContext × Option Bytes)
  state_save k env (some ctx) (some t) =
      if not env.opened
      then some (false, some ctx, none)
      else (write_tree k env ctx t >>= λ saved. some (saved.0, some saved.1, saved.2))
  state_save k env ctx tree = some (false, ctx, none)

  -- The loop of `state_load`, with the rounds that are left; `envs` is what the system gives to each.
  unfoldable pub load_nodes : ℕ → ℕ → (ℕ → Env) → ℕ → File → Tree → Option (Bool × Tree)
  load_nodes k max envs zero file t = some (true, t)
  load_nodes k max envs (suc n) file t = elim (length (fread file node_size).0 == node_size) [
    | false ↦ some (false, t)
    | true ↦ load_node k max (envs n) (parse_node (fread file node_size).0) t >>= λ u.
        load_nodes k max envs n (fread file node_size).1 u
  ]

  -- The test of the header in `state_load`.
  unfoldable pub header_ok : Bytes → Bool
  header_ok bytes =
      length bytes == header_size
      && (parse_header bytes).magic == magic_number
      && leb (parse_header bytes).version state_version

  unfoldable pub load_in :
      ℕ → ℕ → (ℕ → Env) → StateContext → Tree → Option Bytes → Option (Bool × StateContext × Tree)
  load_in k max envs ctx t none = some (false, ctx, t)
  load_in k max envs ctx t (some bytes) =
      if header_ok (fread (open_rb bytes) header_size).0
      then (load_nodes k max envs (parse_header (fread (open_rb bytes) header_size).0).node_count
            (fread (open_rb bytes) header_size).1 t
          >>= λ loaded. some (
            loaded.0,
            record ctx { header = parse_header (fread (open_rb bytes) header_size).0 },
            loaded.1,
          ))
      else some (false, ctx, t)

  -- `state_load`; the file is none where it cannot be opened.
  unfoldable pub state_load :
      ℕ
      → ℕ
      → (ℕ → Env)
      → Option StateContext
      → Option Tree
      → Option Bytes
      → Option (Bool × Option StateContext × Option Tree)
  state_load k max envs (some ctx) (some t) file =
      load_in k max envs ctx t file >>= λ loaded. some (loaded.0, some loaded.1, some loaded.2)
  state_load k max envs ctx tree file = some (false, ctx, tree)

  -- `state_verify_checksum`; the file is none where it cannot be opened.
  unfoldable pub state_verify_checksum : ℕ → Bool → Option StateContext → Option Bytes → Option Bool
  state_verify_checksum k malloc_ok none file = some false
  state_verify_checksum k malloc_ok (some ctx) none = some false
  state_verify_checksum k malloc_ok (some ctx) (some bytes) =
      if not malloc_ok
      then some false
      else (sum_chunks k (fseek (open_rb bytes) header_size) 0 >>= λ sum.
          some (sum == ctx.header.checksum))

-- `state_get_version`
unfoldable pub state_get_version : Option StateContext → ℕ
state_get_version none = 0
state_get_version (some ctx) = ctx.header.version

-- `state_is_compatible`
unfoldable pub state_is_compatible : Option StateContext → Bool
state_is_compatible none = false
state_is_compatible (some ctx) = leb ctx.header.version state_version

-- `state_get_timestamp`
unfoldable pub state_get_timestamp : Option StateContext → ℕ
state_get_timestamp none = 0
state_get_timestamp (some ctx) = ctx.header.timestamp

-- `state_get_node_count`
unfoldable pub state_get_node_count : Option StateContext → ℕ
state_get_node_count none = 0
state_get_node_count (some ctx) = ctx.header.node_count
