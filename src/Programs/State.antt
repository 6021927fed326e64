-- ===== src/Programs/State.antt =====
-- programs/state.c: the entries that the program keeps in the cache, and their changes.
use phantomid.Common.{
  ℕ, ◌+◌, Bool, true, false, not, ◌&&◌, ◌||◌, List, [], ◌∷◌, Option, none, some, leb, ◌==◌,
  if◌then◌else◌, ◌>>=◌, length, take,
}
use phantomid.Common.CString.{Str, Bytes, text, cstr, strncpy}
use phantomid.Tree.Store.{Ptr, null, Node, Heap, Tree, write, deref}
use phantomid.Tree.Create.{tree_create_node}
use phantomid.Tree.Traverse.{tree_traverse_dfs}
use phantomid.Interface.State.{StateEntry}
use phantomid.State.{zeros, parent_id_of}
use phantomid.Programs.Commands.{Host}
pub mod Entries
pub mod Changes
pub mod Dangling
pub mod Cached
mod Tests

-- `PhantomStateType`
abbrev pub phantom_state_node : ℕ
phantom_state_node = 1000

abbrev pub phantom_state_network : ℕ
phantom_state_network = 1001

abbrev pub phantom_state_config : ℕ
phantom_state_config = 1002

pub record NodeState : Type 0 where
  pub id : Bytes
  pub parent_id : Bytes
  pub creation_time : ℕ
  pub is_root : Bool
  pub is_admin : Bool
  pub child_count : ℕ
  pub max_children : ℕ

pub record NetworkState : Type 0 where
  pub port : ℕ
  pub max_connections : ℕ
  pub last_activity : ℕ
  pub active_connections : ℕ

pub record ConfigState : Type 0 where
  pub verbose_logging : Bool
  pub auto_save : Bool
  pub save_interval : ℕ
  pub state_dir : Bytes

-- `ProgramState`; that `state` is not NULL is tested once, when it is set.
pub record ProgramState : Type 0 where
  pub tree : Option Tree
  pub last_save : ℕ
  pub config : ConfigState

-- `NetworkConfig` and `StateConfig` of phantomid.h
pub record NetworkConfig : Type 0 where
  pub port : ℕ
  pub max_connections : ℕ
  pub timeout_ms : ℕ
  pub backlog : ℕ

pub record StateConfig : Type 0 where
  pub auto_save : Bool
  pub save_interval : ℕ
  pub max_history : ℕ
  pub state_dir : Bytes

-- `PhantomIDContext` of phantomid.c; `messages` is an address.
pub record PhantomIdContext : Type 0 where
  pub tree : Option Tree
  pub messages : ℕ
  pub network_config : NetworkConfig
  pub state_config : StateConfig
  pub verbose_logging : Bool

-- What `user_data` points to. A pointer that is used as one of the wrong type is a fault, like one to
-- memory that has been freed.
pub data UserData : Type 0 where
  no_data : UserData
  state_data : ProgramState → UserData
  context_data : PhantomIdContext → UserData
  freed_data : UserData

-- An object that the `data` of an entry may lead to.
pub data Object : Type 0 where
  node_object : NodeState → Object
  network_object : NetworkState → Object
  config_object : ConfigState → Object

-- Objects by address, and which addresses `malloc` has given and `free` not yet taken.
pub record Memory : Type 0 where
  pub objects : ℕ → Option Object
  pub malloced : ℕ → Bool

-- The program: what `user_data` points to, the memory, and the rest of the world.
pub record Phantom (W : Type 0) : Type 0 where
  pub user_data : UserData
  pub memory : Memory
  pub world : W

abbrev pub put : ℕ → Option Object → Bool → Memory → Memory
put address object malloced memory = record {
  objects = λ p. if p == address then object else memory.objects p;
  malloced = λ p. if p == address then malloced else memory.malloced p;
}

-- What the code uses and no header declares: the calls through the member `state` of a program, and the
-- member `is_admin` of a node; and what the system gives: the address of the next `malloc`, 0 for
-- NULL, those of a local variable and of the `config` of the state, and the requirements of the interface.
pub record Services (W : Type 0) : Type 0 where
  pub set_entry : Phantom W → StateEntry → Option (Bool × Phantom W)
  pub get_entry : Phantom W → ℕ → Str → Option StateEntry
  pub register : Phantom W → ℕ → Phantom W
  pub state_there : Bool
  pub admin : Node → Bool
  pub set_admin : Bool → Node → Node
  pub malloc : Phantom W → ℕ
  pub local : ℕ
  pub config : ℕ
  pub default_port : ℕ
  pub most_connections : ℕ
  pub node_size : ℕ
  pub network_size : ℕ
  pub config_size : ℕ

-- `program->user_data` as a `ProgramState`
abbrev pub as_state : UserData → Option ProgramState
as_state (state_data state) = some state
as_state other = none

-- The object behind a pointer, also where that is the `config` of the state.
abbrev pub object_at : {W : Type 0} → Services W → Phantom W → ℕ → Option Object
object_at services program p =
    if p == services.config
    then (as_state program.user_data >>= λ state. some (config_object state.config))
    else program.memory.objects p

abbrev pub as_node : Object → Option NodeState
as_node (node_object state) = some state
as_node other = none

abbrev pub as_network : Object → Option NetworkState
as_network (network_object state) = some state
as_network other = none

abbrev pub as_config : Object → Option ConfigState
as_config (config_object state) = some state
as_config other = none
