-- ===== src/Programs/State/Entries.antt =====
-- The entries of programs/state.c, saved and loaded.
use phantomid.Common.{
  ℕ, Bool, true, false, not, ◌||◌, Option, none, some, ◌==◌, if◌then◌else◌, ◌>>=◌, length, take,
}
use phantomid.Common.CString.{Bytes, text, cstr, strncpy}
use phantomid.Tree.Store.{null, Node, Heap, Tree, write, deref}
use phantomid.Tree.Create.{tree_create_node}
use phantomid.Interface.State.{StateEntry}
use phantomid.State.{zeros, parent_id_of}
use phantomid.Programs.Commands.{Host}
use phantomid.Programs.State.{
  phantom_state_node, phantom_state_network, phantom_state_config, NodeState, NetworkState,
  state_data, node_object, network_object, Phantom, put, Services, as_state, object_at, as_node,
  as_network, as_config,
}

abbrev pub phantom_node_state : {W : Type 0} → Services W → Node → Bytes → NodeState
phantom_node_state services node parent_id = record {
  id = strncpy (zeros 64) node.id 63;
  parent_id = parent_id;
  creation_time = node.creation_time;
  is_root = node.is_root;
  is_admin = services.admin node;
  child_count = length node.children;
  max_children = node.max_children;
}

-- `save_node_state` into the entry of zeros.
unfoldable pub save_node_state :
    {W : Type 0} → Services W → Heap → Phantom W → Node → Option (Bool × Phantom W)
save_node_state services h program node = parent_id_of h node >>= λ parent_id.
    let address = services.malloc program in
    if address == 0
    then some (false, program)
    else services.set_entry
        (record program {
          memory =
              put address (some (node_object (phantom_node_state services node parent_id))) true
                program.memory;
        })
        (record {
          type = phantom_state_node;
          id = strncpy (zeros 64) node.id 63;
          payload = address;
          data_size = services.node_size;
        })

-- The assignments of `load_node_state` to a node that has been created.
unfoldable pub refill : {W : Type 0} → Services W → NodeState → Node → Node
refill services state node = services.set_admin state.is_admin (record node {
  id = take 63 (cstr state.id);
  creation_time = state.creation_time;
  is_root = state.is_root;
  max_children = state.max_children;
})

-- `load_node_state` from the creation on.
unfoldable pub load_into :
    {W : Type 0} → Services W → Host → NodeState → Option Tree → Option (Bool × Option Tree)
load_into services host state tree =
    tree_create_node host.fuel host.max_children host.memory tree (some (cstr state.parent_id))
    >>= λ made.
        if made.0 == null
        then some (false, made.1)
        else (made.1 >>= λ t. deref t.heap made.0 >>= λ node. some (
          true,
          some (record t { heap = write t.heap made.0 (some (refill services state node)) }),
        ))

unfoldable pub load_node_state :
    {W : Type 0} → Services W → Host → Phantom W → StateEntry → Option (Bool × Phantom W)
load_node_state services host program entry =
    if not (entry.type == phantom_state_node) || entry.payload == 0
    then some (false, program)
    else (object_at services program entry.payload >>= as_node >>= λ saved.
        as_state program.user_data >>= λ state.
        load_into services host saved state.tree >>= λ loaded.
        some
          (loaded.0, record program { user_data = state_data (record state { tree = loaded.1 }) }))

-- The local variables of `save_network_state`: the state, and the entry that leads to it.
abbrev pub network_state : {W : Type 0} → Services W → ℕ → NetworkState
network_state services now = record {
  port = services.default_port;
  max_connections = services.most_connections;
  last_activity = now;
  active_connections = 0;
}

abbrev pub network_entry : {W : Type 0} → Services W → StateEntry
network_entry services = record {
  type = phantom_state_network;
  id = strncpy (zeros 64) (text "network") 63;
  payload = services.local;
  data_size = services.network_size;
}

-- The variable is there from its initialisation on.
abbrev pub with_local : {W : Type 0} → Services W → ℕ → Phantom W → Phantom W
with_local services now program = record program {
  memory =
      put services.local (some (network_object (network_state services now))) false program.memory;
}

-- `save_network_state`: the variable is gone when it returns.
unfoldable pub save_network_state :
    {W : Type 0} → Services W → ℕ → Phantom W → Option (Bool × Phantom W)
save_network_state services now program =
    services.set_entry (with_local services now program) (network_entry services) >>= λ done.
    some (done.0, record done.1 { memory = put services.local none false done.1.memory })

unfoldable pub load_network_state : {W : Type 0} → Services W → Phantom W → StateEntry → Option Bool
load_network_state services program entry =
    if not (entry.type == phantom_state_network) || entry.payload == 0
    then some false
    else (object_at services program entry.payload >>= as_network >>= λ state.
        some (state.port == services.default_port))

unfoldable pub save_config_state : {W : Type 0} → Services W → Phantom W → Option (Bool × Phantom W)
save_config_state services program = as_state program.user_data >>= λ state.
    services.set_entry program (record {
      type = phantom_state_config;
      id = strncpy (zeros 64) (text "config") 63;
      payload = services.config;
      data_size = services.config_size;
    })

unfoldable pub load_config_state :
    {W : Type 0} → Services W → Phantom W → StateEntry → Option (Bool × Phantom W)
load_config_state services program entry =
    if not (entry.type == phantom_state_config) || entry.payload == 0
    then some (false, program)
    else (as_state program.user_data >>= λ state.
        object_at services program entry.payload >>= as_config >>= λ config.
        some (true, record program { user_data = state_data (record state { config = config }) }))
