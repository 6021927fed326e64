-- ===== src/Programs/State/Tests.antt =====
-- programs/state.c on small inputs.
use phantomid.Common.{
  ℕ, ◌≡◌, refl, ap, Bool, true, false, not, [], ◌∷◌, ◌++◌, Option, none, some, arith, length,
}
use phantomid.Common.CString.{Str, Bytes, cstr, strncpy, text, str_eq}
use phantomid.Interface.State.{
  StateEntry, StateContext, notices, get_entry, find_entry, is_entry, magic_number,
}
use phantomid.Interface.State.Cells.{IsEntry}
use phantomid.Interface.State.Entries.{Stores}
use phantomid.Tree.Create.{tree_create_node}
use phantomid.State.{zeros}
use phantomid.Programs.Commands.{Host}
use phantomid.Programs.State.{
  phantom_state_node, phantom_state_network, phantom_state_config, NodeState, state_data,
  node_object, Phantom, put, Services,
}
use phantomid.Programs.State.Entries.{
  load_node_state, load_into, refill, load_network_state, load_config_state,
}
use phantomid.Programs.State.Changes.{
  load_entry, free_data, handle_state_change, phantom_save_state, phantom_check_state,
  phantom_state_cleanup, initial_state,
}
use phantomid.Programs.State.Cached.{
  Handler, Caches, get_cached, set_cached, phantom_save_state_faults,
}
use phantomid.Programs.State.Dangling.{Change, handle_state_change-Change}

abbrev host : Host
host = record {
  fuel = 10;
  max_children = 2;
  memory = record { node = 5; array = true; created = 8; stamped = 8 };
  copy = 900;
  status = 901;
}

-- A layout of an entry in memory.
abbrev layout : StateEntry → Bytes
layout e = e.type ∷ e.payload ∷ e.data_size ∷ e.id

abbrev read_layout : Bytes → StateEntry
read_layout (type ∷ payload ∷ data_size ∷ id) = record {
  type = type;
  id = id;
  payload = payload;
  data_size = data_size;
}
read_layout bytes = record { type = 0; id = []; payload = 0; data_size = 0 }

length-layout : (e : StateEntry) → IsEntry e → length (layout e) ≡ 67
length-layout e is = omega (arith, is.0)

read_layout-layout : (e : StateEntry) → IsEntry e → read_layout (layout e) ≡ e
read_layout-layout e is = refl

-- The other handlers do nothing.
abbrev idle : ℕ → Handler
idle address program type id = some program

-- A `set_entry` that does nothing yet.
abbrev quiet : Services StateContext
quiet = record {
  set_entry = λ program entry. some (false, program);
  get_entry = get_cached 67 layout read_layout;
  register = λ program type. program;
  state_there = true;
  admin = λ node. false;
  set_admin = λ b node. node;
  malloc = λ program. 70;
  local = 40;
  config = 50;
  default_port = 8888;
  most_connections = 1000;
  node_size = 160;
  network_size = 32;
  config_size = 264;
}

-- That of interface/state.c; 60 is the address of `handle_state_change`.
abbrev cached_services : Services StateContext
cached_services = record quiet { set_entry = set_cached 67 layout read_layout quiet host 60 idle }

cached_services-Caches : Caches 67 layout read_layout cached_services host 60 idle
unfolding handle_state_change load_entry load_node_state load_into refill load_network_state
    load_config_state
cached_services-Caches = record { gets = λ program type id. refl; sets = λ program entry. refl }

abbrev node : NodeState
node = record {
  id = strncpy (zeros 64) (text "r") 63;
  parent_id = zeros 64;
  creation_time = 7;
  is_root = true;
  is_admin = false;
  child_count = 0;
  max_children = 2;
}

abbrev node_entry : StateEntry
node_entry = record {
  type = phantom_state_node;
  id = strncpy (zeros 64) (text "r") 63;
  payload = 70;
  data_size = 160;
}

abbrev world : StateContext
world = record {
  header = record { magic = magic_number; version = 1; flags = 0; timestamp = 0; checksum = 0 };
  handlers =
      record { type = phantom_state_node; handler = 60 }
      ∷ record { type = phantom_state_network; handler = 60 }
      ∷ record { type = phantom_state_config; handler = 60 }
      ∷ [];
  filename = [];
  cache = some (layout node_entry ++ []);
}

node_entry-IsEntry : IsEntry node_entry
unfolding strncpy cstr
node_entry-IsEntry = (refl, omega arith)

world-Stores : Stores layout world (node_entry ∷ [])
world-Stores = record {
  bytes = refl;
  entries = (node_entry-IsEntry, tt);
  unique = λ type id. ground arith;
}

abbrev program : Phantom StateContext
program = record {
  user_data = state_data initial_state;
  memory =
      put 70 (some (node_object node)) true (record { objects = λ p. none; malloced = λ p. false });
  world = world;
}

-- The handlers that are called for the entry of the network.
network_notices :
    notices phantom_state_network (text "network") world.handlers
    ≡ record { handler = 60; type = phantom_state_network; id = some (text "network") } ∷ []
unfolding notices
network_notices = refl

phantom_save_state_faults_example :
    (phantom_save_state cached_services 10 900 program ≡ none)
    × (phantom_check_state cached_services 10 900 program ≡ none)
    × (phantom_state_cleanup cached_services 10 900 program ≡ none)
phantom_save_state_faults_example =
    phantom_save_state_faults 67 layout read_layout (omega arith) length-layout read_layout-layout
      cached_services host 60 idle cached_services-Caches program initial_state (node_entry ∷ []) []
      refl refl world-Stores network_notices (omega arith) 10 900

same_cache :
    (p q : Phantom StateContext) (type : ℕ) (id : Str)
    → p.world ≡ q.world
    → get_cached 67 layout read_layout p type id ≡ get_cached 67 layout read_layout q type id
same_cache p q type id same =
    ap (λ (w : StateContext). get_entry 67 layout read_layout (some w) type (some id)) same

handle_state_change-Change_example :
    Change quiet host program phantom_state_node
      (text "r")
      (handle_state_change quiet host program phantom_state_node (text "r"))
handle_state_change-Change_example =
    handle_state_change-Change quiet host same_cache program phantom_state_node (text "r")

-- The entry of the node is freed.
abbrev is_freed : Option (Phantom StateContext) → Bool
is_freed none = false
is_freed (some after) = not (after.memory.malloced 70)

change_frees :
    is_freed (handle_state_change quiet host program phantom_state_node (text "r")) ≡ true
unfolding handle_state_change get_entry find_entry is_entry load_entry load_node_state load_into
    free_data tree_create_node strncpy cstr str_eq
change_frees = refl
