-- ===== src/Programs/State/Changes.antt =====
-- `handle_state_change` of programs/state.c, and the setup, the check and the cleanup of the state.
use phantomid.Common.{
  ℕ, ◌+◌, Bool, true, false, not, Option, none, some, leb, ◌==◌, if◌then◌else◌, ◌>>=◌,
}
use phantomid.Common.CString.{Str, text, strncpy}
use phantomid.Tree.Store.{Ptr, Node, Heap, Tree}
use phantomid.Tree.Traverse.{tree_traverse_dfs}
use phantomid.Interface.State.{StateEntry}
use phantomid.State.{zeros}
use phantomid.Programs.Commands.{Host}
use phantomid.Programs.State.{
  phantom_state_node, phantom_state_network, phantom_state_config, ProgramState, no_data,
  state_data, freed_data, Phantom, put, Services, as_state,
}
use phantomid.Programs.State.Entries.{
  save_node_state, load_node_state, save_network_state, load_network_state, save_config_state,
  load_config_state,
}

-- `save_node_visitor`; what has been a fault stays one.
unfoldable pub save_node_visitor :
    {W : Type 0} → Services W → Heap → Ptr → Node → Option (Phantom W) → Option (Phantom W)
save_node_visitor services h p node so_far =
    so_far >>= λ program. save_node_state services h program node >>= λ saved. some saved.1

-- The nodes of `phantom_save_state`; a tree that is NULL has none.
unfoldable pub visit_nodes :
    {W : Type 0} → Services W → ℕ → Option Tree → Phantom W → Option (Option (Phantom W))
visit_nodes services k none program = some (some program)
visit_nodes services k (some t) program =
    tree_traverse_dfs (save_node_visitor services t.heap) k (some t) (some program)

-- `phantom_save_state`; the fuel bounds the depth of the traversal.
unfoldable pub phantom_save_state :
    {W : Type 0} → Services W → ℕ → ℕ → Phantom W → Option (Bool × Phantom W)
phantom_save_state services k now program = as_state program.user_data >>= λ state.
    let stamped = record program { user_data = state_data (record state { last_save = now }) } in
    visit_nodes services k state.tree stamped >>= λ visited. visited >>= λ nodes.
    save_network_state services now nodes >>= λ network.
    save_config_state services network.1 >>= λ config. some (true, config.1)

-- `free` of the data of an entry: only what `malloc` has given can be freed.
unfoldable pub free_data : {W : Type 0} → Phantom W → ℕ → Option (Phantom W)
free_data program p =
    if p == 0
    then some program
    else if program.memory.malloced p
    then some (record program { memory = put p none false program.memory })
    else none

-- The `switch` of `handle_state_change`.
unfoldable pub load_entry :
    {W : Type 0} → Services W → Host → Phantom W → ℕ → StateEntry → Option (Phantom W)
load_entry services host program type entry =
    if type == phantom_state_node
    then (load_node_state services host program entry >>= λ loaded. some loaded.1)
    else if type == phantom_state_network
    then (load_network_state services program entry >>= λ same. some program)
    else if type == phantom_state_config
    then (load_config_state services program entry >>= λ loaded. some loaded.1)
    else some program

unfoldable pub handle_state_change :
    {W : Type 0} → Services W → Host → Phantom W → ℕ → Str → Option (Phantom W)
handle_state_change services host program type id = elim (services.get_entry program type id) [
  | none ↦ some program
  | some entry ↦
      load_entry services host program type entry >>= λ loaded. free_data loaded entry.payload
]

-- The state that `phantom_state_init` makes: `calloc` has set the tree to NULL.
abbrev pub initial_state : ProgramState
initial_state = record {
  tree = none;
  last_save = 0;
  config = record {
    verbose_logging = false;
    auto_save = true;
    save_interval = 300;
    state_dir = strncpy (zeros 256) (text "state") 255;
  };
}

-- `phantom_state_init`
unfoldable pub phantom_state_init : {W : Type 0} → Services W → Bool → Phantom W → Bool × Phantom W
phantom_state_init services calloc_ok program =
    if not calloc_ok
    then (false, program)
    else if not services.state_there
    then (false, program)
    else let with_node = services.register program phantom_state_node in
      let with_network = services.register with_node phantom_state_network in
      let with_config = services.register with_network phantom_state_config in
      (true, record with_config { user_data = state_data initial_state })

-- `phantom_state_cleanup` of a program that is not NULL: the pointer to the freed state stays.
unfoldable pub phantom_state_cleanup :
    {W : Type 0} → Services W → ℕ → ℕ → Phantom W → Option (Phantom W)
phantom_state_cleanup services k now program = elim program.user_data [
  | no_data ↦ some program
  | other ↦ as_state other >>= λ state.
      (if state.config.auto_save
        then (phantom_save_state services k now program >>= λ saved. some saved.1)
        else some program)
      >>= λ saved. some (record saved { user_data = freed_data })
]

-- `phantom_check_state`
unfoldable pub phantom_check_state :
    {W : Type 0} → Services W → ℕ → ℕ → Phantom W → Option (Bool × Phantom W)
phantom_check_state services k now program = elim program.user_data [
  | no_data ↦ some (false, program)
  | other ↦ as_state other >>= λ state.
      if not state.config.auto_save
      then some (false, program)
      else if leb (state.last_save + state.config.save_interval) now
      then phantom_save_state services k now program
      else some (true, program)
]
