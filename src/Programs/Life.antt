-- ===== src/Programs/Life.antt =====
-- The setup, the loop and the end of programs/phantomid.c, and the handlers that it registers.
use phantomid.Common.{
  ℕ, Bool, true, false, not, List, [], ◌∷◌, ◌++◌, Option, none, some, ◌==◌, if◌then◌else◌, ◌>>=◌,
}
use phantomid.Common.CString.{Str, text, strncpy}
use phantomid.Tree.Store.{Heap, Tree}
use phantomid.Tree.Create.{tree_create}
use phantomid.Interface.Command.{cmd_program, cmd_node}
use phantomid.Interface.Program.{ProgramInterface, ProgramRegistry, program_register}
use phantomid.State.{zeros}
use phantomid.Programs.Messages.{msg_network, msg_data}
use phantomid.Programs.State.{
  PhantomIdContext, UserData, no_data, context_data, state_data, freed_data, Phantom, Services,
}
use phantomid.Programs.State.Changes.{
  phantom_save_state, phantom_state_init, phantom_state_cleanup, phantom_check_state,
}
pub mod Init
mod Tests

-- What is taken from the system, and what is given back.
pub data Block : Type 0 where
  context_block tree_block messages_block state_block : Block

pub data Step : Type 0 where
  takes : Block → Step
  releases : Block → Step

-- What the system and the functions that no file defines answer to `phantom_init`: `calloc` of the
-- context and of the state, what `tree_create` needs, and `message_create`, which may give NULL.
pub record InitEnv : Type 0 where
  pub context_ok : Bool
  pub tree_ok : Bool
  pub mutex_ok : Bool
  pub heap : Heap
  pub counter : ℕ
  pub messages : Option ℕ
  pub state_ok : Bool

-- The calls through the interfaces of messages and commands, by type; the functions that no file defines.
pub record Calls (W : Type 0) : Type 0 where
  pub node_created : ℕ
  pub node_deleted : ℕ
  pub register_message : Phantom W → ℕ → Phantom W
  pub register_command : Phantom W → ℕ → Phantom W
  pub process_queue : Phantom W → ℕ → Phantom W
  pub print_status : Phantom W → Phantom W

-- What `calloc` gives for the context.
abbrev pub zero_context : PhantomIdContext
zero_context = record {
  tree = none;
  messages = 0;
  network_config = record { port = 0; max_connections = 0; timeout_ms = 0; backlog = 0 };
  state_config = record {
    auto_save = false;
    save_interval = 0;
    max_history = 0;
    state_dir = zeros 256;
  };
  verbose_logging = false;
}

-- `init_config`, which returns true.
unfoldable pub init_config : PhantomIdContext → Bool × PhantomIdContext
init_config ctx = (
  true,
  record ctx {
    network_config = record {
      port = 8888;
      max_connections = 1000;
      timeout_ms = 1000;
      backlog = 10;
    };
    state_config = record {
      auto_save = true;
      save_interval = 300;
      max_history = 10;
      state_dir = strncpy ctx.state_config.state_dir (text "state") 256;
    };
  },
)

-- `init_components`
unfoldable pub init_components : InitEnv → PhantomIdContext → Bool × PhantomIdContext × List Step
init_components env ctx = elim (tree_create env.tree_ok env.mutex_ok env.heap env.counter) [
  | none ↦ (false, record ctx { tree = none }, [])
  | some t ↦ elim env.messages [
    | none ↦ (
      false,
      record ctx { tree = some t; messages = 0 },
      takes tree_block ∷ releases tree_block ∷ [],
    )
    | some messages ↦ (
      true,
      record ctx { tree = some t; messages = messages },
      takes tree_block ∷ takes messages_block ∷ [],
    )
  ]
]

-- `phantom_handlers_init` of handlers.c, which returns true.
unfoldable pub phantom_handlers_init : {W : Type 0} → Calls W → Phantom W → Bool × Phantom W
phantom_handlers_init calls program =
    let created = calls.register_message program calls.node_created in
    let deleted = calls.register_message created calls.node_deleted in
    let with_data = calls.register_message deleted msg_data in
    let with_network = calls.register_message with_data msg_network in
    let with_node = calls.register_command with_network cmd_node in
    (true, calls.register_command with_node cmd_program)

-- What `phantom_state_init` takes and gives back.
abbrev pub state_steps : {W : Type 0} → Services W → Bool → List Step
state_steps services false = []
state_steps services true =
    if services.state_there
    then takes state_block ∷ []
    else takes state_block ∷ releases state_block ∷ []

-- What a `phantom_init` that has made its components gives back.
abbrev pub undone : List Step
undone = releases messages_block ∷ releases tree_block ∷ releases context_block ∷ []

-- `phantom_init`, from the handlers on.
unfoldable pub init_rest :
    {W : Type 0}
    → Services W
    → Calls W
    → InitEnv
    → PhantomIdContext
    → List Step
    → Phantom W
    → Bool × Phantom W × List Step
init_rest services calls env ctx steps program =
    let handled = phantom_handlers_init calls program in
    if not handled.0
    then (false, handled.1, steps ++ undone)
    else let saved = phantom_state_init services env.state_ok handled.1 in
      if not saved.0
      then (false, saved.1, steps ++ state_steps services env.state_ok ++ undone)
      else (
        true,
        record saved.1 { user_data = context_data ctx },
        steps ++ state_steps services env.state_ok,
      )

unfoldable pub phantom_init :
    {W : Type 0} → Services W → Calls W → InitEnv → Phantom W → Bool × Phantom W × List Step
phantom_init services calls env program =
    if not env.context_ok
    then (false, program, [])
    else let config = init_config zero_context in
      if not config.0
      then (false, program, takes context_block ∷ releases context_block ∷ [])
      else let (done, ctx, steps) = init_components env config.1 in
        if not done
        then (false, program, takes context_block ∷ steps ++ releases context_block ∷ [])
        else init_rest services calls env ctx (takes context_block ∷ steps) program

-- `program->user_data` as a `PhantomIDContext`
abbrev pub as_context : UserData → Option PhantomIdContext
as_context (context_data ctx) = some ctx
as_context other = none

-- `phantom_cleanup` of a program that is not NULL; the fuel is that of `phantom_save_state`.
unfoldable pub phantom_cleanup : {W : Type 0} → Services W → ℕ → ℕ → Phantom W → Option (Phantom W)
phantom_cleanup services k now program = elim program.user_data [
  | no_data ↦ some program
  | other ↦ phantom_save_state services k now program >>= λ saved.
      phantom_state_cleanup services k now saved.1 >>= λ cleaned.
      as_context other >>= λ ctx. some (record cleaned { user_data = no_data })
]

-- `phantom_run`
unfoldable pub phantom_run :
    {W : Type 0} → Services W → Calls W → ℕ → ℕ → Phantom W → Option (Phantom W)
phantom_run services calls k now program = phantom_check_state services k now program >>= λ checked.
    as_context program.user_data >>= λ ctx.
    let processed = calls.process_queue checked.1 ctx.messages in
    some (if ctx.verbose_logging then calls.print_status processed else processed)

-- The accessors: NULL, false or nothing where there is no context.
unfoldable pub phantom_get_tree : {W : Type 0} → Phantom W → Option (Option Tree)
phantom_get_tree program = elim program.user_data [
  | no_data ↦ some none
  | other ↦ as_context other >>= λ ctx. some ctx.tree
]

unfoldable pub phantom_get_messages : {W : Type 0} → Phantom W → Option ℕ
phantom_get_messages program = elim program.user_data [
  | no_data ↦ some 0
  | other ↦ as_context other >>= λ ctx. some ctx.messages
]

unfoldable pub phantom_set_verbose : {W : Type 0} → Phantom W → Bool → Option (Phantom W)
phantom_set_verbose program verbose = elim program.user_data [
  | no_data ↦ some program
  | other ↦ as_context other >>= λ ctx.
      some (record program { user_data = context_data (record ctx { verbose_logging = verbose }) })
]

unfoldable pub phantom_get_verbose : {W : Type 0} → Phantom W → Option Bool
phantom_get_verbose program = elim program.user_data [
  | no_data ↦ some false
  | other ↦ as_context other >>= λ ctx. some ctx.verbose_logging
]

-- `phantom_interface`, with the addresses of its functions.
abbrev pub phantom_interface : ℕ → ℕ → ℕ → ℕ → ℕ → ProgramInterface
phantom_interface init cleanup run handle_message handle_command = record {
  name = text "PhantomID";
  init = init;
  cleanup = cleanup;
  run = run;
  handle_message = handle_message;
  handle_command = handle_command;
  needs_network = true;
  needs_persistence = true;
  needs_cli = true;
  default_port = 8888;
}

-- `phantom_register`
unfoldable pub phantom_register : ℕ → ℕ → ℕ → ℕ → ℕ → ProgramRegistry → Bool × ProgramRegistry
phantom_register init cleanup run handle_message handle_command registry =
    program_register registry
      (some (phantom_interface init cleanup run handle_message handle_command))
