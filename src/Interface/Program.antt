-- ===== src/Interface/Program.antt =====
-- interface/program.c: the registry of program interfaces, and the life of a program. The contexts of
-- the runtime are what the other components return; a pointer that may be NULL is an Option.
use phantomid.Common.{
  ℕ, suc, Bool, true, false, not, ◌&&◌, ◌||◌, List, [], ◌∷◌, ◌++◌, Option, none, some, is_some, leb,
  ◌==◌, if◌then◌else◌, length,
}
use phantomid.Common.CString.{Str, str_eq}
pub mod Names
pub mod Contexts
pub mod Life
mod Tests

-- `MAX_PROGRAMS`
abbrev pub max_programs : ℕ
max_programs = 32

-- `ProgramInterface`: the functions are function pointers, 0 for NULL.
pub record ProgramInterface : Type 0 where
  pub name : Str
  pub init : ℕ
  pub cleanup : ℕ
  pub run : ℕ
  pub handle_message : ℕ
  pub handle_command : ℕ
  pub needs_network : Bool
  pub needs_persistence : Bool
  pub needs_cli : Bool
  pub default_port : ℕ

-- `ProgramRuntime`
pub record ProgramRuntime : Type 0 where
  pub network_context : Option ℕ
  pub state_context : Option ℕ
  pub cli_context : Option ℕ
  pub is_running : Bool

-- `Program`; `user_data` is left to the program.
pub record Program : Type 0 where
  pub interface : Option ProgramInterface
  pub runtime : ProgramRuntime

-- `program_registry`: the used front of the array.
abbrev pub ProgramRegistry : Type 0
ProgramRegistry = List ProgramInterface

-- The search by name, of `program_register` and `find_interface`.
unfoldable pub find_interface : Str → ProgramRegistry → Option ProgramInterface
find_interface name [] = none
find_interface name (i ∷ is) =
    let rest = find_interface name is in if str_eq i.name name then some i else rest

unfoldable pub program_register : ProgramRegistry → Option ProgramInterface → Bool × ProgramRegistry
program_register registry none = (false, registry)
program_register registry (some interface) =
    if leb max_programs (length registry)
    then (false, registry)
    else if is_some (find_interface interface.name registry)
    then (false, registry)
    else (true, registry ++ interface ∷ [])

-- What is done to the contexts and the program.
pub data Event : Type 0 where
  creates_network : ℕ → Event
  destroys_network : ℕ → Event
  creates_state : ℕ → Event
  destroys_state : ℕ → Event
  creates_cli : ℕ → Event
  destroys_cli : ℕ → Event
  calls : ℕ → Event
  frees_program : Event
  starts_network : ℕ → Event
  stops_network : ℕ → Event
  runs_network : ℕ → Event
  loads_state : ℕ → Event
  saves_state : ℕ → Event

-- What the other components return.
pub record RuntimeEnv : Type 0 where
  pub network : Option ℕ
  pub state : Option ℕ
  pub cli : Option ℕ
  pub calloc_ok : Bool
  pub init_ok : Bool

abbrev pub none_yet : ProgramRuntime
none_yet = record {
  network_context = none;
  state_context = none;
  cli_context = none;
  is_running = false;
}

-- A step of `init_runtime`: a context that is needed, the answer to its creation, and the event.
abbrev pub ask : Bool → Option ℕ → Option ℕ
ask needed answer = if needed then answer else none

abbrev pub event_of : (ℕ → Event) → Option ℕ → List Event
event_of make none = []
event_of make (some c) = make c ∷ []

-- `init_runtime` from the point where the network is there, if it is needed.
unfoldable pub init_state :
    RuntimeEnv → ProgramInterface → Option ℕ → Bool × ProgramRuntime × List Event
init_state env interface network =
    let state = ask interface.needs_persistence env.state in
    let cli = ask interface.needs_cli env.cli in
    let runtime : ProgramRuntime = record {
      network_context = network;
      state_context = state;
      cli_context = cli;
      is_running = false;
    } in
    if interface.needs_persistence && not (is_some state)
    then (false, record runtime { cli_context = none }, event_of destroys_network network)
    else if interface.needs_cli && not (is_some cli)
    then (
      false,
      runtime,
      event_of creates_state state
          ++ event_of destroys_network network
          ++ event_of destroys_state state,
    )
    else (
      true,
      record runtime { is_running = true },
      event_of creates_state state ++ event_of creates_cli cli,
    )

-- `init_runtime`
unfoldable pub init_runtime : RuntimeEnv → ProgramInterface → Bool × ProgramRuntime × List Event
init_runtime env interface =
    let network = ask interface.needs_network env.network in
    let (done, runtime, events) = init_state env interface network in
    if interface.needs_network && not (is_some network)
    then (false, none_yet, [])
    else (done, runtime, event_of creates_network network ++ events)

-- `cleanup_runtime`
unfoldable pub cleanup_runtime : ProgramRuntime → List Event
cleanup_runtime runtime =
    event_of destroys_cli runtime.cli_context
    ++ event_of destroys_state runtime.state_context
    ++ event_of destroys_network runtime.network_context

-- `program_create` once the runtime has been initialised, or has not.
unfoldable pub finish_create :
    RuntimeEnv → ProgramInterface → Bool → ProgramRuntime → List Event → Option Program × List Event
finish_create env interface done runtime events =
    if not done
    then (none, events ++ frees_program ∷ [])
    else if not (interface.init == 0) && not env.init_ok
    then (none, events ++ calls interface.init ∷ cleanup_runtime runtime ++ frees_program ∷ [])
    else (
      some (record { interface = some interface; runtime = runtime }),
      events ++ (if interface.init == 0 then [] else calls interface.init ∷ []),
    )

-- `program_create` once the interface has been found and the program allocated.
unfoldable pub create_from : RuntimeEnv → ProgramInterface → Option Program × List Event
create_from env interface =
    let (done, runtime, events) = init_runtime env interface in
    finish_create env interface done runtime events

unfoldable pub program_create :
    RuntimeEnv → ProgramRegistry → Option Str → Option Program × List Event
program_create env registry none = (none, [])
program_create env registry (some name) = elim (find_interface name registry) [
  | none ↦ (none, [])
  | some interface ↦ if not env.calloc_ok then (none, []) else create_from env interface
]

-- `program_destroy`
abbrev pub cleanup_calls : Option ProgramInterface → List Event
cleanup_calls none = []
cleanup_calls (some interface) = if interface.cleanup == 0 then [] else calls interface.cleanup ∷ []

unfoldable pub program_destroy : Option Program → List Event
program_destroy none = []
program_destroy (some program) =
    cleanup_calls program.interface ++ cleanup_runtime program.runtime ++ frees_program ∷ []

-- The accessors.
unfoldable pub program_get_network : Option Program → Option ℕ
program_get_network none = none
program_get_network (some program) = program.runtime.network_context

unfoldable pub program_get_state : Option Program → Option ℕ
program_get_state none = none
program_get_state (some program) = program.runtime.state_context

unfoldable pub program_get_cli : Option Program → Option ℕ
program_get_cli none = none
program_get_cli (some program) = program.runtime.cli_context

-- `program_start` of a program with an interface; `started` tells whether the network starts.
unfoldable pub start_runtime : Bool → ProgramRuntime → Bool × List Event
start_runtime started runtime =
    if is_some runtime.network_context && not started
    then (false, event_of starts_network runtime.network_context)
    else (
      true,
      event_of starts_network runtime.network_context ++ event_of loads_state runtime.state_context,
    )

unfoldable pub program_start : Bool → Option Program → Bool × List Event
program_start started none = (false, [])
program_start started (some program) =
    if is_some program.interface then start_runtime started program.runtime else (false, [])

-- `program_stop`
unfoldable pub program_stop : Option Program → Option Program × List Event
program_stop none = (none, [])
program_stop (some program) =
    if is_some program.interface
    then (
      some (record program { runtime = record program.runtime { is_running = false } }),
      event_of saves_state program.runtime.state_context
          ++ event_of stops_network program.runtime.network_context,
    )
    else (some program, [])

-- `program_run`
abbrev pub run_calls : Option ProgramInterface → List Event
run_calls none = []
run_calls (some interface) = if interface.run == 0 then [] else calls interface.run ∷ []

unfoldable pub program_run : Option Program → List Event
program_run none = []
program_run (some program) =
    if is_some program.interface
    then run_calls program.interface ++ event_of runs_network program.runtime.network_context
    else []

-- `dispatch_message` and `dispatch_command`: what the function at an address returns and does to the
-- rest of the world is a parameter, which has what is passed on as its own.
unfoldable pub dispatch_message : {W : Type 0} → (ℕ → W → Bool × W) → Option Program → W → Bool × W
dispatch_message call none w = (false, w)
dispatch_message call (some program) w = elim program.interface [
  | none ↦ (false, w)
  | some interface ↦
      if interface.handle_message == 0 then (false, w) else call interface.handle_message w
]

unfoldable pub dispatch_command : {W : Type 0} → (ℕ → W → Bool × W) → Option Program → W → Bool × W
dispatch_command call none w = (false, w)
dispatch_command call (some program) w = elim program.interface [
  | none ↦ (false, w)
  | some interface ↦
      if interface.handle_command == 0 then (false, w) else call interface.handle_command w
]
