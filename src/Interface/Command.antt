-- ===== src/Interface/Command.antt =====
-- interface/command.c: commands that are run by the handler of their type.
use phantomid.Common.{
  ℕ, ◌+◌, Bool, true, false, not, ◌&&◌, List, [], ◌∷◌, Option, none, some, leb, ltb, ◌==◌,
  if◌then◌else◌, u32_mod,
}
use phantomid.Common.CString.{Str, Bytes}
use phantomid.Interface.Registry.{
  HandlerRegistry, init_registry, cleanup_registry, register, find_handler,
}
pub mod Execute
pub mod Validate
mod Tests

-- `CommandStatus`; a handler may return any other value.
pub data CommandStatus : Type 0 where
  success : CommandStatus
  error : CommandStatus
  invalid : CommandStatus
  denied : CommandStatus
  other : ℕ → CommandStatus

abbrev pub is_success : CommandStatus → Bool
is_success success = true
is_success status = false

-- The values of `CommandType` that the code names.
abbrev pub cmd_program : ℕ
cmd_program = 0

abbrev pub cmd_node : ℕ
cmd_node = 1

abbrev pub cmd_network : ℕ
cmd_network = 2

abbrev pub cmd_state : ℕ
cmd_state = 3

abbrev pub cmd_admin : ℕ
cmd_admin = 4

abbrev pub cmd_custom : ℕ
cmd_custom = 1000

-- `Command`. `source` and `target` are all the 64 bytes of the arrays.
pub record Command : Type 0 where
  pub type : ℕ
  pub id : ℕ
  pub source : Bytes
  pub target : Bytes
  pub payload : ℕ
  pub data_size : ℕ

-- `CommandResponse`; `payload` is the pointer `data`.
pub record CommandResponse : Type 0 where
  pub command_id : ℕ
  pub status : CommandStatus
  pub payload : ℕ
  pub data_size : ℕ

-- `CommandContext`
pub record CommandContext : Type 0 where
  pub handlers : HandlerRegistry
  pub next_cmd_id : ℕ

-- The program: what its `user_data` points to, and the rest of the world.
pub record Program (W : Type 0) : Type 0 where
  pub ctx : CommandContext
  pub world : W

-- `register_handler`
unfoldable pub register_handler :
    {W : Type 0} → Option (Program W) → ℕ → Option ℕ → Bool × Option (Program W)
register_handler (some program) type (some handler) = (
  (register program.ctx.handlers type handler).0,
  some (record program {
    ctx = record program.ctx { handlers = (register program.ctx.handlers type handler).1 };
  }),
)
register_handler program type handler = (false, program)

-- The response that a handler is given.
unfoldable pub initial_response : Command → CommandResponse
initial_response command = record {
  command_id = command.id;
  status = error;
  payload = 0;
  data_size = 0;
}

-- What the handlers do is a parameter: the call of a function pointer.
module _ {W : Type 0}
    (call : ℕ
      → Program W
      → Command
      → CommandResponse
      → CommandStatus × CommandResponse × Program W) where
  -- `execute_command`: the status, the response and the program.
  unfoldable pub execute_command :
      Option (Program W)
      → Option Command
      → Option CommandResponse
      → CommandStatus × Option CommandResponse × Option (Program W)
  execute_command (some program) (some command) (some response) =
      elim (find_handler command.type program.ctx.handlers.entries) [
        | none ↦ (invalid, some response, some program)
        | some handler ↦
            let (status, filled, after) = call handler program command (initial_response command) in
            (status, some filled, some after)
      ]
  execute_command program command response = (invalid, response, program)

  -- `route_command`: whether the command was routed, the program, and the pointer that is freed.
  unfoldable pub route_command :
      Option (Program W) → Option Str → Option Command → Bool × Option (Program W) × Option ℕ
  route_command (some program) (some target) (some command) =
      elim (find_handler command.type program.ctx.handlers.entries) [
        | none ↦ (false, some program, none)
        | some handler ↦
            let (status, filled, after) = call handler program command (initial_response command) in
            (
              is_success status,
              some after,
              if filled.payload == 0 then none else some filled.payload,
            )
      ]
  route_command program target command = (false, program, none)

-- `source[0]`; the array is not empty.
abbrev pub first_byte : Bytes → ℕ
first_byte [] = 0
first_byte (b ∷ bs) = b

-- The `switch` over the types.
unfoldable pub is_known : ℕ → Bool
is_known type =
    if type == cmd_program
    then true
    else if type == cmd_node
    then true
    else if type == cmd_network
    then true
    else if type == cmd_state
    then true
    else if type == cmd_admin
    then true
    else false

-- `validate_command`
unfoldable pub validate_command : {W : Type 0} → Option (Program W) → Option Command → Bool
validate_command (some program) (some command) =
    if leb cmd_custom command.type && ltb command.type cmd_program
    then false
    else if ltb 0 command.data_size && command.payload == 0
    then false
    else if first_byte command.source == 0
    then false
    else is_known command.type
validate_command program command = false

-- `command_init`, of the calls that may fail: the result, and the program's context afterwards.
unfoldable pub command_init :
    {W : Type 0} → Bool → Bool → Bool → Bool → Program W → Bool × Program W
command_init calloc_ok entries_ok entries_lock_ok lock_ok program =
    if not calloc_ok
    then (false, program)
    else elim (init_registry entries_ok entries_lock_ok 100) [
      | none ↦ (false, program)
      | some handlers ↦
          if not lock_ok
          then (false, program)
          else (true, record program { ctx = record { handlers = handlers; next_cmd_id = 0 } })
    ]

-- `command_cleanup`: what stands in the context as it is freed.
unfoldable pub command_cleanup : {W : Type 0} → Option (Program W) → Option CommandContext
command_cleanup none = none
command_cleanup (some program) =
    some (record program.ctx { handlers = cleanup_registry program.ctx.handlers })
