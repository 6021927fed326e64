-- ===== src/Interface/Command/Tests.antt =====
-- interface/command.c on small inputs.
use phantomid.Common.{ℕ, ◌+◌, ◌≡◌, refl, true, [], ◌∷◌, some, arith}
use Prim.Native.Nat.{compare, Ordering}
use phantomid.Interface.Registry.{HandlerRegistry, table, update, register, replace_handler}
use phantomid.Interface.Command.{
  CommandStatus, success, error, Command, CommandResponse, Program, register_handler,
  initial_response, execute_command,
}
use phantomid.Interface.Command.Execute.{run_by, execute_command-register_handler}

abbrev handlers : HandlerRegistry
handlers = record { entries = record { type = 1; handler = 77 } ∷ []; capacity = 2 }

abbrev program : Program ℕ
program = record { ctx = record { handlers = handlers; next_cmd_id = 0 }; world = 5 }

abbrev command : Command
command = record {
  type = 2;
  id = 12;
  source = b'a' ∷ 0 ∷ [];
  target = [];
  payload = 0;
  data_size = 0;
}

-- The handler at 78 succeeds and counts; another fails.
abbrev call :
    ℕ → Program ℕ → Command → CommandResponse → CommandStatus × CommandResponse × Program ℕ
call h p c r = elim (compare h 78) [
  | Ordering.eq ↦
      (success, record r { payload = 900; status = success }, record p { world = p.world + 1 })
  | _ ↦ (error, r, p)
]

abbrev extended : Program ℕ
extended = record program {
  ctx = record program.ctx {
    handlers = record handlers {
      entries = record { type = 1; handler = 77 } ∷ record { type = 2; handler = 78 } ∷ [];
    };
  };
}

registers : register_handler (some program) 2 (some 78) ≡ (true, some extended)
unfolding register_handler register replace_handler
registers = refl

execute_command-register_handler_example :
    execute_command call (some extended) (some command) (some (initial_response command))
    ≡ run_by call (update (table handlers) 2 78) extended command (initial_response command)
execute_command-register_handler_example =
    execute_command-register_handler call program extended 2 78 command (initial_response command)
      (record { fits = omega arith; unique = λ a. ground arith }) registers
