-- ===== src/Interface/Program/Tests.antt =====
-- interface/program.c on small inputs.
use phantomid.Common.{true, [], ◌∷◌, none, some, arith}
use phantomid.Interface.Program.{
  ProgramInterface, Program, program_register, RuntimeEnv, create_from,
}
use phantomid.Interface.Program.Names.{Registers, program_register-Registers}
use phantomid.Interface.Program.Life.{Balanced, create_from-Balanced}

abbrev phantom : ProgramInterface
phantom = record {
  name = b'p' ∷ [];
  init = 5;
  cleanup = 6;
  run = 7;
  handle_message = 0;
  handle_command = 0;
  needs_network = true;
  needs_persistence = true;
  needs_cli = true;
  default_port = 8888;
}

program_register-Registers_example :
    Registers [] phantom
      (program_register [] (some phantom)).0
      (program_register [] (some phantom)).1
program_register-Registers_example = program_register-Registers [] phantom (omega arith)

-- The command line cannot be created.
abbrev no_cli : RuntimeEnv
no_cli = record { network = some 11; state = some 12; cli = none; calloc_ok = true; init_ok = true }

create_from-Balanced_example :
    Balanced phantom no_cli (create_from no_cli phantom).0 (create_from no_cli phantom).1
create_from-Balanced_example = create_from-Balanced no_cli phantom

abbrev running : Program
running = record {
  interface = some phantom;
  runtime = record {
    network_context = some 11;
    state_context = some 12;
    cli_context = some 13;
    is_running = true;
  };
}
