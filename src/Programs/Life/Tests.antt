-- ===== src/Programs/Life/Tests.antt =====
-- The life of programs/phantomid.c on a small input.
use phantomid.Common.{ℕ, ◌+◌, refl, true, false, none, some}
use phantomid.Programs.State.{no_data, Phantom, Services}
use phantomid.Programs.Life.{InitEnv, Calls, phantom_init}
use phantomid.Programs.Life.Init.{Registers, InitOutcome, phantom_init-InitOutcome}

-- The world is the number of the calls.
abbrev counts : Phantom ℕ → Phantom ℕ
counts program = record program { world = program.world + 1 }

abbrev services : Services ℕ
services = record {
  set_entry = λ program entry. some (true, counts program);
  get_entry = λ program type id. none;
  register = λ program type. counts program;
  state_there = true;
  admin = λ node. false;
  set_admin = λ b node. node;
  malloc = λ program. 70;
  local = 40;
  config = 50;
  default_port = 8888;
  most_connections = 1000;
  node_size = 160;
  network_size = 32;
  config_size = 264;
}

abbrev calls : Calls ℕ
calls = record {
  node_created = 5;
  node_deleted = 6;
  register_message = λ program type. counts program;
  register_command = λ program type. counts program;
  process_queue = λ program messages. counts program;
  print_status = counts;
}

calls-Registers : Registers calls
calls-Registers = record { by_message = λ program type. refl; by_command = λ program type. refl }

abbrev env : InitEnv
env = record {
  context_ok = true;
  tree_ok = true;
  mutex_ok = true;
  heap = λ p. none;
  counter = 0;
  messages = some 30;
  state_ok = true;
}

abbrev blank : Phantom ℕ
blank = record {
  user_data = no_data;
  memory = record { objects = λ p. none; malloced = λ p. false };
  world = 0;
}

phantom_init-InitOutcome_example :
    (let (done, after, steps) = phantom_init services calls env blank in
      InitOutcome services calls blank done after steps)
phantom_init-InitOutcome_example = phantom_init-InitOutcome services calls env calls-Registers blank
