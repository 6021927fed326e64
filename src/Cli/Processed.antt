-- ===== src/Cli/Processed.antt =====
-- What `cli_process_command` of runtime/cli/cli.c leaves behind, on a tree that its memory holds.
use phantomid.Common.{◌≡◌, true, false, List, Option, none, some}
use phantomid.Common.Ends.{Ends}
use phantomid.Common.CString.{Str, Bytes}
use phantomid.Tree.Store.{Tree}
use phantomid.Tree.Forest.{Forest}
use phantomid.Cli.{CliContext, Ran}
use phantomid.Cli.Parsing.{max_args, parse_array}
use phantomid.Cli.Process.{CliEnv, local_line}
use phantomid.Cli.Orderly.{Orderly}
use phantomid.Cli.Dispatched.{CommandOutcome}
use phantomid.Cli.Faults.{faulty}

-- `cli_execute_state` returns for all arguments, and keeps to the rules of the other commands.
abbrev pub Answers : CliEnv → Type 0
Answers env =
    (ctx : CliContext) (argv : List Str)
    → (ran : Ran) × (env.execute_state ctx argv ≡ some ran) × Orderly ctx ran

-- How a command ends: without a result where the words run out of the local array, or where the
-- words are a command that is a fault; else with the outcome of the words.
pub data Processed (junk : Bytes) (ctx : CliContext) (command : Str) : Option Ran → Type 0 where
  runs_out : parse_array max_args (local_line junk command) ≡ none → Processed junk ctx command none
  breaks :
      {argv : List Str}
      → parse_array max_args (local_line junk command) ≡ some argv
      → faulty ctx argv ≡ true
      → Processed junk ctx command none
  returns_with :
      {argv : List Str} {ran : Ran}
      → parse_array max_args (local_line junk command) ≡ some argv
      → faulty ctx argv ≡ false
      → CommandOutcome ctx argv ran
      → Processed junk ctx command (some ran)
