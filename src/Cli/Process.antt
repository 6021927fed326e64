-- ===== src/Cli/Process.antt =====
-- `cli_process_command` of runtime/cli/cli.c, `cli_print_status`, `cli_print_help` and
-- `cli_print_version`, and `cli_get_error`.
use phantomid.Common.{ℕ, false, ◌||◌, List, [], ◌∷◌, ◌++◌, Option, none, some, if◌then◌else◌, ◌>>=◌}
use phantomid.Common.CString.{Str, Bytes, text, str_eq, strncpy}
use phantomid.Tree.NodeId.{decimal}
use phantomid.Tree.Create.{Env, tree_has_root, tree_get_size}
use phantomid.Tree.Traverse.{tree_get_depth}
use phantomid.State.{state_get_version}
use phantomid.Cli.{
  CommandResult, cmd_success, cmd_error_invalid, cmd_exit, CliContext, Ran, returns, fails,
  print_connections, cli_execute_node, cli_execute_network,
}
use phantomid.Cli.Parsing.{max_args, parse_array}

-- `cli_print_help`
abbrev pub help : Str
help =
    text "\nPhantomID Commands:\n"
    ++ text "  node create [parent_id]    Create new node\n"
    ++ text "  node delete <id>           Delete node\n"
    ++ text "  node list                  List all nodes\n"
    ++ text "\n"
    ++ text "  net status                 Show network status\n"
    ++ text "  net send <id> <msg>        Send message to node\n"
    ++ text "  net broadcast <msg>        Broadcast message\n"
    ++ text "\n"
    ++ text "  state save                 Save current state\n"
    ++ text "  state load                 Load saved state\n"
    ++ text "  state info                 Show state info\n"
    ++ text "\n"
    ++ text "  status                     Show system status\n"
    ++ text "  help                       Show this help\n"
    ++ text "  version                    Show version\n"
    ++ text "  exit                       Exit program\n"

unfoldable pub cli_print_help : Str
cli_print_help = help

-- `cli_print_version`
unfoldable pub cli_print_version : Str
cli_print_version = text "PhantomID version 1.0.0\n"

-- `cli_print_status`; a network that is NULL is a fault.
unfoldable pub cli_print_status : ℕ → CliContext → Option Str
cli_print_status k ctx = tree_get_depth k ctx.tree >>= λ depth. ctx.network >>= λ network. some (
    text "\nPhantomID Status\n"
    ++ text "---------------\n"
    ++ (text "Nodes: " ++ decimal 20 (tree_get_size ctx.tree) ++ text "\n")
    ++ (text "Tree Depth: " ++ decimal 20 depth ++ text "\n")
    ++ (text "Root Node: "
        ++ (if tree_has_root ctx.tree then text "Present" else text "None")
        ++ text "\n")
    ++ print_connections network
    ++ (text "State Version: " ++ decimal 20 (state_get_version ctx.state) ++ text "\n"))

-- `cli_get_error`
unfoldable pub cli_get_error : Option CliContext → Str
cli_get_error none = text "Invalid context"
cli_get_error (some ctx) = ctx.last_error

-- The local array that `parse_args` reads: `strncpy` of at most 1023 bytes into bytes that are not
-- initialised.
unfoldable pub local_line : Bytes → Str → Bytes
local_line junk command = strncpy junk command 1023

-- What the calls of other parts do: the memory and the clock for the tree, `send`, and
-- `cli_execute_state`, which is declared and defined nowhere.
pub record CliEnv : Type 0 where
  pub fuel : ℕ
  pub max_children : ℕ
  pub memory : Env
  pub sent : Option ℕ → Bytes → Option ℕ
  pub execute_state : CliContext → List Str → Option Ran

-- `cli_process_command` from the test of `argc` on.
unfoldable pub dispatch : CliEnv → CliContext → List Str → Option Ran
dispatch env ctx [] = returns cmd_success ctx []
dispatch env ctx (name ∷ args) =
    if str_eq name (text "help")
    then returns cmd_success ctx cli_print_help
    else if str_eq name (text "version")
    then returns cmd_success ctx cli_print_version
    else if str_eq name (text "status")
    then (cli_print_status env.fuel ctx >>= λ output. returns cmd_success ctx output)
    else if str_eq name (text "exit") || str_eq name (text "quit")
    then returns cmd_exit (record ctx { running = false }) []
    else if str_eq name (text "node")
    then cli_execute_node env.fuel env.max_children env.memory ctx (name ∷ args)
    else if str_eq name (text "net")
    then cli_execute_network env.sent ctx (name ∷ args)
    else if str_eq name (text "state")
    then env.execute_state ctx (name ∷ args)
    else fails cmd_error_invalid ctx (text "Unknown command: " ++ name)

-- `cli_process_command` of a context and a command that are not NULL.
unfoldable pub process_in : CliEnv → Bytes → CliContext → Str → Option Ran
process_in env junk ctx command =
    parse_array max_args (local_line junk command) >>= λ argv. dispatch env ctx argv

-- `cli_process_command`: the code, with what it leaves where the arguments are not NULL.
unfoldable pub cli_process_command :
    CliEnv → Bytes → Option CliContext → Option Str → Option (CommandResult × Option Ran)
cli_process_command env junk (some ctx) (some command) =
    process_in env junk ctx command >>= λ ran. some (ran.result, some ran)
cli_process_command env junk ctx command = some (cmd_error_invalid, none)
