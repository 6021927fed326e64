-- ===== src/Cli.antt =====
-- runtime/cli/cli.c and cli.h: the command line. What a command prints is the text that goes to the
-- standard output.
use Prim.Native.String.{String}
use phantomid.Common.{
  ℕ, zero, suc, ◌+◌, Bool, true, false, not, ◌&&◌, ◌||◌, List, [], ◌∷◌, ◌++◌, Option, none, some,
  ltb, ◌==◌, if◌then◌else◌, ◌>>=◌, length, take,
}
use phantomid.Common.CString.{Str, Bytes, text, cstr, str_eq, strncpy}
use phantomid.Tree.Store.{Ptr, null, Node, Tree, deref}
use phantomid.Tree.NodeId.{decimal}
use phantomid.Tree.Create.{Env, tree_create_node, tree_has_root, tree_get_size}
use phantomid.Tree.Delete.{tree_delete_node}
use phantomid.Tree.Traverse.{tree_traverse_dfs, tree_get_depth}
use phantomid.Network.{NetworkContext, Event, network_send, network_broadcast}
use phantomid.State.{StateContext, state_get_version}
pub mod Parsing
pub mod Process
pub mod Words
pub mod Arrays
pub mod Line
pub mod Orderly
pub mod Dispatched
pub mod Nodes
pub mod Faults
pub mod Processed
mod Tests

-- `CommandResult`
pub data CommandResult : Type 0 where
  cmd_success cmd_error_invalid cmd_error_args cmd_error_exec cmd_error_state cmd_exit :
      CommandResult

-- `CLIContext`, with what its pointers point to; each may be NULL.
pub record CliContext : Type 0 where
  pub tree : Option Tree
  pub network : Option NetworkContext
  pub state : Option StateContext
  pub verbose : Bool
  pub running : Bool
  pub last_error : Str

-- What a command returns and leaves: its code, the context, what it has printed, and what it has made
-- the network do.
pub record Ran : Type 0 where
  pub result : CommandResult
  pub ctx : CliContext
  pub output : Str
  pub events : List Event

-- `set_error`: `vsnprintf` writes at most 255 bytes and the terminator.
unfoldable pub set_error : CliContext → Str → CliContext
set_error ctx message = record ctx { last_error = take 255 message }

-- `cli_create`; the Boolean says whether `calloc` gives memory.
unfoldable pub cli_create :
    Bool → Option Tree → Option NetworkContext → Option StateContext → Option CliContext
cli_create calloc_ok tree network state =
    if calloc_ok
    then some (record {
      tree = tree;
      network = network;
      state = state;
      verbose = false;
      running = true;
      last_error = [];
    })
    else none

abbrev pub returns : CommandResult → CliContext → Str → Option Ran
returns result ctx output =
    some (record { result = result; ctx = ctx; output = output; events = [] })

-- A command that fails with a message.
abbrev pub fails : CommandResult → CliContext → Str → Option Ran
fails result ctx message = returns result (set_error ctx message) []

-- `print_node`
unfoldable pub print_node : Ptr → Node → Str → Str
print_node p node output = output ++ (text "Node ID: " ++ node.id ++ text "\n")

abbrev pub print_created : Str → Option Str → Str
print_created id none = text "Created node: " ++ id ++ text "\n"
print_created id (some parent_id) =
    text "Created node: " ++ id ++ text "\n" ++ text "Parent: " ++ parent_id ++ text "\n"

-- The node that a pointer leads to.
unfoldable pub node_at : Option Tree → Ptr → Option Node
node_at none p = none
node_at (some t) p = deref t.heap p

-- `node create`, with the parent's id or NULL.
unfoldable pub create_command : ℕ → ℕ → Env → CliContext → Option Str → Option Ran
create_command k max env ctx parent_id = tree_create_node k max env ctx.tree parent_id >>= λ made.
    if made.0 == null
    then fails cmd_error_exec (record ctx { tree = made.1 }) (text "Failed to create node")
    else (node_at made.1 made.0 >>= λ node.
        returns cmd_success (record ctx { tree = made.1 }) (print_created node.id parent_id))

-- `node delete` of an id.
unfoldable pub delete_command : ℕ → CliContext → Str → Option Ran
delete_command k ctx node_id = tree_delete_node k ctx.tree (some node_id) >>= λ deleted.
    if deleted.0
    then returns cmd_success (record ctx { tree = deleted.1 })
        (text "Deleted node: " ++ node_id ++ text "\n")
    else fails cmd_error_exec (record ctx { tree = deleted.1 }) (text "Failed to delete node")

-- `node list`
unfoldable pub list_command : ℕ → CliContext → Option Ran
list_command k ctx = tree_traverse_dfs print_node k ctx.tree (text "\nNode List:\n") >>= λ output.
    returns cmd_success ctx output

-- The first of the arguments that are left, or NULL.
abbrev pub first : List Str → Option Str
first [] = none
first (a ∷ more) = some a

-- `cli_execute_node`, by the arguments; `argc` is their number.
unfoldable pub cli_execute_node : ℕ → ℕ → Env → CliContext → List Str → Option Ran
cli_execute_node k max env ctx (name ∷ sub ∷ args) =
    if str_eq sub (text "create")
    then create_command k max env ctx (first args)
    else if str_eq sub (text "delete")
    then elim args [
      | [] ↦ fails cmd_error_args ctx (text "Missing node ID. Usage: node delete <id>")
      | node_id ∷ more ↦ delete_command k ctx node_id
    ]
    else if str_eq sub (text "list")
    then list_command k ctx
    else fails cmd_error_invalid ctx (text "Unknown node command: " ++ sub)
cli_execute_node k max env ctx argv =
    fails cmd_error_args ctx (text "Missing node command. Usage: node <create|delete|list> [args]")

-- `memcpy` into `msg.data`, a flexible array of a local variable: it has room for no byte.
unfoldable pub copy_data : Str → Option Bytes
copy_data message = if length message == 0 then some [] else none

-- The numbers of the connections, as `%zu/%zu`.
abbrev pub print_connections : NetworkContext → Str
print_connections network =
    text "Active Connections: "
    ++ decimal 20 network.active_connections
    ++ text "/"
    ++ decimal 20 (length network.connections)
    ++ text "\n"

-- `net status`; a network that is NULL is a fault.
unfoldable pub net_status_command : CliContext → Option Ran
net_status_command ctx = ctx.network >>= λ network. returns cmd_success ctx (
    text "\nNetwork Status:\n"
    ++ print_connections network
    ++ text "Port: "
    ++ decimal 20 network.port
    ++ text "\n")

-- `network_send` and `network_broadcast` of a context that may be NULL. They give the lock back, so
-- that the context is as before.
unfoldable pub send_to :
    (Option ℕ → Bytes → Option ℕ) → Option NetworkContext → Str → Bytes → Option (Bool × List Event)
send_to sent none node_id bytes = some (false, [])
send_to sent (some network) node_id bytes = network_send sent network node_id bytes

unfoldable pub broadcast_to : Option NetworkContext → Bytes → Option (Bool × List Event)
broadcast_to none bytes = some (false, [])
broadcast_to (some network) bytes = network_broadcast network bytes

-- The end of `net send` and of `net broadcast`.
abbrev pub report : CliContext → Bool × List Event → Str → Str → Option Ran
report ctx (true, events) output message =
    some (record { result = cmd_success; ctx = ctx; output = output; events = events })
report ctx (false, events) output message =
    some (record {
      result = cmd_error_exec;
      ctx = set_error ctx message;
      output = [];
      events = events;
    })

-- `net send`
unfoldable pub send_command : (Option ℕ → Bytes → Option ℕ) → CliContext → Str → Str → Option Ran
send_command sent ctx node_id message = copy_data message >>= λ bytes.
    send_to sent ctx.network node_id bytes >>= λ done.
    report ctx done (text "Message sent to " ++ node_id ++ text "\n")
      (text "Failed to send message")

-- `net broadcast`
unfoldable pub broadcast_command : CliContext → Str → Option Ran
broadcast_command ctx message = copy_data message >>= λ bytes.
    broadcast_to ctx.network bytes >>= λ done.
    report ctx done (text "Message broadcast to all nodes\n") (text "Failed to broadcast message")

-- `cli_execute_network`
unfoldable pub cli_execute_network :
    (Option ℕ → Bytes → Option ℕ) → CliContext → List Str → Option Ran
cli_execute_network sent ctx (name ∷ sub ∷ args) =
    if str_eq sub (text "status")
    then net_status_command ctx
    else if str_eq sub (text "send")
    then elim args [
      | [] ↦ fails cmd_error_args ctx (text "Usage: net send <node_id> <message>")
      | node_id ∷ more ↦ elim more [
        | [] ↦ fails cmd_error_args ctx (text "Usage: net send <node_id> <message>")
        | message ∷ rest ↦ send_command sent ctx node_id message
      ]
    ]
    else if str_eq sub (text "broadcast")
    then elim args [
      | [] ↦ fails cmd_error_args ctx (text "Usage: net broadcast <message>")
      | message ∷ rest ↦ broadcast_command ctx message
    ]
    else fails cmd_error_invalid ctx (text "Unknown network command: " ++ sub)
cli_execute_network sent ctx argv =
    fails cmd_error_args ctx
      (text "Missing network command. Usage: net <status|send|broadcast> [args]")
