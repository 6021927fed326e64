-- ===== src/Programs/Commands.antt =====
-- The commands of programs/handlers.c. `program_get_tree`, which no file defines, gives the tree.
use phantomid.Common.{
  ℕ, ◌+◌, Bool, ◌||◌, ◌++◌, Option, none, some, ltb, ◌==◌, if◌then◌else◌, ◌>>=◌, length, take,
}
use phantomid.Common.CString.{Str, text, cstr, str_eq}
use phantomid.Tree.Store.{null, Tree}
use phantomid.Tree.NodeId.{decimal}
use phantomid.Tree.Create.{Env, tree_create_node, tree_has_root, tree_get_size}
use phantomid.Tree.Delete.{tree_delete_node}
use phantomid.Tree.Traverse.{tree_get_depth}
use phantomid.Interface.Command.{
  CommandStatus, success, error, invalid, Command, CommandResponse, cmd_program, cmd_node,
}
use phantomid.Cli.{node_at}
use phantomid.Programs.{Strings, read_string}

-- What the system gives to a command: fuel for the loops over the tree, the room of a new node and its
-- memory, and the addresses of a copied id and of a status text, 0 for NULL.
pub record Host : Type 0 where
  pub fuel : ℕ
  pub max_children : ℕ
  pub memory : Env
  pub copy : ℕ
  pub status : ℕ

-- What a command returns and leaves: the status, the response, the tree, and the text that the response
-- points to, where a new one has been made.
pub record Handled : Type 0 where
  pub status : CommandStatus
  pub response : CommandResponse
  pub tree : Option Tree
  pub written : Option Str

abbrev pub answer : CommandStatus → CommandResponse → Option Tree → Option Handled
answer status response tree =
    some (record { status = status; response = response; tree = tree; written = none })

-- `response->data = …; response->data_size = strlen(…) + 1`
abbrev pub with_text : CommandResponse → ℕ → Str → CommandResponse
with_text response address s = record response { payload = address; data_size = length s + 1 }

-- The parent's id of `handle_create_command`.
unfoldable pub parent_argument : Strings → Command → Option (Option Str)
parent_argument strings command =
    if ltb 0 command.data_size then read_string strings command.payload else some none

-- The rest of it, under the parent.
unfoldable pub create_under : Host → Option Tree → Option Str → CommandResponse → Option Handled
create_under host tree parent_id response =
    tree_create_node host.fuel host.max_children host.memory tree parent_id >>= λ made.
    if made.0 == null
    then answer error response made.1
    else (node_at made.1 made.0 >>= λ node. some (record {
      status = success;
      response = with_text response host.copy node.id;
      tree = made.1;
      written = some node.id;
    }))

-- `handle_create_command`
unfoldable pub handle_create_command :
    Host → Strings → Option Tree → Command → CommandResponse → Option Handled
handle_create_command host strings tree command response =
    parent_argument strings command >>= λ parent_id. create_under host tree parent_id response

-- `handle_delete_command`
unfoldable pub handle_delete_command :
    Host → Strings → Option Tree → Command → CommandResponse → Option Handled
handle_delete_command host strings tree command response =
    if command.payload == 0 || command.data_size == 0
    then answer invalid response tree
    else (strings command.payload >>= λ node_id.
        tree_delete_node host.fuel tree (some node_id) >>= λ deleted.
        if deleted.0 then answer success response deleted.1 else answer error response deleted.1)

abbrev pub status_text : ℕ → ℕ → Bool → Str
status_text nodes depth has_root =
    (text "Nodes: " ++ decimal 20 nodes ++ text "\n")
    ++ (text "Depth: " ++ decimal 20 depth ++ text "\n")
    ++ (text "Root: " ++ (if has_root then text "Present" else text "None") ++ text "\n")

-- `handle_status_command`
unfoldable pub handle_status_command : Host → Option Tree → CommandResponse → Option Handled
handle_status_command host tree response =
    if host.status == 0
    then answer error response tree
    else (tree_get_depth host.fuel tree >>= λ depth.
        let s = take 1023 (status_text (tree_get_size tree) depth (tree_has_root tree)) in
        some (record {
          status = success;
          response = with_text response host.status s;
          tree = tree;
          written = some s;
        }))

-- `phantom_handle_command` of a command and a response that are not NULL.
unfoldable pub handle_in : Host → Strings → Option Tree → Command → CommandResponse → Option Handled
handle_in host strings tree command response =
    if command.type == cmd_node
    then (if str_eq (cstr command.source) (text "create")
        then handle_create_command host strings tree command response
        else if str_eq (cstr command.source) (text "delete")
        then handle_delete_command host strings tree command response
        else answer invalid response tree)
    else if command.type == cmd_program
    then (if str_eq (cstr command.source) (text "status")
        then handle_status_command host tree response
        else answer invalid response tree)
    else answer invalid response tree

-- `phantom_handle_command`: the status, with what it leaves where neither is NULL.
unfoldable pub phantom_handle_command :
    Host
    → Strings
    → Option Tree
    → Option Command
    → Option CommandResponse
    → Option (CommandStatus × Option Handled)
phantom_handle_command host strings tree (some command) (some response) =
    handle_in host strings tree command response >>= λ handled. some (handled.status, some handled)
phantom_handle_command host strings tree command response = some (invalid, none)
