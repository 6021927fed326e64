-- ===== src/Programs/Effect.antt =====
-- What the commands of programs/handlers.c do, branch by branch.
use phantomid.Common.{
  ℕ, ◌%◌, ◌≡◌, ◌≢◌, ◌⊎◌, Bool, true, false, not, ◌||◌, Option, none, some, ◌==◌, if◌then◌else◌,
  take, u64_mod,
}
use phantomid.Common.CString.{Str, text, cstr}
use phantomid.Tree.Store.{Ptr, null, Node, Tree}
use phantomid.Tree.Forest.{Forest, count, height, join}
use phantomid.Tree.Created
use phantomid.Tree.Deleted
use phantomid.Interface.Command.{
  success, error, invalid, Command, CommandResponse, cmd_program, cmd_node,
}
use phantomid.Programs.{Strings}
use phantomid.Programs.Commands.{Host, Handled, with_text, parent_argument, status_text}

-- The data of a command is no pointer to nowhere.
abbrev pub Readable : Strings → Command → Type 0
Readable strings command = (command.payload ≡ 0) ⊎ ((s : Str) × (strings command.payload ≡ some s))

-- The command that is asked for.
abbrev pub Asks : ℕ → Str → Command → Type 0
Asks type word command = (command.type ≡ type) × (cstr command.source ≡ word)

-- The numbers of the nodes, the lost ones too, and of the levels, as a text of at most 1023 bytes.
abbrev pub report_of : Tree → Forest → Forest → Str
report_of t main lost =
    take 1023 (status_text (count (join main lost) % u64_mod) (height main) (not (t.root == null)))

-- What the commands do.
pub data Effect (host : Host) (strings : Strings) (t : Tree) (command : Command)
    (response : CommandResponse) (main lost : Forest) : Handled → Type 0 where
  creates :
      {parent_id : Option Str} {p : Ptr} {u : Tree} {n : Node}
      → Asks cmd_node (text "create") command
      → parent_argument strings command ≡ some parent_id
      → Created.Outcome host.max_children host.memory t parent_id main lost p u
      → p ≢ null
      → u.heap p ≡ some n
      → Effect host strings t command response main lost (record {
        status = success;
        response = with_text response host.copy n.id;
        tree = some u;
        written = some n.id;
      })
  cannot_create :
      {parent_id : Option Str} {u : Tree}
      → Asks cmd_node (text "create") command
      → parent_argument strings command ≡ some parent_id
      → Created.Outcome host.max_children host.memory t parent_id main lost null u
      → Effect host strings t command response main lost
          (record { status = error; response = response; tree = some u; written = none })
  no_id :
      Asks cmd_node (text "delete") command
      → (command.payload == 0 || command.data_size == 0) ≡ true
      → Effect host strings t command response main lost
          (record { status = invalid; response = response; tree = some t; written = none })
  deletes :
      {node_id : Str} {u : Tree} {done : Bool}
      → Asks cmd_node (text "delete") command
      → (command.payload == 0 || command.data_size == 0) ≡ false
      → strings command.payload ≡ some node_id
      → Deleted.Outcome t node_id main lost done u
      → Effect host strings t command response main lost (record {
        status = if done then success else error;
        response = response;
        tree = some u;
        written = none;
      })
  no_memory :
      Asks cmd_program (text "status") command
      → host.status ≡ 0
      → Effect host strings t command response main lost
          (record { status = error; response = response; tree = some t; written = none })
  tells :
      Asks cmd_program (text "status") command
      → host.status ≢ 0
      → Effect host strings t command response main lost (record {
        status = success;
        response = with_text response host.status (report_of t main lost);
        tree = some t;
        written = some (report_of t main lost);
      })
  refuses :
      (Asks cmd_node (text "create") command → ⊥)
      → (Asks cmd_node (text "delete") command → ⊥)
      → (Asks cmd_program (text "status") command → ⊥)
      → Effect host strings t command response main lost
          (record { status = invalid; response = response; tree = some t; written = none })
