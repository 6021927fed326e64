-- ===== src/Cli/Orderly.antt =====
-- What every command of runtime/cli/cli.c does to the rest of its context: the flag that keeps the
-- command line running, and the last error.
use phantomid.Common.{
  ℕ, ◌≤◌, ◌≡◌, refl, ◌≢◌, ◌⊎◌, inl, inr, Bool, true, false, List, [], ◌∷◌, Option, some, arith,
  ◌==◌, length, length-take,
}
use phantomid.Common.Ends.{Ends, ends, Ends-bind, Ends-if}
use phantomid.Common.CString.{Str, Bytes, text, str_eq}
use phantomid.Tree.Store.{null}
use phantomid.Tree.Create.{Env, tree_create_node}
use phantomid.Tree.Delete.{tree_delete_node}
use phantomid.Tree.Traverse.{tree_traverse_dfs}
use phantomid.Network.{Event}
use phantomid.Cli.{
  CommandResult, cmd_success, cmd_error_invalid, cmd_error_args, cmd_error_exec, cmd_error_state,
  cmd_exit, CliContext, Ran, fails, print_node, copy_data, send_to, broadcast_to, set_error,
  node_at, create_command, delete_command, list_command, first, cli_execute_node,
  net_status_command, send_command, broadcast_command, report, cli_execute_network,
}

abbrev pub IsError : CommandResult → Type 0
IsError cmd_success = ⊥
IsError cmd_error_invalid = Unit
IsError cmd_error_args = Unit
IsError cmd_error_exec = Unit
IsError cmd_error_state = Unit
IsError cmd_exit = ⊥

-- The command line goes on; an error has left a message of 1 to 255 bytes, a success the old one.
pub record Orderly (ctx : CliContext) (ran : Ran) : Type 0 where
  pub running : ran.ctx.running ≡ ctx.running
  pub network : ran.ctx.network ≡ ctx.network
  pub told :
      (IsError ran.result × ((ran.ctx.last_error ≢ []) × (length ran.ctx.last_error ≤ 255)))
      ⊎ ((ran.result ≡ cmd_success) × (ran.ctx.last_error ≡ ctx.last_error))

pub failed-Orderly :
    (ctx after : CliContext) (result : CommandResult) (c : ℕ) (message : Str) (events : List Event)
    → IsError result
    → after.running ≡ ctx.running
    → after.network ≡ ctx.network
    → Orderly ctx (record {
      result = result;
      ctx = set_error after (c ∷ message);
      output = [];
      events = events;
    })
unfolding set_error
failed-Orderly ctx after result c message events bad runs net = record {
  running = runs;
  network = net;
  told = inl (bad, ((λ e. cc (e)), omega (arith, length-take 255 (c ∷ message))));
}

pub done-Orderly :
    (ctx after : CliContext) (output : Str) (events : List Event)
    → after.running ≡ ctx.running
    → after.network ≡ ctx.network
    → after.last_error ≡ ctx.last_error
    → Orderly ctx (record { result = cmd_success; ctx = after; output = output; events = events })
done-Orderly ctx after output events runs net same = record {
  running = runs;
  network = net;
  told = inr (refl, same);
}

module _ (k max : ℕ) (env : Env) (ctx : CliContext) where
  create_command-Orderly :
      (parent_id : Option Str) → Ends (Orderly ctx) (create_command k max env ctx parent_id)
  unfolding create_command
  create_command-Orderly parent_id =
      Ends-bind (tree_create_node k max env ctx.tree parent_id) _ λ made.
        Ends-if (made.0 == null) _ _
          (ends (failed-Orderly ctx _ cmd_error_exec _ _ [] tt refl refl))
          (Ends-bind (node_at made.1 made.0) _
            λ node. ends (done-Orderly ctx _ _ [] refl refl refl))

  delete_command-Orderly : (node_id : Str) → Ends (Orderly ctx) (delete_command k ctx node_id)
  unfolding delete_command
  delete_command-Orderly node_id =
      Ends-bind (tree_delete_node k ctx.tree (some node_id)) _ λ deleted.
        Ends-if deleted.0 _ _ (ends (done-Orderly ctx _ _ [] refl refl refl))
          (ends (failed-Orderly ctx _ cmd_error_exec _ _ [] tt refl refl))

  list_command-Orderly : Ends (Orderly ctx) (list_command k ctx)
  unfolding list_command
  list_command-Orderly =
      Ends-bind (tree_traverse_dfs print_node k ctx.tree (text "\nNode List:\n")) _
        λ output. ends (done-Orderly ctx _ _ [] refl refl refl)

  pub cli_execute_node-Orderly :
      (argv : List Str) → Ends (Orderly ctx) (cli_execute_node k max env ctx argv)
  unfolding cli_execute_node
  cli_execute_node-Orderly [] = ends (failed-Orderly ctx _ cmd_error_args _ _ [] tt refl refl)
  cli_execute_node-Orderly (name ∷ []) =
      ends (failed-Orderly ctx _ cmd_error_args _ _ [] tt refl refl)
  cli_execute_node-Orderly (name ∷ sub ∷ args) =
      Ends-if (str_eq sub (text "create")) _ _ (create_command-Orderly (first args)) (
        Ends-if (str_eq sub (text "delete")) _ _ (delete_given args) (
          Ends-if (str_eq sub (text "list")) _ _ list_command-Orderly
            (ends (failed-Orderly ctx _ cmd_error_invalid _ _ [] tt refl refl))))
    where
      delete_given :
          (args : List Str)
          → Ends (Orderly ctx) (elim args as (λ x. Option Ran) [
            | [] ↦ fails cmd_error_args ctx (text "Missing node ID. Usage: node delete <id>")
            | node_id ∷ more ↦ delete_command k ctx node_id
          ])
      delete_given [] = ends (failed-Orderly ctx _ cmd_error_args _ _ [] tt refl refl)
      delete_given (node_id ∷ more) = delete_command-Orderly node_id

module _ (sent : Option ℕ → Bytes → Option ℕ) (ctx : CliContext) where
  report-Orderly :
      (done : Bool × List Event) (output : Str) (c : ℕ) (message : Str)
      → Ends (Orderly ctx) (report ctx done output (c ∷ message))
  report-Orderly (true, events) output c message = ends (done-Orderly ctx _ _ events refl refl refl)
  report-Orderly (false, events) output c message =
      ends (failed-Orderly ctx _ cmd_error_exec c message events tt refl refl)

  send_command-Orderly :
      (node_id message : Str) → Ends (Orderly ctx) (send_command sent ctx node_id message)
  unfolding send_command
  send_command-Orderly node_id message = Ends-bind (copy_data message) _ λ bytes.
      Ends-bind (send_to sent ctx.network node_id bytes) _ λ done. report-Orderly done _ _ _

  broadcast_command-Orderly : (message : Str) → Ends (Orderly ctx) (broadcast_command ctx message)
  unfolding broadcast_command
  broadcast_command-Orderly message =
      Ends-bind (copy_data message) _
        λ bytes. Ends-bind (broadcast_to ctx.network bytes) _ λ done. report-Orderly done _ _ _

  net_status_command-Orderly : Ends (Orderly ctx) (net_status_command ctx)
  unfolding net_status_command
  net_status_command-Orderly =
      Ends-bind ctx.network _ λ network. ends (done-Orderly ctx _ _ [] refl refl refl)

  pub cli_execute_network-Orderly :
      (argv : List Str) → Ends (Orderly ctx) (cli_execute_network sent ctx argv)
  unfolding cli_execute_network
  cli_execute_network-Orderly [] = ends (failed-Orderly ctx _ cmd_error_args _ _ [] tt refl refl)
  cli_execute_network-Orderly (name ∷ []) =
      ends (failed-Orderly ctx _ cmd_error_args _ _ [] tt refl refl)
  cli_execute_network-Orderly (name ∷ sub ∷ []) =
      Ends-if (str_eq sub (text "status")) _ _ net_status_command-Orderly (
        Ends-if (str_eq sub (text "send")) _ _
          (ends (failed-Orderly ctx _ cmd_error_args _ _ [] tt refl refl))
          (Ends-if (str_eq sub (text "broadcast")) _ _
            (ends (failed-Orderly ctx _ cmd_error_args _ _ [] tt refl refl))
            (ends (failed-Orderly ctx _ cmd_error_invalid _ _ [] tt refl refl))))
  cli_execute_network-Orderly (name ∷ sub ∷ a ∷ []) =
      Ends-if (str_eq sub (text "status")) _ _ net_status_command-Orderly (
        Ends-if (str_eq sub (text "send")) _ _
          (ends (failed-Orderly ctx _ cmd_error_args _ _ [] tt refl refl))
          (Ends-if (str_eq sub (text "broadcast")) _ _ (broadcast_command-Orderly a)
            (ends (failed-Orderly ctx _ cmd_error_invalid _ _ [] tt refl refl))))
  cli_execute_network-Orderly (name ∷ sub ∷ a ∷ b ∷ rest) =
      Ends-if (str_eq sub (text "status")) _ _ net_status_command-Orderly (
        Ends-if (str_eq sub (text "send")) _ _ (send_command-Orderly a b) (
          Ends-if (str_eq sub (text "broadcast")) _ _ (broadcast_command-Orderly a)
            (ends (failed-Orderly ctx _ cmd_error_invalid _ _ [] tt refl refl))))
