-- ===== src/Programs/Effects.antt =====
-- The commands of programs/handlers.c, on a tree that its memory holds.
use mathlib.Core.Path.{subst}
use phantomid.Common.{
  ℕ, ◌≤◌, ◌<◌, ◌≡◌, refl, ap, ◌≢◌, inl, inr, Bool, true, false, not, ◌||◌, Option, none, some,
  arith, ltb, ◌==◌, if◌then◌else◌, ◌>>=◌, eq→==, ne→==, ==_iff, Bool-cases, take,
}
use phantomid.Common.CString.{Str, text, cstr, str_eq, str_eq_iff}
use phantomid.Tree.Store.{null, Tree, deref_lem}
use phantomid.Tree.Queue.{max_queue_size}
use phantomid.Tree.Forest.{Forest, count, height}
use phantomid.Tree.Invariant.{Represents}
use phantomid.Tree.Create.{tree_create_node, tree_has_root, tree_get_size}
use phantomid.Tree.Created
use phantomid.Tree.Created.{create_in-Outcome}
use phantomid.Tree.Made.{made}
use phantomid.Tree.Delete.{tree_delete_node}
use phantomid.Tree.Deleted.{delete_in-Outcome}
use phantomid.Tree.Walk.{tree_get_depth-height}
use phantomid.Interface.Command.{success, error, Command, CommandResponse, cmd_program, cmd_node}
use phantomid.Cli.{node_at}
use phantomid.Programs.{Strings, read_string}
use phantomid.Programs.Commands.{
  Host, Handled, answer, with_text, parent_argument, create_under, handle_create_command,
  handle_delete_command, status_text, handle_status_command, handle_in,
}
use phantomid.Programs.Effect.{
  Readable, Asks, report_of, Effect, creates, cannot_create, no_id, deletes, no_memory, tells,
  refuses,
}

is : {m n : ℕ} → (m == n) ≡ true → m ≡ n
is {m} {n} = (==_iff m n).0

is_not : {m n : ℕ} → (m == n) ≡ false → m ≢ n
is_not {m} {n} e = ground (arith, ==_iff m n, e)

named : {a b : Str} → str_eq a b ≡ true → a ≡ b
named {a} {b} = (str_eq_iff a b).0

unnamed : {a b : Str} → str_eq a b ≡ false → a ≢ b
unnamed {a} {b} e = ground (arith, str_eq_iff a b, e)

two_types : {type : ℕ} → type ≡ cmd_node → type ≢ cmd_program
two_types node program = omega (arith, node, program)

module _ (host : Host) (strings : Strings) (t : Tree) (command : Command)
    (response : CommandResponse) (main lost : Forest) (fresh : t.heap host.memory.node ≡ none)
    (fuel : count main < host.fuel) (small : count main ≤ max_queue_size)
    (r : Represents t main lost) where
  abbrev pub Has : Option Handled → Type 0
  Has o = (h : Handled) × (o ≡ some h) × Effect host strings t command response main lost h

  argument :
      Readable strings command → (s : Option Str) × (parent_argument strings command ≡ some s)
  unfolding parent_argument read_string
  argument (inl e) = elim (Bool-cases (ltb 0 command.data_size)) [
    | inl some_data ↦ (none, rw (some_data, eq→== command.payload 0 e) refl)
    | inr no_data ↦ (none, rw no_data refl)
  ]
  argument (inr (s, at)) = elim (Bool-cases (ltb 0 command.data_size)) [
    | inl some_data ↦ elim (Bool-cases (command.payload == 0)) [
      | inl gone ↦ (none, rw (some_data, gone) refl)
      | inr there ↦ (some s, rw (some_data, there) (rw (at, ◌>>=◌) refl))
    ]
    | inr no_data ↦ (none, rw no_data refl)
  ]

  creating :
      Asks cmd_node (text "create") command
      → Readable strings command
      → Has (handle_create_command host strings (some t) command response)
  unfolding handle_create_command create_under tree_create_node node_at
  creating asks readable =
      let (parent_id, is) = argument readable in
      let (p, u, ran, outcome) =
        create_in-Outcome host.fuel host.max_children host.memory t main lost fresh fuel small r
          parent_id in
      elim (made host.max_children host.memory t main lost r outcome) [
        | inl gone ↦ (
          _,
          rw (is, ◌>>=◌) (rw (ran, ◌>>=◌) (rw (eq→== p null gone) refl)),
          cannot_create asks is (
              subst (λ q. Created.Outcome host.max_children host.memory t parent_id main lost q u)
                gone outcome),
        )
        | inr (there, n, at_p) ↦ (
          record {
            status = success;
            response = with_text response host.copy n.id;
            tree = some u;
            written = some n.id;
          },
          rw (is, ◌>>=◌)
              (rw (ran, ◌>>=◌)
                (rw (ne→== p null there, deref_lem u.heap p there at_p, ◌>>=◌) refl)),
          creates asks is outcome there at_p,
        )
      ]

  deleting :
      Asks cmd_node (text "delete") command
      → Readable strings command
      → Has (handle_delete_command host strings (some t) command response)
  unfolding handle_delete_command tree_delete_node
  deleting asks readable = elim (Bool-cases (command.payload == 0 || command.data_size == 0)) [
    | inl nothing ↦ (_, rw nothing refl, no_id asks nothing)
    | inr something ↦
        let (node_id, at) = readable_some readable (ground arith) in
        let (done, u, ran, outcome) =
          delete_in-Outcome host.fuel t main lost fuel small r node_id in
        (
          record {
            status = if done then success else error;
            response = response;
            tree = some u;
            written = none;
          },
          rw something (rw (at, ◌>>=◌) (rw (ran, ◌>>=◌) (pick done u))),
          deletes asks something at outcome,
        )
  ]
    where
      readable_some :
          Readable strings command
          → command.payload ≢ 0
          → (s : Str) × (strings command.payload ≡ some s)
      readable_some (inl e) there = absurd (there e)
      readable_some (inr found) there = found

      pick :
          (done : Bool) (u : Tree)
          → (if done then answer success response (some u) else answer error response (some u))
            ≡ some (record {
              status = if done then success else error;
              response = response;
              tree = some u;
              written = none;
            })
      pick true u = refl
      pick false u = refl

  telling :
      Asks cmd_program (text "status") command → Has (handle_status_command host (some t) response)
  unfolding handle_status_command tree_get_size tree_has_root
  telling asks = elim (Bool-cases (host.status == 0)) [
    | inl failed ↦ (_, rw failed refl, no_memory asks ((==_iff host.status 0).0 failed))
    | inr given ↦ (
      record {
        status = success;
        response = with_text response host.status (report_of t main lost);
        tree = some t;
        written = some (report_of t main lost);
      },
      rw given (
          rw (tree_get_depth-height host.fuel t main lost fuel r, ◌>>=◌)
            (ap
              (λ (n : ℕ).
                let s = take 1023 (status_text n (height main) (not (t.root == null))) in
                some (record {
                  status = success;
                  response = with_text response host.status s;
                  tree = some t;
                  written = some s;
                }))
              r.total)),
      tells asks (is_not given),
    )
  ]

  -- Let the memory hold a forest whose tree has fewer nodes than the fuel and at most 1000, let the
  -- address that `calloc` gives be free, and let the data of the command be NULL or a string. Then
  -- `phantom_handle_command` returns, and the status, the response and the tree that it leaves are
  -- one of the cases of `Effect`: `create` is `tree_create_node` under the parent that the data
  -- name, a success where it gives a node, whose id is the response; `delete` is `tree_delete_node`
  -- of the id that the data name, a success where it returns true, and invalid without data;
  -- `status` responds with the numbers of the nodes and of the levels and whether there is a root,
  -- or fails without memory for the response; every other command is invalid and changes nothing.
  pub handle_in-Effect :
      Readable strings command → Has (handle_in host strings (some t) command response)
  unfolding handle_in
  handle_in-Effect readable = elim (Bool-cases (command.type == cmd_node)) [
    | inl node ↦ elim (Bool-cases (str_eq (cstr command.source) (text "create"))) [
      | inl create ↦
          let asks : Asks cmd_node (text "create") command = (is node, named create) in
          rw (node, create) (creating asks readable)
      | inr other ↦ elim (Bool-cases (str_eq (cstr command.source) (text "delete"))) [
        | inl delete ↦
            let asks : Asks cmd_node (text "delete") command = (is node, named delete) in
            rw (node, other, delete) (deleting asks readable)
        | inr other' ↦ (
          _,
          rw (node, other, other') refl,
          refuses (λ asks. unnamed other asks.1) (λ asks. unnamed other' asks.1)
              (λ asks. two_types (is node) asks.0),
        )
      ]
    ]
    | inr no_node ↦ elim (Bool-cases (command.type == cmd_program)) [
      | inl program ↦ elim (Bool-cases (str_eq (cstr command.source) (text "status"))) [
        | inl status ↦
            let asks : Asks cmd_program (text "status") command = (is program, named status) in
            rw (no_node, program, status) (telling asks)
        | inr other ↦ (
          _,
          rw (no_node, program, other) refl,
          refuses (λ asks. is_not no_node asks.0) (λ asks. is_not no_node asks.0)
              (λ asks. unnamed other asks.1),
        )
      ]
      | inr no_program ↦ (
        _,
        rw (no_node, no_program) refl,
        refuses (λ asks. is_not no_node asks.0) (λ asks. is_not no_node asks.0)
            (λ asks. is_not no_program asks.0),
      )
    ]
  ]
