-- ===== src/Cli/Nodes.antt =====
-- The `node` commands of runtime/cli/cli.c, on a tree that its memory holds.
use mathlib.Core.Path.{subst}
use phantomid.Common.{
  ℕ, ◌≤◌, ◌<◌, ◌≡◌, refl, sym, ap, ◌∙◌, ◌≢◌, inl, inr, Bool, true, false, List, [], ◌∷◌, ◌++◌,
  Option, none, some, if◌then◌else◌, ◌>>=◌, eq→==, ne→==, Bool-cases,
}
use phantomid.Common.CString.{Str, text, str_eq, str_eq_iff}
use phantomid.Tree.Store.{Ptr, null, Node, Tree, deref_lem}
use phantomid.Tree.Queue.{max_queue_size}
use phantomid.Tree.Forest.{Forest, count, preorder}
use phantomid.Tree.Invariant.{Represents}
use phantomid.Tree.Create.{Env, tree_create_node}
use phantomid.Tree.Created
use phantomid.Tree.Created.{create_in-Outcome, create_node_lem}
use phantomid.Tree.Delete.{tree_delete_node}
use phantomid.Tree.Deleted
use phantomid.Tree.Deleted.{delete_in-Outcome}
use phantomid.Tree.Traverse.{visits}
use phantomid.Tree.Walk.{tree_traverse_dfs-preorder}
use phantomid.Tree.Made.{made}
use phantomid.Cli.{
  CommandResult, set_error, fails, cmd_success, cmd_error_invalid, cmd_error_args, cmd_error_exec,
  CliContext, Ran, print_node, print_created, node_at, first, create_command, delete_command,
  list_command, cli_execute_node,
}

-- What `node list` prints of the nodes.
abbrev pub listing : List (Ptr × Node) → Str → Str
listing [] output = output
listing ((p, n) ∷ ns) output = listing ns (output ++ (text "Node ID: " ++ n.id ++ text "\n"))

visits-listing :
    (ns : List (Ptr × Node)) (output : Str) → visits print_node ns output ≡ listing ns output
unfolding print_node
visits-listing [] output = refl
visits-listing ((p, n) ∷ ns) output =
    visits-listing ns (output ++ (text "Node ID: " ++ n.id ++ text "\n"))

-- Too few words.
abbrev pub IsIncomplete : List Str → Type 0
IsIncomplete [] = Unit
IsIncomplete (name ∷ []) = Unit
IsIncomplete (name ∷ sub ∷ []) = sub ≡ text "delete"
IsIncomplete (name ∷ sub ∷ arg ∷ args) = ⊥

-- What the commands do to the tree, and what they tell. The new node has an id, which is printed.
pub data Effect (max : ℕ) (env : Env) (t : Tree) (argv : List Str) (main lost : Forest)
    : CommandResult → Tree → Str → Type 0 where
  creates :
      {name : Str} {args : List Str} {p : Ptr} {u : Tree} {n : Node}
      → argv ≡ name ∷ text "create" ∷ args
      → Created.Outcome max env t (first args) main lost p u
      → p ≢ null
      → u.heap p ≡ some n
      → Effect max env t argv main lost cmd_success u (print_created n.id (first args))
  cannot_create :
      {name : Str} {args : List Str} {u : Tree}
      → argv ≡ name ∷ text "create" ∷ args
      → Created.Outcome max env t (first args) main lost null u
      → Effect max env t argv main lost cmd_error_exec u []
  deletes :
      {name node_id : Str} {args : List Str} {u : Tree}
      → argv ≡ name ∷ text "delete" ∷ node_id ∷ args
      → Deleted.Outcome t node_id main lost true u
      → Effect max env t argv main lost cmd_success u
          (text "Deleted node: " ++ node_id ++ text "\n")
  cannot_delete :
      {name node_id : Str} {args : List Str} {u : Tree}
      → argv ≡ name ∷ text "delete" ∷ node_id ∷ args
      → Deleted.Outcome t node_id main lost false u
      → Effect max env t argv main lost cmd_error_exec u []
  lists :
      {name : Str} {args : List Str}
      → argv ≡ name ∷ text "list" ∷ args
      → Effect max env t argv main lost cmd_success t
          (listing (preorder main) (text "\nNode List:\n"))
  incomplete : IsIncomplete argv → Effect max env t argv main lost cmd_error_args t []
  unknown :
      {name sub : Str} {args : List Str}
      → argv ≡ name ∷ sub ∷ args
      → (sub ≢ text "create") × (sub ≢ text "delete") × (sub ≢ text "list")
      → Effect max env t argv main lost cmd_error_invalid t []

-- A command that has run on a context with the tree `t`.
abbrev pub Runs : ℕ → Env → Tree → Forest → Forest → List Str → Option Ran → Type 0
Runs max env t main lost argv o =
    (ran : Ran) × (u : Tree) × (o ≡ some ran)
    × (ran.ctx.tree ≡ some u)
    × Effect max env t argv main lost ran.result u ran.output

abbrev pub with_tree : CliContext → Tree → CliContext
with_tree ctx t = record ctx { tree = some t }

module _ (k max : ℕ) (env : Env) (ctx : CliContext) (t : Tree) (main lost : Forest)
    (fresh : t.heap env.node ≡ none) (fuel : count main < k) (small : count main ≤ max_queue_size)
    (r : Represents t main lost) where
  create_command-Runs :
      (name : Str) (args : List Str)
      → Runs max env t main lost
          (name ∷ text "create" ∷ args)
          (create_command k max env (with_tree ctx t) (first args))
  unfolding create_command tree_create_node node_at set_error
  create_command-Runs name args =
      let (p, u, ran, outcome) =
        create_in-Outcome k max env t main lost fresh fuel small r (first args) in
      elim (made max env t main lost r outcome) [
        | inl gone ↦ (
          record {
            result = cmd_error_exec;
            ctx = set_error (with_tree ctx u) (text "Failed to create node");
            output = [];
            events = [];
          },
          u,
          rw (ran, ◌>>=◌) (rw (eq→== p null gone) refl),
          refl,
          cannot_create refl
              (subst (λ q. Created.Outcome max env t (first args) main lost q u) gone outcome),
        )
        | inr (there, n, at_p) ↦ (
          record {
            result = cmd_success;
            ctx = with_tree ctx u;
            output = print_created n.id (first args);
            events = [];
          },
          u,
          rw (ran, ◌>>=◌) (rw (ne→== p null there, deref_lem u.heap p there at_p, ◌>>=◌) refl),
          refl,
          creates refl outcome there at_p,
        )
      ]

  delete_command-Runs :
      (name node_id : Str) (args : List Str)
      → Runs max env t main lost
          (name ∷ text "delete" ∷ node_id ∷ args)
          (delete_command k (with_tree ctx t) node_id)
  unfolding delete_command tree_delete_node set_error
  delete_command-Runs name node_id args =
      let (done, u, ran, outcome) = delete_in-Outcome k t main lost fuel small r node_id in
      elim (Bool-cases done) [
        | inl gone ↦ (
          record {
            result = cmd_success;
            ctx = with_tree ctx u;
            output = text "Deleted node: " ++ node_id ++ text "\n";
            events = [];
          },
          u,
          rw (ran, ◌>>=◌) (rw gone refl),
          refl,
          deletes refl (subst (λ b. Deleted.Outcome t node_id main lost b u) gone outcome),
        )
        | inr kept ↦ (
          record {
            result = cmd_error_exec;
            ctx = set_error (with_tree ctx u) (text "Failed to delete node");
            output = [];
            events = [];
          },
          u,
          rw (ran, ◌>>=◌) (rw kept refl),
          refl,
          cannot_delete refl (subst (λ b. Deleted.Outcome t node_id main lost b u) kept outcome),
        )
      ]

  list_command-Runs :
      (name : Str) (args : List Str)
      → Runs max env t main lost (name ∷ text "list" ∷ args) (list_command k (with_tree ctx t))
  unfolding list_command
  list_command-Runs name args =
      let head = text "\nNode List:\n" in
      let ran =
        tree_traverse_dfs-preorder k t main lost fuel r print_node head
        ∙ ap some (visits-listing (preorder main) head) in
      (
        record {
          result = cmd_success;
          ctx = with_tree ctx t;
          output = listing (preorder main) head;
          events = [];
        },
        t,
        rw (ran, ◌>>=◌) refl,
        refl,
        lists refl,
      )

  failed_Runs :
      (argv : List Str) (result : CommandResult) (message : Str)
      → Effect max env t argv main lost result t []
      → Runs max env t main lost argv (fails result (with_tree ctx t) message)
  unfolding set_error
  failed_Runs argv result message effect = (_, t, refl, refl, effect)

  Runs-test :
      (argv : List Str) (b : Bool) (x y : Option Ran)
      → (b ≡ true → Runs max env t main lost argv x)
      → (b ≡ false → Runs max env t main lost argv y)
      → Runs max env t main lost argv (if b then x else y)
  Runs-test argv true x y hx hy = hx refl
  Runs-test argv false x y hx hy = hy refl

  Runs-word :
      (name sub word : Str) (args : List Str) (o : Option Ran)
      → str_eq sub word ≡ true
      → Runs max env t main lost (name ∷ word ∷ args) o
      → Runs max env t main lost (name ∷ sub ∷ args) o
  Runs-word name sub word args o same runs =
      subst (λ s. Runs max env t main lost (name ∷ s ∷ args) o) (sym ((str_eq_iff sub word).0 same))
        runs

  delete_given :
      (name : Str) (args : List Str)
      → Runs max env t main lost (name ∷ text "delete" ∷ args) (elim args as (λ x. Option Ran) [
        | [] ↦
            fails cmd_error_args (with_tree ctx t) (text "Missing node ID. Usage: node delete <id>")
        | node_id ∷ more ↦ delete_command k (with_tree ctx t) node_id
      ])
  delete_given name [] = failed_Runs (name ∷ text "delete" ∷ []) cmd_error_args _ (incomplete refl)
  delete_given name (node_id ∷ more) = delete_command-Runs name node_id more

  differs : (sub word : Str) → str_eq sub word ≡ false → sub ≢ word
  differs sub word e same = cc ((str_eq_iff sub word).1 same)

  -- Let the context hold a forest whose tree has fewer nodes than the fuel and at most 1000, and
  -- let the address that `calloc` gives be free. Then `cli_execute_node` returns for all arguments,
  -- and its code, its output and the tree that it leaves are one of the cases of `Effect`: `create`
  -- is `tree_create_node` with the next word as the parent, a success where it gives a node, whose
  -- id is printed; `delete` is `tree_delete_node` of the next word, a success where it returns
  -- true; `list` prints the ids of the nodes in preorder; too few words and any other word are the
  -- errors of the arguments and of an unknown command, with the tree unchanged.
  pub cli_execute_node-Effect :
      (argv : List Str)
      → Runs max env t main lost argv (cli_execute_node k max env (with_tree ctx t) argv)
  unfolding cli_execute_node
  cli_execute_node-Effect [] = failed_Runs [] cmd_error_args _ (incomplete tt)
  cli_execute_node-Effect (name ∷ []) = failed_Runs (name ∷ []) cmd_error_args _ (incomplete tt)
  cli_execute_node-Effect (name ∷ sub ∷ args) =
      Runs-test (name ∷ sub ∷ args) (str_eq sub (text "create")) _ _
        (λ e. Runs-word name sub (text "create") args _ e (create_command-Runs name args))
        (λ not_create.
          Runs-test (name ∷ sub ∷ args) (str_eq sub (text "delete")) _ _
            (λ e. Runs-word name sub (text "delete") args _ e (delete_given name args))
            (λ not_delete.
              Runs-test (name ∷ sub ∷ args) (str_eq sub (text "list")) _ _
                (λ e. Runs-word name sub (text "list") args _ e (list_command-Runs name args))
                (λ not_list. failed_Runs (name ∷ sub ∷ args) cmd_error_invalid _ (
                  unknown refl (
                    differs sub (text "create") not_create,
                    differs sub (text "delete") not_delete,
                    differs sub (text "list") not_list,
                  )))))
