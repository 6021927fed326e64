-- ===== src/Cli/Dispatched.antt =====
-- What `cli_process_command` of runtime/cli/cli.c makes of the words of a line, where it returns.
use phantomid.Common.{
  ◌≡◌, refl, Bool, true, false, ◌||◌, List, [], ◌∷◌, ◌++◌, Option, if◌then◌else◌,
}
use phantomid.Common.Ends.{Ends, fault, ends, Ends-bind}
use phantomid.Common.CString.{Str, text, str_eq}
use phantomid.Cli.{
  cmd_success, cmd_error_invalid, cmd_exit, CliContext, Ran, fails, set_error, cli_execute_node,
  cli_execute_network,
}
use phantomid.Cli.Process.{CliEnv, dispatch, cli_print_help, cli_print_version, cli_print_status}
use phantomid.Cli.Orderly.{
  Orderly, done-Orderly, cli_execute_node-Orderly, cli_execute_network-Orderly,
}

-- Whether the first word asks for the end.
abbrev pub is_exit : Str → Bool
is_exit name = str_eq name (text "exit") || str_eq name (text "quit")

abbrev pub asks_exit : List Str → Bool
asks_exit [] = false
asks_exit (name ∷ args) = is_exit name

-- Whether the first word is a given one.
abbrev pub asks : Str → List Str → Bool
asks word [] = false
asks word (name ∷ args) = str_eq name word

-- The words whose commands are carried out elsewhere.
abbrev pub is_run : Str → Bool
is_run name =
    str_eq name (text "status")
    || (str_eq name (text "node") || (str_eq name (text "net") || str_eq name (text "state")))

abbrev pub asks_run : List Str → Bool
asks_run [] = false
asks_run (name ∷ args) = is_run name

-- What becomes of a line: nothing without words; the end of the command line, the help and the
-- version; the commands of the tree, the network and the state; and the error of any other word.
pub data CommandOutcome (ctx : CliContext) (argv : List Str) : Ran → Type 0 where
  nothing :
      argv ≡ []
      → CommandOutcome ctx argv
          (record { result = cmd_success; ctx = ctx; output = []; events = [] })
  helps :
      asks (text "help") argv ≡ true
      → CommandOutcome ctx argv
          (record { result = cmd_success; ctx = ctx; output = cli_print_help; events = [] })
  tells_version :
      asks (text "version") argv ≡ true
      → CommandOutcome ctx argv
          (record { result = cmd_success; ctx = ctx; output = cli_print_version; events = [] })
  exits :
      asks_exit argv ≡ true
      → CommandOutcome ctx argv (record {
        result = cmd_exit;
        ctx = record ctx { running = false };
        output = [];
        events = [];
      })
  goes_on : {ran : Ran} → asks_run argv ≡ true → Orderly ctx ran → CommandOutcome ctx argv ran
  unknown :
      {name : Str} {args : List Str}
      → argv ≡ name ∷ args
      → (str_eq name (text "help") ≡ false)
        × (str_eq name (text "version") ≡ false)
        × (is_exit name ≡ false)
        × (is_run name ≡ false)
      → CommandOutcome ctx argv (record {
        result = cmd_error_invalid;
        ctx = set_error ctx (text "Unknown command: " ++ name);
        output = [];
        events = [];
      })

abbrev pub KeepsOrder : CliEnv → Type 0
KeepsOrder env =
    (ctx : CliContext) (argv : List Str) → Ends (Orderly ctx) (env.execute_state ctx argv)

going :
    (ctx : CliContext) (argv : List Str) {o : Option Ran}
    → asks_run argv ≡ true
    → Ends (Orderly ctx) o
    → Ends (CommandOutcome ctx argv) o
going ctx argv run fault = fault
going ctx argv run (ends r) = ends (goes_on run r)

Ends-test {ℓ} :
    {P : Ran → Type ℓ} (b : Bool) (x y : Option Ran)
    → (b ≡ true → Ends P x)
    → (b ≡ false → Ends P y)
    → Ends P (if b then x else y)
Ends-test true x y hx hy = hx refl
Ends-test false x y hx hy = hy refl

-- Let `cli_execute_state` keep the flag, the network and the rules for the last error.
pub dispatch-CommandOutcome :
    (env : CliEnv) (ctx : CliContext) (argv : List Str)
    → KeepsOrder env
    → Ends (CommandOutcome ctx argv) (dispatch env ctx argv)
unfolding dispatch
dispatch-CommandOutcome env ctx [] keeps = ends (nothing refl)
dispatch-CommandOutcome env ctx (name ∷ args) keeps =
    Ends-test (str_eq name (text "help")) _ _ (λ e. ends (helps e))
      λ no_help.
        Ends-test (str_eq name (text "version")) _ _ (λ e. ends (tells_version e))
          λ no_version.
            Ends-test (str_eq name (text "status")) _ _
              (λ e. going ctx (name ∷ args) (rw e refl) (
                Ends-bind (cli_print_status env.fuel ctx) _
                  λ output. ends (done-Orderly ctx ctx output [] refl refl refl)))
              λ no_status.
                Ends-test (is_exit name) _ _ (λ e. ends (exits e))
                  λ other. rest no_help no_version no_status other
  where
    rest :
        str_eq name (text "help") ≡ false
        → str_eq name (text "version") ≡ false
        → str_eq name (text "status") ≡ false
        → is_exit name ≡ false
        → Ends (CommandOutcome ctx (name ∷ args)) (
            if str_eq name (text "node")
            then cli_execute_node env.fuel env.max_children env.memory ctx (name ∷ args)
            else if str_eq name (text "net")
            then cli_execute_network env.sent ctx (name ∷ args)
            else if str_eq name (text "state")
            then env.execute_state ctx (name ∷ args)
            else fails cmd_error_invalid ctx (text "Unknown command: " ++ name))
    rest no_help no_version no_status other =
        Ends-test (str_eq name (text "node")) _ _
          (λ e.
            going ctx (name ∷ args) (rw (no_status, e) refl)
              (cli_execute_node-Orderly env.fuel env.max_children env.memory ctx (name ∷ args)))
          λ no_node.
            Ends-test (str_eq name (text "net")) _ _
              (λ e.
                going ctx (name ∷ args) (rw (no_status, no_node, e) refl)
                  (cli_execute_network-Orderly env.sent ctx (name ∷ args)))
              λ no_net.
                Ends-test (str_eq name (text "state")) _ _
                  (λ e.
                    going ctx (name ∷ args) (rw (no_status, no_node, no_net, e) refl)
                      (keeps ctx (name ∷ args)))
                  λ no_state. ends (
                    unknown refl
                      (no_help, no_version, other, rw (no_status, no_node, no_net, no_state) refl))
