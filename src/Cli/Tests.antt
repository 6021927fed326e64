-- ===== src/Cli/Tests.antt =====
-- runtime/cli/cli.c on small inputs.
use phantomid.Common.{
  ℕ, zero, suc, ◌≡◌, refl, true, false, ◌||◌, List, [], ◌∷◌, ◌++◌, Option, none, some, arith, ltb,
  ◌==◌, if◌then◌else◌, length, take, drop,
}
use phantomid.Common.CString.{Str, Bytes, text}
use phantomid.Tree.Store.{null, Node, Tree}
use phantomid.Tree.Forest.{Forest, nil, tree}
use phantomid.Tree.Invariant.{Represents}
use phantomid.Tree.Create.{Env}
use phantomid.Cli.{CliContext, cmd_success, cli_execute_node, returns}
use phantomid.Cli.Parsing.{
  max_args, parse_args, parse_array, parse_loop, strtok, skip_spaces, span_token,
}
use phantomid.Cli.Process.{CliEnv, local_line}
use phantomid.Cli.Words.{words, Piece, AllPieces, parse_args-words}
use phantomid.Cli.Line.{local_line_lem}
use phantomid.Cli.Arrays.{terminated, ended}
use phantomid.Cli.Processed.{Processed}
use phantomid.Cli.Nodes.{Runs, with_tree, cli_execute_node-Effect}

abbrev root_node : Node
root_node = record {
  id = b'r' ∷ [];
  creation_time = 7;
  is_root = true;
  is_active = true;
  parent = null;
  children = [];
  max_children = 2;
  user_data = null;
}

abbrev sample : Tree
sample = record {
  heap = λ p. if p == 1 then some root_node else none;
  root = 1;
  total_nodes = 1;
  counter = 1;
}

abbrev sample_forest : Forest
sample_forest = tree 1 root_node nil nil

sample-Represents : Represents sample sample_forest nil
sample-Represents = record {
  rooted = refl;
  held = ground arith;
  parents = ground arith;
  distinct = λ a. ground arith;
  fits = omega arith;
  only = λ a e. ground arith;
  total = refl;
}

abbrev memory : Env
memory = record { node = 5; array = true; created = 8; stamped = 8 }

abbrev ctx : CliContext
ctx = record {
  tree = some sample;
  network = none;
  state = none;
  verbose = false;
  running = true;
  last_error = [];
}

abbrev sent : Option ℕ → Bytes → Option ℕ
sent sock bytes = some (length bytes)

-- A `cli_execute_state` that knows no command.
abbrev env : CliEnv
env = record {
  fuel = 10;
  max_children = 2;
  memory = memory;
  sent = sent;
  execute_state = λ c argv. returns cmd_success c [];
}

abbrev line : Str
line = text " node  create\tr\n"

parse_args_runs : parse_args line ≡ text "node" ∷ text "create" ∷ text "r" ∷ []
unfolding parse_args parse_loop strtok skip_spaces span_token
parse_args_runs = refl

abbrev pieces : List Piece
pieces =
    record { word = text "node"; ends = b' '; gap = text " " }
    ∷ record { word = text "list"; ends = b'\n'; gap = [] }
    ∷ []

pieces-AllPieces : AllPieces pieces
pieces-AllPieces = (
  (((λ e. cc (e)), (refl, (refl, (refl, (refl, tt))))), refl, (refl, tt)),
  ((((λ e. cc (e)), (refl, (refl, (refl, (refl, tt))))), refl, tt), tt),
)

parse_args-words_example : parse_args line ≡ take max_args (words line)
parse_args-words_example = parse_args-words line

abbrev junk : ℕ → Bytes
junk zero = []
junk (suc n) = 7 ∷ junk n

local_line_lem_example : parse_array max_args (local_line (junk 1024) line) ≡ (
    if ltb (length line) 1023 || terminated (drop 1023 (junk 1024))
    then some (parse_args (take 1023 line))
    else if ltb max_args (ended (take 1023 line ++ drop 1023 (junk 1024)))
    then some (parse_args (take 1023 line ++ drop 1023 (junk 1024)))
    else none)
local_line_lem_example = local_line_lem (junk 1024) line (omega arith) refl

cli_execute_node-Effect_example :
    Runs 2 memory sample sample_forest nil (text "node" ∷ text "create" ∷ text "r" ∷ []) (
      cli_execute_node 10 2 memory
        (with_tree ctx sample)
        (text "node" ∷ text "create" ∷ text "r" ∷ []))
cli_execute_node-Effect_example =
    cli_execute_node-Effect 10 2 memory ctx sample sample_forest nil refl (omega arith)
      (omega arith) sample-Represents (text "node" ∷ text "create" ∷ text "r" ∷ [])
