-- ===== src/Programs/Tests.antt =====
-- programs/ on small inputs.
use phantomid.Common.{
  ℕ, ◌+◌, ◌+◌, ◌≡◌, refl, true, false, inr, [], ◌∷◌, none, some, arith, ◌==◌, if◌then◌else◌, ◌>>=◌,
  length, drop,
}
use phantomid.Common.CString.{text, str_eq, strncpy}
use phantomid.Tree.Store.{null, Node, Tree}
use phantomid.Tree.Forest.{Forest, nil, tree}
use phantomid.Tree.Invariant.{Represents}
use phantomid.Interface.Command.{Command, CommandResponse, invalid, is_success, success, cmd_node}
use phantomid.Programs.{Strings}
use phantomid.Programs.Commands.{Host, Handled, create_under, handle_in}
use phantomid.Programs.Parsing.{
  find_space, command_type, zeros, parse_command, phantom_handle_command_wrapper,
}
use phantomid.Programs.Effect.{Effect}
use phantomid.Programs.Effects.{handle_in-Effect}
use phantomid.Programs.Typed.{Fits, plain, carrying, parse_command_words}
use phantomid.Interface.Message.{Message}
use phantomid.Programs.Messages.{Peers, zero_message}
use phantomid.Programs.Reception.{Reception}
use phantomid.Programs.Bare.{phantom_handle_command_wrapper_bare}

abbrev root_node : Node
root_node = record {
  id = b'r' ∷ [];
  creation_time = 7;
  is_root = true;
  is_active = true;
  parent = null;
  children = [];
  max_children = 2;
  user_data = null;
}

abbrev sample : Tree
sample = record {
  heap = λ p. if p == 1 then some root_node else none;
  root = 1;
  total_nodes = 1;
  counter = 1;
}

abbrev sample_forest : Forest
sample_forest = tree 1 root_node nil nil

sample-Represents : Represents sample sample_forest nil
sample-Represents = record {
  rooted = refl;
  held = ground arith;
  parents = ground arith;
  distinct = λ a. ground arith;
  fits = omega arith;
  only = λ a e. ground arith;
  total = refl;
}

abbrev host : Host
host = record {
  fuel = 10;
  max_children = 2;
  memory = record { node = 5; array = true; created = 8; stamped = 8 };
  copy = 900;
  status = 901;
}

abbrev strings : Strings
strings p = if p == 40 then some (text "r") else none

abbrev create_r : Command
create_r = record {
  type = cmd_node;
  id = 1;
  source = strncpy (zeros 64) (text "create") 63;
  target = zeros 64;
  payload = 40;
  data_size = 1;
}

abbrev response : CommandResponse
response = record { command_id = 0; status = success; payload = 0; data_size = 0 }

handle_in-Effect_example :
    (h : Handled) × (handle_in host strings (some sample) create_r response ≡ some h)
    × Effect host strings sample create_r response sample_forest nil h
handle_in-Effect_example =
    handle_in-Effect host strings sample create_r response sample_forest nil refl (omega arith)
      (omega arith) sample-Represents (inr (text "r", refl))

node_Fits : Fits 31 (text "node")
node_Fits = (omega arith, omega arith, (refl, (refl, (refl, (refl, tt)))))

delete_Fits : Fits 63 (text "delete")
delete_Fits = (omega arith, omega arith, (refl, (refl, (refl, (refl, (refl, (refl, tt)))))))

node_known : command_type (text "node") ≡ some cmd_node
unfolding command_type str_eq
node_known = refl

parse_command_words_example :
    (parse_command 40 (text "node delete") ≡ none)
    × (parse_command 40 (text "node delete now r")
        ≡ some (
          true,
          elim (find_space (text "now r")) [
            | none ↦ plain cmd_node (text "delete")
            | some n ↦
                carrying 40
                  (4 + 6 + 2 + n + 1)
                  (length (drop (n + 1) (text "now r")))
                  (plain cmd_node (text "delete"))
          ],
        ))
parse_command_words_example =
    parse_command_words 40 cmd_node (text "node") (text "delete") (text "now r") node_known
      node_Fits delete_Fits

bare_r : find_space (text "r") ≡ none
unfolding find_space
bare_r = refl

phantom_handle_command_wrapper_bare_example :
    (phantom_handle_command_wrapper host 40 (some sample) (text "node create r") response ≡ (
      create_under host (some sample) none response >>= λ handled.
      some (is_success handled.status, some handled)))
    × (phantom_handle_command_wrapper host 40 (some sample) (text "node delete r") response
        ≡ some (
          false,
          some (record {
            status = invalid;
            response = response;
            tree = some sample;
            written = none;
          }),
        ))
phantom_handle_command_wrapper_bare_example =
    phantom_handle_command_wrapper_bare host 40 (some sample) (text "r") response bare_r

-- The rest of the world is the number of the messages sent.
abbrev peers : Peers ℕ
peers = record {
  node_created = 5;
  node_deleted = 6;
  state_size = 8;
  can_communicate = λ t a b. true;
  broadcast = λ w message. w + 1;
  send = λ w target message. w + 1;
  set_network = λ w state. (true, w);
  read = λ address n. none;
}

-- The root creates a node below itself.
abbrev creation : Message
creation = record zero_message { type = 5; source = strncpy (zeros 64) (text "r") 63 }
