-- ===== src/Programs/Bare.antt =====
-- `node create ID` and `node delete ID`, typed as programs/phantomid.c reads them.
use phantomid.Common.{
  ℕ, ◌≡◌, refl, ap, ◌∙◌, Bool, true, false, ◌∷◌, ◌++◌, Option, none, some, arith, ◌>>=◌,
}
use phantomid.Common.CString.{Str, text, strncpy, cstr, str_eq}
use phantomid.Tree.Store.{Tree}
use phantomid.Interface.Command.{CommandResponse, invalid, is_success, cmd_node}
use phantomid.Programs.{Strings, string_at}
use phantomid.Programs.Commands.{
  Host, Handled, answer, parent_argument, create_under, handle_create_command,
  handle_delete_command, handle_in,
}
use phantomid.Programs.Parsing.{
  find_space, command_type, parse_command, phantom_handle_command_wrapper,
}
use phantomid.Programs.Typed.{Fits, plain, parse_command_words}

known_node : command_type (text "node") ≡ some cmd_node
known_node = unfold command_type str_eq in refl

node_Fits : Fits 31 (text "node")
node_Fits = (omega arith, omega arith, (refl, (refl, (refl, (refl, tt)))))

create_Fits : Fits 63 (text "create")
create_Fits = (omega arith, omega arith, (refl, (refl, (refl, (refl, (refl, (refl, tt)))))))

delete_Fits : Fits 63 (text "delete")
delete_Fits = (omega arith, omega arith, (refl, (refl, (refl, (refl, (refl, (refl, tt)))))))

-- A command for the nodes with one id behind it, in which no space stands.
bare_id :
    (base : ℕ) (source node_id : Str)
    → Fits 63 source
    → find_space node_id ≡ none
    → parse_command base (text "node" ++ b' ' ∷ (source ++ b' ' ∷ node_id))
      ≡ some (true, plain cmd_node source)
bare_id base source node_id fits bare =
    (parse_command_words base cmd_node (text "node") source node_id known_node node_Fits fits).1
    ∙ rw bare refl

-- What the two commands run, where no data are passed on.
plain_create :
    (host : Host) (strings : Strings) (tree : Option Tree) (response : CommandResponse)
    → handle_in host strings tree (plain cmd_node (text "create")) response
      ≡ create_under host tree none response
unfolding handle_in handle_create_command parent_argument cstr strncpy str_eq
plain_create host strings tree response = refl

plain_delete :
    (host : Host) (strings : Strings) (tree : Option Tree) (response : CommandResponse)
    → handle_in host strings tree (plain cmd_node (text "delete")) response
      ≡ answer invalid response tree
unfolding handle_in handle_delete_command cstr strncpy str_eq
plain_delete host strings tree response = refl

abbrev run : Option Handled → Option (Bool × Option Handled)
run o = o >>= λ handled. some (is_success handled.status, some handled)

-- The wrapper does not pass on an id that stands alone behind the source: with no space in it,
-- `node create ID` is a creation under the parent NULL, and `node delete ID` is refused as invalid
-- and returns false, with the tree unchanged.
pub phantom_handle_command_wrapper_bare :
    (host : Host) (base : ℕ) (tree : Option Tree) (node_id : Str) (response : CommandResponse)
    → find_space node_id ≡ none
    → (phantom_handle_command_wrapper host base tree (text "node create " ++ node_id) response ≡ (
        create_under host tree none response >>= λ handled.
        some (is_success handled.status, some handled)))
      × (phantom_handle_command_wrapper host base tree (text "node delete " ++ node_id) response
          ≡ some (
            false,
            some (record { status = invalid; response = response; tree = tree; written = none }),
          ))
unfolding phantom_handle_command_wrapper
phantom_handle_command_wrapper_bare host base tree node_id response bare = (
  rw (bare_id base (text "create") node_id create_Fits bare, ◌>>=◌)
      (ap run (plain_create host (string_at base (text "node create " ++ node_id)) tree response)),
  rw (bare_id base (text "delete") node_id delete_Fits bare, ◌>>=◌)
      (ap run (plain_delete host (string_at base (text "node delete " ++ node_id)) tree response)),
)
