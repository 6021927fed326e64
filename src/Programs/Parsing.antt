-- ===== src/Programs/Parsing.antt =====
-- `parse_command` of programs/phantomid.c, and `phantom_handle_command_wrapper`.
use phantomid.Common.{
  ℕ, zero, suc, ◌+◌, Bool, true, false, ◌&&◌, ◌||◌, not, [], ◌∷◌, Option, none, some, leb, ltb,
  ◌==◌, if◌then◌else◌, ◌>>=◌, length, drop,
}
use phantomid.Common.CString.{Str, Bytes, text, str_eq, strncpy}
use phantomid.Tree.Store.{Tree}
use phantomid.Interface.Command.{Command, CommandResponse, cmd_program, cmd_node, is_success}
use phantomid.Programs.{string_at}
use phantomid.Programs.Commands.{Host, Handled, handle_in}

-- `isspace`
abbrev pub is_blank : ℕ → Bool
is_blank c = c == b' ' || (leb 9 c && leb c 13)

unfoldable pub skip_blanks : Str → Str
skip_blanks [] = []
skip_blanks (c ∷ cs) = if is_blank c then skip_blanks cs else c ∷ cs

-- At most `n` characters up to a blank, and what follows.
unfoldable pub take_word : ℕ → Str → Str × Str
take_word zero s = ([], s)
take_word (suc n) [] = ([], [])
take_word (suc n) (c ∷ cs) =
    let more = take_word n cs in if is_blank c then ([], c ∷ cs) else (c ∷ more.0, more.1)

-- `%ns` of `sscanf`: blanks are skipped, and a word must follow.
unfoldable pub scan_word : ℕ → Str → Option (Str × Str)
scan_word n s = elim (skip_blanks s) [ [] ↦ none | c ∷ cs ↦ some (take_word n (c ∷ cs)) ]

-- `sscanf(cmd_str, "%31s %63s", type, source)`, where it gives 2.
unfoldable pub scan_two : Str → Option (Str × Str)
scan_two s = scan_word 31 s >>= λ first. scan_word 63 first.1 >>= λ second. some (first.0, second.0)

-- `strchr(s, ' ')`: how far it is to the first space.
unfoldable pub find_space : Str → Option ℕ
find_space [] = none
find_space (c ∷ cs) =
    let rest = find_space cs in if c == b' ' then some 0 else (rest >>= λ n. some (suc n))

-- The type of a command by its name.
unfoldable pub command_type : Str → Option ℕ
command_type name =
    if str_eq name (text "node")
    then some cmd_node
    else if str_eq name (text "program")
    then some cmd_program
    else none

abbrev pub zeros : ℕ → Bytes
zeros zero = []
zeros (suc n) = 0 ∷ zeros n

-- `Command cmd = {0}`
abbrev pub zero_command : Command
zero_command = record {
  type = 0;
  id = 0;
  source = zeros 64;
  target = zeros 64;
  payload = 0;
  data_size = 0;
}

-- The data: what stands behind the first space at or behind a place of the string at `base`; a place
-- behind the terminator is not in the string, and reading from there a fault.
unfoldable pub with_data : ℕ → Str → ℕ → Command → Option Command
with_data base s place command =
    if ltb (length s) place then none else elim (find_space (drop place s)) [
      | none ↦ some command
      | some n ↦ some (record command {
        payload = base + (place + n + 1);
        data_size = length (drop (place + n + 1) s);
      })
    ]

-- `parse_command` of a string at `base`, into the command of zeros: none is a fault.
unfoldable pub parse_command : ℕ → Str → Option (Bool × Command)
parse_command base s = elim (scan_two s) [
  | none ↦ some (false, zero_command)
  | some (name, source) ↦ elim (command_type name) [
    | none ↦ some (false, zero_command)
    | some type ↦
        with_data base s (length name + length source + 2)
          (record zero_command { type = type; source = strncpy (zeros 64) source 63 })
        >>= λ command. some (true, command)
  ]
]

-- `phantom_handle_command_wrapper`, with what `phantom_handle_command` has left, where it is called.
unfoldable pub phantom_handle_command_wrapper :
    Host → ℕ → Option Tree → Str → CommandResponse → Option (Bool × Option Handled)
phantom_handle_command_wrapper host base tree s response = parse_command base s >>= λ parsed.
    if not parsed.0
    then some (false, none)
    else (handle_in host (string_at base s) tree parsed.1 response >>= λ handled.
        some (is_success handled.status, some handled))
