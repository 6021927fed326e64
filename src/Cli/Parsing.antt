-- ===== src/Cli/Parsing.antt =====
-- `parse_args` of runtime/cli/cli.c, with the `strtok` of the C library.
use phantomid.Common.{
  ℕ, zero, suc, Bool, ◌||◌, List, [], ◌∷◌, Option, none, some, ◌==◌, if◌then◌else◌, ◌>>=◌,
}
use phantomid.Common.CString.{Str, Bytes}

abbrev pub max_args : ℕ
max_args = 16

-- The separators " \t\n".
abbrev pub is_space : ℕ → Bool
is_space c = c == b' ' || c == b'\t' || c == b'\n'

-- Where the next token begins.
unfoldable pub skip_spaces : Str → Str
skip_spaces [] = []
skip_spaces (c ∷ cs) = if is_space c then skip_spaces cs else c ∷ cs

-- The token at the front of a text, and what comes behind the separator that ends it.
unfoldable pub span_token : Str → Str × Str
span_token [] = ([], [])
span_token (c ∷ cs) =
    let more = span_token cs in if is_space c then ([], cs) else (c ∷ more.0, more.1)

-- `strtok`: NULL, or the next token and where it goes on.
unfoldable pub strtok : Str → Option (Str × Str)
strtok rest = elim (skip_spaces rest) [ [] ↦ none | c ∷ cs ↦ some (span_token (c ∷ cs)) ]

-- The loop of `parse_args`; the number is how many arguments there is still room for.
unfoldable pub parse_loop : ℕ → Str → List Str
parse_loop zero rest = []
parse_loop (suc n) rest = elim (strtok rest) [
  | none ↦ []
  | some found ↦ found.0 ∷ parse_loop n found.1
]

unfoldable pub parse_args : Str → List Str
parse_args line = parse_loop max_args line

-- `parse_args` of an array, which may hold no terminator: a read behind its end is a fault. The text that
-- stands at a place of the array ends at the first 0.
unfoldable pub skip_in : Bytes → Option Bytes
skip_in [] = none
skip_in (c ∷ cs) = if is_space c then skip_in cs else some (c ∷ cs)

-- The token there, and what comes behind the separator that ends it.
unfoldable pub span_in : Bytes → Option (Str × Bytes)
span_in [] = none
span_in (c ∷ cs) =
    let more = span_in cs in
    if c == 0
    then some ([], c ∷ cs)
    else if is_space c
    then some ([], cs)
    else (more >>= λ found. some (c ∷ found.0, found.1))

-- `strtok`, which gives NULL at the terminator.
unfoldable pub token_in : Bytes → Option (Option (Str × Bytes))
token_in [] = none
token_in (c ∷ cs) = if c == 0 then some none else (span_in (c ∷ cs) >>= λ found. some (some found))

unfoldable pub strtok_in : Bytes → Option (Option (Str × Bytes))
strtok_in rest = skip_in rest >>= token_in

-- The loop, which calls `strtok` once more behind the last argument that there is room for.
unfoldable pub parse_array : ℕ → Bytes → Option (List Str)
parse_array zero rest = strtok_in rest >>= λ found. some []
parse_array (suc n) rest = strtok_in rest >>= λ found. elim found [
  | none ↦ some []
  | some token ↦ parse_array n token.1 >>= λ args. some (token.0 ∷ args)
]
