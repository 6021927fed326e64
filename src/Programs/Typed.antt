-- ===== src/Programs/Typed.antt =====
-- What a typed command becomes in `parse_command` and `phantom_handle_command_wrapper` of
-- programs/phantomid.c.
use mathlib.Core.Path.{ap₂}
use phantomid.Common.{
  ℕ, zero, suc, ◌+◌, ◌≤◌, ◌<◌, ◌≡◌, refl, sym, ap, ◌∙◌, Bool, true, false, [], ◌∷◌, ◌++◌,
  append_assoc, Option, none, some, arith, ltb, ◌>>=◌, length, length-append, drop,
  drop-append_of_eq,
}
use phantomid.Common.CString.{Str, strncpy}
use phantomid.Interface.Command.{Command}
use phantomid.Common.Files.{drop-add}
use phantomid.Programs.Parsing.{
  is_blank, skip_blanks, take_word, scan_word, scan_two, find_space, command_type, zeros,
  zero_command, with_data, parse_command,
}

abbrev pub NoBlank : Str → Type 0
NoBlank [] = Unit
NoBlank (c ∷ cs) = (is_blank c ≡ false) × NoBlank cs

-- A word that `sscanf` reads whole with a width.
abbrev pub Fits : ℕ → Str → Type 0
Fits n w = (0 < length w) × (length w ≤ n) × NoBlank w

-- What may stand behind a word.
abbrev Stops : Str → Type 0
Stops [] = Unit
Stops (c ∷ cs) = is_blank c ≡ true

take_word-whole :
    (n : ℕ) (w rest : Str)
    → length w ≤ n
    → NoBlank w
    → Stops rest
    → take_word n (w ++ rest) ≡ (w, rest)
unfolding take_word
take_word-whole zero [] rest short clean stops = refl
take_word-whole zero (c ∷ w) rest short clean stops = absurd (omega (arith, short))
take_word-whole (suc n) [] [] short clean stops = refl
take_word-whole (suc n) [] (c ∷ rest) short clean stops = rw stops refl
take_word-whole (suc n) (c ∷ w) rest short (e, clean) stops =
    rw (e, take_word-whole n w rest (omega (arith, short)) clean stops) refl

scan_word-whole :
    (n : ℕ) (w rest : Str) → Fits n w → Stops rest → scan_word n (w ++ rest) ≡ some (w, rest)
unfolding scan_word skip_blanks
scan_word-whole n [] rest (some_char, short, clean) stops = absurd (omega (arith, some_char))
scan_word-whole n (c ∷ w) rest (some_char, short, (e, clean)) stops =
    rw (e, scan_word) (ap some (take_word-whole n (c ∷ w) rest short (e, clean) stops))

scan_word-blank :
    (n : ℕ) (w rest : Str)
    → Fits n w
    → Stops rest
    → scan_word n (b' ' ∷ (w ++ rest)) ≡ some (w, rest)
unfolding scan_word skip_blanks
scan_word-blank n w rest fits stops = scan_word-whole n w rest fits stops

scan_two-words :
    (name source rest : Str)
    → Fits 31 name
    → Fits 63 source
    → Stops rest
    → scan_two (name ++ b' ' ∷ (source ++ rest)) ≡ some (name, source)
unfolding scan_two
scan_two-words name source rest fits fits' stops =
    rw (scan_word-whole 31 name (b' ' ∷ (source ++ rest)) fits refl, ◌>>=◌)
      (rw (scan_word-blank 63 source rest fits' stops, ◌>>=◌) refl)

-- The command with the data that stand in the string at `base` from a place on.
abbrev pub carrying : ℕ → ℕ → ℕ → Command → Command
carrying base place size command = record command { payload = base + place; data_size = size }

-- What `parse_command` fills in before the data.
abbrev pub plain : ℕ → Str → Command
plain type source = record zero_command { type = type; source = strncpy (zeros 64) source 63 }

abbrev parse_done : Command → Option (Bool × Command)
parse_done command = some (true, command)

module _ (base type : ℕ) (name source : Str) (known : command_type name ≡ some type)
    (fits : Fits 31 name) (fits' : Fits 63 source) where
  parsed :
      (rest : Str)
      → Stops rest
      → parse_command base (name ++ b' ' ∷ (source ++ rest)) ≡ (
          with_data base
            (name ++ b' ' ∷ (source ++ rest))
            (length name + length source + 2)
            (plain type source)
          >>= λ command. some (true, command))
  unfolding parse_command
  parsed rest stops =
      rw (scan_two-words name source rest fits fits' stops, parse_command)
        (rw (known, parse_command) refl)

  -- A command string of a known type and a source, two words with one space between them, is read past its
  -- end: `parse_command` has no defined result.
  no_arguments : parse_command base (name ++ b' ' ∷ (source ++ [])) ≡ none
  unfolding with_data
  no_arguments =
      let long : ltb (length (name ++ b' ' ∷ (source ++ []))) (length name + length source + 2)
          ≡ true =
        ground (arith, length-append name (b' ' ∷ (source ++ [])), length-append source []) in
      parsed [] tt ∙ rw long refl

  behind :
      (rest : Str)
      → drop (length name + length source + 2) (name ++ b' ' ∷ (source ++ b' ' ∷ rest)) ≡ rest
  behind rest =
      let apart : name ++ b' ' ∷ (source ++ b' ' ∷ rest)
          ≡ (name ++ b' ' ∷ (source ++ b' ' ∷ [])) ++ rest =
        sym (
          append_assoc name (b' ' ∷ (source ++ b' ' ∷ [])) rest
          ∙ ap (λ s. name ++ b' ' ∷ s) (append_assoc source (b' ' ∷ []) rest)) in
      let long : length name + length source + 2 ≡ length (name ++ b' ' ∷ (source ++ b' ' ∷ [])) =
        omega (
          arith,
          length-append name (b' ' ∷ (source ++ b' ' ∷ [])),
          length-append source (b' ' ∷ []),
        ) in
      ap₂ drop long apart ∙ drop-append_of_eq (name ++ b' ' ∷ (source ++ b' ' ∷ [])) rest _ refl

  ended :
      (o : Option ℕ) (s rest : Str)
      → drop (length name + length source + 2) s ≡ rest
      → (elim o [
        | none ↦ some (plain type source)
        | some n ↦ some (record (plain type source) {
          payload = base + (length name + length source + 2 + n + 1);
          data_size = length (drop (length name + length source + 2 + n + 1) s);
        })
      ]
          >>= parse_done)
        ≡ some (
          true,
          elim o [
            | none ↦ plain type source
            | some n ↦
                carrying base
                  (length name + length source + 2 + n + 1)
                  (length (drop (n + 1) rest))
                  (plain type source)
          ],
        )
  ended none s rest e = refl
  ended (some n) s rest e =
      let far : length name + length source + 2 + n + 1
          ≡ length name + length source + 2 + (n + 1) =
        omega arith in
      let same : drop (length name + length source + 2 + n + 1) s ≡ drop (n + 1) rest =
        ap (λ k. drop k s) far
        ∙ drop-add (length name + length source + 2) (n + 1) s
        ∙ ap (drop (n + 1)) e in
      ap
        (λ xs. some (
          true,
          carrying base (length name + length source + 2 + n + 1) (length xs) (plain type source),
        ))
        same

  some_arguments :
      (rest : Str)
      → parse_command base (name ++ b' ' ∷ (source ++ b' ' ∷ rest))
        ≡ some (
          true,
          elim (find_space rest) [
            | none ↦ plain type source
            | some n ↦
                carrying base
                  (length name + length source + 2 + n + 1)
                  (length (drop (n + 1) rest))
                  (plain type source)
          ],
        )
  unfolding with_data
  some_arguments rest =
      let far : ltb (length (name ++ b' ' ∷ (source ++ b' ' ∷ rest)))
            (length name + length source + 2)
          ≡ false =
        ground (
          arith,
          length-append name (b' ' ∷ (source ++ b' ' ∷ rest)),
          length-append source (b' ' ∷ rest),
        ) in
      parsed (b' ' ∷ rest) refl
      ∙ rw (far, behind rest)
          (ended (find_space rest) (name ++ b' ' ∷ (source ++ b' ' ∷ rest)) rest (behind rest))

-- Let a command string be a known type of at most 31 characters, one space and a source of at most
-- 63, neither with a blank. Where nothing follows, `parse_command` reads behind the end of the
-- string and has no defined result. Where a space and a rest follow, it gives the type and the
-- source, and as the data what stands behind the first space of the rest, at its place in the
-- string; without a space in the rest, no data.
pub parse_command_words :
    (base type : ℕ) (name source rest : Str)
    → command_type name ≡ some type
    → Fits 31 name
    → Fits 63 source
    → (parse_command base (name ++ b' ' ∷ (source ++ [])) ≡ none)
      × (parse_command base (name ++ b' ' ∷ (source ++ b' ' ∷ rest))
          ≡ some (
            true,
            elim (find_space rest) [
              | none ↦ plain type source
              | some n ↦
                  carrying base
                    (length name + length source + 2 + n + 1)
                    (length (drop (n + 1) rest))
                    (plain type source)
            ],
          ))
parse_command_words base type name source rest known fits fits' = (
  no_arguments base type name source known fits fits',
  some_arguments base type name source known fits fits' rest,
)
