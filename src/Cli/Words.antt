-- ===== src/Cli/Words.antt =====
-- `parse_args` of runtime/cli/cli.c against the words of a line, read in one pass.
use phantomid.Common.{
  ℕ, zero, suc, ◌≤◌, ◌≡◌, refl, sym, ap, ◌∙◌, ◌≢◌, inl, inr, true, false, List, [], ◌∷◌, ◌++◌,
  append-nil, append_assoc, Option, none, some, arith, if◌then◌else◌, Bool-cases, Option-cases,
  length, length-take, take,
}
use phantomid.Common.CString.{Str}
use phantomid.Cli.Parsing.{
  max_args, is_space, skip_spaces, span_token, strtok, parse_loop, parse_args,
}

-- A word that has ended, if there is one.
abbrev pub finished : Str → List Str → List Str
finished [] ws = ws
finished (c ∷ cs) ws = (c ∷ cs) ∷ ws

-- The words of a line, behind the characters of the current one.
abbrev pub words_from : Str → Str → List Str
words_from word [] = finished word []
words_from word (c ∷ cs) =
    if is_space c then finished word (words_from [] cs) else words_from (word ++ c ∷ []) cs

abbrev pub words : Str → List Str
words line = words_from [] line

words-skip_spaces : (s : Str) → words (skip_spaces s) ≡ words s
unfolding skip_spaces
words-skip_spaces [] = refl
words-skip_spaces (c ∷ cs) = elim (Bool-cases (is_space c)) [
  | inl space ↦ rw space (words-skip_spaces cs)
  | inr other ↦ rw other (rw other refl)
]

skip_spaces-head : (s : Str) {c : ℕ} {cs : Str} → skip_spaces s ≡ c ∷ cs → is_space c ≡ false
unfolding skip_spaces
skip_spaces-head [] e = cc
skip_spaces-head (d ∷ ds) {c} {cs} e = elim (Bool-cases (is_space d)) [
  | inl space ↦ skip_spaces-head ds (sym (rw space refl) ∙ e)
  | inr other ↦
      let whole : d ∷ ds ≡ c ∷ cs = sym (rw other refl) ∙ e in
      let same : c ≡ d = cc in ap is_space same ∙ other
]

words-span_token :
    (b : ℕ) (word s : Str)
    → words_from (b ∷ word) s ≡ (b ∷ (word ++ (span_token s).0)) ∷ words (span_token s).1
unfolding span_token
words-span_token b word [] = ap (λ (w : Str). (b ∷ w) ∷ []) (sym (append-nil word))
words-span_token b word (c ∷ cs) = elim (Bool-cases (is_space c)) [
  | inl space ↦ rw space (ap (λ (w : Str). (b ∷ w) ∷ words cs) (sym (append-nil word)))
  | inr other ↦ rw other (
      words-span_token b (word ++ c ∷ []) cs
      ∙ ap (λ (w : Str). (b ∷ w) ∷ words (span_token cs).1)
          (append_assoc word (c ∷ []) (span_token cs).0))
]

-- `strtok` gives the first word and leaves a text with the other words.
abbrev by_token : Option (Str × Str) → List Str
by_token none = []
by_token (some found) = found.0 ∷ words found.1

-- A text that is empty or begins with a word.
token_at :
    (r : Str)
    → ((c : ℕ) (cs : Str) → r ≡ c ∷ cs → is_space c ≡ false)
    → by_token
        (elim r as (λ x. Option (Str × Str)) [ [] ↦ none | c ∷ cs ↦ some (span_token (c ∷ cs)) ])
      ≡ words r
unfolding span_token
token_at [] h = refl
token_at (c ∷ cs) h =
    let other : is_space c ≡ false = h c cs refl in rw other (sym (words-span_token c [] cs))

strtok-words : (s : Str) → by_token (strtok s) ≡ words s
unfolding strtok
strtok-words s = token_at (skip_spaces s) (λ c cs e. skip_spaces-head s e) ∙ words-skip_spaces s

parse_loop-words : (n : ℕ) (s : Str) → parse_loop n s ≡ take n (words s)
unfolding parse_loop
parse_loop-words zero s = refl
parse_loop-words (suc n) s = elim (Option-cases (strtok s)) [
  | inl e ↦ rw (e, parse_loop) (ap (take (suc n)) (sym (ap by_token e) ∙ strtok-words s))
  | inr (found, e) ↦
      rw (e, parse_loop)
        (ap (λ (ws : List Str). found.0 ∷ ws) (parse_loop-words n found.1)
          ∙ ap (take (suc n)) (sym (ap by_token e) ∙ strtok-words s))
]

-- `parse_args` gives the first 16 of the words that a reading of the line in one pass finds.
pub parse_args-words : (line : Str) → parse_args line ≡ take max_args (words line)
unfolding parse_args
parse_args-words line = parse_loop-words max_args line

-- A word: some characters, none of them a separator.
abbrev pub NoSpace : Str → Type 0
NoSpace [] = Unit
NoSpace (c ∷ cs) = (is_space c ≡ false) × NoSpace cs

abbrev pub Spaces : Str → Type 0
Spaces [] = Unit
Spaces (c ∷ cs) = (is_space c ≡ true) × Spaces cs

abbrev pub IsWord : Str → Type 0
IsWord w = (w ≢ []) × NoSpace w

abbrev pub AllWords : List Str → Type 0
AllWords [] = Unit
AllWords (w ∷ ws) = IsWord w × AllWords ws

NoSpace-snoc : (w : Str) (c : ℕ) → NoSpace w → is_space c ≡ false → NoSpace (w ++ c ∷ [])
NoSpace-snoc [] c h e = (e, tt)
NoSpace-snoc (b ∷ w) c (x, h) e = (x, NoSpace-snoc w c h e)

finished-AllWords : (w : Str) (ws : List Str) → NoSpace w → AllWords ws → AllWords (finished w ws)
finished-AllWords [] ws h hs = hs
finished-AllWords (c ∷ cs) ws h hs = (((λ e. cc (e)), h), hs)

words_from-AllWords : (w s : Str) → NoSpace w → AllWords (words_from w s)
words_from-AllWords w [] h = finished-AllWords w [] h tt
words_from-AllWords w (c ∷ cs) h = elim (Bool-cases (is_space c)) [
  | inl space ↦ rw space (finished-AllWords w (words cs) h (words_from-AllWords [] cs tt))
  | inr other ↦ rw other (words_from-AllWords (w ++ c ∷ []) cs (NoSpace-snoc w c h other))
]

take-AllWords : (n : ℕ) (ws : List Str) → AllWords ws → AllWords (take n ws)
take-AllWords zero ws h = tt
take-AllWords (suc n) [] h = tt
take-AllWords (suc n) (w ∷ ws) (x, h) = (x, take-AllWords n ws h)

-- `parse_args` fills at most 16 arguments, each of at least one character and none of a separator.
pub parse_args-AllWords :
    (line : Str) → AllWords (parse_args line) × (length (parse_args line) ≤ max_args)
parse_args-AllWords line = rw (parse_args-words line) (
  take-AllWords max_args (words line) (words_from-AllWords [] line tt),
  omega (arith, length-take max_args (words line)),
)

-- A word in a line, the separator that ends it and those that follow.
pub record Piece : Type 0 where
  pub word : Str
  pub ends : ℕ
  pub gap : Str

abbrev pub IsPiece : Piece → Type 0
IsPiece p = IsWord p.word × (is_space p.ends ≡ true) × Spaces p.gap

abbrev pub AllPieces : List Piece → Type 0
AllPieces [] = Unit
AllPieces (p ∷ ps) = IsPiece p × AllPieces ps

abbrev pub spaced : List Piece → Str
spaced [] = []
spaced (p ∷ ps) = p.word ++ p.ends ∷ (p.gap ++ spaced ps)

abbrev pub words_of : List Piece → List Str
words_of [] = []
words_of (p ∷ ps) = p.word ∷ words_of ps

words-Spaces : (g s : Str) → Spaces g → words (g ++ s) ≡ words s
words-Spaces [] s h = refl
words-Spaces (c ∷ g) s (e, h) = rw e (words-Spaces g s h)

words_from-NoSpace : (w v s : Str) → NoSpace v → words_from w (v ++ s) ≡ words_from (w ++ v) s
words_from-NoSpace w [] s h = ap (λ (x : Str). words_from x s) (sym (append-nil w))
words_from-NoSpace w (c ∷ v) s (e, h) = rw e (
    words_from-NoSpace (w ++ c ∷ []) v s h
    ∙ ap (λ (x : Str). words_from x s) (append_assoc w (c ∷ []) v))

finished_some : (w : Str) (ws : List Str) → w ≢ [] → finished w ws ≡ w ∷ ws
finished_some [] ws h = absurd (h refl)
finished_some (c ∷ cs) ws h = refl

words-spaced : (ps : List Piece) → AllPieces ps → words (spaced ps) ≡ words_of ps
words-spaced [] h = refl
words-spaced (p ∷ ps) (((some_char, no_space), ends, gap), h) =
    words_from-NoSpace [] p.word (p.ends ∷ (p.gap ++ spaced ps)) no_space
    ∙ rw ends (
        finished_some p.word (words (p.gap ++ spaced ps)) some_char
        ∙ ap (λ (ws : List Str). p.word ∷ ws)
            (words-Spaces p.gap (spaced ps) gap ∙ words-spaced ps h))

-- A line that is made of words, each ended by a separator, and of any number of separators in front
-- and behind each, is parsed into these words, the first 16 of them.
pub parse_args-spaced :
    (front : Str) (ps : List Piece)
    → Spaces front
    → AllPieces ps
    → parse_args (front ++ spaced ps) ≡ take max_args (words_of ps)
parse_args-spaced front ps spaces pieces =
    parse_args-words (front ++ spaced ps)
    ∙ ap (take max_args) (words-Spaces front (spaced ps) spaces ∙ words-spaced ps pieces)
