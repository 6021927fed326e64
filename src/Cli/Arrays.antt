-- ===== src/Cli/Arrays.antt =====
-- `parse_args` of runtime/cli/cli.c on an array with a terminator and on one without.
use mathlib.Core.Path.{subst}
use phantomid.Common.{
  ℕ, zero, suc, ◌≡◌, refl, sym, ap, ◌∙◌, ◌⊎◌, inl, inr, Bool, true, false, List, [], ◌∷◌, Option,
  none, some, arith, ltb, ◌==◌, if◌then◌else◌, ◌>>=◌, Bool-cases, ==_iff,
}
use phantomid.Common.CString.{Str, Bytes, IsStr, cstr}
use phantomid.Cli.Parsing.{
  is_space, skip_spaces, span_token, strtok, parse_loop, skip_in, span_in, token_in, strtok_in,
  parse_array,
}

-- Whether an array holds a terminator.
abbrev pub terminated : Bytes → Bool
terminated [] = false
terminated (b ∷ bs) = if b == 0 then true else terminated bs

-- How many words of a text are ended by a separator; the Boolean tells whether a word has begun.
abbrev pub ended_from : Bool → Str → ℕ
ended_from begun [] = 0
ended_from begun (c ∷ cs) =
    if is_space c
    then (if begun then suc (ended_from false cs) else ended_from false cs)
    else ended_from true cs

abbrev pub ended : Str → ℕ
ended s = ended_from false s

zero_other : (c : ℕ) → (c == 0) ≡ true → is_space c ≡ false
zero_other c e = ap is_space ((==_iff c 0).0 e)

tail_terminated :
    (c : ℕ) (cs : Bytes) → (c == 0) ≡ false → terminated (c ∷ cs) ≡ true → terminated cs ≡ true
tail_terminated c cs other t = ground (arith, other, t)

span_in-terminated :
    (arr : Bytes)
    → terminated arr ≡ true
    → (f : Str × Bytes) × (span_in arr ≡ some f)
      × (span_token (cstr arr) ≡ (f.0, cstr f.1))
      × (terminated f.1 ≡ true)
unfolding span_in span_token cstr
span_in-terminated [] t = cc
span_in-terminated (c ∷ cs) t = elim (Bool-cases (c == 0)) [
  | inl ends ↦ (([], c ∷ cs), rw ends refl, rw ends refl, rw ends refl)
  | inr other ↦ elim (Bool-cases (is_space c)) [
    | inl space ↦
        (([], cs), rw (other, space) refl, rw other (rw space refl), tail_terminated c cs other t)
    | inr char ↦
        let (f, ran, same, more) = span_in-terminated cs (tail_terminated c cs other t) in
        (
          (c ∷ f.0, f.1),
          rw (other, char, ran, ◌>>=◌) refl,
          rw other (rw char (ap (λ (x : Str × Str). (c ∷ x.0, x.1)) same)),
          more,
        )
  ]
]

-- A separator in front is passed over.
strtok_in_space : (c : ℕ) (cs : Bytes) → is_space c ≡ true → strtok_in (c ∷ cs) ≡ strtok_in cs
unfolding strtok_in skip_in
strtok_in_space c cs space = rw space refl

strtok_space : (c : ℕ) (cs : Str) → is_space c ≡ true → strtok (c ∷ cs) ≡ strtok cs
unfolding strtok skip_spaces
strtok_space c cs space = rw (space, strtok) refl

strtok_char : (c : ℕ) (cs : Str) → is_space c ≡ false → strtok (c ∷ cs) ≡ some (span_token (c ∷ cs))
unfolding strtok skip_spaces
strtok_char c cs char = rw (char, strtok) refl

cstr_other : (c : ℕ) (cs : Bytes) → (c == 0) ≡ false → cstr (c ∷ cs) ≡ c ∷ cstr cs
unfolding cstr
cstr_other c cs other = rw other refl

abbrev Agree : Option (Option (Str × Bytes)) → Option (Str × Str) → Type 0
Agree a b =
    (a ≡ some none) × (b ≡ none)
    ⊎ ((f : Str × Bytes) × (a ≡ some (some f))
        × (b ≡ some (f.0, cstr f.1))
        × (terminated f.1 ≡ true))

-- With a terminator `strtok` is that of the text in front of it.
strtok_in-terminated :
    (arr : Bytes) → terminated arr ≡ true → Agree (strtok_in arr) (strtok (cstr arr))
unfolding strtok_in skip_in token_in strtok skip_spaces cstr
strtok_in-terminated [] t = cc
strtok_in-terminated (c ∷ cs) t = elim (Bool-cases (c == 0)) [
  | inl ends ↦ let char = zero_other c ends in inl (rw (char, ◌>>=◌) (rw ends refl), rw ends refl)
  | inr other ↦ elim (Bool-cases (is_space c)) [
    | inl space ↦
        subst (Agree (strtok_in (c ∷ cs)))
          (sym (ap strtok (cstr_other c cs other) ∙ strtok_space c (cstr cs) space))
          (subst (λ a. Agree a (strtok (cstr cs))) (sym (strtok_in_space c cs space))
            (strtok_in-terminated cs (tail_terminated c cs other t)))
    | inr char ↦
        let (f, ran, same, more) = span_in-terminated (c ∷ cs) t in
        inr (
          f,
          rw (char, ◌>>=◌) (rw other (rw (ran, ◌>>=◌) refl)),
          ap strtok (cstr_other c cs other)
              ∙ strtok_char c (cstr cs) char
              ∙ ap some (ap span_token (sym (cstr_other c cs other)) ∙ same),
          more,
        )
  ]
]

pub parse_array-terminated :
    (n : ℕ) (arr : Bytes)
    → terminated arr ≡ true
    → parse_array n arr ≡ some (parse_loop n (cstr arr))
unfolding parse_array parse_loop
parse_array-terminated zero arr t = elim (strtok_in-terminated arr t) [
  | inl (over, none_left) ↦ rw (over, ◌>>=◌) refl
  | inr (f, ran, same, more) ↦ rw (ran, ◌>>=◌) refl
]
parse_array-terminated (suc n) arr t = elim (strtok_in-terminated arr t) [
  | inl (over, none_left) ↦ rw (over, ◌>>=◌) (rw (none_left, parse_loop) refl)
  | inr (f, ran, same, more) ↦
      rw (ran, ◌>>=◌) (rw (same, parse_loop) (rw (parse_array-terminated n f.1 more, ◌>>=◌) refl))
]

-- Without one it is a fault where no separator ends a word.
span_in_unended :
    (s : Str)
    → IsStr s
    → (span_in s ≡ none) × (ended_from true s ≡ 0)
      ⊎ ((f : Str × Bytes) × (span_in s ≡ some f)
          × (span_token s ≡ f)
          × (ended_from true s ≡ suc (ended f.1))
          × IsStr f.1)
unfolding span_in span_token
span_in_unended [] h = inl (refl, refl)
span_in_unended (c ∷ cs) (pos, h) =
    let other : (c == 0) ≡ false = ground (arith, pos) in
    elim (Bool-cases (is_space c)) [
      | inl space ↦ inr (([], cs), rw (other, space) refl, rw space refl, rw space refl, h)
      | inr char ↦ elim (span_in_unended cs h) [
        | inl (over, none_ended) ↦
            inl (rw (other, char) (rw (over, ◌>>=◌) refl), rw char none_ended)
        | inr (f, ran, same, count, more) ↦ inr (
          (c ∷ f.0, f.1),
          rw (other, char) (rw (ran, ◌>>=◌) refl),
          rw char (ap (λ (x : Str × Str). (c ∷ x.0, x.1)) same),
          rw char count,
          more,
        )
      ]
    ]

abbrev Counted : Option (Option (Str × Bytes)) → Option (Str × Str) → ℕ → Type 0
Counted a b n =
    (a ≡ none) × (n ≡ 0)
    ⊎ ((f : Str × Bytes) × (a ≡ some (some f)) × (b ≡ some f) × (n ≡ suc (ended f.1)) × IsStr f.1)

ended_space : (c : ℕ) (cs : Str) → is_space c ≡ true → ended (c ∷ cs) ≡ ended cs
ended_space c cs space = rw space refl

ended_char : (c : ℕ) (cs : Str) → is_space c ≡ false → ended (c ∷ cs) ≡ ended_from true (c ∷ cs)
ended_char c cs char = rw char refl

strtok_in_unended : (s : Str) → IsStr s → Counted (strtok_in s) (strtok s) (ended s)
unfolding strtok_in skip_in token_in strtok skip_spaces
strtok_in_unended [] h = inl (refl, refl)
strtok_in_unended (c ∷ cs) (pos, h) =
    let other : (c == 0) ≡ false = ground (arith, pos) in
    elim (Bool-cases (is_space c)) [
      | inl space ↦
          subst (Counted (strtok_in (c ∷ cs)) (strtok (c ∷ cs))) (sym (ended_space c cs space)) (
            subst (λ b. Counted (strtok_in (c ∷ cs)) b (ended cs)) (sym (strtok_space c cs space))
              (subst (λ a. Counted a (strtok cs) (ended cs)) (sym (strtok_in_space c cs space))
                (strtok_in_unended cs h)))
      | inr char ↦ elim (span_in_unended (c ∷ cs) (pos, h)) [
        | inl (over, none_ended) ↦
            inl (
              rw (char, ◌>>=◌) (rw other (rw (over, ◌>>=◌) refl)),
              ended_char c cs char ∙ none_ended,
            )
        | inr (f, ran, same, count, more) ↦ inr (
          f,
          rw (char, ◌>>=◌) (rw other (rw (ran, ◌>>=◌) refl)),
          strtok_char c cs char ∙ ap some same,
          ended_char c cs char ∙ count,
          more,
        )
      ]
    ]

one_more :
    (n m : ℕ) (token : Str) (args : List Str)
    → ((if ltb n m then some args else none) >>= λ (more : List Str). some (token ∷ more))
      ≡ (if ltb (suc n) (suc m) then some (token ∷ args) else none)
one_more n m token args =
    let same : ltb (suc n) (suc m) ≡ ltb n m = ground arith in
    elim (Bool-cases (ltb n m)) [
      | inl less ↦ rw (same, less) refl
      | inr more ↦ rw (same, more) refl
    ]

pub parse_array_unended :
    (n : ℕ) (s : Str)
    → IsStr s
    → parse_array n s ≡ (if ltb n (ended s) then some (parse_loop n s) else none)
unfolding parse_array parse_loop
parse_array_unended zero s h = elim (strtok_in_unended s h) [
  | inl (over, none_ended) ↦ rw (over, ◌>>=◌) (rw none_ended refl)
  | inr (f, ran, same, count, more) ↦ rw (ran, ◌>>=◌) (rw count (ground arith))
]
parse_array_unended (suc n) s h = elim (strtok_in_unended s h) [
  | inl (over, none_ended) ↦ rw (over, ◌>>=◌) (rw none_ended (ground arith))
  | inr (f, ran, same, count, more) ↦
      rw (ran, ◌>>=◌)
        (rw (same, parse_loop)
          (rw count
            (rw (parse_array_unended n f.1 more) (one_more n (ended f.1) f.0 (parse_loop n f.1)))))
]

-- Without a terminator all bytes are characters.
pub unended-IsStr : (s : Bytes) → terminated s ≡ false → IsStr s
unended-IsStr [] e = tt
unended-IsStr (b ∷ bs) e = ground (arith, unended-IsStr bs)
