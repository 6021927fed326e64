-- ===== src/Cli/Line.antt =====
-- The local array of `cli_process_command` of runtime/cli/cli.c, which is not initialised.
use phantomid.Common.{
  ℕ, zero, suc, ◌≤◌, ◌≡◌, refl, ap, ◌∙◌, inl, inr, Bool, true, false, ◌||◌, ◌++◌, [], ◌∷◌, none,
  some, arith, ltb, ◌==◌, if◌then◌else◌, Bool-cases, length, length-drop, take, drop,
}
use phantomid.Common.CString.{Str, Bytes, IsStr, cstr, strncpy}
use phantomid.Cli.Parsing.{max_args, parse_args, parse_array}
use phantomid.Cli.Process.{local_line}
use phantomid.Cli.Arrays.{
  terminated, ended, parse_array-terminated, parse_array_unended, unended-IsStr,
}

strncpy_zero : (junk : Bytes) (s : Str) → strncpy junk s 0 ≡ junk
unfolding strncpy
strncpy_zero [] s = refl
strncpy_zero (d ∷ ds) s = refl

nil_of_length : (s : Str) → length s ≡ 0 → s ≡ []
nil_of_length [] e = refl
nil_of_length (c ∷ cs) e = absurd (omega (arith, e))

terminated-strncpy :
    (junk : Bytes) (s : Str) (n : ℕ)
    → IsStr s
    → n ≤ length junk
    → terminated (strncpy junk s n) ≡ (ltb (length s) n || terminated (drop n junk))
unfolding strncpy
terminated-strncpy junk s zero is h = ap terminated (strncpy_zero junk s) ∙ ground arith
terminated-strncpy [] s (suc n) is h = absurd (omega (arith, h))
terminated-strncpy (d ∷ ds) [] (suc n) is h = ground arith
terminated-strncpy (d ∷ ds) (c ∷ cs) (suc n) (pos, is) h =
    ground (arith, terminated-strncpy ds cs n is (omega arith))

cstr-strncpy_line :
    (junk : Bytes) (s : Str) (n : ℕ)
    → IsStr s
    → n ≤ length junk
    → (ltb (length s) n || (length (cstr (drop n junk)) == 0)) ≡ true
    → cstr (strncpy junk s n) ≡ take n s
unfolding cstr strncpy
cstr-strncpy_line junk s zero is h e =
    ap cstr (strncpy_zero junk s) ∙ nil_of_length (cstr junk) (ground arith)
cstr-strncpy_line [] s (suc n) is h e = absurd (omega (arith, h))
cstr-strncpy_line (d ∷ ds) [] (suc n) is h e = refl
cstr-strncpy_line (d ∷ ds) (c ∷ cs) (suc n) (pos, is) h e =
    ground (arith, cstr-strncpy_line ds cs n is)

-- One byte that is a terminator is the empty string.
last_byte : (bytes : Bytes) → length bytes ≡ 1 → terminated bytes ≡ true → length (cstr bytes) ≡ 0
unfolding cstr
last_byte [] e t = refl
last_byte (b ∷ []) e t = ground arith
last_byte (b ∷ c ∷ bs) e t = absurd (omega (arith, e))

-- A long command fills the array in front of the place `n`.
strncpy_long :
    (junk : Bytes) (s : Str) (n : ℕ)
    → n ≤ length s
    → n ≤ length junk
    → strncpy junk s n ≡ take n s ++ drop n junk
unfolding strncpy
strncpy_long junk s zero h k = strncpy_zero junk s
strncpy_long [] s (suc n) h k = absurd (omega (arith, k))
strncpy_long (d ∷ ds) [] (suc n) h k = absurd (omega (arith, h))
strncpy_long (d ∷ ds) (c ∷ cs) (suc n) h k =
    ap (λ xs. c ∷ xs) (strncpy_long ds cs n (omega (arith, h)) (omega (arith, k)))

-- Let the local array have 1024 bytes. A command of at most 1022 bytes is read whole, and of a
-- longer one the first 1023 bytes are read, where the last byte of the array, which nothing has
-- written, is a terminator. Else the words come from these 1023 bytes and the last byte where more
-- than 16 words in them end in a separator, since the reading stops there, and otherwise the
-- reading runs out of the array.
pub local_line_lem :
    (junk : Bytes) (command : Str)
    → IsStr command
    → length junk ≡ 1024
    → parse_array max_args (local_line junk command) ≡ (
        if ltb (length command) 1023 || terminated (drop 1023 junk)
        then some (parse_args (take 1023 command))
        else if ltb max_args (ended (take 1023 command ++ drop 1023 junk))
        then some (parse_args (take 1023 command ++ drop 1023 junk))
        else none)
unfolding local_line parse_args
local_line_lem junk command is size =
    let found = terminated-strncpy junk command 1023 is (omega (arith, size)) in
    elim (Bool-cases (ltb (length command) 1023 || terminated (drop 1023 junk))) [
      | inl read ↦
          parse_array-terminated max_args (strncpy junk command 1023) (found ∙ read)
          ∙ rw read (
              ap (λ (s : Str). some (parse_args s))
                (cstr-strncpy_line junk command 1023 is (omega (arith, size)) (
                  read_line (ltb (length command) 1023) (terminated (drop 1023 junk))
                    (length (cstr (drop 1023 junk))) read
                    (last_byte (drop 1023 junk) (omega (arith, size, length-drop 1023 junk))))))
      | inr lost ↦
          let long : strncpy junk command 1023 ≡ take 1023 command ++ drop 1023 junk =
            strncpy_long junk command 1023 (long_command (length command) 1023 _ lost)
              (omega (arith, size)) in
          parse_array_unended max_args (strncpy junk command 1023)
            (unended-IsStr (strncpy junk command 1023) (found ∙ lost))
          ∙ rw (lost, long) refl
    ]
  where
    read_line : (a b : Bool) (n : ℕ) → (a || b) ≡ true → (b ≡ true → n ≡ 0) → (a || (n == 0)) ≡ true
    read_line a b n e h = ground (arith, h)

    long_command : (n m : ℕ) (b : Bool) → (ltb n m || b) ≡ false → m ≤ n
    long_command n m b e = ground (arith, e)
