-- ===== src/Common/CString.antt =====
-- The string functions of the C library that the program calls, over bytes. A character array is
-- the list of all its bytes; a C string is the list of its bytes before the terminator.
use Prim.Native.Nat.{ℕ, zero, suc, ◌<◌}
use Prim.Native.Char.{code}
use Prim.Native.String.{String}
use mathlib.Core.Path.{◌≡◌, refl, ap}
use mathlib.Core.Logic.{◌↔◌}
use mathlib.Core.Bool.{Bool, true, false, ◌&&◌}
use mathlib.Core.List.{List, [], ◌∷◌}
use native.Mathlib.Omega.{arith}
use phantomid.Common.Tests.{◌==◌, if◌then◌else◌}
use phantomid.Common.Lists.{length, take, drop}

abbrev pub Str : Type 0
Str = List ℕ

abbrev pub Bytes : Type 0
Bytes = List ℕ

-- The bytes of a literal.
abbrev pub text : String → Str
text String.[] = []
text (String.◌∷◌ c s) = code c ∷ text s

-- `strcmp(a, b) == 0`
unfoldable pub str_eq : Str → Str → Bool
str_eq [] [] = true
str_eq [] (y ∷ ys) = false
str_eq (x ∷ xs) [] = false
str_eq (x ∷ xs) (y ∷ ys) = x == y && str_eq xs ys

pub str_eq_iff : (a b : Str) → (str_eq a b ≡ true) ↔ (a ≡ b)
unfolding str_eq
str_eq_iff [] [] = ground arith
str_eq_iff [] (y ∷ ys) = ground arith
str_eq_iff (x ∷ xs) [] = ground arith
str_eq_iff (x ∷ xs) (y ∷ ys) = ground (arith, str_eq_iff xs ys)

pub str_eq_self : (a : Str) → str_eq a a ≡ true
str_eq_self a = (str_eq_iff a a).1 refl

-- The string that stands at the start of an array.
unfoldable pub cstr : Bytes → Str
cstr [] = []
cstr (b ∷ bs) = if b == 0 then [] else b ∷ cstr bs

-- A string holds no terminator.
abbrev pub IsStr : Str → Type 0
IsStr [] = Unit
IsStr (c ∷ cs) = (0 < c) × IsStr cs

-- `strncpy(dst, src, n)`: the first `n` bytes of `src`, filled up by zeros; the rest of `dst` stays.
unfoldable pub strncpy : Bytes → Str → ℕ → Bytes
strncpy [] src n = []
strncpy (d ∷ dst) src zero = d ∷ dst
strncpy (d ∷ dst) [] (suc n) = 0 ∷ strncpy dst [] n
strncpy (d ∷ dst) (c ∷ src) (suc n) = c ∷ strncpy dst src n

pub length-strncpy : (dst : Bytes) (src : Str) (n : ℕ) → length (strncpy dst src n) ≡ length dst
unfolding strncpy
length-strncpy [] src n = refl
length-strncpy (d ∷ dst) src zero = refl
length-strncpy (d ∷ dst) [] (suc n) = ap suc (length-strncpy dst [] n)
length-strncpy (d ∷ dst) (c ∷ src) (suc n) = ap suc (length-strncpy dst src n)

-- Copying the same string twice is copying it once.
pub strncpy-strncpy :
    (dst : Bytes) (src : Str) (n : ℕ) → strncpy (strncpy dst src n) src n ≡ strncpy dst src n
unfolding strncpy
strncpy-strncpy [] src n = refl
strncpy-strncpy (d ∷ dst) src zero = refl
strncpy-strncpy (d ∷ dst) [] (suc n) = ap (◌∷◌ 0) (strncpy-strncpy dst [] n)
strncpy-strncpy (d ∷ dst) (c ∷ src) (suc n) = ap (◌∷◌ c) (strncpy-strncpy dst src n)

-- Where the byte after the copied ones is the terminator, the array holds the string, cut at `n`.
pub cstr-strncpy :
    (dst : Bytes) (src : Str) (n : ℕ)
    → IsStr src
    → n < length dst
    → cstr (drop n dst) ≡ []
    → cstr (strncpy dst src n) ≡ take n src
unfolding strncpy cstr
cstr-strncpy [] src n s h z = absurd (omega arith)
cstr-strncpy (d ∷ dst) src zero s h z = z
cstr-strncpy (d ∷ dst) [] (suc n) s h z = refl
cstr-strncpy (d ∷ dst) (c ∷ src) (suc n) s h z = ground (arith, cstr-strncpy dst src n s.1)
