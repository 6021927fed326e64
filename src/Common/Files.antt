-- ===== src/Common/Files.antt =====
-- The streams of the C library that the program uses to save and to load.
use mathlib.Core.Path.{◌≡◌, refl, ap, ap₂, ◌∙◌}
use Prim.Native.Nat.{ℕ, zero, suc, ◌+◌, ◌≤◌}
use mathlib.Core.Bool.{Bool, true, false}
use mathlib.Core.List.{[], ◌∷◌, ◌++◌, append-nil}
use native.Mathlib.Omega.{arith}
use phantomid.Common.Tests.{if◌then◌else◌}
use phantomid.Common.Lists.{length, length-append, take, drop, drop-append_of_eq, take_all}
use phantomid.Common.CString.{Bytes}

-- A stream: the bytes of the file, the position, and whether the mode lets one read. A read from a
-- stream that was opened for writing fails, so it gives no bytes.
pub record File : Type 0 where
  pub content : Bytes
  pub position : ℕ
  pub readable : Bool

-- `fopen(_, "wb")`
abbrev pub open_wb : File
open_wb = record { content = []; position = 0; readable = false }

-- `fopen(_, "rb")` of a file that is there.
abbrev pub open_rb : Bytes → File
open_rb bytes = record { content = bytes; position = 0; readable = true }

unfoldable pub fwrite : File → Bytes → File
fwrite file bytes = record file {
  content =
      take file.position file.content ++ bytes ++ drop (file.position + length bytes) file.content;
  position = file.position + length bytes;
}

unfoldable pub fread : File → ℕ → Bytes × File
fread file n =
    if file.readable
    then (
      take n (drop file.position file.content),
      record file { position = file.position + length (take n (drop file.position file.content)) },
    )
    else ([], file)

abbrev pub fseek : File → ℕ → File
fseek file n = record file { position = n }

drop_all : (n : ℕ) (bytes : Bytes) → length bytes ≤ n → drop n bytes ≡ []
drop_all zero [] h = refl
drop_all zero (b ∷ bs) h = absurd (omega (arith, h))
drop_all (suc n) [] h = refl
drop_all (suc n) (b ∷ bs) h = drop_all n bs (omega (arith, h))

-- A write at the end appends, and one of the front of the file leaves it.
pub fwrite_end :
    (file : File) (bytes : Bytes)
    → file.position ≡ length file.content
    → (fwrite file bytes).content ≡ file.content ++ bytes
unfolding fwrite
fwrite_end file bytes e =
    ap₂ (λ xs ys. xs ++ bytes ++ ys) (take_all file.content file.position (omega (arith, e)))
      (drop_all (file.position + length bytes) file.content (omega (arith, e)))
    ∙ append-nil (file.content ++ bytes)

pub fwrite_front :
    (file : File) (old front rest : Bytes)
    → length old ≡ length front
    → file.content ≡ old ++ rest
    → (fwrite (fseek file 0) front).content ≡ front ++ rest
unfolding fwrite
fwrite_front file old front rest same e =
    let n : 0 + length front ≡ length front = omega arith in
    ap₂ (λ k bs. front ++ drop k bs) n e
    ∙ ap (λ xs. front ++ xs) (drop-append_of_eq old rest (length front) same)

-- A stream that is at its end stays there under writes, and keeps what it has in front.
abbrev pub AtEnd : File → Type 0
AtEnd file = file.position ≡ length file.content

pub fwrite-AtEnd : (file : File) (bytes : Bytes) → AtEnd file → AtEnd (fwrite file bytes)
unfolding fwrite
fwrite-AtEnd file bytes e =
    omega (arith, e, ap length (fwrite_end file bytes e), length-append file.content bytes)

drop_nil : (n : ℕ) → drop {A = ℕ} n [] ≡ []
drop_nil zero = refl
drop_nil (suc n) = refl

pub drop-add : (p m : ℕ) (bytes : Bytes) → drop (p + m) bytes ≡ drop m (drop p bytes)
drop-add zero m bytes = ap (λ n. drop n bytes) (omega arith)
drop-add (suc p) zero [] = drop_nil (suc p + 0)
drop-add (suc p) (suc m) [] = drop_nil (suc p + suc m)
drop-add (suc p) m (b ∷ bs) =
    let e : suc p + m ≡ suc (p + m) = omega arith in ap (λ n. drop n (b ∷ bs)) e ∙ drop-add p m bs

drop_taken : (n : ℕ) (bytes : Bytes) → drop (length (take n bytes)) bytes ≡ drop n bytes
drop_taken zero bytes = refl
drop_taken (suc n) [] = refl
drop_taken (suc n) (b ∷ bs) = drop_taken n bs

-- A read gives the next bytes, as many as there are, and leaves the stream behind them.
pub fread_lem :
    (file : File) (n : ℕ) (rest : Bytes)
    → file.readable ≡ true
    → drop file.position file.content ≡ rest
    → ((fread file n).0 ≡ take n rest)
      × ((fread file n).1.readable ≡ true)
      × (drop (fread file n).1.position (fread file n).1.content ≡ drop n rest)
unfolding fread
fread_lem file n rest readable is =
    let next : drop (file.position + length (take n (drop file.position file.content))) file.content
        ≡ drop n rest =
      drop-add file.position (length (take n (drop file.position file.content))) file.content
      ∙ drop_taken n (drop file.position file.content)
      ∙ ap (drop n) is in
    simp (readable) (ap (take n) is, refl, next)
