-- ===== src/Tree/NodeId.antt =====
-- `generate_node_id` of runtime/tree/tree.c.
use native.Mathlib.Nat.{pow-suc}
use phantomid.Common.{
  ℕ, zero, suc, ◌+◌, ◌-◌, ◌*◌, ◌/◌, ◌%◌, ◌^◌, ◌≤◌, ◌<◌, ◌≡◌, refl, sym, ap, ◌∙◌, Bool, true, false,
  not, ◌&&◌, [], ◌∷◌, ◌++◌, append-nil, append_assoc, arith, ltb, leb, if◌then◌else◌, Bool-cases,
  inl, inr, length, length-append, drop, u64_mod,
}
use phantomid.Common.CString.{Str}

-- `%lu` of `printf`: the decimal digits of a number. The fuel bounds their number; 20 is enough for
-- 64 bits.
unfoldable pub decimal : ℕ → ℕ → Str
decimal zero n = []
decimal (suc k) n =
    let front = decimal k (n / 10) in
    if ltb n 10 then (b'0' + n) ∷ [] else front ++ (b'0' + n % 10) ∷ []

-- `sprintf(id, "node_%lu_%lu", time(NULL), counter++)`
unfoldable pub generate_node_id : ℕ → ℕ → Str
generate_node_id now counter =
    b'n' ∷ b'o' ∷ b'd' ∷ b'e' ∷ b'_' ∷ (decimal 20 now ++ b'_' ∷ decimal 20 counter)

length-decimal-le : (k n : ℕ) → length (decimal k n) ≤ k
unfolding decimal
length-decimal-le zero n = omega arith
length-decimal-le (suc k) n = elim (Bool-cases (ltb n 10)) [
  | inl small ↦ rw small (omega arith)
  | inr big ↦ rw big (
      omega (
        arith,
        length-append (decimal k (n / 10)) ((b'0' + n % 10) ∷ []),
        length-decimal-le k (n / 10),
      ))
]

-- What a reader of digits makes of a text: the number read and what is left.
read_digits : ℕ → Str → ℕ × Str
read_digits acc [] = (acc, [])
read_digits acc (c ∷ cs) =
    if leb b'0' c && leb c b'9' then read_digits (acc * 10 + (c - b'0')) cs else (acc, c ∷ cs)

ltb→le : (n : ℕ) → ltb n 10 ≡ false → 10 ≤ n
ltb→le n h = ground arith

read_digits_step :
    (acc d : ℕ) (rest : Str)
    → d < 10
    → read_digits acc ((b'0' + d) ∷ rest) ≡ read_digits (acc * 10 + d) rest
unfolding read_digits
read_digits_step acc d rest h =
    let digit : (leb b'0' (b'0' + d) && leb (b'0' + d) b'9') ≡ true = ground arith in
    rw digit (ap (λ n. read_digits n rest) (omega arith))

read_digits-decimal :
    (k n : ℕ) (rest : Str) → n < 10 ^ k → read_digits 0 (decimal k n ++ rest) ≡ read_digits n rest
unfolding decimal
read_digits-decimal zero n rest h = ap (λ m. read_digits m rest) (omega arith)
read_digits-decimal (suc k) n rest h = elim (Bool-cases (ltb n 10)) [
  | inl small ↦
      rw small
        (read_digits_step 0 n rest (ground arith) ∙ ap (λ m. read_digits m rest) (omega arith))
  | inr big ↦ rw big (
      ap (read_digits 0) (append_assoc (decimal k (n / 10)) ((b'0' + n % 10) ∷ []) rest)
      ∙ read_digits-decimal k (n / 10) ((b'0' + n % 10) ∷ rest)
          (omega (arith, pow-suc 10 k, h, ltb→le n big))
      ∙ read_digits_step (n / 10) (n % 10) rest (omega arith)
      ∙ ap (λ m. read_digits m rest) (omega arith))
]

-- Digits that end at another byte, or at the end of the text.
ends : Str → Bool
ends [] = true
ends (c ∷ cs) = not (leb b'0' c && leb c b'9')

read_digits_end : (n : ℕ) (rest : Str) → ends rest ≡ true → read_digits n rest ≡ (n, rest)
unfolding read_digits ends
read_digits_end n [] h = refl
read_digits_end n (c ∷ cs) h = ground arith

read_number :
    (n : ℕ) (rest : Str)
    → n < u64_mod
    → ends rest ≡ true
    → read_digits 0 (decimal 20 n ++ rest) ≡ (n, rest)
read_number n rest h e = read_digits-decimal 20 n rest (omega arith) ∙ read_digits_end n rest e

-- The number of the time, and what stands behind it.
split_id : Str → ℕ × Str
split_id text = read_digits 0 (drop 5 text)

split_id_lem :
    (now counter : ℕ)
    → now < u64_mod
    → split_id (generate_node_id now counter) ≡ (now, b'_' ∷ decimal 20 counter)
unfolding split_id generate_node_id ends
split_id_lem now counter h = read_number now (b'_' ∷ decimal 20 counter) h refl

read_counter :
    (counter : ℕ) → counter < u64_mod → read_digits 0 (decimal 20 counter) ≡ (counter, [])
unfolding ends
read_counter counter h =
    ap (read_digits 0) (sym (append-nil (decimal 20 counter))) ∙ read_number counter [] h refl

-- For times and counters below 2^64, two ids that `generate_node_id` writes are equal only if they
-- were made at the same time and with the same value of the counter.
pub generate_node_id_inj :
    (now counter now' counter' : ℕ)
    → now < u64_mod
    → counter < u64_mod
    → now' < u64_mod
    → counter' < u64_mod
    → generate_node_id now counter ≡ generate_node_id now' counter'
    → (now ≡ now') × (counter ≡ counter')
generate_node_id_inj now counter now' counter' a b a' b' e = (
  ap (λ r. r.0) parts,
  ap (λ r. r.0)
      (sym (read_counter counter b)
        ∙ ap (λ r. read_digits 0 (drop 1 r.1)) parts
        ∙ read_counter counter' b'),
)
  where
    parts : ◌≡◌ {A = ℕ × Str} (now, b'_' ∷ decimal 20 counter) (now', b'_' ∷ decimal 20 counter')
    parts = sym (split_id_lem now counter a) ∙ ap split_id e ∙ split_id_lem now' counter' a'

-- The id that `generate_node_id` writes fits with its terminator into the 64 bytes of the field,
-- whatever the time and the counter are.
pub generate_node_id_fits : (now counter : ℕ) → length (generate_node_id now counter) + 1 ≤ 64
unfolding generate_node_id
generate_node_id_fits now counter = omega (
  arith,
  length-append (decimal 20 now) (b'_' ∷ decimal 20 counter),
  length-decimal-le 20 now,
  length-decimal-le 20 counter,
)
