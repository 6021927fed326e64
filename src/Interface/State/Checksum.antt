-- ===== src/Interface/State/Checksum.antt =====
-- `calculate_checksum` of interface/state.c is a polynomial of the bytes.
use phantomid.Common.{ℕ, ◌+◌, ◌*◌, ◌%◌, ◌<◌, ◌≡◌, ◌∙◌, [], ◌∷◌, arith, u32_mod}
use phantomid.Common.CString.{Bytes}
use phantomid.Interface.State.{checksum_from, calculate_checksum}

-- The polynomial in 33 with the bytes as its coefficients, without a bound.
abbrev pub polynomial : ℕ → Bytes → ℕ
polynomial sum [] = sum
polynomial sum (b ∷ bs) = polynomial (33 * sum + b) bs

polynomial_mod :
    (sum sum' : ℕ) (bytes : Bytes)
    → sum % u32_mod ≡ sum' % u32_mod
    → polynomial sum bytes % u32_mod ≡ polynomial sum' bytes % u32_mod
polynomial_mod sum sum' [] e = e
polynomial_mod sum sum' (b ∷ bs) e =
    polynomial_mod (33 * sum + b) (33 * sum' + b) bs (omega (arith, e))

checksum_from-polynomial :
    (sum : ℕ) (bytes : Bytes)
    → sum < u32_mod
    → checksum_from sum bytes ≡ polynomial sum bytes % u32_mod
unfolding checksum_from
checksum_from-polynomial sum [] h = omega (arith, h)
checksum_from-polynomial sum (b ∷ bs) h =
    checksum_from-polynomial ((sum * 32 % u32_mod + sum + b) % u32_mod) bs (omega arith)
    ∙ polynomial_mod ((sum * 32 % u32_mod + sum + b) % u32_mod) (33 * sum + b) bs (omega arith)

-- `calculate_checksum` is the value at 33 of the polynomial whose coefficients are the bytes,
-- modulo 2^32.
pub calculate_checksum-polynomial :
    (bytes : Bytes) → calculate_checksum bytes ≡ polynomial 0 bytes % u32_mod
unfolding calculate_checksum
calculate_checksum-polynomial bytes = checksum_from-polynomial 0 bytes (omega arith)
