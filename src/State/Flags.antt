-- ===== src/State/Flags.antt =====
-- The feature flags of runtime/state/state.c: `STATE_FLAG_COMPRESSED` is the bit of value 1 and
-- `STATE_FLAG_ENCRYPTED` that of value 2.
use phantomid.Common.{
  ℕ, ◌+◌, ◌-◌, ◌*◌, ◌/◌, ◌%◌, ◌≡◌, Bool, true, false, Option, none, some, arith, ◌==◌, ap,
}
use phantomid.State.{StateContext}

abbrev pub has_compressed : ℕ → Bool
has_compressed flags = flags % 2 == 1

abbrev pub has_encrypted : ℕ → Bool
has_encrypted flags = flags / 2 % 2 == 1

-- `flags |= STATE_FLAG_COMPRESSED` and `flags &= ~STATE_FLAG_COMPRESSED`
unfoldable pub with_compression : Bool → ℕ → ℕ
with_compression true flags = flags + 1 - flags % 2
with_compression false flags = flags - flags % 2

-- `flags |= STATE_FLAG_ENCRYPTED` and `flags &= ~STATE_FLAG_ENCRYPTED`
unfoldable pub with_encryption : Bool → ℕ → ℕ
with_encryption true flags = flags + 2 - flags / 2 % 2 * 2
with_encryption false flags = flags - flags / 2 % 2 * 2

-- `state_set_compression` and `state_set_encryption`
unfoldable pub state_set_compression : Option StateContext → Bool → Option StateContext
state_set_compression none enabled = none
state_set_compression (some ctx) enabled =
    some (record ctx { flags = with_compression enabled ctx.flags })

unfoldable pub state_set_encryption : Option StateContext → Bool → Option StateContext
state_set_encryption none enabled = none
state_set_encryption (some ctx) enabled =
    some (record ctx { flags = with_encryption enabled ctx.flags })

-- `state_is_compressed` and `state_is_encrypted`
unfoldable pub state_is_compressed : Option StateContext → Bool
state_is_compressed none = false
state_is_compressed (some ctx) = has_compressed ctx.flags

unfoldable pub state_is_encrypted : Option StateContext → Bool
state_is_encrypted none = false
state_is_encrypted (some ctx) = has_encrypted ctx.flags

with_compression_lem :
    (enabled : Bool) (flags : ℕ)
    → (has_compressed (with_compression enabled flags) ≡ enabled)
      × (has_encrypted (with_compression enabled flags) ≡ has_encrypted flags)
      × (with_compression enabled flags / 4 ≡ flags / 4)
unfolding with_compression
with_compression_lem true flags = (ground arith, ground arith, omega arith)
with_compression_lem false flags = (ground arith, ground arith, omega arith)

with_encryption_lem :
    (enabled : Bool) (flags : ℕ)
    → (has_encrypted (with_encryption enabled flags) ≡ enabled)
      × (has_compressed (with_encryption enabled flags) ≡ has_compressed flags)
      × (with_encryption enabled flags / 4 ≡ flags / 4)
unfolding with_encryption
with_encryption_lem true flags = (ground arith, ground arith, omega arith)
with_encryption_lem false flags = (ground arith, ground arith, omega arith)

abbrev pub others : Option StateContext → Option (ℕ × StateContext)
others none = none
others (some ctx) = some (ctx.flags / 4, record ctx { flags = 0 })

-- On a context that is there, `state_is_compressed` gives what `state_set_compression` has set and
-- `state_is_encrypted` what `state_set_encryption` has set; each setter leaves the other flag, the
-- bits above the two, the file name and the header.
pub flags_independent :
    (ctx : StateContext) (enabled : Bool)
    → ((state_is_compressed (state_set_compression (some ctx) enabled) ≡ enabled)
        × (state_is_encrypted (state_set_compression (some ctx) enabled)
            ≡ state_is_encrypted (some ctx))
        × (others (state_set_compression (some ctx) enabled) ≡ others (some ctx)))
      × ((state_is_encrypted (state_set_encryption (some ctx) enabled) ≡ enabled)
          × (state_is_compressed (state_set_encryption (some ctx) enabled)
              ≡ state_is_compressed (some ctx))
          × (others (state_set_encryption (some ctx) enabled) ≡ others (some ctx)))
unfolding state_set_compression state_set_encryption state_is_compressed state_is_encrypted
flags_independent ctx enabled =
    let (a, b, c) = with_compression_lem enabled ctx.flags in
    let (d, e, f) = with_encryption_lem enabled ctx.flags in
    (
      (a, b, ap (λ n. some (n, record ctx { flags = 0 })) c),
      (d, e, ap (λ n. some (n, record ctx { flags = 0 })) f),
    )
