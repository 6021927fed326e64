-- ===== src/Programs.antt =====
-- programs/: the phantomid program, over the tree and the interfaces.
use phantomid.Common.{
  ℕ, ◌+◌, ◌-◌, ◌<◌, Bool, true, false, Option, none, some, leb, ◌==◌, if◌then◌else◌, ◌&&◌, length,
  drop, ◌>>=◌,
}
use phantomid.Common.CString.{Str}
pub mod Commands
pub mod Parsing
pub mod Effect
pub mod Effects
pub mod Messages
pub mod Addressed
pub mod Reception
pub mod Received
pub mod State
pub mod Life
pub mod Typed
pub mod Bare
mod Tests

-- The strings that stand at addresses; reading anything else is a fault.
abbrev pub Strings : Type 0
Strings = ℕ → Option Str

-- The string behind a pointer, which may be NULL.
unfoldable pub read_string : Strings → ℕ → Option (Option Str)
read_string strings p = if p == 0 then some none else (strings p >>= λ s. some (some s))

-- A string at an address, with the strings that begin inside it.
unfoldable pub string_at : ℕ → Str → Strings
string_at base s p =
    if leb base p && leb p (base + length s) then some (drop (p - base) s) else none
