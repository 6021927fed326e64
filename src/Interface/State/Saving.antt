-- ===== src/Interface/State/Saving.antt =====
-- `save_state` and `load_state` of interface/state.c.
use Prim.Native.Nat.{bit_xor}
use phantomid.Common.{
  ℕ, zero, suc, Bool, true, false, not, ◌||◌, List, [], Option, none, some, ltb, ◌==◌,
  if◌then◌else◌, ◌>>=◌, length, take, drop,
}
use phantomid.Common.CString.{Str, Bytes}
use phantomid.Common.Files.{File, open_wb, fwrite, fread, fseek}
use phantomid.Interface.State.{
  StateHeader, StateContext, Notice, load_notices, magic_number, state_buffer_size,
  calculate_checksum, cached,
}

-- The file after a save: not opened, of unknown content after a write that failed, or written.
pub data Disk : Type 0 where
  untouched : Disk
  unknown : Disk
  written : Bytes → Disk

-- The loop that reads the file back for the checksum; the fuel bounds its rounds.
unfoldable pub sum_chunks : ℕ → File → ℕ → Option ℕ
sum_chunks zero file sum = none
sum_chunks (suc k) file sum = elim (length (fread file state_buffer_size).0 == 0) [
  | true ↦ some sum
  | false ↦
      sum_chunks k (fread file state_buffer_size).1
        (bit_xor sum (calculate_checksum (fread file state_buffer_size).0))
]

-- What the system answers to the calls of `save_state`.
pub record SaveEnv : Type 0 where
  pub opened : Bool
  pub header_written : Bool
  pub data_written : Bool
  pub header_rewritten : Bool
  pub now : ℕ

-- The header before the data has been written, and after.
abbrev pub stamp : SaveEnv → StateContext → StateContext
stamp env ctx = record ctx { header = record ctx.header { timestamp = env.now; checksum = 0 } }

abbrev pub sealed : ℕ → StateContext → StateContext
sealed sum ctx = record ctx { header = record ctx.header { checksum = sum } }

-- The layout of a `StateHeader` is the compiler's: `image` gives its bytes, `size` of them.
module _ (size : ℕ) (image : StateHeader → Bytes) (parse : Bytes → StateHeader) where
  -- From the `fseek` before the checksum on.
  unfoldable pub finish_save :
      ℕ → SaveEnv → StateContext → File → Option (Bool × StateContext × Disk)
  finish_save k env ctx file = sum_chunks k (fseek file size) 0 >>= λ sum. some (
    true,
    sealed sum ctx,
    if env.header_rewritten
        then written (fwrite (fseek file 0) (image (sealed sum ctx).header)).content
        else unknown,
  )

  -- `save_state` of a context and a name that are not NULL.
  unfoldable pub save_in : ℕ → SaveEnv → StateContext → Option (Bool × StateContext × Disk)
  save_in k env ctx =
      if not env.opened
      then some (false, ctx, untouched)
      else if not env.header_written
      then some (false, stamp env ctx, unknown)
      else if length (cached ctx) == 0
      then finish_save k env (stamp env ctx) (fwrite open_wb (image (stamp env ctx).header))
      else if not env.data_written
      then some (false, stamp env ctx, unknown)
      else finish_save k env (stamp env ctx)
          (fwrite (fwrite open_wb (image (stamp env ctx).header)) (cached ctx))

  unfoldable pub save_state :
      ℕ → SaveEnv → Option StateContext → Option Str → Option (Bool × Option StateContext × Disk)
  save_state k env (some ctx) (some filename) =
      save_in k env ctx >>= λ saved. some (saved.0, some saved.1, saved.2)
  save_state k env program filename = some (false, program, untouched)

  -- `load_state` once the header has been read and accepted.
  unfoldable pub load_data :
      Bool → StateContext → StateHeader → Bytes → Bool × StateContext × List Notice
  load_data malloc_ok ctx header bytes =
      if not malloc_ok
      then (false, ctx, [])
      else if length bytes == 0
      then (false, ctx, [])
      else if not (calculate_checksum bytes == header.checksum)
      then (false, ctx, [])
      else (true, record ctx { cache = some bytes; header = header }, load_notices ctx.handlers)

  -- `load_state`; the file is none where it cannot be opened.
  unfoldable pub load_in : Bool → StateContext → Option Bytes → Bool × StateContext × List Notice
  load_in malloc_ok ctx none = (false, ctx, [])
  load_in malloc_ok ctx (some bytes) =
      if ltb (length bytes) size
      then (false, ctx, [])
      else if not ((parse (take size bytes)).magic == magic_number)
          || ltb ctx.header.version (parse (take size bytes)).version
      then (false, ctx, [])
      else load_data malloc_ok ctx (parse (take size bytes)) (drop size bytes)

  unfoldable pub load_state :
      Bool
      → Option StateContext
      → Option Str
      → Option Bytes
      → Bool × Option StateContext × List Notice
  load_state malloc_ok (some ctx) (some filename) file =
      let (done, after, calls) = load_in malloc_ok ctx file in (done, some after, calls)
  load_state malloc_ok program filename file = (false, program, [])
