-- ===== src/Interface/State/Tests.antt =====
-- interface/state.c on small inputs.
use phantomid.Common.{
  ◌<◌, ℕ, zero, suc, ◌%◌, ◌≡◌, refl, Bool, true, false, List, [], ◌∷◌, ◌++◌, some, arith, ◌==◌,
  if◌then◌else◌, length, u32_mod,
}
use phantomid.Common.CString.{Str, Bytes, cstr}
use phantomid.Interface.State.{
  StateHeader, StateEntry, StateContext, Notice, notices, load_notices, is_entry, get_entry, set_in,
  delete_entry, magic_number, calculate_checksum, cached,
}
use phantomid.Interface.State.Cells.{IsEntry}
use phantomid.Interface.State.Entries.{Stores, get_entry-set_in}
use phantomid.Interface.State.Deletion.{DeleteOutcome, delete_entry-DeleteOutcome}
use phantomid.Interface.State.Checksum.{polynomial, calculate_checksum-polynomial}
use phantomid.Interface.State.Saving.{written, SaveEnv, save_in, load_in}
use phantomid.Interface.State.RoundTrip.{load_in-save_in}

abbrev zeros : ℕ → Bytes
zeros zero = []
zeros (suc n) = 0 ∷ zeros n

-- A layout of an entry: the numbers first.
abbrev entry_layout : StateEntry → Bytes
entry_layout e = e.type ∷ e.payload ∷ e.data_size ∷ e.id

abbrev read_entry : Bytes → StateEntry
read_entry (a ∷ b ∷ c ∷ id) = record { type = a; id = id; payload = b; data_size = c }
read_entry bytes = record { type = 0; id = []; payload = 0; data_size = 0 }

length-entry_layout : (e : StateEntry) → IsEntry e → length (entry_layout e) ≡ 67
length-entry_layout e v = omega (arith, v.0)

read_entry-layout : (e : StateEntry) → IsEntry e → read_entry (entry_layout e) ≡ e
read_entry-layout e v = refl

abbrev entry : ℕ → StateEntry
entry c = record { type = 1; id = c ∷ zeros 63; payload = 8; data_size = 0 }

short : (c : ℕ) → length (cstr (c ∷ zeros 63)) < 64
unfolding cstr
short c = ground arith

abbrev header : StateHeader
header = record { magic = magic_number; version = 1; flags = 0; timestamp = 0; checksum = 0 }

abbrev ctx : StateContext
ctx = record {
  header = header;
  handlers = record { type = 1; handler = 50 } ∷ [];
  filename = [];
  cache = some (entry_layout (entry b'a') ++ []);
}

ctx-Stores : Stores entry_layout ctx (entry b'a' ∷ [])
ctx-Stores = record {
  bytes = refl;
  entries = ((refl, short b'a'), tt);
  unique = λ type id. ground arith;
}

get_entry-set_in_example :
    (after : StateContext) × (fs : List StateEntry) × (set_in 67 entry_layout read_entry true ctx
        (entry b'b')
      ≡ (true, after, notices 1 (cstr (b'b' ∷ zeros 63)) ctx.handlers))
    × Stores entry_layout after fs
    × ((type : ℕ) (id : Str)
        → get_entry 67 entry_layout read_entry (some after) type (some id) ≡ (
            if is_entry type id (entry b'b')
            then some (entry b'b')
            else get_entry 67 entry_layout read_entry (some ctx) type (some id)))
get_entry-set_in_example =
    get_entry-set_in 67 entry_layout read_entry (omega arith) length-entry_layout read_entry-layout
      ctx (entry b'a' ∷ []) (entry b'b') ctx-Stores (refl, short b'b')

delete_entry-DeleteOutcome_example :
    (done : Bool) × (after : StateContext) × (calls : List Notice) × (delete_entry 67 entry_layout
        read_entry
        (some ctx)
        1
        (some (b'a' ∷ []))
      ≡ (done, some after, calls))
    × DeleteOutcome 67 entry_layout read_entry ctx 1 (b'a' ∷ []) done after calls
delete_entry-DeleteOutcome_example =
    delete_entry-DeleteOutcome 67 entry_layout read_entry (omega arith) length-entry_layout
      read_entry-layout ctx (entry b'a' ∷ []) 1 (b'a' ∷ []) ctx-Stores

calculate_checksum-polynomial_example :
    calculate_checksum (200 ∷ 100 ∷ 7 ∷ []) ≡ polynomial 0 (200 ∷ 100 ∷ 7 ∷ []) % u32_mod
calculate_checksum-polynomial_example = calculate_checksum-polynomial (200 ∷ 100 ∷ 7 ∷ [])

-- A layout of a header.
abbrev header_layout : StateHeader → Bytes
header_layout h = h.magic ∷ h.version ∷ h.flags ∷ h.timestamp ∷ h.checksum ∷ []

abbrev read_header : Bytes → StateHeader
read_header (a ∷ b ∷ c ∷ d ∷ e ∷ []) = record {
  magic = a;
  version = b;
  flags = c;
  timestamp = d;
  checksum = e;
}
read_header bytes = header

abbrev env : SaveEnv
env = record {
  opened = true;
  header_written = true;
  data_written = true;
  header_rewritten = true;
  now = 99;
}

load_in-save_in_example :
    (file : Bytes) × (after : StateContext) × (save_in 5 header_layout read_header 1 env ctx
      ≡ some (true, after, written file))
    × (load_in 5 header_layout read_header true ctx (some file) ≡ (
        if calculate_checksum (cached ctx) == 0
        then (
          true,
          record ctx { cache = some (cached ctx); header = after.header },
          load_notices ctx.handlers,
        )
        else (false, ctx, [])))
load_in-save_in_example =
    load_in-save_in 5 header_layout read_header (λ h. refl) (λ h. refl) 0 env ctx ctx
      (refl, refl, refl, refl) refl (omega arith) (omega arith)
