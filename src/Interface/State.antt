-- ===== src/Interface/State.antt =====
-- interface/state.c: a cache of entries, kept as the bytes of an array, and the file that it is saved
-- to. The program is what its `user_data` points to, the `StateContext`.
use phantomid.Common.{
  ℕ, zero, suc, ◌+◌, ◌-◌, ◌*◌, ◌/◌, ◌%◌, Bool, true, false, not, ◌&&◌, ◌||◌, List, [], ◌∷◌, ◌++◌,
  Option, none, some, leb, ltb, ◌==◌, if◌then◌else◌, ◌>>=◌, length, take, drop, u32_mod,
}
use phantomid.Common.CString.{Str, Bytes, str_eq, cstr}
use phantomid.Interface.Registry.{HandlerEntry, replace_handler}
pub mod Cells
pub mod Table
pub mod Removal
pub mod Entries
pub mod Deletion
pub mod Checksum
pub mod Handlers
pub mod Saving
pub mod RoundTrip
mod Tests

-- `MAX_HANDLERS`, `MAGIC_NUMBER` and `STATE_BUFFER_SIZE`
abbrev pub max_handlers : ℕ
max_handlers = 32

abbrev pub magic_number : ℕ
magic_number = 1346914628

abbrev pub state_buffer_size : ℕ
state_buffer_size = 4096

-- `StateHeader`
pub record StateHeader : Type 0 where
  pub magic : ℕ
  pub version : ℕ
  pub flags : ℕ
  pub timestamp : ℕ
  pub checksum : ℕ

-- `StateEntry`; `id` is all the 64 bytes of the array, `payload` the pointer `data`.
pub record StateEntry : Type 0 where
  pub type : ℕ
  pub id : Bytes
  pub payload : ℕ
  pub data_size : ℕ

-- `StateContext`. The list of the handlers is the used front of the array. The bytes of the cache are
-- those below `cache_size`; the cache may be NULL.
pub record StateContext : Type 0 where
  pub header : StateHeader
  pub handlers : List HandlerEntry
  pub filename : Str
  pub cache : Option Bytes

-- A call of a handler that is to be made once the lock is released: the handler, the type and the id.
pub record Notice : Type 0 where
  pub handler : ℕ
  pub type : ℕ
  pub id : Option Str

-- The loop over the handlers of a type.
unfoldable pub notices : ℕ → Str → List HandlerEntry → List Notice
notices type id [] = []
notices type id (h ∷ hs) =
    if h.type == type && not (h.handler == 0)
    then record { handler = h.handler; type = type; id = some id } ∷ notices type id hs
    else notices type id hs

-- The loop of `load_state` over all handlers.
unfoldable pub load_notices : List HandlerEntry → List Notice
load_notices [] = []
load_notices (h ∷ hs) =
    if not (h.handler == 0)
    then record { handler = h.handler; type = h.type; id = none } ∷ load_notices hs
    else load_notices hs

-- `calculate_checksum`, from the sum of the bytes before.
unfoldable pub checksum_from : ℕ → Bytes → ℕ
checksum_from sum [] = sum
checksum_from sum (b ∷ bs) = checksum_from (((sum * 32) % u32_mod + sum + b) % u32_mod) bs

unfoldable pub calculate_checksum : Bytes → ℕ
calculate_checksum bytes = checksum_from 0 bytes

-- `init_state_context`: the header that is set; nothing else but the name is.
unfoldable pub init_state_context :
    ℕ → Bool → Bool → StateContext → Option Str → Bool × StateContext
init_state_context now strdup_ok mutex_ok ctx none = (false, ctx)
init_state_context now strdup_ok mutex_ok ctx (some filename) =
    if not strdup_ok then (false, ctx) else (
      mutex_ok,
      record ctx {
        header = record {
          magic = magic_number;
          version = 1;
          flags = 0;
          timestamp = now;
          checksum = 0;
        };
        handlers = [];
        filename = filename;
      },
    )

-- What `calloc` gives.
abbrev pub zero_context : StateContext
zero_context = record {
  header = record { magic = 0; version = 0; flags = 0; timestamp = 0; checksum = 0 };
  handlers = [];
  filename = [];
  cache = none;
}

-- `state_init`: the result, and the program's `user_data` afterwards.
unfoldable pub state_init :
    ℕ → Bool → Bool → Bool → Option StateContext → Option Str → Bool × Option StateContext
state_init now calloc_ok strdup_ok mutex_ok user_data filename =
    if not calloc_ok
    then (false, user_data)
    else let (done, ctx) = init_state_context now strdup_ok mutex_ok zero_context filename in
      if done then (true, some ctx) else (false, user_data)

-- `register_handler`: the test for room comes before the search for the type.
unfoldable pub register_state_handler :
    Option StateContext → ℕ → Option ℕ → Bool × Option StateContext
register_state_handler (some ctx) type (some handler) =
    if leb max_handlers (length ctx.handlers)
    then (false, some ctx)
    else elim (replace_handler type handler ctx.handlers) [
      | some handlers ↦ (true, some (record ctx { handlers = handlers }))
      | none ↦ (
        true,
        some (record ctx {
          handlers = ctx.handlers ++ record { type = type; handler = handler } ∷ [];
        }),
      )
    ]
register_state_handler program type handler = (false, program)

-- The test that an entry is the one that is sought, of an entry whose id has a terminator: without one
-- `strcmp` reads on behind the array, which is not modelled.
unfoldable pub is_entry : ℕ → Str → StateEntry → Bool
is_entry type id e = e.type == type && str_eq (cstr e.id) id

-- The bytes of the cache, none where it is NULL.
abbrev pub bytes_of : Option Bytes → Bytes
bytes_of none = []
bytes_of (some bytes) = bytes

abbrev pub cached : StateContext → Bytes
cached ctx = bytes_of ctx.cache

-- The layout of a `StateEntry` in memory is the compiler's: `image` gives its bytes, `size` of them.
module _ (size : ℕ) (image : StateEntry → Bytes) (parse : Bytes → StateEntry) where
  -- The loop of `get_entry`, over `n` entries.
  unfoldable pub find_entry : ℕ → ℕ → Str → Bytes → Option StateEntry
  find_entry zero type id bytes = none
  find_entry (suc n) type id bytes =
      let rest = find_entry n type id (drop size bytes) in
      if is_entry type id (parse (take size bytes)) then some (parse (take size bytes)) else rest

  -- `get_entry`: the entry where one is found.
  unfoldable pub get_entry : Option StateContext → ℕ → Option Str → Option StateEntry
  get_entry (some ctx) type (some id) =
      ctx.cache >>= λ bytes. find_entry (length bytes / size) type id bytes
  get_entry program type id = none

  -- The loop of `set_entry`: the bytes with the entry in place of the one that it finds.
  unfoldable pub replace_entry : ℕ → StateEntry → Bytes → Option Bytes
  replace_entry zero e bytes = none
  replace_entry (suc n) e bytes =
      let rest = replace_entry n e (drop size bytes) in
      if is_entry e.type (cstr e.id) (parse (take size bytes))
      then some (image e ++ drop size bytes)
      else (rest >>= λ bs. some (take size bytes ++ bs))

  -- `set_entry`; `realloc_ok` tells whether `realloc` succeeds.
  unfoldable pub set_in : Bool → StateContext → StateEntry → Bool × StateContext × List Notice
  set_in realloc_ok ctx e = elim (replace_entry (length (cached ctx) / size) e (cached ctx)) [
    | some bytes ↦
        (true, record ctx { cache = some bytes }, notices e.type (cstr e.id) ctx.handlers)
    | none ↦
        if realloc_ok
        then (
          true,
          record ctx { cache = some (cached ctx ++ image e) },
          notices e.type (cstr e.id) ctx.handlers,
        )
        else (false, ctx, [])
  ]

  unfoldable pub set_entry :
      Bool → Option StateContext → Option StateEntry → Bool × Option StateContext × List Notice
  set_entry realloc_ok (some ctx) (some e) =
      let (done, after, calls) = set_in realloc_ok ctx e in (done, some after, calls)
  set_entry realloc_ok program e = (false, program, [])

  -- The loop of `delete_entry`: the bytes after the `memmove`.
  unfoldable pub shift_entries : ℕ → ℕ → Str → Bytes → Option Bytes
  shift_entries zero type id bytes = none
  shift_entries (suc n) type id bytes =
      let rest = shift_entries n type id (drop size bytes) in
      if is_entry type id (parse (take size bytes))
      then some
          (if ltb 0 n then take (n * size) (drop size bytes) ++ drop (n * size) bytes else bytes)
      else (rest >>= λ bs. some (take size bytes ++ bs))

  -- `delete_entry` of a cache that is not NULL.
  unfoldable pub delete_cached : StateContext → Bytes → ℕ → Str → Bool × StateContext × List Notice
  delete_cached ctx bytes type id = elim (shift_entries (length bytes / size) type id bytes) [
    | none ↦ (false, ctx, [])
    | some shifted ↦ (
      true,
      record ctx { cache = some (take (length bytes - size) shifted) },
      notices type id ctx.handlers,
    )
  ]

  -- The test of the cache.
  unfoldable pub delete_from :
      StateContext → Option Bytes → ℕ → Str → Bool × StateContext × List Notice
  delete_from ctx none type id = (false, ctx, [])
  delete_from ctx (some bytes) type id = delete_cached ctx bytes type id

  unfoldable pub delete_entry :
      Option StateContext → ℕ → Option Str → Bool × Option StateContext × List Notice
  delete_entry (some ctx) type (some id) =
      let (done, after, calls) = delete_from ctx ctx.cache type id in (done, some after, calls)
  delete_entry program type id = (false, program, [])
