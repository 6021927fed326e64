-- ===== src/Interface/State/RoundTrip.antt =====
-- What `load_state` of interface/state.c makes of a file that `save_state` has written.
use phantomid.Common.{
  ℕ, suc, ◌≤◌, ◌<◌, ◌≡◌, refl, ap, ◌∙◌, Bool, true, false, not, List, [], ◌++◌, some, arith, ltb,
  ◌==◌, if◌then◌else◌, ◌>>=◌, length, length-append, take, drop, take-append_of_eq,
  drop-append_of_eq,
}
use phantomid.Common.CString.{Bytes}
use phantomid.Common.Files.{File, open_wb, fwrite, fread, fseek, fwrite_end, fwrite_front}
use phantomid.Interface.State.{
  StateHeader, StateContext, Notice, load_notices, magic_number, calculate_checksum, cached,
}
use phantomid.Interface.State.Saving.{
  sum_chunks, written, SaveEnv, stamp, sealed, finish_save, save_in, load_data, load_in,
}

-- A file that was opened for writing cannot be read back: the loop ends at once.
pub sum_chunks_unreadable :
    (k : ℕ) (file : File) (sum : ℕ) → file.readable ≡ false → sum_chunks (suc k) file sum ≡ some sum
unfolding sum_chunks fread
sum_chunks_unreadable k file sum e = rw (e, sum_chunks) refl

abbrev pub AllWell : SaveEnv → Type 0
AllWell env =
    (env.opened ≡ true)
    × (env.header_written ≡ true)
    × (env.data_written ≡ true)
    × (env.header_rewritten ≡ true)

module _ (size : ℕ) (image : StateHeader → Bytes) (parse : Bytes → StateHeader)
    (length-image : (h : StateHeader) → length (image h) ≡ size)
    (parse-image : (h : StateHeader) → parse (image h) ≡ h) where
  finish_save_lem :
      (k : ℕ) (env : SaveEnv) (ctx : StateContext) (file : File) (rest : Bytes)
      → env.header_rewritten ≡ true
      → file.readable ≡ false
      → file.content ≡ image (sealed 0 ctx).header ++ rest
      → finish_save size image parse (suc k) env ctx file
        ≡ some (true, sealed 0 ctx, written (image (sealed 0 ctx).header ++ rest))
  unfolding finish_save
  finish_save_lem k env ctx file rest ok closed is =
      rw (sum_chunks_unreadable k (fseek file size) 0 closed, ◌>>=◌)
        (rw ok (
          ap (λ bytes. some (true, sealed 0 ctx, written bytes))
            (fwrite_front file (image (sealed 0 ctx).header) (image (sealed 0 ctx).header) rest refl
              is)))

  -- The header and the cache, one behind the other.
  two_writes : (front rest : Bytes) → (fwrite (fwrite open_wb front) rest).content ≡ front ++ rest
  unfolding fwrite
  two_writes front rest =
      let first : (fwrite open_wb front).content ≡ front = fwrite_end open_wb front refl in
      fwrite_end (fwrite open_wb front) rest (omega (arith, ap length first))
      ∙ ap (λ xs. xs ++ rest) first

  unreadable : (front rest : Bytes) → (fwrite (fwrite open_wb front) rest).readable ≡ false
  unfolding fwrite
  unreadable front rest = refl

  -- Where no call fails, the file is the header, with the checksum 0, and the cache.
  pub save_in_lem :
      (k : ℕ) (env : SaveEnv) (ctx : StateContext)
      → AllWell env
      → 0 < length (cached ctx)
      → save_in size image parse (suc k) env ctx
        ≡ some (true, stamp env ctx, written (image (stamp env ctx).header ++ cached ctx))
  unfolding save_in finish_save
  save_in_lem k env ctx (a, b, c, d) busy =
      let some_bytes : (length (cached ctx) == 0) ≡ false = ground arith in
      let header = image (stamp env ctx).header in
      rw (a, b, c, some_bytes)
        (finish_save_lem k env (stamp env ctx) (fwrite (fwrite open_wb header) (cached ctx))
          (cached ctx) d (unreadable header (cached ctx)) (two_writes header (cached ctx)))

  -- Reading the file again: what counts is the checksum of the data, since the header has 0.
  load_in_lem :
      (reader : StateContext) (header : StateHeader) (saved : Bytes)
      → header.magic ≡ magic_number
      → header.version ≤ reader.header.version
      → 0 < length saved
      → load_in size image parse true reader (some (image header ++ saved)) ≡ (
          if calculate_checksum saved == header.checksum
          then (
            true,
            record reader { cache = some saved; header = header },
            load_notices reader.handlers,
          )
          else (false, reader, []))
  unfolding load_in load_data
  load_in_lem reader header saved magic version busy =
      let long : ltb (length (image header ++ saved)) size ≡ false =
        ground (arith, length-append (image header) saved, length-image header) in
      let first : parse (take size (image header ++ saved)) ≡ header =
        ap parse (take-append_of_eq (image header) saved size (length-image header))
        ∙ parse-image header in
      let second : drop size (image header ++ saved) ≡ saved =
        drop-append_of_eq (image header) saved size (length-image header) in
      let known : (header.magic == magic_number) ≡ true = ground arith in
      let old : ltb reader.header.version header.version ≡ false = ground arith in
      let some_bytes : (length saved == 0) ≡ false = ground arith in
      rw (long, first, second, known, old)
        (rw some_bytes (pick (calculate_checksum saved == header.checksum) _ _))
    where
      pick :
          (b : Bool) (x y : Bool × StateContext × List Notice)
          → (if not b then y else x) ≡ (if b then x else y)
      pick true x y = refl
      pick false x y = refl

  -- Let a header fill the bytes of its image and be read back from it. Where no call fails, saving
  -- a context with the magic number and some bytes in its cache succeeds, and loading the file into
  -- a context of the same or a later version gives the bytes and the header, and the calls of all
  -- handlers, if the checksum of the bytes is 0; for every other checksum the file is refused and
  -- nothing has changed.
  pub load_in-save_in :
      (k : ℕ) (env : SaveEnv) (ctx reader : StateContext)
      → AllWell env
      → ctx.header.magic ≡ magic_number
      → ctx.header.version ≤ reader.header.version
      → 0 < length (cached ctx)
      → (file : Bytes) × (after : StateContext) × (save_in size image parse (suc k) env ctx
          ≡ some (true, after, written file))
        × (load_in size image parse true reader (some file) ≡ (
            if calculate_checksum (cached ctx) == 0
            then (
              true,
              record reader { cache = some (cached ctx); header = after.header },
              load_notices reader.handlers,
            )
            else (false, reader, [])))
  load_in-save_in k env ctx reader well magic version busy = (
    image (stamp env ctx).header ++ cached ctx,
    stamp env ctx,
    save_in_lem k env ctx well busy,
    load_in_lem reader (stamp env ctx).header (cached ctx) magic version busy,
  )
