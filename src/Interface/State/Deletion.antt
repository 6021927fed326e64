-- ===== src/Interface/State/Deletion.antt =====
-- `delete_entry` of interface/state.c takes one key off the table.
use mathlib.Core.Path.{subst}
use phantomid.Common.{
  ℕ, ◌-◌, ◌/◌, ◌<◌, ◌≡◌, refl, sym, ap, ◌∙◌, Bool, true, false, ◌&&◌, ◌>>=◌, List, [], Option, none,
  some, arith, ◌==◌, if◌then◌else◌, Option-cases, Bool-cases, inl, inr, length, take,
}
use phantomid.Common.CString.{Str, Bytes, str_eq}
use phantomid.Interface.State.{
  StateContext, StateEntry, Notice, notices, bytes_of, cached, get_entry, delete_cached,
  delete_from, delete_entry, find_entry, shift_entries,
}
use phantomid.Interface.State.Cells.{
  first_entry, removed, IsEntry, AreEntries, images, entries-images, shift_entries-images, Shifted,
}
use phantomid.Interface.State.Table.{Unique, none_of_uses}
use phantomid.Interface.State.Removal.{AreEntries-removed, removed-Removed, removed-none}
use phantomid.Interface.State.Entries.{Stores, get_entry-first_entry}

module _ (size : ℕ) (image : StateEntry → Bytes) (parse : Bytes → StateEntry) where
  -- The two ends of a deletion.
  pub data DeleteOutcome (ctx : StateContext) (type : ℕ) (id : Str)
      : Bool → StateContext → List Notice → Type 0 where
    absent :
        get_entry size image parse (some ctx) type (some id) ≡ none
        → DeleteOutcome ctx type id false ctx []
    deleted :
        {after : StateContext} (found : StateEntry) (fs : List StateEntry)
        → get_entry size image parse (some ctx) type (some id) ≡ some found
        → Stores image after fs
        → ((t : ℕ) (i : Str)
            → get_entry size image parse (some after) t (some i) ≡ (
                if type == t && str_eq id i
                then none
                else get_entry size image parse (some ctx) t (some i)))
        → DeleteOutcome ctx type id true after (notices type id ctx.handlers)

-- The list without the key.
removed-first_entry :
    (type : ℕ) (id : Str) (es fs : List StateEntry)
    → Unique es
    → removed type id es ≡ some fs
    → Unique fs
      × ((t : ℕ) (i : Str)
          → first_entry t i fs ≡ (if type == t && str_eq id i then none else first_entry t i es))
removed-first_entry type id es fs u ran =
    let r = removed-Removed type id es fs ran in
    (
      (λ t i. omega (arith, r.uses_now t i, u t i)),
      λ t i. elim (Bool-cases (type == t && str_eq id i)) [
        | inl here ↦ rw here (none_of_uses t i fs (ground (arith, r.uses_now t i, u t i)))
        | inr away ↦ rw away (r.others t i away)
      ],
    )

module _ (size : ℕ) (image : StateEntry → Bytes) (parse : Bytes → StateEntry) (some_size : 0 < size)
    (length-image : (e : StateEntry) → IsEntry e → length (image e) ≡ size)
    (parse-image : (e : StateEntry) → IsEntry e → parse (image e) ≡ e) where
  -- The loop on the bytes is the one on the entries.
  shift-bytes :
      (type : ℕ) (id : Str) (es : List StateEntry) (bytes : Bytes)
      → AreEntries es
      → bytes ≡ images image es
      → shift_entries size image parse (length bytes / size) type id bytes
        ≡ shift_entries size image parse (length es) type id (images image es)
  shift-bytes type id es bytes v at =
      ap (λ bs. shift_entries size image parse (length bs / size) type id bs) at
      ∙ ap (λ n. shift_entries size image parse n type id (images image es))
          (entries-images size image parse some_size length-image parse-image es v)

  shifted :
      (type : ℕ) (id : Str) (es : List StateEntry) (o : Option (List StateEntry))
      → AreEntries es
      → removed type id es ≡ o
      → Shifted size image parse some_size length-image parse-image type id es o
  shifted type id es o v e =
      subst (Shifted size image parse some_size length-image parse-image type id es) e
        (shift_entries-images size image parse some_size length-image parse-image type id es v)

  Ends : StateContext → ℕ → Str → Bool × StateContext × List Notice → Type 0
  Ends ctx type id ran = DeleteOutcome size image parse ctx type id ran.0 ran.1 ran.2

  delete_cached-Ends :
      (ctx : StateContext) (es : List StateEntry) (type : ℕ) (id : Str)
      → Stores image ctx es
      → Ends ctx type id (delete_cached size image parse ctx (cached ctx) type id)
  unfolding Ends delete_cached
  delete_cached-Ends ctx es type id v = elim (Option-cases (removed type id es)) [
    | inl nothing ↦
        let missed =
          shift-bytes type id es (cached ctx) v.entries v.bytes
          ∙ shifted type id es none v.entries nothing in
        rw (delete_cached, missed)
          (absent (
            get_entry-first_entry size image parse some_size length-image parse-image ctx es type id
              v
            ∙ removed-none type id es nothing))
    | inr (fs, ran) ↦
        let (bs, hit, kept, long) = shifted type id es (some fs) v.entries ran in
        let found = shift-bytes type id es (cached ctx) v.entries v.bytes ∙ hit in
        let there = (removed-Removed type id es fs ran).there in
        let (unique, now) = removed-first_entry type id es fs v.unique ran in
        let after = record ctx { cache = some (take (length (cached ctx) - size) bs) } in
        let stored : Stores image after fs = record {
          bytes = ap (λ xs. take (length xs - size) bs) v.bytes ∙ kept;
          entries = AreEntries-removed type id es fs ran v.entries;
          unique = unique;
        } in
        rw (delete_cached, found)
          (deleted there.0 fs
            (get_entry-first_entry size image parse some_size length-image parse-image ctx es type
                id v
              ∙ there.1)
            stored
            (λ t i.
              get_entry-first_entry size image parse some_size length-image parse-image after fs t i
                stored
              ∙ now t i
              ∙ ap (λ o. if type == t && str_eq id i then none else o)
                  (sym (
                    get_entry-first_entry size image parse some_size length-image parse-image ctx es
                      t i v))))
  ]

  delete_from-Ends :
      (ctx : StateContext) (cache : Option Bytes) (es : List StateEntry) (type : ℕ) (id : Str)
      → ctx.cache ≡ cache
      → Stores image ctx es
      → Ends ctx type id (delete_from size image parse ctx cache type id)
  unfolding Ends delete_from get_entry
  delete_from-Ends ctx none es type id gone v = absent (
      ap
        (λ (c : Option Bytes).
          c >>= λ bytes. find_entry size image parse (length bytes / size) type id bytes)
        gone)
  delete_from-Ends ctx (some bytes) es type id there v =
      subst (λ bs. Ends ctx type id (delete_cached size image parse ctx bs type id))
        (ap bytes_of there) (delete_cached-Ends ctx es type id v)

  -- Let an entry whose id has its 64 bytes with a terminator among them have a positive size in
  -- memory, fill the bytes of its image and be read back from it. On a cache that stores entries of
  -- such ids with no key twice, `delete_entry` is one of the branches of `DeleteOutcome`: false and
  -- nothing changed where `get_entry` finds nothing for the key; else true, where `get_entry` finds
  -- an entry, the handlers of the type are to be called with the id, and the cache stores entries
  -- with no key twice, with nothing for the key and what `get_entry` gave before for all others.
  pub delete_entry-DeleteOutcome :
      (ctx : StateContext) (es : List StateEntry) (type : ℕ) (id : Str)
      → Stores image ctx es
      → (done : Bool) × (after : StateContext) × (calls : List Notice) × (delete_entry size image
            parse
            (some ctx)
            type
            (some id)
          ≡ (done, some after, calls))
        × DeleteOutcome size image parse ctx type id done after calls
  unfolding Ends delete_entry
  delete_entry-DeleteOutcome ctx es type id v =
      let ran = delete_from size image parse ctx ctx.cache type id in
      (ran.0, ran.1, ran.2, refl, delete_from-Ends ctx ctx.cache es type id refl v)
