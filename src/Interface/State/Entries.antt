-- ===== src/Interface/State/Entries.antt =====
-- `set_entry`, `get_entry` and `delete_entry` of interface/state.c work on a table.
use mathlib.Core.Path.{ap₂}
use phantomid.Common.{
  ℕ, ◌/◌, ◌<◌, ◌≡◌, refl, sym, ap, ◌∙◌, true, List, [], ◌∷◌, ◌++◌, append-nil, Option, none, some,
  arith, if◌then◌else◌, ◌>>=◌, Option-cases, inl, inr, length, length-append,
}
use phantomid.Common.CString.{Str, Bytes, cstr}
use phantomid.Interface.State.{
  StateContext, StateEntry, notices, bytes_of, is_entry, get_entry, set_in, cached, find_entry,
  replace_entry,
}
use phantomid.Interface.State.Cells.{
  first_entry, replaced, IsEntry, AreEntries, images, images-append, entries-images,
  find_entry-images, replace_entry-images,
}
use phantomid.Interface.State.Table.{with_entry, first_entry-with_entry, Unique, Unique-with_entry}
use phantomid.Interface.State.Removal.{AreEntries-with_entry}

-- The cache holds the entries, none where it is NULL, and no key twice.
pub record Stores (image : StateEntry → Bytes) (ctx : StateContext) (es : List StateEntry)
    : Type 0 where
  pub bytes : cached ctx ≡ images image es
  pub entries : AreEntries es
  pub unique : Unique es

module _ (size : ℕ) (image : StateEntry → Bytes) (parse : Bytes → StateEntry) (some_size : 0 < size)
    (length-image : (e : StateEntry) → IsEntry e → length (image e) ≡ size)
    (parse-image : (e : StateEntry) → IsEntry e → parse (image e) ≡ e) where
  no_entries : (es : List StateEntry) → AreEntries es → images image es ≡ [] → es ≡ []
  no_entries [] v e = refl
  no_entries (x ∷ es) (v, vs) e = absurd (
      omega (
        arith,
        ap length e,
        length-append (image x) (images image es),
        length-image x v,
        some_size,
      ))

  -- `get_entry` finds the first entry of the list with the key.
  get-first :
      (cache : Option Bytes) (type : ℕ) (id : Str) (es : List StateEntry)
      → AreEntries es
      → bytes_of cache ≡ images image es
      → (cache >>= λ bytes. find_entry size image parse (length bytes / size) type id bytes)
        ≡ first_entry type id es
  unfolding first_entry
  get-first none type id es v e = rw (no_entries es v (sym e)) refl
  get-first (some bytes) type id es v e =
      ap (λ bs. find_entry size image parse (length bs / size) type id bs) e
      ∙ ap (λ n. find_entry size image parse n type id (images image es))
          (entries-images size image parse some_size length-image parse-image es v)
      ∙ find_entry-images size image parse some_size length-image parse-image type id es v

  pub get_entry-first_entry :
      (ctx : StateContext) (es : List StateEntry) (type : ℕ) (id : Str)
      → Stores image ctx es
      → get_entry size image parse (some ctx) type (some id) ≡ first_entry type id es
  unfolding get_entry
  get_entry-first_entry ctx es type id v = get-first ctx.cache type id es v.entries v.bytes

  -- The search of `set_entry` on the bytes is the one on the list.
  replaced-bytes :
      (e : StateEntry) (es : List StateEntry) (bytes : Bytes)
      → AreEntries es
      → bytes ≡ images image es
      → replace_entry size image parse (length bytes / size) e bytes
        ≡ (replaced e es >>= λ fs. some (images image fs))
  replaced-bytes e es bytes v at =
      ap (λ bs. replace_entry size image parse (length bs / size) e bs) at
      ∙ ap (λ n. replace_entry size image parse n e (images image es))
          (entries-images size image parse some_size length-image parse-image es v)
      ∙ replace_entry-images size image parse some_size length-image parse-image e es v

  set_in-Stores :
      (ctx : StateContext) (es : List StateEntry) (e : StateEntry)
      → Stores image ctx es
      → IsEntry e
      → (after : StateContext) × (set_in size image parse true ctx e
          ≡ (true, after, notices e.type (cstr e.id) ctx.handlers))
        × Stores image after (with_entry e es)
  unfolding set_in
  set_in-Stores ctx es e v w = elim (Option-cases (replaced e es)) [
    | inl nothing ↦
        let missed : replace_entry size image parse (length (cached ctx) / size) e (cached ctx)
            ≡ none =
          replaced-bytes e es (cached ctx) v.entries v.bytes
          ∙ ap (λ o. o >>= λ fs. some (images image fs)) nothing in
        (
          record ctx { cache = some (cached ctx ++ image e) },
          rw (set_in, missed) refl,
          record {
            bytes =
                ap₂ (λ xs ys. xs ++ ys) v.bytes (sym (append-nil (image e)))
                ∙ sym
                    (images-append size image parse some_size length-image parse-image es (e ∷ []))
                ∙ ap (images image) (rw (with_entry, nothing) refl);
            entries = AreEntries-with_entry e es v.entries w;
            unique = Unique-with_entry e es v.unique;
          },
        )
    | inr (fs, ran) ↦
        let hit : replace_entry size image parse (length (cached ctx) / size) e (cached ctx)
            ≡ some (images image fs) =
          replaced-bytes e es (cached ctx) v.entries v.bytes
          ∙ ap (λ o. o >>= λ fs. some (images image fs)) ran in
        (
          record ctx { cache = some (images image fs) },
          rw (set_in, hit) refl,
          record {
            bytes = ap (images image) (rw (with_entry, ran) refl);
            entries = AreEntries-with_entry e es v.entries w;
            unique = Unique-with_entry e es v.unique;
          },
        )
  ]

  -- Let an entry whose id has its 64 bytes with a terminator among them have a positive size in
  -- memory, fill the bytes of its image and be read back from it. On a cache that stores entries of
  -- such ids with no key twice, setting such an entry succeeds where `realloc` does: the cache
  -- stores entries with no key twice again, the handlers of the type are to be called with the id,
  -- and `get_entry` gives the entry for its type and id and what it gave before for all others.
  pub get_entry-set_in :
      (ctx : StateContext) (es : List StateEntry) (e : StateEntry)
      → Stores image ctx es
      → IsEntry e
      → (after : StateContext) × (fs : List StateEntry) × (set_in size image parse true ctx e
          ≡ (true, after, notices e.type (cstr e.id) ctx.handlers))
        × Stores image after fs
        × ((type : ℕ) (id : Str)
            → get_entry size image parse (some after) type (some id) ≡ (
                if is_entry type id e
                then some e
                else get_entry size image parse (some ctx) type (some id)))
  get_entry-set_in ctx es e v w =
      let (after, ran, stored) = set_in-Stores ctx es e v w in
      (
        after,
        with_entry e es,
        ran,
        stored,
        λ type id.
            get_entry-first_entry after (with_entry e es) type id stored
            ∙ first_entry-with_entry type id e es
            ∙ ap (λ o. if is_entry type id e then some e else o)
                (sym (get_entry-first_entry ctx es type id v)),
      )
