-- ===== src/Interface/State/Table.antt =====
-- The entries of interface/state.c as a table from types and ids to entries.
use mathlib.Core.Path.{ap₂}
use phantomid.Common.{
  ℕ, ◌+◌, ◌≤◌, ◌≡◌, refl, sym, ap, ◌∙◌, true, ◌&&◌, List, [], ◌∷◌, ◌++◌, none, some, arith, ◌==◌,
  if◌then◌else◌, Bool-cases, Option-cases, inl, inr, eq→==,
}
use phantomid.Common.CString.{Str, cstr, str_eq, str_eq_iff, str_eq_self}
use phantomid.Interface.State.{StateEntry, is_entry}
use phantomid.Interface.State.Cells.{first_entry, replaced}

-- The key of an entry.
pub is_entry_lem :
    (type : ℕ) (id : Str) (e : StateEntry)
    → is_entry type id e ≡ true
    → (e.type ≡ type) × (cstr e.id ≡ id)
unfolding is_entry
is_entry_lem type id e h = ground (arith, str_eq_iff (cstr e.id) id)

pub is_entry_self : (e : StateEntry) → is_entry e.type (cstr e.id) e ≡ true
unfolding is_entry
is_entry_self e = rw (eq→== e.type e.type refl, str_eq_self (cstr e.id)) refl

-- Entries with one key are found by the same questions.
pub is_entry_same :
    (type : ℕ) (id : Str) (a x : StateEntry)
    → is_entry a.type (cstr a.id) x ≡ true
    → is_entry type id x ≡ is_entry type id a
unfolding is_entry
is_entry_same type id a x h =
    let (same_type, same_id) = is_entry_lem a.type (cstr a.id) x h in
    ap (λ t. (t == type) && str_eq (cstr x.id) id) same_type
    ∙ ap (λ i. (a.type == type) && str_eq i id) same_id

-- What `set_entry` makes of the entries.
abbrev pub with_entry : StateEntry → List StateEntry → List StateEntry
with_entry e es = elim (replaced e es) [ none ↦ es ++ e ∷ [] | some fs ↦ fs ]

pub first_entry-append :
    (type : ℕ) (id : Str) (e : StateEntry) (es : List StateEntry)
    → (is_entry type id e ≡ true → first_entry type id es ≡ none)
    → first_entry type id (es ++ e ∷ [])
      ≡ (if is_entry type id e then some e else first_entry type id es)
unfolding first_entry
first_entry-append type id e [] free = ground arith
first_entry-append type id e (x ∷ xs) free = ground (arith, first_entry-append type id e xs)

pub first_entry-replaced :
    (type : ℕ) (id : Str) (e : StateEntry) (es fs : List StateEntry)
    → replaced e es ≡ some fs
    → first_entry type id fs ≡ (if is_entry type id e then some e else first_entry type id es)
unfolding first_entry replaced
first_entry-replaced type id e [] fs h = absurd (ground arith)
first_entry-replaced type id e (x ∷ xs) fs h = elim (Bool-cases (is_entry e.type (cstr e.id) x)) [
  | inl here ↦
      let made : e ∷ xs ≡ fs = ground arith in
      ap (first_entry type id) (sym made) ∙ ground (arith, is_entry_same type id e x here)
  | inr away ↦ elim (Option-cases (replaced e xs)) [
    | inl nothing ↦ absurd (ground arith)
    | inr (ys, ran) ↦
        let made : x ∷ ys ≡ fs = ground arith in
        ap (first_entry type id) (sym made)
        ∙ ground (
          arith,
          first_entry-replaced type id e xs ys ran,
          is_entry_lem type id e,
          is_entry_lem type id x,
        )
  ]
]

pub replaced_free :
    (type : ℕ) (id : Str) (e : StateEntry) (es : List StateEntry)
    → replaced e es ≡ none
    → is_entry type id e ≡ true
    → first_entry type id es ≡ none
unfolding first_entry replaced
replaced_free type id e [] h k = refl
replaced_free type id e (x ∷ xs) h k =
    let (same_type, same_id) = is_entry_lem type id e k in
    let same : is_entry e.type (cstr e.id) x ≡ is_entry type id x =
      ap₂ (λ t i. is_entry t i x) same_type same_id in
    ground (arith, same, replaced_free type id e xs)

pub first_entry-with_entry :
    (type : ℕ) (id : Str) (e : StateEntry) (es : List StateEntry)
    → first_entry type id (with_entry e es)
      ≡ (if is_entry type id e then some e else first_entry type id es)
first_entry-with_entry type id e es = elim (Option-cases (replaced e es)) [
  | inl nothing ↦
      rw (with_entry, nothing)
        (first_entry-append type id e es (replaced_free type id e es nothing))
  | inr (fs, ran) ↦ rw (with_entry, ran) (first_entry-replaced type id e es fs ran)
]

-- How many entries have the key.
abbrev pub entry_uses : ℕ → Str → List StateEntry → ℕ
entry_uses type id [] = 0
entry_uses type id (e ∷ es) = (if is_entry type id e then 1 else 0) + entry_uses type id es

-- No key stands twice.
abbrev pub Unique : List StateEntry → Type 0
Unique es = (type : ℕ) (id : Str) → entry_uses type id es ≤ 1

pub uses_of_none :
    (type : ℕ) (id : Str) (es : List StateEntry)
    → first_entry type id es ≡ none
    → entry_uses type id es ≡ 0
unfolding first_entry
uses_of_none type id [] h = refl
uses_of_none type id (x ∷ xs) h = ground (arith, uses_of_none type id xs)

pub none_of_uses :
    (type : ℕ) (id : Str) (es : List StateEntry)
    → entry_uses type id es ≡ 0
    → first_entry type id es ≡ none
unfolding first_entry
none_of_uses type id [] h = refl
none_of_uses type id (x ∷ xs) h = ground (arith, none_of_uses type id xs)

pub uses-append :
    (type : ℕ) (id : Str) (e : StateEntry) (es : List StateEntry)
    → entry_uses type id (es ++ e ∷ [])
      ≡ entry_uses type id es + (if is_entry type id e then 1 else 0)
uses-append type id e [] = ground arith
uses-append type id e (x ∷ xs) = omega (arith, uses-append type id e xs)

pub uses-replaced :
    (type : ℕ) (id : Str) (e : StateEntry) (es fs : List StateEntry)
    → replaced e es ≡ some fs
    → entry_uses type id fs ≡ entry_uses type id es
unfolding replaced
uses-replaced type id e [] fs h = absurd (ground arith)
uses-replaced type id e (x ∷ xs) fs h = elim (Bool-cases (is_entry e.type (cstr e.id) x)) [
  | inl here ↦
      let made : e ∷ xs ≡ fs = ground arith in
      ap (entry_uses type id) (sym made) ∙ ground (arith, is_entry_same type id e x here)
  | inr away ↦ elim (Option-cases (replaced e xs)) [
    | inl nothing ↦ absurd (ground arith)
    | inr (ys, ran) ↦
        let made : x ∷ ys ≡ fs = ground arith in
        ap (entry_uses type id) (sym made) ∙ omega (arith, uses-replaced type id e xs ys ran)
  ]
]

pub Unique-with_entry :
    (e : StateEntry) (es : List StateEntry) → Unique es → Unique (with_entry e es)
Unique-with_entry e es u type id = elim (Option-cases (replaced e es)) [
  | inl nothing ↦
      rw (with_entry, nothing)
        (ground (
          arith,
          uses-append type id e es,
          u type id,
          uses_of_none type id es,
          replaced_free type id e es nothing,
        ))
  | inr (fs, ran) ↦
      rw (with_entry, ran) (omega (arith, uses-replaced type id e es fs ran, u type id))
]
