-- ===== src/Interface/State/Removal.antt =====
-- What `set_entry` and `delete_entry` of interface/state.c leave of the entries.
use mathlib.Core.Path.{ap₂, subst}
use phantomid.Common.{
  ℕ, ◌+◌, ◌≡◌, refl, ap, true, false, ◌&&◌, List, [], ◌∷◌, ◌++◌, none, some, arith, ◌==◌,
  if◌then◌else◌, Bool-cases, Option-cases, inl, inr,
}
use phantomid.Common.CString.{Str, cstr, str_eq}
use phantomid.Interface.State.{StateEntry, is_entry}
use phantomid.Interface.State.Cells.{first_entry, replaced, removed, IsEntry, AreEntries}
use phantomid.Interface.State.Table.{is_entry_lem, with_entry, entry_uses}

is_entry_key :
    (type : ℕ) (id : Str) (x : StateEntry)
    → is_entry type id x ≡ true
    → (t : ℕ) (i : Str) → is_entry t i x ≡ (type == t && str_eq id i)
unfolding is_entry
is_entry_key type id x h t i =
    let (same_type, same_id) = is_entry_lem type id x h in
    ap₂ (λ a b. (a == t) && str_eq b i) same_type same_id

-- What `delete_entry` makes of the entries: the key is gone, and the others are as they were.
pub record Removed (type : ℕ) (id : Str) (es fs : List StateEntry) : Type 0 where
  pub there : (e : StateEntry) × (first_entry type id es ≡ some e)
  pub uses_now :
      (t : ℕ) (i : Str)
      → entry_uses t i es ≡ entry_uses t i fs + (if type == t && str_eq id i then 1 else 0)
  pub others :
      (t : ℕ) (i : Str)
      → (type == t && str_eq id i) ≡ false
      → first_entry t i fs ≡ first_entry t i es

pub removed-Removed :
    (type : ℕ) (id : Str) (es fs : List StateEntry)
    → removed type id es ≡ some fs
    → Removed type id es fs
unfolding removed first_entry
removed-Removed type id [] fs h = absurd (ground arith)
removed-Removed type id (x ∷ xs) fs h = elim (Bool-cases (is_entry type id x)) [
  | inl here ↦
      let made : xs ≡ fs = ground arith in
      subst (Removed type id (x ∷ xs)) made (record {
        there = (x, rw here refl);
        uses_now = λ t i.
            omega (arith, ap {B = ℕ} (λ b. if b then 1 else 0) (is_entry_key type id x here t i));
        others = λ t i off. ground (arith, is_entry_key type id x here t i);
      })
  | inr away ↦ elim (Option-cases (removed type id xs)) [
    | inl nothing ↦ absurd (ground arith)
    | inr (ys, ran) ↦
        let made : x ∷ ys ≡ fs = ground arith in
        let r = removed-Removed type id xs ys ran in
        subst (Removed type id (x ∷ xs)) made (record {
          there = (r.there.0, rw away r.there.1);
          uses_now = λ t i. omega (arith, r.uses_now t i);
          others = λ t i off. ground (arith, r.others t i off);
        })
  ]
]

pub removed-none :
    (type : ℕ) (id : Str) (es : List StateEntry)
    → removed type id es ≡ none
    → first_entry type id es ≡ none
unfolding removed first_entry
removed-none type id [] h = refl
removed-none type id (x ∷ xs) h = ground (arith, removed-none type id xs)

AreEntries-append :
    (es : List StateEntry) (e : StateEntry) → AreEntries es → IsEntry e → AreEntries (es ++ e ∷ [])
AreEntries-append [] e v w = (w, tt)
AreEntries-append (x ∷ xs) e (v, vs) w = (v, AreEntries-append xs e vs w)

AreEntries-replaced :
    (e : StateEntry) (es fs : List StateEntry)
    → replaced e es ≡ some fs
    → AreEntries es
    → IsEntry e
    → AreEntries fs
unfolding replaced
AreEntries-replaced e [] fs h v w = absurd (ground arith)
AreEntries-replaced e (x ∷ xs) fs h (v, vs) w = elim (Bool-cases (is_entry e.type (cstr e.id) x)) [
  | inl here ↦ let made : e ∷ xs ≡ fs = ground arith in subst AreEntries made (w, vs)
  | inr away ↦ elim (Option-cases (replaced e xs)) [
    | inl nothing ↦ absurd (ground arith)
    | inr (ys, ran) ↦
        let made : x ∷ ys ≡ fs = ground arith in
        subst AreEntries made (v, AreEntries-replaced e xs ys ran vs w)
  ]
]

pub AreEntries-with_entry :
    (e : StateEntry) (es : List StateEntry)
    → AreEntries es
    → IsEntry e
    → AreEntries (with_entry e es)
AreEntries-with_entry e es v w = elim (Option-cases (replaced e es)) [
  | inl nothing ↦ rw (with_entry, nothing) (AreEntries-append es e v w)
  | inr (fs, ran) ↦ rw (with_entry, ran) (AreEntries-replaced e es fs ran v w)
]

pub AreEntries-removed :
    (type : ℕ) (id : Str) (es fs : List StateEntry)
    → removed type id es ≡ some fs
    → AreEntries es
    → AreEntries fs
unfolding removed
AreEntries-removed type id [] fs h v = absurd (ground arith)
AreEntries-removed type id (x ∷ xs) fs h (v, vs) = elim (Bool-cases (is_entry type id x)) [
  | inl here ↦ let made : xs ≡ fs = ground arith in subst AreEntries made vs
  | inr away ↦ elim (Option-cases (removed type id xs)) [
    | inl nothing ↦ absurd (ground arith)
    | inr (ys, ran) ↦
        let made : x ∷ ys ≡ fs = ground arith in
        subst AreEntries made (v, AreEntries-removed type id xs ys ran vs)
  ]
]
