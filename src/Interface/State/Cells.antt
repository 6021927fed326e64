-- ===== src/Interface/State/Cells.antt =====
-- The cache of interface/state.c as a list of entries.
use native.Mathlib.Nat.{mul-div_cancel}
use mathlib.Core.Path.{ap₂}
use phantomid.Common.{
  ℕ, suc, ◌+◌, ◌-◌, ◌*◌, ◌/◌, ◌≤◌, ◌<◌, ◌≡◌, refl, sym, ap, ◌∙◌, Bool, true, false, List, [], ◌∷◌,
  ◌++◌, append-nil, append_assoc, Option, none, some, arith, ltb, if◌then◌else◌, ◌>>=◌, Bool-cases,
  inl, inr, length, length-append, take, drop, take-append_of_eq, drop-append_of_eq, take_all,
}
use phantomid.Common.CString.{Str, Bytes, cstr}
use phantomid.Interface.State.{StateEntry, is_entry, find_entry, replace_entry, shift_entries}

-- The operations on a list of entries.
unfoldable pub first_entry : ℕ → Str → List StateEntry → Option StateEntry
first_entry type id [] = none
first_entry type id (e ∷ es) =
    let rest = first_entry type id es in if is_entry type id e then some e else rest

unfoldable pub replaced : StateEntry → List StateEntry → Option (List StateEntry)
replaced e [] = none
replaced e (x ∷ xs) =
    let rest = replaced e xs in
    if is_entry e.type (cstr e.id) x then some (e ∷ xs) else (rest >>= λ ys. some (x ∷ ys))

unfoldable pub removed : ℕ → Str → List StateEntry → Option (List StateEntry)
removed type id [] = none
removed type id (x ∷ xs) =
    let rest = removed type id xs in
    if is_entry type id x then some xs else (rest >>= λ ys. some (x ∷ ys))

-- The array `id` has its 64 bytes, and a terminator among them, so that `strcmp` stays in it.
abbrev pub IsEntry : StateEntry → Type 0
IsEntry e = (length e.id ≡ 64) × (length (cstr e.id) < 64)

abbrev pub AreEntries : List StateEntry → Type 0
AreEntries [] = Unit
AreEntries (e ∷ es) = IsEntry e × AreEntries es

take-length_add :
    {A : Type 0} (xs ys : List A) (n : ℕ) → take (length xs + n) (xs ++ ys) ≡ xs ++ take n ys
take-length_add [] ys n = let e : 0 + n ≡ n = omega arith in ap (λ m. take m ys) e
take-length_add (x ∷ xs) ys n =
    let e : suc (length xs) + n ≡ suc (length xs + n) = omega arith in
    ap (λ m. take m (x ∷ xs ++ ys)) e ∙ ap (◌∷◌ x) (take-length_add xs ys n)

-- The bytes of an array of entries.
abbrev pub images : (StateEntry → Bytes) → List StateEntry → Bytes
images image [] = []
images image (e ∷ es) = image e ++ images image es

-- A list of entries is stored as its images; an entry fills its image, and is read back from it.
module _ (size : ℕ) (image : StateEntry → Bytes) (parse : Bytes → StateEntry) (some_size : 0 < size)
    (length-image : (e : StateEntry) → IsEntry e → length (image e) ≡ size)
    (parse-image : (e : StateEntry) → IsEntry e → parse (image e) ≡ e) where
  pub length-images :
      (es : List StateEntry) → AreEntries es → length (images image es) ≡ length es * size
  length-images [] v = omega arith
  length-images (e ∷ es) (v, vs) =
      length-append (image e) (images image es)
      ∙ omega (arith, length-image e v, length-images es vs)

  -- The number of entries that the loops go over.
  pub entries-images :
      (es : List StateEntry) → AreEntries es → length (images image es) / size ≡ length es
  entries-images es v =
      ap (λ n. n / size) (length-images es v) ∙ mul-div_cancel (length es) some_size

  pub images-append :
      (es fs : List StateEntry) → images image (es ++ fs) ≡ images image es ++ images image fs
  images-append [] fs = refl
  images-append (e ∷ es) fs =
      ap (λ bs. image e ++ bs) (images-append es fs)
      ∙ sym (append_assoc (image e) (images image es) (images image fs))

  module _ (e : StateEntry) (es : List StateEntry) (v : IsEntry e) where
    front : take size (image e ++ images image es) ≡ image e
    front = take-append_of_eq (image e) (images image es) size (length-image e v)

    back : drop size (image e ++ images image es) ≡ images image es
    back = drop-append_of_eq (image e) (images image es) size (length-image e v)

    read : parse (take size (image e ++ images image es)) ≡ e
    read = ap parse front ∙ parse-image e v

  pub find_entry-images :
      (type : ℕ) (id : Str) (es : List StateEntry)
      → AreEntries es
      → find_entry size image parse (length es) type id (images image es) ≡ first_entry type id es
  unfolding find_entry first_entry
  find_entry-images type id [] v = refl
  find_entry-images type id (e ∷ es) (v, vs) =
      rw (read e es v, back e es v, find_entry-images type id es vs) refl

  replace_step :
      (b : Bool) (e x : StateEntry) (xs : List StateEntry) (rest : Option (List StateEntry))
      → (if b
          then some (image e ++ images image xs)
          else ((rest >>= λ fs. some (images image fs)) >>= λ bs. some (image x ++ bs)))
        ≡ ((if b then some (e ∷ xs) else (rest >>= λ ys. some (x ∷ ys))) >>= λ fs.
            some (images image fs))
  replace_step true e x xs rest = refl
  replace_step false e x xs none = refl
  replace_step false e x xs (some ys) = refl

  pub replace_entry-images :
      (e : StateEntry) (es : List StateEntry)
      → AreEntries es
      → replace_entry size image parse (length es) e (images image es)
        ≡ (replaced e es >>= λ fs. some (images image fs))
  unfolding replace_entry replaced
  replace_entry-images e [] v = refl
  replace_entry-images e (x ∷ xs) (v, vs) =
      rw (read x xs v, back x xs v, front x xs v, replace_entry-images e xs vs)
        (replace_step (is_entry e.type (cstr e.id) x) e x xs (replaced e xs))

  -- The deletion: nothing is found, or what is left of the bytes is the others' images.
  abbrev pub Shifted : ℕ → Str → List StateEntry → Option (List StateEntry) → Type 0
  Shifted type id es none =
      shift_entries size image parse (length es) type id (images image es) ≡ none
  Shifted type id es (some fs) =
      (bs : Bytes) × (shift_entries size image parse (length es) type id (images image es)
        ≡ some bs)
      × (take (length (images image es) - size) bs ≡ images image fs)
      × (size ≤ length (images image es))

  -- The entry that is found, `x`, is the first of the rest of the array.
  shift_here :
      (x : StateEntry) (xs : List StateEntry) (v : IsEntry x)
      → AreEntries xs
      → take (length (image x ++ images image xs) - size) (
          if ltb 0 (length xs)
          then take (length xs * size) (images image xs)
            ++ drop (length xs * size) (image x ++ images image xs)
          else image x ++ images image xs)
        ≡ images image xs
  shift_here x [] v vs =
      let none_left : length (image x ++ []) - size ≡ 0 =
        omega (arith, length-append (image x) [], length-image x v) in
      ap (λ n. take n (image x ++ [])) none_left
  shift_here x (y ∷ xs) v vs =
      let long : length (image x ++ images image (y ∷ xs)) - size
          ≡ length (images image (y ∷ xs)) + 0 =
        omega (arith, length-append (image x) (images image (y ∷ xs)), length-image x v) in
      let all : take (length (y ∷ xs) * size) (images image (y ∷ xs)) ≡ images image (y ∷ xs) =
        ap (λ n. take n (images image (y ∷ xs))) (sym (length-images (y ∷ xs) vs))
        ∙ take_all (images image (y ∷ xs)) _ (omega arith) in
      let busy : ltb 0 (length (y ∷ xs)) ≡ true = ground arith in
      rw busy (
        ap₂
          (λ n bs. take n (bs ++ drop (length (y ∷ xs) * size) (image x ++ images image (y ∷ xs))))
          long all
        ∙ take-length_add (images image (y ∷ xs)) _ 0
        ∙ append-nil (images image (y ∷ xs)))

  shift_away :
      (type : ℕ) (id : Str) (x : StateEntry) (xs : List StateEntry) (v : IsEntry x)
      (rest : Option (List StateEntry))
      → is_entry type id x ≡ false
      → Shifted type id xs rest
      → Shifted type id (x ∷ xs) (rest >>= λ ys. some (x ∷ ys))
  unfolding shift_entries
  shift_away type id x xs v none away ih = rw (read x xs v, back x xs v, away) (rw (ih, ◌>>=◌) refl)
  shift_away type id x xs v (some fs) away (bs, ran, kept, long) =
      let n : length (image x ++ images image xs) - size
          ≡ length (image x) + (length (images image xs) - size) =
        omega (arith, length-append (image x) (images image xs), length-image x v, long) in
      (
        image x ++ bs,
        rw (read x xs v, back x xs v, front x xs v, away) (rw (ran, ◌>>=◌) refl),
        ap (λ k. take k (image x ++ bs)) n
            ∙ take-length_add (image x) bs (length (images image xs) - size)
            ∙ ap (λ r. image x ++ r) kept,
        omega (arith, length-append (image x) (images image xs), length-image x v),
      )

  pub shift_entries-images :
      (type : ℕ) (id : Str) (es : List StateEntry)
      → AreEntries es
      → Shifted type id es (removed type id es)
  unfolding shift_entries removed
  shift_entries-images type id [] v = refl
  shift_entries-images type id (x ∷ xs) (v, vs) = elim (Bool-cases (is_entry type id x)) [
    | inl here ↦ rw here (
      _,
      rw (read x xs v, back x xs v, here) refl,
      shift_here x xs v vs,
      omega (arith, length-append (image x) (images image xs), length-image x v),
    )
    | inr away ↦
        rw away
          (shift_away type id x xs v (removed type id xs) away (shift_entries-images type id xs vs))
  ]
