-- ===== src/Tree/Rehomed.antt =====
-- The trees that get another parent, and those that are set free: together they are the children of
-- the deleted node.
use phantomid.Common.{ℕ, ◌+◌, ◌-◌, ◌≤◌, ◌≡◌, refl, inl, inr, arith, ◌==◌, Bool-cases, length}
use phantomid.Tree.Store.{Ptr, null}
use phantomid.Tree.Forest.{Forest, nil, tree, roots, count, occ, All, Parents}
use phantomid.Tree.Orphans.{first_trees, other_trees, adopt, set_free}
use phantomid.Tree.Invariant.{Fits}

pub occ-set_free : (a : Ptr) (f : Forest) → occ a (set_free f) ≡ occ a f
occ-set_free a nil = refl
occ-set_free a (tree p n kids rest) = omega (arith, occ-set_free a rest)

pub count-set_free : (f : Forest) → count (set_free f) ≡ count f
count-set_free nil = refl
count-set_free (tree p n kids rest) = omega (arith, count-set_free rest)

pub occ-split :
    (a g : Ptr) (r : ℕ) (f : Forest)
    → occ a (adopt g (first_trees r f)) + occ a (set_free (other_trees r f)) ≡ occ a f
occ-split a g r nil = refl
occ-split a g r (tree p n kids rest) = elim (Bool-cases (r == 0)) [
  | inl full ↦ rw full (omega (arith, occ-set_free a rest))
  | inr some_room ↦ rw some_room (omega (arith, occ-split a g (r - 1) rest))
]

pub count-split :
    (g : Ptr) (r : ℕ) (f : Forest)
    → count (adopt g (first_trees r f)) + count (set_free (other_trees r f)) ≡ count f
count-split g r nil = refl
count-split g r (tree p n kids rest) = elim (Bool-cases (r == 0)) [
  | inl full ↦ rw full (omega (arith, count-set_free rest))
  | inr some_room ↦ rw some_room (omega (arith, count-split g (r - 1) rest))
]

pub length-first_trees-le : (r : ℕ) (f : Forest) → length (roots (first_trees r f)) ≤ r
length-first_trees-le r nil = omega arith
length-first_trees-le r (tree p n kids rest) = elim (Bool-cases (r == 0)) [
  | inl full ↦ rw full (omega arith)
  | inr some_room ↦ rw some_room (ground (arith, length-first_trees-le (r - 1) rest))
]

pub Parents-adopt :
    (g par : Ptr) (r : ℕ) (f : Forest) → Parents par f → Parents g (adopt g (first_trees r f))
Parents-adopt g par r nil ps = tt
Parents-adopt g par r (tree p n kids rest) (e, k, ps) = elim (Bool-cases (r == 0)) [
  | inl full ↦ rw full tt
  | inr some_room ↦ rw some_room (refl, k, Parents-adopt g par (r - 1) rest ps)
]

pub Parents-set_free_forest : (par : Ptr) (f : Forest) → Parents par f → Parents null (set_free f)
Parents-set_free_forest par nil ps = tt
Parents-set_free_forest par (tree p n kids rest) (e, k, ps) =
    (refl, k, Parents-set_free_forest par rest ps)

pub Parents-set_free :
    (par : Ptr) (r : ℕ) (f : Forest) → Parents par f → Parents null (set_free (other_trees r f))
Parents-set_free par r nil ps = tt
Parents-set_free par r (tree p n kids rest) (e, k, ps) = elim (Bool-cases (r == 0)) [
  | inl full ↦ rw full (refl, k, Parents-set_free_forest par rest ps)
  | inr some_room ↦ rw some_room (Parents-set_free par (r - 1) rest ps)
]

pub Fits-adopt : (g : Ptr) (r : ℕ) (f : Forest) → All Fits f → All Fits (adopt g (first_trees r f))
Fits-adopt g r nil fs = tt
Fits-adopt g r (tree p n kids rest) (e, k, fs) = elim (Bool-cases (r == 0)) [
  | inl full ↦ rw full tt
  | inr some_room ↦ rw some_room (e, k, Fits-adopt g (r - 1) rest fs)
]

pub Fits-set_free_forest : (f : Forest) → All Fits f → All Fits (set_free f)
Fits-set_free_forest nil fs = tt
Fits-set_free_forest (tree p n kids rest) (e, k, fs) = (e, k, Fits-set_free_forest rest fs)

pub Fits-set_free : (r : ℕ) (f : Forest) → All Fits f → All Fits (set_free (other_trees r f))
Fits-set_free r nil fs = tt
Fits-set_free r (tree p n kids rest) (e, k, fs) = elim (Bool-cases (r == 0)) [
  | inl full ↦ rw full (e, k, Fits-set_free_forest rest fs)
  | inr some_room ↦ rw some_room (Fits-set_free (r - 1) rest fs)
]
