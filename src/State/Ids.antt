-- ===== src/State/Ids.antt =====
-- The ids in a forest, and what holds of the one node that has an id.
use mathlib.Core.Path.{subst}
use phantomid.Common.{
  ℕ, ◌≤◌, ◌<◌, ◌≡◌, refl, ap, ◌≢◌, inl, inr, true, some, arith, ◌==◌, ==_iff, Bool-cases, length,
}
use phantomid.Common.CString.{Str, str_eq, str_eq_iff}
use phantomid.Tree.Store.{Ptr, Node, Heap}
use phantomid.Tree.Forest.{Forest, nil, tree, count, occ, All, Any, Holds, length-roots-le, All-at}
use phantomid.Tree.Lookup.{Named}
use phantomid.State.Shape.{shape, times}

-- The id that occurs once is that of one node.
pub times-of_none : (s : Str) (f : Forest) → All (λ p n. n.id ≢ s) f → times s (shape f) ≡ 0
times-of_none s nil none_there = refl
times-of_none s (tree p n kids rest) (x, k, r) =
    ground (arith, str_eq_iff n.id s, times-of_none s kids k, times-of_none s rest r)

only_of_times :
    (s : Str) (q : Ptr) (f : Forest) → times s (shape f) ≡ 0 → All (λ p n. n.id ≡ s → p ≡ q) f
only_of_times s q nil e = tt
only_of_times s q (tree p n kids rest) e = (
  (λ same. ground (arith, str_eq_iff n.id s)),
  only_of_times s q kids (ground arith),
  only_of_times s q rest (ground arith),
)

times-of_Any : (s : Str) (q : Ptr) (f : Forest) → Any (Named s q) f → 0 < times s (shape f)
times-of_Any s q (tree p n kids rest) (inl (e, same)) =
    rw ((str_eq_iff n.id s).1 same) (omega arith)
times-of_Any s q (tree p n kids rest) (inr (inl k)) = omega (arith, times-of_Any s q kids k)
times-of_Any s q (tree p n kids rest) (inr (inr r)) = omega (arith, times-of_Any s q rest r)
times-of_Any s q nil there = absurd there

only_one :
    (s : Str) (q : Ptr) (f : Forest)
    → times s (shape f) ≤ 1
    → Any (Named s q) f
    → All (λ p n. n.id ≡ s → p ≡ q) f
only_one s q (tree p n kids rest) once (inl (e, same)) =
    let here : str_eq n.id s ≡ true = (str_eq_iff n.id s).1 same in
    ((λ _. e), only_of_times s q kids (ground arith), only_of_times s q rest (ground arith))
only_one s q (tree p n kids rest) once (inr (inl k)) =
    let deep = times-of_Any s q kids k in
    (
      (λ same. ground (arith, str_eq_iff n.id s, deep)),
      only_one s q kids (omega (arith, once)) k,
      only_of_times s q rest (omega (arith, once, deep)),
    )
only_one s q (tree p n kids rest) once (inr (inr r)) =
    let deep = times-of_Any s q rest r in
    (
      (λ same. ground (arith, str_eq_iff n.id s, deep)),
      only_of_times s q kids (omega (arith, once, deep)),
      only_one s q rest (omega (arith, once)) r,
    )
only_one s q nil once there = absurd there

-- What holds of all nodes holds of the one at an address.
pub at_All {ℓ} :
    (P : Ptr → Node → Type ℓ) (h : Heap) (q : Ptr) {m : Node} (f : Forest)
    → Holds h f
    → All P f
    → 0 < occ q f
    → h q ≡ some m
    → P q m
at_All P h q nil held ps there at_q = absurd (omega (arith, there))
at_All P h q {m} (tree p n kids rest) (ne, at_p, cs, hk, hr) (x, k, r) there at_q =
    elim (Bool-cases (p == q)) [
      | inl here ↦
          let e : p ≡ q = (==_iff p q).0 here in
          let same : n ≡ m = cc (ap h e) in subst (P q) same (subst (λ a. P a n) e x)
      | inr away ↦ elim (Bool-cases (occ q kids == 0)) [
        | inl gone ↦ at_All P h q rest hr r (ground arith) at_q
        | inr deep ↦ at_All P h q kids hk k (ground arith) at_q
      ]
    ]

All-both {ℓ κ} :
    (P : Ptr → Node → Type ℓ) (Q : Ptr → Node → Type κ) (f : Forest)
    → All P f
    → All Q f
    → All (λ p n. P p n × Q p n) f
All-both P Q nil ps qs = tt
All-both P Q (tree p n kids rest) (x, k, r) (y, l, s) =
    ((x, y), All-both P Q kids k l, All-both P Q rest r s)

-- The node that was found is the one with the id.
pub unique :
    (s : Str) (h : Heap) (q : Ptr) {m : Node} (f : Forest)
    → times s (shape f) ≤ 1
    → Any (Named s q) f
    → Holds h f
    → h q ≡ some m
    → m.id ≡ s
    → All (λ p n. (p ≡ q → n.id ≡ s) × (n.id ≡ s → p ≡ q)) f
unique s h q f once there held at_q id =
    All-both (λ p n. p ≡ q → n.id ≡ s) (λ p n. n.id ≡ s → p ≡ q) f
      (All-at (λ n. n.id ≡ s) h q f held at_q id) (only_one s q f once there)

pub few_children :
    (h : Heap) (f : Forest) (b : ℕ) → Holds h f → count f ≤ b → All (λ p n. length n.children < b) f
few_children h nil b held few = tt
few_children h (tree p n kids rest) b (ne, at_p, cs, hk, hr) few = (
  omega (arith, ap (λ xs. length xs) cs, length-roots-le kids),
  few_children h kids b hk (omega arith),
  few_children h rest b hr (omega arith),
)
