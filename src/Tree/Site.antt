-- ===== src/Tree/Site.antt =====
-- Where a node stands in a forest, and the forest with the node there, or its children, replaced.
use mathlib.Core.Logic.{inl, inr}
use mathlib.Core.Path.{subst}
use phantomid.Common.{
  suc, ◌∷◌, ◌+◌, ◌≤◌, ◌<◌, ◌≡◌, refl, sym, ap, ◌∙◌, ◌≢◌, some, arith, ◌==◌, if◌then◌else◌, eq→==,
  ==_iff, length, ltb, Bool-cases,
}
use phantomid.Tree.Store.{Ptr, null, Node, Heap}
use phantomid.Tree.Forest.{Forest, nil, tree, roots, count, occ, All, Holds, Parents, Holds-frame}

-- The node `m` stands at `g` with the children `ks`.
pub data Site (g : Ptr) (m : Node) (ks : Forest) : Forest → Type 0 where
  here : {rest : Forest} → Site g m ks (tree g m ks rest)
  deeper :
      {p : Ptr} {n : Node} {kids rest : Forest}
      → Site g m ks kids
      → Site g m ks (tree p n kids rest)
  beside :
      {p : Ptr} {n : Node} {kids rest : Forest}
      → Site g m ks rest
      → Site g m ks (tree p n kids rest)

-- One of the trees is that of the node `m` at `q`, with the children `ks`.
pub data Top (q : Ptr) (m : Node) (ks : Forest) : Forest → Type 0 where
  first : {rest : Forest} → Top q m ks (tree q m ks rest)
  later :
      {p : Ptr} {n : Node} {kids rest : Forest} → Top q m ks rest → Top q m ks (tree p n kids rest)

module _ {q : Ptr} {m : Node} {ks : Forest} where
  -- The other trees.
  abbrev pub without : {f : Forest} → Top q m ks f → Forest
  without (first {rest}) = rest
  without (later {p} {n} {kids} s) = tree p n kids (without s)

  pub occ-without :
      (a : Ptr) {f : Forest} (s : Top q m ks f)
      → occ a f ≡ (if q == a then 1 else 0) + occ a ks + occ a (without s)
  occ-without a first = refl
  occ-without a (later s) = omega (arith, occ-without a s)

  pub count-without : {f : Forest} (s : Top q m ks f) → count f ≡ suc (count ks + count (without s))
  count-without first = refl
  count-without (later s) = omega (arith, count-without s)

  pub length-without :
      {f : Forest} (s : Top q m ks f) → length (roots f) ≡ suc (length (roots (without s)))
  length-without first = refl
  length-without (later s) = omega (arith, length-without s)

  pub Holds-Top :
      (h : Heap) {f : Forest} (s : Top q m ks f) → Holds h f → Holds h (tree q m ks (without s))
  Holds-Top h first held = held
  Holds-Top h (later s) (e, at_p, cs, hk, hr) =
      let (ne, at_q, qs, hq, hw) = Holds-Top h s hr in (ne, at_q, qs, hq, (e, at_p, cs, hk, hw))

  pub Parents-Top :
      (par : Ptr) {f : Forest} (s : Top q m ks f)
      → Parents par f
      → Parents par (tree q m ks (without s))
  Parents-Top par first ps = ps
  Parents-Top par (later s) (e, k, r) =
      let (eq, kq, rq) = Parents-Top par s r in (eq, kq, (e, k, rq))

  pub All-Top {ℓ} :
      (P : Ptr → Node → Type ℓ) {f : Forest} (s : Top q m ks f)
      → All P f
      → All P (tree q m ks (without s))
  All-Top P first ps = ps
  All-Top P (later s) (e, k, r) = let (eq, kq, rq) = All-Top P s r in (eq, kq, (e, k, rq))

module _ {g : Ptr} {m : Node} {ks : Forest} where
  -- The forest with the node `m'` and the children `ks'` there instead.
  abbrev pub edit : {f : Forest} → Site g m ks f → Node → Forest → Forest
  edit (here {rest}) m' ks' = tree g m' ks' rest
  edit (deeper {p} {n} {rest} s) m' ks' = tree p n (edit s m' ks') rest
  edit (beside {p} {n} {kids} s) m' ks' = tree p n kids (edit s m' ks')

  pub roots-edit :
      {f : Forest} (s : Site g m ks f) (m' : Node) (ks' : Forest) → roots (edit s m' ks') ≡ roots f
  roots-edit here m' ks' = refl
  roots-edit (deeper s) m' ks' = refl
  roots-edit (beside {p} s) m' ks' = ap (◌∷◌ p) (roots-edit s m' ks')

  pub occ-edit :
      (a : Ptr) {f : Forest} (s : Site g m ks f) (m' : Node) (ks' : Forest)
      → occ a (edit s m' ks') + occ a ks ≡ occ a f + occ a ks'
  occ-edit a here m' ks' = omega arith
  occ-edit a (deeper s) m' ks' = omega (arith, occ-edit a s m' ks')
  occ-edit a (beside s) m' ks' = omega (arith, occ-edit a s m' ks')

  pub count-edit :
      {f : Forest} (s : Site g m ks f) (m' : Node) (ks' : Forest)
      → count (edit s m' ks') + count ks ≡ count f + count ks'
  count-edit here m' ks' = omega arith
  count-edit (deeper s) m' ks' = omega (arith, count-edit s m' ks')
  count-edit (beside s) m' ks' = omega (arith, count-edit s m' ks')

  -- The node and its children occur in the forest.
  pub occ-Site :
      (a : Ptr) {f : Forest} → Site g m ks f → (if g == a then 1 else 0) + occ a ks ≤ occ a f
  occ-Site a here = omega arith
  occ-Site a (deeper s) = omega (arith, occ-Site a s)
  occ-Site a (beside s) = omega (arith, occ-Site a s)

  pub Holds-Site :
      (h : Heap) {f : Forest}
      → Site g m ks f
      → Holds h f
      → (g ≢ null) × (h g ≡ some m) × (m.children ≡ roots ks) × Holds h ks
  Holds-Site h here (e, at_p, cs, hk, hr) = (e, at_p, cs, hk)
  Holds-Site h (deeper s) (e, at_p, cs, hk, hr) = Holds-Site h s hk
  Holds-Site h (beside s) (e, at_p, cs, hk, hr) = Holds-Site h s hr

  pub Parents-Site : (par : Ptr) {f : Forest} → Site g m ks f → Parents par f → Parents g ks
  Parents-Site par here (e, k, r) = k
  Parents-Site par (deeper {p} s) (e, k, r) = Parents-Site p s k
  Parents-Site par (beside s) (e, k, r) = Parents-Site par s r

  pub All-Site {ℓ} :
      (P : Ptr → Node → Type ℓ) {f : Forest} → Site g m ks f → All P f → P g m × All P ks
  All-Site P here (e, k, r) = (e, k)
  All-Site P (deeper s) (e, k, r) = All-Site P s k
  All-Site P (beside s) (e, k, r) = All-Site P s r

  pub Parents-edit :
      (par : Ptr) {f : Forest} (s : Site g m ks f) (m' : Node) (ks' : Forest)
      → m'.parent ≡ m.parent
      → Parents g ks'
      → Parents par f
      → Parents par (edit s m' ks')
  Parents-edit par here m' ks' same new (e, k, r) = (same ∙ e, new, r)
  Parents-edit par (deeper {p} s) m' ks' same new (e, k, r) =
      (e, Parents-edit p s m' ks' same new k, r)
  Parents-edit par (beside s) m' ks' same new (e, k, r) =
      (e, k, Parents-edit par s m' ks' same new r)

  pub All-edit {ℓ} :
      (P : Ptr → Node → Type ℓ) {f : Forest} (s : Site g m ks f) (m' : Node) (ks' : Forest)
      → P g m'
      → All P ks'
      → All P f
      → All P (edit s m' ks')
  All-edit P here m' ks' x new (e, k, r) = (x, new, r)
  All-edit P (deeper s) m' ks' x new (e, k, r) = (e, All-edit P s m' ks' x new k, r)
  All-edit P (beside s) m' ks' x new (e, k, r) = (e, k, All-edit P s m' ks' x new r)

  -- A heap that differs only at the node and below it holds the edited forest.
  pub Holds-edit :
      (h h' : Heap) {f : Forest} (s : Site g m ks f) (m' : Node) (ks' : Forest)
      → ((a : Ptr) → occ a f ≤ 1)
      → ((a : Ptr) → a ≢ g → occ a ks ≡ 0 → 0 < occ a f → h' a ≡ h a)
      → h' g ≡ some m'
      → m'.children ≡ roots ks'
      → Holds h' ks'
      → Holds h f
      → Holds h' (edit s m' ks')
  Holds-edit h h' (here {rest}) m' ks' one same at_g cs' new (e, at_p, cs, hk, hr) = (
    e,
    at_g,
    cs',
    new,
    Holds-frame h h' rest
        (λ a i.
          same a (λ at. ground (arith, one a, eq→== g a (sym at))) (omega (arith, one a))
            (omega arith))
        hr,
  )
  Holds-edit h h' (deeper {p} {rest} s) m' ks' one same at_g cs' new (e, at_p, cs, hk, hr) = (
    e,
    same p (λ at. ground (arith, one p, occ-Site p s, eq→== g p (sym at)))
          (ground (arith, one p, occ-Site p s)) (ground arith)
        ∙ at_p,
    cs ∙ sym (roots-edit s m' ks'),
    Holds-edit h h' s m' ks' (λ a. omega (arith, one a))
        (λ a off none_below i. same a off none_below (omega arith)) at_g cs' new hk,
    Holds-frame h h' rest
        (λ a i.
          same a (λ at. ground (arith, one a, occ-Site a s, eq→== g a (sym at)))
            (omega (arith, one a, occ-Site a s)) (omega arith))
        hr,
  )
  Holds-edit h h' (beside {p} {kids} s) m' ks' one same at_g cs' new (e, at_p, cs, hk, hr) = (
    e,
    same p (λ at. ground (arith, one p, occ-Site p s, eq→== g p (sym at)))
          (ground (arith, one p, occ-Site p s)) (ground arith)
        ∙ at_p,
    cs,
    Holds-frame h h' kids
        (λ a i.
          same a (λ at. ground (arith, one a, occ-Site a s, eq→== g a (sym at)))
            (omega (arith, one a, occ-Site a s)) (omega arith))
        hk,
    Holds-edit h h' s m' ks' (λ a. omega (arith, one a))
        (λ a off none_below i. same a off none_below (omega arith)) at_g cs' new hr,
  )

-- Where a node that occurs stands: among the first nodes of the trees, or below some node.
pub data Located (q : Ptr) (f : Forest) : Type 0 where
  at_top : {m : Node} {ks : Forest} → Top q m ks f → Located q f
  below :
      {g : Ptr} {n m : Node} {kids ks : Forest} → Site g n kids f → Top q m ks kids → Located q f

pub located : (q : Ptr) (f : Forest) → 0 < occ q f → Located q f
located q nil i = elim i [ ]
located q (tree p n kids rest) i = elim (Bool-cases (p == q)) [
  | inl same ↦
      subst (λ x. Located q (tree x n kids rest)) (sym ((==_iff p q).0 same)) (at_top first)
  | inr away ↦ elim (Bool-cases (ltb 0 (occ q kids))) [
    | inl inside ↦ elim (located q kids (ground arith)) [
      | at_top t ↦ below here t
      | below s t ↦ below (deeper s) t
    ]
    | inr outside ↦ elim (located q rest (ground arith)) [
      | at_top t ↦ at_top (later t)
      | below s t ↦ below (beside s) t
    ]
  ]
]
