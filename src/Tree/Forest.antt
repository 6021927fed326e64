-- ===== src/Tree/Forest.antt =====
-- A forest as a mathematical value: its first tree (address, node, the forest of its children), then
-- the other trees. It is what the pointers of the heap are to represent.
use mathlib.Core.Logic.{◌⊎◌, ◌≢◌, inl, inr}
use phantomid.Common.{
  ℕ, suc, ◌+◌, ◌≤◌, ◌<◌, ◌≡◌, refl, sym, ap, ◌∙◌, append_assoc, List, [], ◌∷◌, ◌++◌, some, none,
  arith, ◌==◌, if◌then◌else◌, eq→==, ne→==, false, length, length-append,
}
use Prim.Native.Nat.{max}
use mathlib.Core.Path.{subst}
use phantomid.Tree.Store.{Ptr, null, Node, Heap}

pub data Forest : Type 0 where
  nil : Forest
  tree : Ptr → Node → Forest → Forest → Forest

-- The addresses of the first nodes of the trees.
abbrev pub roots : Forest → List Ptr
roots nil = []
roots (tree p n kids rest) = p ∷ roots rest

-- The number of nodes.
abbrev pub count : Forest → ℕ
count nil = 0
count (tree p n kids rest) = suc (count kids + count rest)

-- The number of nodes on the longest way down.
abbrev pub height : Forest → ℕ
height nil = 0
height (tree p n kids rest) = max (suc (height kids)) (height rest)

-- One forest beside another.
abbrev pub join : Forest → Forest → Forest
join nil g = g
join (tree p n kids rest) g = tree p n kids (join rest g)

-- The nodes in preorder, with their addresses.
abbrev pub preorder : Forest → List (Ptr × Node)
preorder nil = []
preorder (tree p n kids rest) = (p, n) ∷ (preorder kids ++ preorder rest)

-- All nodes have the property.
abbrev pub All {ℓ} : (Ptr → Node → Type ℓ) → Forest → Type ℓ
All P nil = Unit
All P (tree p n kids rest) = P p n × All P kids × All P rest

-- Some node has the property.
abbrev pub Any : (Ptr → Node → Type 0) → Forest → Type 0
Any P nil = ⊥
Any P (tree p n kids rest) = P p n ⊎ (Any P kids ⊎ Any P rest)

-- Each node stands in the heap at its address, and its children's array holds its children.
abbrev pub Holds : Heap → Forest → Type 0
Holds h nil = Unit
Holds h (tree p n kids rest) =
    (p ≢ null) × (h p ≡ some n) × (n.children ≡ roots kids) × Holds h kids × Holds h rest

-- The parent pointers are right: `par` at the first nodes of the trees.
abbrev pub Parents : Ptr → Forest → Type 0
Parents par nil = Unit
Parents par (tree p n kids rest) = (n.parent ≡ par) × Parents p kids × Parents par rest

pub count-join : (f g : Forest) → count (join f g) ≡ count f + count g
count-join nil g = omega arith
count-join (tree p n kids rest) g = omega (arith, count-join rest g)

pub roots-join : (f g : Forest) → roots (join f g) ≡ roots f ++ roots g
roots-join nil g = refl
roots-join (tree p n kids rest) g = ap (◌∷◌ p) (roots-join rest g)

pub length-roots-le : (f : Forest) → length (roots f) ≤ count f
length-roots-le nil = omega arith
length-roots-le (tree p n kids rest) = omega (arith, length-roots-le rest)

pub height-le-count : (f : Forest) → height f ≤ count f
height-le-count nil = omega arith
height-le-count (tree p n kids rest) = omega (arith, height-le-count kids, height-le-count rest)

pub length-preorder : (f : Forest) → length (preorder f) ≡ count f
length-preorder nil = refl
length-preorder (tree p n kids rest) = omega (
  arith,
  length-append (preorder kids) (preorder rest),
  length-preorder kids,
  length-preorder rest,
)

pub Holds-join : (h : Heap) (f g : Forest) → Holds h f → Holds h g → Holds h (join f g)
Holds-join h nil g a b = b
Holds-join h (tree p n kids rest) g (e, at_p, cs, k, r) b =
    (e, at_p, cs, k, Holds-join h rest g r b)

pub All-join {ℓ} : (P : Ptr → Node → Type ℓ) (f g : Forest) → All P (join f g) → All P f × All P g
All-join P nil g a = (tt, a)
All-join P (tree p n kids rest) g (x, k, r) = let s = All-join P rest g r in ((x, k, s.0), s.1)

pub All-join_intro {ℓ} :
    (P : Ptr → Node → Type ℓ) (f g : Forest) → All P f → All P g → All P (join f g)
All-join_intro P nil g a b = b
All-join_intro P (tree p n kids rest) g (x, k, r) b = (x, k, All-join_intro P rest g r b)

pub Any-join : (P : Ptr → Node → Type 0) (f g : Forest) → Any P (join f g) → Any P f ⊎ Any P g
Any-join P nil g a = inr a
Any-join P (tree p n kids rest) g (inl x) = inl (inl x)
Any-join P (tree p n kids rest) g (inr (inl k)) = inl (inr (inl k))
Any-join P (tree p n kids rest) g (inr (inr r)) = elim (Any-join P rest g r) [
  | inl a ↦ inl (inr (inr a))
  | inr b ↦ inr b
]

pub preorder-join : (f g : Forest) → preorder (join f g) ≡ preorder f ++ preorder g
preorder-join nil g = refl
preorder-join (tree p n kids rest) g =
    ap (λ xs. (p, n) ∷ (preorder kids ++ xs)) (preorder-join rest g)
    ∙ ap (◌∷◌ (p, n)) (sym (append_assoc (preorder kids) (preorder rest) (preorder g)))

-- How often an address occurs.
abbrev pub occ : Ptr → Forest → ℕ
occ a nil = 0
occ a (tree p n kids rest) = (if p == a then 1 else 0) + occ a kids + occ a rest

pub occ-join : (a : Ptr) (f g : Forest) → occ a (join f g) ≡ occ a f + occ a g
occ-join a nil g = omega arith
occ-join a (tree p n kids rest) g = omega (arith, occ-join a rest g)

-- A forest stays in a heap that is changed elsewhere only.
pub Holds-frame :
    (h h' : Heap) (f : Forest) → ((a : Ptr) → 0 < occ a f → h' a ≡ h a) → Holds h f → Holds h' f
Holds-frame h h' nil same held = tt
Holds-frame h h' (tree p n kids rest) same (e, at_p, cs, hk, hr) = (
  e,
  same p (ground arith) ∙ at_p,
  cs,
  Holds-frame h h' kids (λ a i. same a (ground arith)) hk,
  Holds-frame h h' rest (λ a i. same a (ground arith)) hr,
)

-- What occurs is allocated.
pub allocated : (h : Heap) (a : Ptr) (f : Forest) → Holds h f → h a ≡ none → occ a f ≡ 0
allocated h a nil held e = refl
allocated h a (tree p n kids rest) (ne, at_p, cs, hk, hr) e =
    let apart : (p == a) ≡ false = ne→== p a (λ same. cc) in
    rw apart (omega (arith, allocated h a kids hk e, allocated h a rest hr e))

pub not_null : (h : Heap) (f : Forest) → Holds h f → occ null f ≡ 0
not_null h nil held = refl
not_null h (tree p n kids rest) (ne, at_p, cs, hk, hr) =
    rw (ne→== p null ne) (omega (arith, not_null h kids hk, not_null h rest hr))

pub Parents-join :
    (par : Ptr) (f g : Forest) → Parents par f → Parents par g → Parents par (join f g)
Parents-join par nil g a b = b
Parents-join par (tree p n kids rest) g (e, k, r) b = (e, k, Parents-join par rest g r b)

-- An address that occurs holds a node of the forest.
pub occ_of_Any :
    (P : Ptr → Node → Type 0) (r : Ptr) (f : Forest) → Any (λ p n. (p ≡ r) × P p n) f → 0 < occ r f
occ_of_Any P r (tree p n kids rest) (inl (e, x)) = rw (eq→== p r e) (omega arith)
occ_of_Any P r (tree p n kids rest) (inr (inl k)) = omega (arith, occ_of_Any P r kids k)
occ_of_Any P r (tree p n kids rest) (inr (inr k)) = omega (arith, occ_of_Any P r rest k)
occ_of_Any P r nil x = absurd x

pub ne_of_occ : (a q : Ptr) (f : Forest) → 0 < occ a f → occ q f ≡ 0 → a ≢ q
ne_of_occ a q f i e = λ same. omega (arith, ap (λ x. occ x f) same)

-- What holds of the node that stands at an address holds of the forest's node there.
pub All-at {ℓ} :
    (P : Node → Type ℓ) (h : Heap) (q : Ptr) {nq : Node} (f : Forest)
    → Holds h f
    → h q ≡ some nq
    → P nq
    → All (λ p n. p ≡ q → P n) f
All-at P h q nil held at_q x = tt
All-at P h q {nq} (tree p n kids rest) (ne, at_p, cs, hk, hr) at_q x =
    ((λ e. subst P (same e) x), All-at P h q kids hk at_q x, All-at P h q rest hr at_q x)
  where
    same : p ≡ q → nq ≡ n
    same e = cc (ap h e)

pub Holds-join_left : (h : Heap) (f g : Forest) → Holds h (join f g) → Holds h f
Holds-join_left h nil g held = tt
Holds-join_left h (tree p n kids rest) g (e, at_p, cs, hk, hr) =
    (e, at_p, cs, hk, Holds-join_left h rest g hr)

pub Holds-join_right : (h : Heap) (f g : Forest) → Holds h (join f g) → Holds h g
Holds-join_right h nil g held = held
Holds-join_right h (tree p n kids rest) g (e, at_p, cs, hk, hr) = Holds-join_right h rest g hr

pub Parents-join_parts :
    (par : Ptr) (f g : Forest) → Parents par (join f g) → Parents par f × Parents par g
Parents-join_parts par nil g ps = (tt, ps)
Parents-join_parts par (tree p n kids rest) g (e, k, ps) =
    let (a, b) = Parents-join_parts par rest g ps in ((e, k, a), b)
