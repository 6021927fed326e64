-- ===== src/Tree/Attach.antt =====
-- A new leaf below a node of a forest: in the forest, and in a heap.
use phantomid.Common.{
  ◌+◌, ◌≤◌, ◌<◌, ◌≡◌, refl, sym, ap, ◌∙◌, ◌≢◌, inl, inr, [], ◌∷◌, ◌++◌, some, arith, ◌==◌,
  if◌then◌else◌, eq→==, ==_iff, Bool-cases, length, length-append,
}
use phantomid.Tree.Store.{Ptr, null, Node, Heap}
use phantomid.Tree.Forest.{
  Forest, nil, tree, roots, count, join, occ, All, Holds, Parents, roots-join, count-join, occ-join,
  Holds-join, Parents-join, All-join_intro, Holds-frame, ne_of_occ,
}
use phantomid.Tree.Invariant.{Fits}

module _ (q c : Ptr) (m : Node) where
  -- The node at `q` gets the child `m`, at `c`, behind its children.
  unfoldable pub attach : Forest → Forest
  attach nil = nil
  attach (tree p n kids rest) =
      if p == q
      then tree p (record n { children = n.children ++ c ∷ [] }) (join kids (tree c m nil nil)) rest
      else tree p n (attach kids) (attach rest)

  pub roots-attach : (f : Forest) → roots (attach f) ≡ roots f
  unfolding attach
  roots-attach nil = refl
  roots-attach (tree p n kids rest) = elim (Bool-cases (p == q)) [
    | inl here ↦ rw here refl
    | inr away ↦ rw away (ap (◌∷◌ p) (roots-attach rest))
  ]

  pub attach_absent : (f : Forest) → occ q f ≡ 0 → attach f ≡ f
  unfolding attach
  attach_absent nil e = refl
  attach_absent (tree p n kids rest) e = elim (Bool-cases (p == q)) [
    | inl here ↦ absurd (ground arith)
    | inr away ↦
        rw (away, attach_absent kids (ground arith), attach_absent rest (ground arith)) refl
  ]

  pub attach-join : (f g : Forest) → occ q g ≡ 0 → attach (join f g) ≡ join (attach f) g
  unfolding attach
  attach-join nil g e = attach_absent g e
  attach-join (tree p n kids rest) g e = elim (Bool-cases (p == q)) [
    | inl here ↦ rw here refl
    | inr away ↦ rw away (ap (tree p n (attach kids)) (attach-join rest g e))
  ]

  -- Where `q` occurs once, `c` occurs once more, and nothing else changes.
  pub occ-attach :
      (a : Ptr) (f : Forest)
      → occ q f ≤ 1
      → occ a (attach f) ≡ occ a f + (if c == a then occ q f else 0)
  unfolding attach
  occ-attach a nil h = ground arith
  occ-attach a (tree p n kids rest) h = elim (Bool-cases (p == q)) [
    | inl here ↦ rw here (ground (arith, occ-join a kids (tree c m nil nil)))
    | inr away ↦
        rw away (ground (arith, occ-attach a kids (ground arith), occ-attach a rest (ground arith)))
  ]

  pub count-attach : (f : Forest) → occ q f ≤ 1 → count (attach f) ≡ count f + occ q f
  unfolding attach
  count-attach nil h = omega arith
  count-attach (tree p n kids rest) h = elim (Bool-cases (p == q)) [
    | inl here ↦ rw here (ground (arith, count-join kids (tree c m nil nil)))
    | inr away ↦
        rw away (ground (arith, count-attach kids (ground arith), count-attach rest (ground arith)))
  ]

  pub Parents-attach :
      (par : Ptr) (f : Forest) → m.parent ≡ q → Parents par f → Parents par (attach f)
  unfolding attach
  Parents-attach par nil e ps = tt
  Parents-attach par (tree p n kids rest) e (pn, pk, pr) = elim (Bool-cases (p == q)) [
    | inl here ↦ rw here (pn, Parents-join p kids (tree c m nil nil) pk (ground arith, tt, tt), pr)
    | inr away ↦ rw away (pn, Parents-attach p kids e pk, Parents-attach par rest e pr)
  ]

  -- Where the node at `q` has room, all arrays still hold their children.
  pub Fits-attach :
      (f : Forest)
      → All (λ p n. p ≡ q → length n.children < n.max_children) f
      → Fits c m
      → All Fits f
      → All Fits (attach f)
  unfolding attach
  Fits-attach nil room fm fs = tt
  Fits-attach (tree p n kids rest) (rp, rk, rr) fm (fp, fk, fr) = elim (Bool-cases (p == q)) [
    | inl here ↦ rw here (
      omega (arith, length-append n.children (c ∷ []), rp ((==_iff p q).0 here)),
      All-join_intro Fits kids (tree c m nil nil) fk (fm, tt, tt),
      fr,
    )
    | inr away ↦ rw away (fp, Fits-attach kids rk fm fk, Fits-attach rest rr fm fr)
  ]

-- The heap where the leaf is written and its parent's array is longer holds the new forest.
module _ (h h' : Heap) (q c : Ptr) (nq m : Node) (old : h q ≡ some nq)
    (new : h' q ≡ some (record nq { children = nq.children ++ c ∷ [] })) (leaf : h' c ≡ some m)
    (c_ok : c ≢ null) (bare : m.children ≡ []) (same : (a : Ptr) → a ≢ q → a ≢ c → h' a ≡ h a) where
  frame : (f : Forest) → occ q f ≡ 0 → occ c f ≡ 0 → Holds h f → Holds h' f
  frame f off_q off_c held =
      Holds-frame h h' f (λ a i. same a (ne_of_occ a q f i off_q) (ne_of_occ a c f i off_c)) held

  pub Holds-attach :
      (f : Forest) → occ q f ≤ 1 → occ c f ≡ 0 → Holds h f → Holds h' (attach q c m f)
  unfolding attach
  Holds-attach nil one fresh held = tt
  Holds-attach (tree p n kids rest) one fresh (e, at_p, cs, hk, hr) = elim (Bool-cases (p == q)) [
    | inl here ↦ rw here (
        let at : p ≡ q = (==_iff p q).0 here in
        let node : n ≡ nq = cc (ap h at) in
        (
          e,
          ap h' at
              ∙ new
              ∙ ap (λ (x : Node). some (record x { children = x.children ++ c ∷ [] })) (sym node),
          ap (λ xs. xs ++ c ∷ []) cs ∙ sym (roots-join kids (tree c m nil nil)),
          Holds-join h' kids (tree c m nil nil) (frame kids (ground arith) (ground arith) hk)
              (c_ok, leaf, bare, tt, tt),
          frame rest (ground arith) (ground arith) hr,
        ))
    | inr away ↦ rw away (
      e,
      same p (λ at. cc (eq→== p q at)) (λ at. ground arith) ∙ at_p,
      cs ∙ sym (roots-attach q c m kids),
      Holds-attach kids (ground arith) (ground arith) hk,
      Holds-attach rest (ground arith) (ground arith) hr,
    )
  ]
