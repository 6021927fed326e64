-- ===== src/Tree/CreateSteps.antt =====
-- What the three endings of `tree_create_node` make of the forest.
use phantomid.Common.{
  ◌+◌, ◌<◌, ◌≡◌, refl, sym, ap, ◌∙◌, ◌≢◌, inl, inr, true, [], ◌∷◌, ◌++◌, Option, some, none, arith,
  ◌==◌, if◌then◌else◌, eq→==, ne→==, ==_iff, Bool-cases, length,
}
use phantomid.Tree.Store.{Ptr, null, Node, Heap, Tree, write, write_self, write_ne}
use phantomid.Tree.Forest.{
  Forest, nil, tree, join, occ, Holds, occ-join, Holds-frame, ne_of_occ, allocated, All-at,
}
use phantomid.Tree.Attach.{
  attach, attach-join, roots-attach, occ-attach, count-attach, Parents-attach, Fits-attach,
  Holds-attach,
}
use phantomid.Tree.Create.{free_node, make_root, attach_node, with_node}
use phantomid.Tree.Invariant.{Represents}

module _ (h : Heap) (p : Ptr) (c d : Option Node) where
  -- Two writes at one address leave the others.
  write-write_ne : (a : Ptr) → a ≢ p → write (write h p c) p d a ≡ h a
  write-write_ne a e = write_ne (write h p c) d e ∙ write_ne h c e

  write-write-Holds : (f : Forest) → h p ≡ none → Holds h f → Holds (write (write h p c) p d) f
  write-write-Holds f fresh held =
      Holds-frame h _ f (λ a i. write-write_ne a (ne_of_occ a p f i (allocated h p f held fresh)))
        held

-- Freeing the node again gives back what was there.
pub free-with_node :
    (t : Tree) (p : Ptr) (node : Node) (main lost : Forest)
    → t.heap p ≡ none
    → Represents t main lost
    → Represents (free_node (with_node t p node) p) main lost
unfolding free_node with_node
free-with_node t p node main lost fresh r = record {
  rooted = r.rooted;
  held = write-write-Holds t.heap p (some node) none (join main lost) fresh r.held;
  parents = r.parents;
  distinct = r.distinct;
  fits = r.fits;
  only = λ a e. elim (Bool-cases (a == p)) [
    | inl here ↦
        ap (write (write t.heap p (some node)) p none) ((==_iff a p).0 here)
        ∙ write_self (write t.heap p (some node)) p none
    | inr away ↦ write-write_ne t.heap p (some node) none a (λ at. cc (eq→== a p at)) ∙ r.only a e
  ];
  total = r.total;
}

-- The new root is the whole tree.
pub make_root-with_node :
    (t : Tree) (p : Ptr) (node : Node) (lost : Forest)
    → p ≢ null
    → t.heap p ≡ none
    → node.parent ≡ null
    → node.children ≡ []
    → Represents t nil lost
    → Represents
        (make_root (with_node t p node) p node)
        (tree p (record node { is_root = true }) nil nil)
        lost
unfolding make_root with_node
make_root-with_node t p node lost ok fresh orphan bare r = record {
  rooted = rw (ne→== p null ok) refl;
  held = (
    ok,
    write_self (write t.heap p (some node)) p _,
    bare,
    tt,
    write-write-Holds t.heap p (some node) _ lost fresh r.held,
  );
  parents = (orphan, tt, r.parents);
  distinct = λ a. ground (arith, r.distinct a, allocated t.heap p lost r.held fresh);
  fits = (omega (arith, ap (λ xs. length xs) bare), tt, r.fits);
  only = λ a e.
      write-write_ne t.heap p (some node) _ a (λ at. ground (arith, eq→== p a (sym at)))
      ∙ r.only a (ground arith);
  total = omega (arith, r.total);
}

-- The new leaf hangs below the node at `q`.
pub attach_node-with_node :
    (t : Tree) (p : Ptr) (node : Node) (q : Ptr) (parent : Node) (main lost : Forest)
    → p ≢ null
    → t.heap p ≡ none
    → t.heap q ≡ some parent
    → 0 < occ q main
    → length parent.children < parent.max_children
    → node.children ≡ []
    → Represents t main lost
    → Represents
        (attach_node (with_node t p node) p node q parent)
        (attach q p (record node { parent = q }) main)
        lost
unfolding attach_node with_node
attach_node-with_node t p node q parent main lost ok fresh at_q in_main room bare r = record {
  rooted = roots-attach q p leaf main ∙ r.rooted;
  held = rw (← whole) (
      Holds-attach t.heap _ q p parent leaf at_q (write_self _ q _)
        (write_ne _ _ apart ∙ write_self _ p _) ok bare
        (λ a off_q off_p. write_ne _ _ off_q ∙ write-write_ne t.heap p _ _ a off_p) (join main lost)
        (r.distinct q) new r.held);
  parents = rw (← whole) (Parents-attach q p leaf null (join main lost) refl r.parents);
  distinct = λ a. rw (← whole) (ground (arith, grown a, r.distinct a, new));
  fits = rw (← whole) (
      Fits-attach q p leaf (join main lost)
        (All-at (λ n. length n.children < n.max_children) t.heap q (join main lost) r.held at_q
          room)
        (omega (arith, ap (λ xs. length xs) bare)) r.fits);
  only = λ a e. outside a (rw (← whole) at e);
  total =
      rw (← whole)
        (omega (arith, r.total, once, count-attach q p leaf (join main lost) (r.distinct q)));
}
  where
    leaf : Node
    leaf = record node { parent = q }

    absent : occ q lost ≡ 0
    absent = omega (arith, r.distinct q, occ-join q main lost)

    once : occ q (join main lost) ≡ 1
    once = omega (arith, r.distinct q, occ-join q main lost)

    new : occ p (join main lost) ≡ 0
    new = allocated t.heap p (join main lost) r.held fresh

    apart : p ≢ q
    apart = λ e. omega (arith, once, new, ap (λ a. occ a (join main lost)) e)

    whole : attach q p leaf (join main lost) ≡ join (attach q p leaf main) lost
    whole = attach-join q p leaf main lost absent

    grown :
        (a : Ptr)
        → occ a (attach q p leaf (join main lost))
          ≡ occ a (join main lost) + (if p == a then 1 else 0)
    grown a =
        occ-attach q p leaf a (join main lost) (r.distinct q)
        ∙ ap (λ n. occ a (join main lost) + (if p == a then n else 0)) once

    outside :
        (a : Ptr)
        → occ a (attach q p leaf (join main lost)) ≡ 0
        → write
            (write (write t.heap p (some node)) p (some leaf))
            q
            (some (record parent { children = parent.children ++ p ∷ [] }))
            a
          ≡ none
    outside a e =
        write_ne _ _ (λ at. omega (arith, once, grown a, ap (λ a. occ a (join main lost)) at))
        ∙ write-write_ne t.heap p _ _ a (λ at. ground (arith, grown a, eq→== p a (sym at)))
        ∙ r.only a (omega (arith, grown a))
