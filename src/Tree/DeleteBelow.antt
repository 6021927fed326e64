-- ===== src/Tree/DeleteBelow.antt =====
-- `tree_delete_node` at a node that has a parent: the memory and the forest afterwards.
use mathlib.Core.Path.{ap₂}
use phantomid.Common.{
  ◌+◌, ◌≤◌, ◌<◌, ◌≡◌, refl, sym, ap, ◌∙◌, ◌≢◌, inl, inr, true, false, ◌++◌, some, none, arith, ◌==◌,
  if◌then◌else◌, ◌>>=◌, eq→==, ne→==, ==_iff, Bool-cases, length, length-append,
}
use phantomid.Tree.Store.{Ptr, null, Node, Heap, Tree, write, write_self, write_ne, deref_lem}
use phantomid.Tree.Forest.{
  Forest, tree, roots, count, join, occ, All, Holds, Parents, occ-join, count-join, roots-join,
  Holds-join, Parents-join, All-join_intro, All-join, Parents-join_parts, Holds-frame, ne_of_occ,
  Holds-join_left, Holds-join_right,
}
use phantomid.Tree.Site.{
  Site, Top, without, edit, first, later, occ-without, count-without, length-without, Holds-Top,
  Parents-Top, All-Top, roots-edit, occ-edit, count-edit, occ-Site, Holds-Site, Parents-Site,
  All-Site, Parents-edit, All-edit, Holds-edit,
}
use phantomid.Tree.Orphans.{
  rehome, handle_orphans, rehome_at, reassign_all, first_trees, other_trees, adopt, set_free, room,
  roots-adopt,
}
use phantomid.Tree.Reassign.{Reassigned, reassign_all-Reassigned}
use phantomid.Tree.Rehomed.{
  occ-split, count-split, length-first_trees-le, Parents-adopt, Parents-set_free, Fits-adopt,
  Fits-set_free,
}
use phantomid.Tree.Delete.{remove_child, unlink, unlink_from, delete_found, drop_node}
use phantomid.Tree.Invariant.{Represents, Fits}

-- The other children, in their order.
remove_child-without :
    {q : Ptr} {m : Node} {ks : Forest} {f : Forest} (s : Top q m ks f)
    → occ q f ≤ 1
    → remove_child q (roots f) ≡ some (roots (without s))
unfolding remove_child
remove_child-without {q} first one = rw (eq→== q q refl) refl
remove_child-without {q} (later {p} s) one =
    let away : (p == q) ≡ false = ground (arith, occ-without q s) in
    rw (away, remove_child-without s (omega arith)) refl

-- A node that is not the root is deleted: `m` at `q`, a child of `n` at `g`.
module _ (t : Tree) (main lost : Forest) (r : Represents t main lost) {q g : Ptr} {n m : Node}
    {kids ks : Forest} (s : Site g n kids main) (top : Top q m ks kids) where
  -- The parent without the node, the room that it has then, and the parent in the end.
  abbrev pub n_left : Node
  n_left = record n { children = roots (without top) }

  abbrev pub n_new : Node
  n_new = record n { children = roots (without top) ++ roots (first_trees (room n_left) ks) }

  abbrev pub kids_new : Forest
  kids_new = join (without top) (adopt g (first_trees (room n_left) ks))

  abbrev pub loose : Forest
  loose = set_free (other_trees (room n_left) ks)

  abbrev pub main_new : Forest
  main_new = edit s n_new kids_new

  held_main : Holds t.heap main
  held_main = Holds-join_left t.heap main lost r.held

  held_lost : Holds t.heap lost
  held_lost = Holds-join_right t.heap main lost r.held

  at_g : (g ≢ null) × (t.heap g ≡ some n) × (n.children ≡ roots kids) × Holds t.heap kids
  at_g = Holds-Site t.heap s held_main

  at_q : Holds t.heap (tree q m ks (without top))
  at_q = Holds-Top t.heap top at_g.3

  -- How often an address occurs, part by part.
  parts :
      (a : Ptr)
      → (occ a main + occ a lost ≤ 1)
        × ((if g == a then 1 else 0) + (if q == a then 1 else 0) + occ a ks + occ a (without top)
            ≤ occ a main)
  parts a = (
    omega (arith, r.distinct a, occ-join a main lost),
    omega (arith, occ-Site a s, occ-without a top),
  )

  -- The node is gone, and nothing else.
  occ-new :
      (a : Ptr)
      → occ a (join main_new (join loose lost)) + (if q == a then 1 else 0) ≡ occ a (join main lost)
  occ-new a = omega (
    arith,
    occ-join a main lost,
    occ-join a main_new (join loose lost),
    occ-join a loose lost,
    occ-edit a s n_new kids_new,
    occ-join a (without top) (adopt g (first_trees (room n_left) ks)),
    occ-without a top,
    occ-split a g (room n_left) ks,
  )

  pub count-new : count main_new + count (join loose lost) + 1 ≡ count main + count lost
  count-new = omega (
    arith,
    count-join loose lost,
    count-edit s n_new kids_new,
    count-join (without top) (adopt g (first_trees (room n_left) ks)),
    count-without top,
    count-split g (room n_left) ks,
  )

  -- The heap after the unlinking, after the loop, and in the end.
  abbrev h_left : Heap
  h_left = write t.heap g (some n_left)

  g-ne-q : g ≢ q
  g-ne-q e = ground (arith, parts q, eq→== g q e)

  loop :
      (h : Heap) × (reassign_all h_left g (roots ks) ≡ some h)
      × Reassigned h_left g n_left (room n_left) ks h
  loop =
      reassign_all-Reassigned g at_g.0 h_left n_left (room n_left) ks refl (write_self t.heap g _)
        (Holds-frame t.heap h_left ks
          (λ a i. write_ne t.heap _ (λ at. ground (arith, parts a, eq→== g a (sym at)))) at_q.3)
        (ground (arith, parts g)) (λ a. omega (arith, parts a))

  -- The heap in the end, where the nodes are neither at `g` nor at `q` nor below `q`.
  module _ (h : Heap) (done : Reassigned h_left g n_left (room n_left) ks h) where
    abbrev h_end : Heap
    h_end = write h q none

    elsewhere : (a : Ptr) → a ≢ g → a ≢ q → occ a ks ≡ 0 → h_end a ≡ t.heap a
    elsewhere a off_g off_q off =
        write_ne h _ off_q ∙ done.same a off_g off ∙ write_ne t.heap _ off_g

    -- A part of the forest where none of these occurs.
    untouched :
        (f : Forest)
        → ((a : Ptr)
            → 0 < occ a f
            → (if g == a then 1 else 0) + (if q == a then 1 else 0) + occ a ks ≡ 0)
        → Holds t.heap f
        → Holds h_end f
    untouched f off = Holds-frame t.heap h_end f (λ a i.
        elsewhere a (λ at. ground (arith, off a i, eq→== g a (sym at)))
          (λ at. ground (arith, off a i, eq→== q a (sym at))) (omega (arith, off a i)))

    -- The loop's results are not at `q`.
    kept : (f : Forest) → occ q f ≡ 0 → Holds h f → Holds h_end f
    kept f off = Holds-frame h h_end f (λ a i. write_ne h _ (ne_of_occ a q f i off))

    off_q : (occ q (adopt g (first_trees (room n_left) ks)) ≡ 0) × (occ q loose ≡ 0)
    off_q = ground (arith, parts q, occ-split q g (room n_left) ks)

    held_kids : Holds h_end kids_new
    held_kids =
        Holds-join h_end (without top) _
          (untouched (without top) (λ a i. omega (arith, parts a)) at_q.4)
          (kept _ off_q.0 done.adopted)

    held_main_new : Holds h_end main_new
    held_main_new =
        Holds-edit t.heap h_end s n_new kids_new (λ a. omega (arith, parts a))
          (λ a off_g off i.
            elsewhere a off_g (λ at. ground (arith, occ-without a top, eq→== q a (sym at)))
              (omega (arith, occ-without a top)))
          (write_ne h _ g-ne-q ∙ done.parent_now)
          (ap (λ xs. roots (without top) ++ xs) (sym (roots-adopt g (first_trees (room n_left) ks)))
            ∙ sym (roots-join (without top) (adopt g (first_trees (room n_left) ks))))
          held_kids held_main

    Parents-new : Parents null (join main_new (join loose lost))
    Parents-new =
        let (pm, pl) = Parents-join_parts null main lost r.parents in
        let (_, below_q, beside_q) = Parents-Top g top (Parents-Site null s pm) in
        Parents-join null main_new (join loose lost)
          (Parents-edit null s n_new kids_new refl
            (Parents-join g (without top) _ beside_q (Parents-adopt g q (room n_left) ks below_q))
            pm)
          (Parents-join null loose lost (Parents-set_free q (room n_left) ks below_q) pl)

    Fits-new : All Fits (join main_new (join loose lost))
    Fits-new =
        let (fm, fl) = All-join Fits main lost r.fits in
        let (fn, f_kids) = All-Site Fits s fm in
        let (_, below_q, beside_q) = All-Top Fits top f_kids in
        All-join_intro Fits main_new (join loose lost)
          (All-edit Fits s n_new kids_new
            (omega (
              arith,
              fn,
              length-append (roots (without top)) (roots (first_trees (room n_left) ks)),
              length-first_trees-le (room n_left) ks,
              length-without top,
              ap (λ xs. length xs) at_g.2,
            ))
            (All-join_intro Fits (without top) _ beside_q (Fits-adopt g (room n_left) ks below_q))
            fm)
          (All-join_intro Fits loose lost (Fits-set_free (room n_left) ks below_q) fl)

    only_new :
        (a : Ptr) → (a == q) ≡ false → occ a (join main_new (join loose lost)) ≡ 0 → h_end a ≡ none
    only_new a off e =
        let gone : occ a (join main lost) ≡ 0 = ground (arith, occ-new a) in
        elsewhere a (λ at. ground (arith, parts a, occ-join a main lost, eq→== g a (sym at)))
          (λ at. cc (eq→== a q at)) (omega (arith, parts a, occ-join a main lost, gone))
        ∙ r.only a gone

    pub deleted_below-Represents :
        Represents (drop_node (record t { heap = h }) q) main_new (join loose lost)
    unfolding drop_node
    deleted_below-Represents = record {
      rooted = roots-edit s n_new kids_new ∙ r.rooted;
      held = Holds-join h_end main_new (join loose lost) held_main_new (
          Holds-join h_end loose lost (kept loose off_q.1 done.freed)
            (untouched lost (λ a i. omega (arith, parts a)) held_lost));
      parents = Parents-new;
      distinct = λ a. omega (arith, occ-new a, r.distinct a);
      fits = Fits-new;
      only = λ a e. elim (Bool-cases (a == q)) [
        | inl at ↦ ap h_end ((==_iff a q).0 at) ∙ write_self h q none
        | inr off ↦ only_new a off e
      ];
      total =
          omega (
            arith,
            count-new,
            r.total,
            count-join main lost,
            count-join main_new (join loose lost),
          );
    }

  -- The code runs through, and its context is that of the theorem above.
  unlink_below : unlink t q m ≡ some (record t { heap = h_left })
  unfolding unlink unlink_from
  unlink_below =
      let up =
        Parents-Top g top (Parents-Site null s (Parents-join_parts null main lost r.parents).0) in
      let found : remove_child q n.children ≡ some (roots (without top)) =
        ap (remove_child q) at_g.2
        ∙ remove_child-without top (omega (arith, occ-Site q s, parts q)) in
      ap (unlink_from t q) up.0
      ∙ rw (ne→== g null at_g.0, deref_lem t.heap g at_g.0 at_g.1, ◌>>=◌) (rw (found, ◌>>=◌) refl)

  handle_orphans_below : handle_orphans h_left m ≡ reassign_all h_left g (roots ks)
  unfolding handle_orphans
  handle_orphans_below =
      let up =
        Parents-Top g top (Parents-Site null s (Parents-join_parts null main lost r.parents).0) in
      ap₂ (rehome h_left) up.0 at_q.2 ∙ rehome_at h_left g (roots ks) at_g.0

  pub delete_below :
      (u : Tree) × (delete_found t q m ≡ some (true, u)) × Represents u main_new (join loose lost)
  unfolding delete_found
  delete_below =
      let (h, ran, done) = loop in
      (
        drop_node (record t { heap = h }) q,
        rw (unlink_below, ◌>>=◌) (rw (handle_orphans_below ∙ ran, ◌>>=◌) refl),
        deleted_below-Represents h done,
      )
