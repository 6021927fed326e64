-- ===== src/Tree/DeleteRoot.antt =====
-- `tree_delete_node` at the root: the context has no tree any more, and the root's children are trees
-- of their own that no pointer of the context leads to.
use mathlib.Core.Path.{ap₂}
use phantomid.Common.{
  ◌+◌, ◌≤◌, ◌≡◌, refl, sym, ap, ◌∙◌, inl, inr, true, some, none, arith, ◌==◌, if◌then◌else◌, ◌>>=◌,
  eq→==, ==_iff, Bool-cases,
}
use phantomid.Tree.Store.{Ptr, null, Node, Heap, Tree, write, write_self, write_ne}
use phantomid.Tree.Forest.{
  Forest, nil, tree, roots, join, occ, Holds, occ-join, count-join, Holds-join, Parents-join,
  All-join_intro, Holds-frame,
}
use phantomid.Tree.Orphans.{
  rehome, handle_orphans, rehome-null, cut_off_all, set_free, cut_off_all-set_free,
}
use phantomid.Tree.Rehomed.{
  occ-set_free, count-set_free, Parents-set_free_forest, Fits-set_free_forest,
}
use phantomid.Tree.Delete.{unlink, unlink_from, delete_found, drop_node}
use phantomid.Tree.Invariant.{Represents, Fits}

module _ (t : Tree) (q : Ptr) (m : Node) (ks lost : Forest)
    (r : Represents t (tree q m ks nil) lost) (at_root : t.root ≡ q) where
  parts : (a : Ptr) → (if q == a then 1 else 0) + occ a ks + occ a lost ≤ 1
  parts a = omega (arith, r.distinct a)

  loop :
      (h : Heap) × (cut_off_all t.heap (roots ks) ≡ some h)
      × Holds h (set_free ks)
      × ((a : Ptr) → occ a ks ≡ 0 → h a ≡ t.heap a)
  loop = cut_off_all-set_free t.heap ks r.held.3 (λ a. omega (arith, parts a))

  module _ (h : Heap) (freed : Holds h (set_free ks))
      (same : (a : Ptr) → occ a ks ≡ 0 → h a ≡ t.heap a) where
    delete_root-Represents :
        Represents (drop_node (record t { root = null; heap = h }) q) nil (join (set_free ks) lost)
    unfolding drop_node
    delete_root-Represents = record {
      rooted = refl;
      held =
          Holds-join _ (set_free ks) lost
            (Holds-frame h _ (set_free ks)
              (λ a i.
                write_ne h _ (λ at. ground (arith, parts a, occ-set_free a ks, eq→== q a (sym at))))
              freed)
            (Holds-frame t.heap _ lost
              (λ a i.
                write_ne h _ (λ at. ground (arith, parts a, eq→== q a (sym at)))
                ∙ same a (omega (arith, parts a)))
              r.held.4);
      parents =
          Parents-join null (set_free ks) lost (Parents-set_free_forest q ks r.parents.1)
            r.parents.2;
      distinct = λ a. omega (arith, parts a, occ-set_free a ks, occ-join a (set_free ks) lost);
      fits = All-join_intro Fits (set_free ks) lost (Fits-set_free_forest ks r.fits.1) r.fits.2;
      only = λ a e. elim (Bool-cases (a == q)) [
        | inl at ↦ ap (write h q none) ((==_iff a q).0 at) ∙ write_self h q none
        | inr off ↦
            write_ne h none (λ at. cc (eq→== a q at))
            ∙ same a (omega (arith, e, occ-set_free a ks, occ-join a (set_free ks) lost))
            ∙ r.only a (ground (arith, e, occ-set_free a ks, occ-join a (set_free ks) lost))
      ];
      total = omega (arith, r.total, count-join (set_free ks) lost, count-set_free ks);
    }

  pub delete_root :
      (u : Tree) × (delete_found t q m ≡ some (true, u))
      × Represents u nil (join (set_free ks) lost)
  unfolding delete_found
  delete_root =
      let (h, ran, freed, same) = loop in
      (
        drop_node (record t { root = null; heap = h }) q,
        rw (unlink_root, ◌>>=◌) (rw (handle_orphans_root ∙ ran, ◌>>=◌) refl),
        delete_root-Represents h freed same,
      )
    where
      unlink_root : unlink t q m ≡ some (record t { root = null })
      unlink_root =
          unfold unlink unlink_from in
          ap (unlink_from t q) r.parents.0 ∙ rw (eq→== q t.root (sym at_root)) refl

      handle_orphans_root : handle_orphans t.heap m ≡ cut_off_all t.heap (roots ks)
      handle_orphans_root =
          unfold handle_orphans in
          ap₂ (rehome t.heap) r.parents.0 r.held.2 ∙ rehome-null t.heap (roots ks)
