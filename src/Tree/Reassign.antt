-- ===== src/Tree/Reassign.antt =====
-- The loop of `handle_orphans` that gives the children of a deleted node to its parent.
use mathlib.Core.Path.{subst}
use phantomid.Common.{
  ℕ, ◌-◌, ◌≤◌, ◌≡◌, refl, sym, ap, ◌∙◌, ◌≢◌, true, false, [], ◌∷◌, ◌++◌, append_assoc, append-nil,
  some, arith, ◌==◌, ltb, ◌>>=◌, eq→==, ==_iff, Bool-cases, inl, inr, length, length-append,
}
use phantomid.Tree.Store.{Ptr, null, Node, Heap, write, write_self, write_ne, deref_lem}
use phantomid.Tree.Forest.{Forest, nil, tree, roots, occ, Holds, Holds-frame, ne_of_occ}
use phantomid.Tree.Orphans.{
  cut_off, reassign, reassign_all, first_trees, other_trees, adopt, set_free, first_none, other_all,
  room,
}

-- What the loop over the trees `f` makes of the heap `h`, the node at `g` being `parent`, with room
-- for `r` children.
pub record Reassigned (h : Heap) (g : Ptr) (parent : Node) (r : ℕ) (f : Forest) (h' : Heap)
    : Type 0 where
  pub parent_now :
      h' g ≡ some (record parent { children = parent.children ++ roots (first_trees r f) })
  pub adopted : Holds h' (adopt g (first_trees r f))
  pub freed : Holds h' (set_free (other_trees r f))
  pub same : (a : Ptr) → a ≢ g → occ a f ≡ 0 → h' a ≡ h a

abbrev with_child : Node → Ptr → Node
with_child parent c = record parent { children = parent.children ++ c ∷ [] }

room-with_child : (parent : Node) (c : Ptr) → room (with_child parent c) ≡ room parent - 1
room-with_child parent c = omega (arith, length-append parent.children (c ∷ []))

module _ (h : Heap) (g c : Ptr) (parent n : Node) (g_ok : g ≢ null) (c_ok : c ≢ null)
    (at_g : h g ≡ some parent) (at_c : h c ≡ some n) where
  -- The body where the array has room, and where it is full.
  reassign_room :
      c ≢ g
      → ltb (length parent.children) parent.max_children ≡ true
      → reassign h g c
        ≡ some (write (write h c (some (record n { parent = g }))) g (some (with_child parent c)))
  unfolding reassign
  reassign_room apart fits =
      let still : write h c (some (record n { parent = g })) g ≡ some parent =
        write_ne h _ (λ e. apart (sym e)) ∙ at_g in
      rw (deref_lem h g g_ok at_g, ◌>>=◌)
        (rw (fits, deref_lem h c c_ok at_c, ◌>>=◌) (rw (deref_lem _ g g_ok still, ◌>>=◌) refl))

  reassign_full :
      ltb (length parent.children) parent.max_children ≡ false
      → reassign h g c ≡ some (write h c (some (record n { parent = null; is_root = true })))
  unfolding reassign cut_off
  reassign_full full =
      rw (deref_lem h g g_ok at_g, ◌>>=◌) (rw (full, deref_lem h c c_ok at_c, ◌>>=◌) refl)

abbrev h_room : Heap → Ptr → Ptr → Node → Node → Heap
h_room h g c parent n =
    write (write h c (some (record n { parent = g }))) g (some (with_child parent c))

abbrev h_full : Heap → Ptr → Node → Heap
h_full h c n = write h c (some (record n { parent = null; is_root = true }))

apart_of_occ : (g c : Ptr) (n : Node) (kids rest : Forest) → occ g (tree c n kids rest) ≡ 0 → c ≢ g
apart_of_occ g c n kids rest off e = ground (arith, eq→== c g e)

-- The other nodes stay where they are.
module _ (h : Heap) (g c : Ptr) (parent n : Node) where
  room_frame :
      (f : Forest) → occ c f ≡ 0 → occ g f ≡ 0 → Holds h f → Holds (h_room h g c parent n) f
  room_frame f off_c off_g =
      Holds-frame h _ f
        (λ a i. write_ne _ _ (ne_of_occ a g f i off_g) ∙ write_ne h _ (ne_of_occ a c f i off_c))

  full_frame : (f : Forest) → occ c f ≡ 0 → Holds h f → Holds (h_full h c n) f
  full_frame f off_c = Holds-frame h _ f (λ a i. write_ne h _ (ne_of_occ a c f i off_c))

module _ (h h' : Heap) (g c : Ptr) (parent n : Node) (kids rest : Forest) (r : ℕ) (c_ok : c ≢ null)
    (cs : n.children ≡ roots kids) (hk : Holds h kids) (off : occ g (tree c n kids rest) ≡ 0)
    (one : (a : Ptr) → occ a (tree c n kids rest) ≤ 1) where
  apart : c ≢ g
  apart = apart_of_occ g c n kids rest off

  not_in_kids : occ c kids ≡ 0
  not_in_kids = ground (arith, one c)

  Reassigned-room :
      (r == 0) ≡ false
      → Reassigned (h_room h g c parent n) g (with_child parent c) (r - 1) rest h'
      → Reassigned h g parent r (tree c n kids rest) h'
  Reassigned-room some_room next = record {
    parent_now = rw some_room (
        next.parent_now
        ∙ ap (λ xs. some (record parent { children = xs }))
            (append_assoc parent.children (c ∷ []) (roots (first_trees (r - 1) rest))));
    adopted = rw some_room (
      c_ok,
      next.same c apart (ground (arith, one c)) ∙ write_ne _ _ apart ∙ write_self h c _,
      cs,
      Holds-frame (h_room h g c parent n) h' kids
          (λ a i. next.same a (ne_of_occ a g kids i (omega arith)) (omega (arith, one a)))
          (room_frame h g c parent n kids not_in_kids (omega arith) hk),
      next.adopted,
    );
    freed = rw some_room next.freed;
    same = λ a off_g e.
        next.same a off_g (omega arith)
        ∙ write_ne _ _ off_g
        ∙ write_ne h _ (λ at. ground (arith, eq→== c a (sym at)));
  }

  Reassigned-full :
      (r == 0) ≡ true
      → Reassigned (h_full h c n) g parent r rest h'
      → Reassigned h g parent r (tree c n kids rest) h'
  Reassigned-full full next = record {
    parent_now = rw full (
        next.parent_now
        ∙ ap (λ f. some (record parent { children = parent.children ++ roots f })) none_first);
    adopted = rw full tt;
    freed = rw full (
      c_ok,
      next.same c apart (ground (arith, one c)) ∙ write_self h c _,
      cs,
      Holds-frame (h_full h c n) h' kids
          (λ a i. next.same a (ne_of_occ a g kids i (omega arith)) (omega (arith, one a)))
          (full_frame h g c parent n kids not_in_kids hk),
      subst (λ f. Holds h' (set_free f)) all_other next.freed,
    );
    same = λ a off_g e.
        next.same a off_g (omega arith) ∙ write_ne h _ (λ at. ground (arith, eq→== c a (sym at)));
  }
    where
      no_room : r ≡ 0
      no_room = (==_iff r 0).0 full

      none_first : first_trees r rest ≡ nil
      none_first = ap (λ k. first_trees k rest) no_room ∙ first_none rest

      all_other : other_trees r rest ≡ rest
      all_other = ap (λ k. other_trees k rest) no_room ∙ other_all rest

module _ (g : Ptr) (g_ok : g ≢ null) where
  -- `handle_orphans` gives the first trees to the parent, as far as its array has room, and sets the
  -- others free.
  pub reassign_all-Reassigned :
      (h : Heap) (parent : Node) (r : ℕ) (f : Forest)
      → r ≡ room parent
      → h g ≡ some parent
      → Holds h f
      → occ g f ≡ 0
      → ((a : Ptr) → occ a f ≤ 1)
      → (h' : Heap) × (reassign_all h g (roots f) ≡ some h') × Reassigned h g parent r f h'
  unfolding reassign_all
  reassign_all-Reassigned h parent r nil er at_g held off one = (
    h,
    refl,
    record {
      parent_now =
          at_g
          ∙ ap (λ xs. some (record parent { children = xs })) (sym (append-nil parent.children));
      adopted = tt;
      freed = tt;
      same = λ a ne e. refl;
    },
  )
  reassign_all-Reassigned h parent r (tree c n kids rest) er at_g (ne, at_c, cs, hk, hr) off one =
      elim (Bool-cases (ltb (length parent.children) parent.max_children)) [
        | inl fits ↦
            let separate = apart_of_occ g c n kids rest off in
            let (h', done, next) =
              reassign_all-Reassigned (h_room h g c parent n) (with_child parent c) (r - 1) rest
                (omega (arith, er, room-with_child parent c)) (write_self _ g _)
                (room_frame h g c parent n rest (ground (arith, one c)) (omega arith) hr)
                (omega arith) (λ a. omega (arith, one a)) in
            (
              h',
              rw (reassign_room h g c parent n g_ok ne at_g at_c separate fits, ◌>>=◌) done,
              Reassigned-room h h' g c parent n kids rest r ne cs hk off one (ground arith) next,
            )
        | inr full ↦
            let separate = apart_of_occ g c n kids rest off in
            let (h', done, next) =
              reassign_all-Reassigned (h_full h c n) parent r rest er
                (write_ne h _ (λ e. separate (sym e)) ∙ at_g)
                (full_frame h g c parent n rest (ground (arith, one c)) hr) (omega arith)
                (λ a. omega (arith, one a)) in
            (
              h',
              rw (reassign_full h g c parent n g_ok ne at_g at_c full, ◌>>=◌) done,
              Reassigned-full h h' g c parent n kids rest r ne cs hk off one (ground arith) next,
            )
      ]
