-- ===== src/Programs/Addressed.antt =====
-- `parse_message_context` of programs/handlers.c, on a tree that its memory holds.
use phantomid.Common.{
  ℕ, ◌≤◌, ◌<◌, ◌≡◌, refl, ap, ◌≢◌, ◌⊎◌, inl, inr, true, false, Option, none, some, ◌>>=◌, eq→==,
  ne→==, Bool-cases,
}
use phantomid.Common.CString.{cstr}
use phantomid.Tree.Store.{Ptr, null, Tree}
use phantomid.Tree.Queue.{max_queue_size}
use phantomid.Tree.Forest.{Forest, count, All, Any, Holds, Holds-join_left}
use phantomid.Tree.Lookup.{Named, tree_find_node, find_node-Found, Named-held}
use phantomid.Tree.Invariant.{Represents}
use phantomid.Interface.Message.{Message}
use phantomid.Programs.Messages.{starts, with_source, parse_message_context}

-- A message names no source of the tree, or a target that is not in it.
abbrev pub Astray : Message → Forest → Type 0
Astray message main =
    (starts message.source ≡ false)
    ⊎ All (λ p n. n.id ≢ cstr message.source) main
    ⊎ ((starts message.target ≡ true) × All (λ p n. n.id ≢ cstr message.target) main)

-- Its source, and its target where it names one, are nodes of the tree at the two addresses.
abbrev pub Between : Message → Forest → Ptr → Ptr → Type 0
Between message main p q =
    Any (Named (cstr message.source) p) main
    × ((starts message.target ≡ false) × (q ≡ null)
        ⊎ (starts message.target ≡ true) × Any (Named (cstr message.target) q) main)

abbrev pub Addressed : Message → Forest → Option (Ptr × Ptr) → Type 0
Addressed message main none = Astray message main
Addressed message main (some (p, q)) = Between message main p q

module _ (k : ℕ) (t : Tree) (message : Message) (main lost : Forest) (fuel : count main < k)
    (small : count main ≤ max_queue_size) (r : Represents t main lost) where
  held_main : Holds t.heap main
  held_main = Holds-join_left t.heap main lost r.held

  sourced :
      (p q : Ptr)
      → (p ≡ null) × All (λ a n. n.id ≢ cstr message.source) main
        ⊎ Any (Named (cstr message.source) p) main
      → ((starts message.target ≡ false) × (q ≡ null)
          ⊎ (starts message.target ≡ true) × Any (Named (cstr message.target) q) main)
      → (c : Option (Ptr × Ptr)) × (with_source p q ≡ c) × Addressed message main c
  sourced p q (inl (gone, none_there)) to =
      (none, rw (eq→== p null gone) refl, inr (inl none_there))
  sourced p q (inr there) to =
      let (ne, held) = Named-held t.heap (cstr message.source) p main held_main there in
      (some (p, q), rw (ne→== p null ne) refl, (there, to))

  pub parse_message_context-Addressed :
      (c : Option (Ptr × Ptr)) × (parse_message_context k (some t) message ≡ some c)
      × Addressed message main c
  unfolding parse_message_context tree_find_node
  parse_message_context-Addressed = elim (Bool-cases (starts message.source)) [
    | inr no_source ↦ (none, rw no_source refl, inl no_source)
    | inl source ↦
        let (p, found, is) =
          find_node-Found k t (cstr message.source) main r.rooted held_main fuel small in
        elim (Bool-cases (starts message.target)) [
          | inr no_target ↦
              let (c, same, to) = sourced p null is (inl (no_target, refl)) in
              (c, rw source (rw (found, ◌>>=◌) (rw no_target (ap some same))), to)
          | inl target ↦
              let (q, found', is') =
                find_node-Found k t (cstr message.target) main r.rooted held_main fuel small in
              elim is' [
                | inl (gone, none_there) ↦ (
                  none,
                  rw source (
                      rw (found, ◌>>=◌)
                        (rw target (rw (found', ◌>>=◌) (rw (eq→== q null gone) refl)))),
                  inr (inr (target, none_there)),
                )
                | inr there ↦
                    let (ne, held) =
                      Named-held t.heap (cstr message.target) q main held_main there in
                    let (c, same, to) = sourced p q is (inr (target, there)) in
                    (
                      c,
                      rw source (
                          rw (found, ◌>>=◌)
                            (rw target (rw (found', ◌>>=◌) (rw (ne→== q null ne) (ap some same))))),
                      to,
                    )
              ]
        ]
  ]
