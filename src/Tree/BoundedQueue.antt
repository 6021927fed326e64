-- ===== src/Tree/BoundedQueue.antt =====
-- The ring buffer of runtime/tree/tree.c implements a bounded queue.
use phantomid.Common.{
  ◌≡◌, refl, Bool, true, false, List, [], ◌∷◌, ◌++◌, arith, ltb, ◌==◌, if◌then◌else◌, Bool-cases,
  inl, inr, length,
}
use phantomid.Tree.Store.{Ptr, null}
use phantomid.Tree.Queue.{
  max_queue_size, NodeQueue, queue_push, queue_pop, contents, IsValid, queue_push-IsValid,
  queue_pop-IsValid, queue_push_full, queue_push_room, queue_pop_lem, length-contents,
}

-- A queue of at most 1000 pointers, as a list: a push into a full queue is refused, and a pop of an
-- empty one returns NULL.
abbrev pub push_bounded : List Ptr → Ptr → Bool × List Ptr
push_bounded ps p = if ltb (length ps) max_queue_size then (true, ps ++ p ∷ []) else (false, ps)

abbrev pub pop_front : List Ptr → Ptr × List Ptr
pop_front [] = (null, [])
pop_front (p ∷ ps) = (p, ps)

pushed :
    (q : NodeQueue) (p : Ptr)
    → IsValid q
    → ((queue_push q p).0, contents (queue_push q p).1) ≡ push_bounded (contents q) p
pushed q p v = elim (Bool-cases (ltb q.size max_queue_size)) [
  | inl room ↦
      let (done, kept) = queue_push_room q p v (ground arith) in
      rw (length-contents q, room, done, kept) refl
  | inr full ↦
      let same = queue_push_full q p (ground (arith, v.size_in)) in
      rw (length-contents q, full, same) refl
]

empty_of_size : (ps : List Ptr) → length ps ≡ 0 → ps ≡ []
empty_of_size [] e = refl
empty_of_size (p ∷ ps) e = absurd (omega (arith, e))

pop_empty : (q : NodeQueue) → (q.size == 0) ≡ true → queue_pop q ≡ (null, q)
unfolding queue_pop
pop_empty q e = rw e refl

popped :
    (q : NodeQueue)
    → IsValid q
    → ((queue_pop q).0, contents (queue_pop q).1) ≡ pop_front (contents q)
popped q v = elim (Bool-cases (q.size == 0)) [
  | inl gone ↦
      let bare = empty_of_size (contents q) (ground (arith, length-contents q)) in
      rw (pop_empty q gone, bare) refl
  | inr there ↦ rw (queue_pop_lem q v (ground arith)) refl
]

-- On a valid ring, `queue_push` and `queue_pop` do to the contents what the bounded queue does to
-- its list, with the same results, and leave a valid ring: a push into a full ring is refused and
-- changes nothing, and a pop of an empty one returns NULL.
pub queue-refines :
    (q : NodeQueue) (p : Ptr)
    → IsValid q
    → IsValid (queue_push q p).1
      × (((queue_push q p).0, contents (queue_push q p).1) ≡ push_bounded (contents q) p)
      × IsValid (queue_pop q).1
      × (((queue_pop q).0, contents (queue_pop q).1) ≡ pop_front (contents q))
queue-refines q p v = (queue_push-IsValid q p v, pushed q p v, queue_pop-IsValid q v, popped q v)
