-- ===== src/Tree/Queue.antt =====
-- The queue of the breadth-first loops of runtime/tree/tree.c: a ring of 1000 pointers.
use phantomid.Common.{
  ℕ, zero, suc, ◌+◌, ◌-◌, ◌%◌, ◌≤◌, ◌<◌, ◌≡◌, refl, ◌∙◌, ap, Bool, true, false, List, [], ◌∷◌, ◌++◌,
  append-nil, append_assoc, arith, leb, eq→==, ne→==, sym, ◌==◌, if◌then◌else◌, length,
  length-append,
}
use mathlib.Core.Path.{ap₂}
use mathlib.Core.List.{head-eq_of_cons-eq, tail-eq_of_cons-eq}
use native.Mathlib.Numerals.{add-one}
use phantomid.Tree.Store.{Ptr, null}

-- `MAX_QUEUE_SIZE`
abbrev pub max_queue_size : ℕ
max_queue_size = 1000

-- `NodeQueue`; the array as a function of the index.
pub record NodeQueue : Type 0 where
  pub nodes : ℕ → Ptr
  pub front : ℕ
  pub rear : ℕ
  pub size : ℕ

-- What the array holds before the first push does not matter.
unfoldable pub queue_init : (ℕ → Ptr) → NodeQueue
queue_init raw = record { nodes = raw; front = 0; rear = 0; size = 0 }

unfoldable pub queue_push : NodeQueue → Ptr → Bool × NodeQueue
queue_push q node = if leb max_queue_size q.size then (false, q) else (
  true,
  record q {
    nodes = λ i. if i == q.rear then node else q.nodes i;
    rear = (q.rear + 1) % max_queue_size;
    size = q.size + 1;
  },
)

unfoldable pub queue_pop : NodeQueue → Ptr × NodeQueue
queue_pop q =
    if q.size == 0
    then (null, q)
    else (q.nodes q.front, record q { front = (q.front + 1) % max_queue_size; size = q.size - 1 })

-- `for (i < child_count) queue_push(&queue, node->children[i])`: the result is ignored.
unfoldable pub push_all : NodeQueue → List Ptr → NodeQueue
push_all q [] = q
push_all q (c ∷ cs) = push_all (queue_push q c).1 cs

-- The `n` pointers from index `i` on, round the ring.
abbrev segment : (ℕ → Ptr) → ℕ → ℕ → List Ptr
segment nodes i zero = []
segment nodes i (suc n) = segment nodes i n ++ nodes ((i + n) % max_queue_size) ∷ []

abbrev pub contents : NodeQueue → List Ptr
contents q = segment q.nodes q.front q.size

pub record IsValid (q : NodeQueue) : Type 0 where
  pub front_in : q.front < max_queue_size
  pub size_in : q.size ≤ max_queue_size
  pub rear_at : q.rear ≡ (q.front + q.size) % max_queue_size

-- A write past a segment leaves the segment.
segment_write :
    (nodes : ℕ → Ptr) (p : Ptr) (i m n r : ℕ)
    → r ≡ (i + m) % max_queue_size
    → n ≤ m
    → m < max_queue_size
    → segment (λ k. if k == r then p else nodes k) i n ≡ segment nodes i n
segment_write nodes p i m zero r e h k = refl
segment_write nodes p i m (suc n) r e h k =
    let apart : ((i + n) % max_queue_size == r) ≡ false = ne→== _ _ (λ d. omega arith) in
    rw (segment_write nodes p i m n r e (omega arith) k, apart)

-- The first pointer of a segment.
segment_first :
    (nodes : ℕ → Ptr) (i n : ℕ)
    → i < max_queue_size
    → segment nodes i (suc n) ≡ nodes i ∷ segment nodes ((i + 1) % max_queue_size) n
segment_first nodes i zero h =
    let e : (i + 0) % max_queue_size ≡ i = omega arith in ap (λ k. nodes k ∷ []) e
segment_first nodes i (suc n) h =
    let e : (i + suc n) % max_queue_size ≡ ((i + 1) % max_queue_size + n) % max_queue_size =
      omega arith in
    ap₂ (λ xs k. xs ++ nodes k ∷ []) (segment_first nodes i n h) e

segment_of_ne_zero :
    (nodes : ℕ → Ptr) (i n : ℕ)
    → i < max_queue_size
    → 0 < n
    → segment nodes i n ≡ nodes i ∷ segment nodes ((i + 1) % max_queue_size) (n - 1)
segment_of_ne_zero nodes i zero h p = absurd (omega arith)
segment_of_ne_zero nodes i (suc n) h p =
    segment_first nodes i n h ∙ ap (λ k. nodes i ∷ segment nodes ((i + 1) % max_queue_size) k) shift
  where
    shift : n ≡ suc n - 1
    shift = omega arith

pub length-segment : (nodes : ℕ → Ptr) (i n : ℕ) → length (segment nodes i n) ≡ n
length-segment nodes i zero = refl
length-segment nodes i (suc n) =
    length-append (segment nodes i n) _ ∙ omega (arith, length-segment nodes i n)

pub length-contents : (q : NodeQueue) → length (contents q) ≡ q.size
length-contents q = length-segment q.nodes q.front q.size

segment_push :
    (nodes : ℕ → Ptr) (p : Ptr) (i n r : ℕ)
    → r ≡ (i + n) % max_queue_size
    → n < max_queue_size
    → segment (λ k. if k == r then p else nodes k) i (n + 1) ≡ segment nodes i n ++ p ∷ []
segment_push nodes p i n r e h =
    let here : ((i + n) % max_queue_size == r) ≡ true = eq→== _ _ (sym e) in
    rw (add-one n) (rw (segment_write nodes p i n n r e (omega arith) h, here))

pub queue_init-IsValid : (raw : ℕ → Ptr) → IsValid (queue_init raw)
unfolding queue_init
queue_init-IsValid raw = omega arith

pub queue_push-IsValid : (q : NodeQueue) (p : Ptr) → IsValid q → IsValid (queue_push q p).1
unfolding queue_push
queue_push-IsValid q p v = ground arith

pub queue_pop-IsValid : (q : NodeQueue) → IsValid q → IsValid (queue_pop q).1
unfolding queue_pop
queue_pop-IsValid q v = ground arith

-- A push into a full queue drops the pointer.
pub queue_push_full :
    (q : NodeQueue) (p : Ptr) → q.size ≡ max_queue_size → queue_push q p ≡ (false, q)
unfolding queue_push
queue_push_full q p e = ground arith

-- A push into a queue with room appends.
pub queue_push_room :
    (q : NodeQueue) (p : Ptr)
    → IsValid q
    → q.size < max_queue_size
    → ((queue_push q p).0 ≡ true) × (contents (queue_push q p).1 ≡ contents q ++ p ∷ [])
unfolding queue_push
queue_push_room q p v h =
    let room : leb max_queue_size q.size ≡ false = ground arith in
    rw room (refl, segment_push q.nodes p q.front q.size q.rear v.rear_at h)

-- A pop of a queue that is not empty takes the first pointer off.
pub queue_pop_lem :
    (q : NodeQueue)
    → IsValid q
    → 0 < q.size
    → contents q ≡ (queue_pop q).0 ∷ contents (queue_pop q).1
unfolding queue_pop
queue_pop_lem q v h =
    let some_left : (q.size == 0) ≡ false = ground arith in
    rw some_left (segment_of_ne_zero q.nodes q.front q.size v.front_in h)

size-queue_push :
    (q : NodeQueue) (p : Ptr) → q.size < max_queue_size → (queue_push q p).1.size ≡ q.size + 1
unfolding queue_push
size-queue_push q p h = ground arith

-- The children are all appended, where there is room for all.
pub push_all-append :
    (cs : List Ptr) (q : NodeQueue)
    → IsValid q
    → q.size + length cs ≤ max_queue_size
    → IsValid (push_all q cs) × (contents (push_all q cs) ≡ contents q ++ cs)
unfolding push_all
push_all-append [] q v h = (v, sym (append-nil (contents q)))
push_all-append (c ∷ cs) q v h =
    let pushed = queue_push_room q c v (omega arith) in
    let rest = push_all-append cs (queue_push q c).1 (queue_push-IsValid q c v) grown in
    (rest.0, rest.1 ∙ ap (λ xs. xs ++ cs) pushed.1 ∙ append_assoc (contents q) (c ∷ []) cs)
  where
    grown : (queue_push q c).1.size + length cs ≤ max_queue_size
    grown = omega (arith, size-queue_push q c (omega arith))

-- An empty queue ends the loops.
pub size_of_nil : (q : NodeQueue) → contents q ≡ [] → (q.size == 0) ≡ true
size_of_nil q c = eq→== _ _ (omega (arith, length-contents q, ap (λ xs. length xs) c))

-- One round of the breadth-first loops: the first pointer comes off, and its children go on.
pub record Round (q : NodeQueue) (p : Ptr) (ps cs : List Ptr) : Type 0 where
  pub busy : (q.size == 0) ≡ false
  pub popped : (queue_pop q).0 ≡ p
  pub valid : IsValid (push_all (queue_pop q).1 cs)
  pub after : contents (push_all (queue_pop q).1 cs) ≡ ps ++ cs

pub round :
    (q : NodeQueue) (p : Ptr) (ps cs : List Ptr)
    → IsValid q
    → contents q ≡ p ∷ ps
    → length ps + length cs ≤ max_queue_size
    → Round q p ps cs
round q p ps cs v c room = record {
  busy = ne→== _ _ (λ e. omega (arith, full));
  popped = head-eq_of_cons-eq taken;
  valid = pushed.0;
  after = pushed.1 ∙ ap (λ xs. xs ++ cs) rest;
}
  where
    full : 0 < q.size
    full = omega (arith, length-contents q, ap (λ xs. length xs) c)

    taken : (queue_pop q).0 ∷ contents (queue_pop q).1 ≡ p ∷ ps
    taken = sym (queue_pop_lem q v full) ∙ c

    rest : contents (queue_pop q).1 ≡ ps
    rest = tail-eq_of_cons-eq taken

    pushed :
        IsValid (push_all (queue_pop q).1 cs)
        × (contents (push_all (queue_pop q).1 cs) ≡ contents (queue_pop q).1 ++ cs)
    pushed =
        push_all-append cs (queue_pop q).1 (queue_pop-IsValid q v)
          (omega (arith, length-contents (queue_pop q).1, ap (λ xs. length xs) rest))
