-- ===== src/Interface/Message/Sending.antt =====
-- The outgoing queue of interface/message.c keeps the messages in the order of the sends.
use native.Mathlib.Nat.{mod-eq_of_lt, mod_self}
use phantomid.Common.{
  ℕ, zero, suc, ◌+◌, ◌%◌, ◌≤◌, ◌<◌, ◌≡◌, refl, sym, ap, ◌∙◌, Bool, true, false, List, [], ◌∷◌, ◌++◌,
  some, arith, leb, ◌==◌, if◌then◌else◌, ◌>>=◌, ==_iff, eq→==, ne→==, Bool-cases, inl, inr, length,
  length-append, u32_mod,
}
use phantomid.Common.CString.{Str}
use phantomid.Interface.Message.{Message, MessageQueue, MessageContext, stamped, send}

-- The first slots of an array, in order.
abbrev pub first_slots : (ℕ → Message) → ℕ → List Message
first_slots slots zero = []
first_slots slots (suc n) = first_slots slots n ++ slots n ∷ []

-- The queue holds the messages. Nothing in the program takes one off, so they stand at the front.
pub record Queued (q : MessageQueue) (ms : List Message) : Type 0 where
  pub slots : ℕ → Message
  pub there : q.messages ≡ some slots
  pub head_at : q.head ≡ 0
  pub tail_at : q.tail ≡ (if q.count == q.capacity then 0 else q.count)
  pub fits : q.count ≤ q.capacity
  pub kept : first_slots slots q.count ≡ ms

length-first_slots : (slots : ℕ → Message) (n : ℕ) → length (first_slots slots n) ≡ n
length-first_slots slots zero = refl
length-first_slots slots (suc n) =
    length-append (first_slots slots n) _ ∙ omega (arith, length-first_slots slots n)

pub length-Queued : {q : MessageQueue} {ms : List Message} → Queued q ms → length ms ≡ q.count
length-Queued {q} v = ap length (sym v.kept) ∙ length-first_slots v.slots q.count

first_slots_write :
    (slots : ℕ → Message) (message : Message) (t n : ℕ)
    → n ≤ t
    → first_slots (λ i. if i == t then message else slots i) n ≡ first_slots slots n
first_slots_write slots message t zero h = refl
first_slots_write slots message t (suc n) h =
    let away : (n == t) ≡ false = ne→== n t (λ e. omega (arith, e)) in
    rw (first_slots_write slots message t n (omega arith), away)

-- The next index, round the ring.
next_index : (n c : ℕ) → n < c → (n + 1) % c ≡ (if n + 1 == c then 0 else n + 1)
next_index n c h = elim (Bool-cases (n + 1 == c)) [
  | inl last ↦ rw last (ap (λ m. m % c) ((==_iff _ _).0 last) ∙ mod_self c)
  | inr inside ↦ rw inside (mod-eq_of_lt (ground arith))
]

-- What a send does: it is refused where the queue is full; else the message comes behind the others.
pub data SendOutcome (now : ℕ) (ctx : MessageContext) (target : Str) (message : Message)
    (ms : List Message) : Bool → MessageContext → Type 0 where
  full : length ms ≡ ctx.outgoing.capacity → SendOutcome now ctx target message ms false ctx
  queued :
      {after : MessageContext}
      → length ms < ctx.outgoing.capacity
      → Queued after.outgoing (ms ++ stamped now ctx.next_msg_id target message ∷ [])
      → after.outgoing.capacity ≡ ctx.outgoing.capacity
      → after.next_msg_id ≡ (ctx.next_msg_id + 1) % u32_mod
      → after.incoming ≡ ctx.incoming
      → after.handlers ≡ ctx.handlers
      → SendOutcome now ctx target message ms true after

-- The context after a send into a queue with room.
abbrev after_send : ℕ → MessageContext → Str → Message → (ℕ → Message) → MessageContext
after_send now ctx target message slots = record ctx {
  outgoing = record ctx.outgoing {
    messages = some (λ i.
        if i == ctx.outgoing.tail then stamped now ctx.next_msg_id target message else slots i);
    tail = (ctx.outgoing.tail + 1) % ctx.outgoing.capacity;
    count = ctx.outgoing.count + 1;
  };
  next_msg_id = (ctx.next_msg_id + 1) % u32_mod;
}

first_slots_add :
    (slots : ℕ → Message) (n : ℕ) → first_slots slots (n + 1) ≡ first_slots slots n ++ slots n ∷ []
first_slots_add slots n = let e : n + 1 ≡ suc n = omega arith in ap (first_slots slots) e

after_send-Queued :
    (now : ℕ) (ctx : MessageContext) (target : Str) (message : Message) (ms : List Message)
    (v : Queued ctx.outgoing ms)
    → ctx.outgoing.count < ctx.outgoing.capacity
    → Queued
        (after_send now ctx target message v.slots).outgoing
        (ms ++ stamped now ctx.next_msg_id target message ∷ [])
after_send-Queued now ctx target message ms v h = record {
  slots =
      λ i. if i == ctx.outgoing.tail then stamped now ctx.next_msg_id target message else v.slots i;
  there = refl;
  head_at = v.head_at;
  tail_at =
      ap (λ n. (n + 1) % ctx.outgoing.capacity) at
      ∙ next_index ctx.outgoing.count ctx.outgoing.capacity h;
  fits = omega (arith, h);
  kept =
      first_slots_add _ ctx.outgoing.count
      ∙ ap
          (λ xs.
            xs
            ++ (if ctx.outgoing.count == ctx.outgoing.tail
                then stamped now ctx.next_msg_id target message
                else v.slots ctx.outgoing.count)
              ∷ [])
          (first_slots_write v.slots (stamped now ctx.next_msg_id target message) ctx.outgoing.tail
              ctx.outgoing.count (omega (arith, at))
            ∙ v.kept)
      ∙ ap (λ m. ms ++ m ∷ []) here;
}
  where
    at : ctx.outgoing.tail ≡ ctx.outgoing.count
    at =
        v.tail_at
        ∙ rw (ne→== ctx.outgoing.count ctx.outgoing.capacity (λ e. omega (arith, e, h))) refl

    here :
        (if ctx.outgoing.count == ctx.outgoing.tail
          then stamped now ctx.next_msg_id target message
          else v.slots ctx.outgoing.count)
        ≡ stamped now ctx.next_msg_id target message
    here = rw (eq→== ctx.outgoing.count ctx.outgoing.tail (sym at)) refl

-- On an outgoing queue that holds some messages, a send returns without a fault and is one of the
-- branches of `SendOutcome`: false and nothing changed where the queue is full; else true, the
-- stamped message stands behind the others, the id counter has moved on by one modulo 2^32, and the
-- incoming queue, the handlers and the capacity are as before.
pub send-SendOutcome :
    (now : ℕ) (ctx : MessageContext) (target : Str) (message : Message) (ms : List Message)
    → Queued ctx.outgoing ms
    → (done : Bool) × (after : MessageContext) × (send now ctx target message ≡ some (done, after))
      × SendOutcome now ctx target message ms done after
unfolding send
send-SendOutcome now ctx target message ms v =
    elim (Bool-cases (leb ctx.outgoing.capacity ctx.outgoing.count)) [
      | inl stop ↦ (false, ctx, rw stop refl, full (ground (arith, v.fits, length-Queued v)))
      | inr room ↦ (
        true,
        after_send now ctx target message v.slots,
        rw room (rw (v.there, ◌>>=◌) refl),
        queued (ground (arith, length-Queued v))
            (after_send-Queued now ctx target message ms v (ground arith)) refl refl refl refl,
      )
    ]
