-- ===== src/Interface/Message/Lifetime.antt =====
-- `message_init` and `message_cleanup` of interface/message.c.
use phantomid.Common.{
  ◌≡◌, refl, Bool, true, false, ◌&&◌, [], Option, none, some, arith, ◌⊎◌, Bool-cases, inl, inr,
}
use phantomid.Interface.Registry.{HandlerRegistry, init_registry}
use phantomid.Interface.Registry
use phantomid.Interface.Message.{
  Message, MessageContext, MessageQueue, Grants, init_queue, new_context, message_init,
}
use phantomid.Interface.Message.Sending.{Queued}

-- Everything that the initialisation asks for is given.
abbrev pub all_granted : Grants → Bool
all_granted g =
    g.context && g.incoming && g.incoming_lock && g.outgoing && g.outgoing_lock && g.entries
    && g.entries_lock

-- The two queues are empty, with room for 1000 messages, and the registry is empty, with room for 100.
pub record Fresh (ctx : MessageContext) : Type 0 where
  pub no_incoming : Queued ctx.incoming []
  pub no_outgoing : Queued ctx.outgoing []
  pub incoming_room : ctx.incoming.capacity ≡ 1000
  pub outgoing_room : ctx.outgoing.capacity ≡ 1000
  pub no_handlers : ctx.handlers.entries ≡ []
  pub handlers_room : ctx.handlers.capacity ≡ 100
  pub handlers_valid : Registry.IsValid ctx.handlers
  pub first_id : ctx.next_msg_id ≡ 0

abbrev empty_queue : Message → MessageQueue
empty_queue blank = record {
  messages = some (λ i. blank);
  capacity = 1000;
  count = 0;
  head = 0;
  tail = 0;
}

abbrev fresh_context : Message → MessageContext
fresh_context blank = record {
  incoming = empty_queue blank;
  outgoing = empty_queue blank;
  handlers = record { entries = []; capacity = 100 };
  next_msg_id = 0;
}

empty_queue-Queued : (blank : Message) → Queued (empty_queue blank) []
empty_queue-Queued blank = record {
  slots = λ i. blank;
  there = refl;
  head_at = refl;
  tail_at = refl;
  fits = omega arith;
  kept = refl;
}

fresh_context-Fresh : (blank : Message) → Fresh (fresh_context blank)
fresh_context-Fresh blank = record {
  no_incoming = empty_queue-Queued blank;
  no_outgoing = empty_queue-Queued blank;
  incoming_room = refl;
  outgoing_room = refl;
  no_handlers = refl;
  handlers_room = refl;
  handlers_valid = record { fits = omega arith; unique = λ a. omega arith };
  first_id = refl;
}

new_context_granted :
    (g : Grants) (blank : Message)
    → all_granted g ≡ true
    → new_context g blank ≡ some (fresh_context blank)
unfolding new_context init_queue init_registry
new_context_granted g blank e = ground arith

new_context_denied :
    (g : Grants) (blank : Message) → all_granted g ≡ false → new_context g blank ≡ none
unfolding new_context init_queue init_registry
new_context_denied g blank e = ground arith

-- `message_init` fails exactly where one of the calls that it relies on fails, and leaves the
-- program's data as it was then; else the program has a context with two empty queues of 1000
-- messages, an empty and valid registry for 100 handlers, and the first id 0.
pub message_init-Fresh :
    (g : Grants) (blank : Message) (user_data : Option MessageContext)
    → ((all_granted g ≡ false) × (message_init g blank user_data ≡ (false, user_data)))
      ⊎ ((all_granted g ≡ true)
          × ((ctx : MessageContext) × (message_init g blank user_data ≡ (true, some ctx))
              × Fresh ctx))
unfolding message_init
message_init-Fresh g blank user_data = elim (Bool-cases (all_granted g)) [
  | inl all ↦ inr (
    all,
    (
      fresh_context blank,
      rw (message_init, new_context_granted g blank all) refl,
      fresh_context-Fresh blank,
    ),
  )
  | inr some_not ↦ inl (some_not, rw (message_init, new_context_denied g blank some_not) refl)
]
