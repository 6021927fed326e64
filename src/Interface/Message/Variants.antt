-- ===== src/Interface/Message/Variants.antt =====
-- The other ways to send of interface/message.c, and what the receiver reads as the target.
use phantomid.Common.{
  ℕ, ◌≤◌, ◌≡◌, refl, ap, ◌↔◌, ◌≢◌, ◌⊎◌, ◌+◌, ◌%◌, u32_mod, leb, ◌==◌, if◌then◌else◌, Bool, true,
  false, List, [], ◌∷◌, Option, none, some, arith, ◌>>=◌, length, take, drop,
}
use phantomid.Common.CString.{Str, Bytes, IsStr, cstr, strncpy, strncpy-strncpy, cstr-strncpy}
use phantomid.Interface.Message.{
  Message, MessageContext, stamped, send, send_message, set_first, broadcast_message,
  forward_message, validate_message,
}
use phantomid.Interface.Message.Sending.{Queued, SendOutcome, send-SendOutcome}

-- A send reads the message only for what it writes into the slot.
send_of_stamped :
    (now : ℕ) (ctx : MessageContext) (target : Str) (m m' : Message)
    → stamped now ctx.next_msg_id target m ≡ stamped now ctx.next_msg_id target m'
    → send now ctx target m ≡ send now ctx target m'
unfolding send
send_of_stamped now ctx target m m' e =
    ap
      (λ slot.
        if leb ctx.outgoing.capacity ctx.outgoing.count
        then some (false, ctx)
        else (ctx.outgoing.messages >>= λ slots. some (
          true,
          record ctx {
            outgoing = record ctx.outgoing {
              messages = some (λ i. if i == ctx.outgoing.tail then slot else slots i);
              tail = (ctx.outgoing.tail + 1) % ctx.outgoing.capacity;
              count = ctx.outgoing.count + 1;
            };
            next_msg_id = (ctx.next_msg_id + 1) % u32_mod;
          },
        )))
      e

stamped-strncpy :
    (now id : ℕ) (target : Str) (m : Message)
    → stamped now id target (record m { target = strncpy m.target target 63 })
      ≡ stamped now id target m
unfolding stamped
stamped-strncpy now id target m =
    ap (λ bytes. record m { target = bytes; id = id; timestamp = now })
      (strncpy-strncpy m.target target 63)

-- `forward_message` does what `send_message` does on the same arguments, NULL ones included.
pub forward_message-send_message :
    (now : ℕ) (program : Option MessageContext) (target : Option Str) (message : Option Message)
    → forward_message now program target message ≡ send_message now program target message
unfolding forward_message send_message
forward_message-send_message now none target message = refl
forward_message-send_message now (some ctx) none message = refl
forward_message-send_message now (some ctx) (some target) none = refl
forward_message-send_message now (some ctx) (some target) (some message) =
    ap (λ (r : Option (Bool × MessageContext)). r >>= to_program)
      (send_of_stamped now ctx target _ message
        (stamped-strncpy now ctx.next_msg_id target message))
  where
    to_program : Bool × MessageContext → Option (Bool × Option MessageContext)
    to_program sent = some (sent.0, some sent.1)

-- Where a message's target has 64 bytes and the last one is a terminator, what a receiver reads as
-- the target after a send is the target of the send, cut at 63 bytes.
pub cstr-stamped :
    (now id : ℕ) (target : Str) (message : Message)
    → IsStr target
    → length message.target ≡ 64
    → cstr (drop 63 message.target) ≡ []
    → cstr (stamped now id target message).target ≡ take 63 target
unfolding stamped
cstr-stamped now id target message is_str long ended =
    cstr-strncpy message.target target 63 is_str (omega (arith, long)) ended

cstr-broadcast : (bytes : Bytes) → 1 ≤ length bytes → cstr (strncpy (set_first bytes 0) [] 63) ≡ []
unfolding strncpy cstr set_first
cstr-broadcast [] h = absurd (omega (arith, h))
cstr-broadcast (b ∷ bs) h = refl

-- On an outgoing queue that holds some messages, broadcasting a message with a target of 64 bytes
-- returns without a fault and is a send of the message, with another target only, to the empty
-- string; what a receiver reads as the target of the message in the queue is empty.
pub broadcast_message-SendOutcome :
    (now : ℕ) (ctx : MessageContext) (message : Message) (ms : List Message)
    → Queued ctx.outgoing ms
    → length message.target ≡ 64
    → (done : Bool) × (after : MessageContext) × (sent : Message) × (broadcast_message now
          (some ctx)
          (some message)
        ≡ some (done, some after))
      × SendOutcome now ctx [] sent ms done after
      × (cstr (stamped now ctx.next_msg_id [] sent).target ≡ [])
      × (record sent { target = message.target } ≡ message)
unfolding broadcast_message send_message stamped
broadcast_message-SendOutcome now ctx message ms v long =
    let sent = record message { target = set_first message.target 0 } in
    let (done, after, ran, is) = send-SendOutcome now ctx [] sent ms v in
    (
      done,
      after,
      sent,
      rw (ran, ◌>>=◌) refl,
      is,
      cstr-broadcast message.target (omega (arith, long)),
      refl,
    )

-- For a program and a message that are not NULL, `validate_message` accepts exactly the messages
-- that have a payload or claim no bytes, and whose time is not later than now; the type does not
-- matter.
pub validate_message_iff :
    (now : ℕ) (ctx : MessageContext) (message : Message)
    → (validate_message now (some ctx) (some message) ≡ true)
      ↔ ((message.data_size ≡ 0 ⊎ message.payload ≢ 0) × (message.timestamp ≤ now))
unfolding validate_message
validate_message_iff now ctx message = ground arith
