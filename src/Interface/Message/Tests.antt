-- ===== src/Interface/Message/Tests.antt =====
-- interface/message.c on small inputs.
use mathlib.Core.Path.{ap₂}
use phantomid.Common.{
  ℕ, zero, suc, ◌≤◌, ◌≡◌, refl, true, List, [], ◌∷◌, ◌++◌, some, arith, length, take, drop,
  length-append, take-append_of_eq, drop-append_of_eq,
}
use phantomid.Common.CString.{Bytes, cstr}
use phantomid.Interface.Registry.{HandlerRegistry, Registered, register, register-Registered}
use phantomid.Interface.Message.{
  Message, MessageQueue, MessageContext, Grants, stamped, encode_message, decode_message,
}
use phantomid.Interface.Message.Sending.{Queued}
use phantomid.Interface.Message.Order.{Request, send_all, send_all-Sends}
use phantomid.Interface.Message.Ids.{id_uses, send_all-id_uses}
use phantomid.Interface.Message.Codec.{IsMessage, decode_message-encode_message}

abbrev zeros : ℕ → Bytes
zeros zero = []
zeros (suc n) = 0 ∷ zeros n

abbrev blank : Message
blank = record {
  type = 0;
  id = 0;
  flags = 0;
  source = zeros 64;
  target = zeros 64;
  timestamp = 0;
  payload = 0;
  data_size = 0;
}

-- A queue of two slots, with one message.
abbrev two_slots : MessageQueue
two_slots = record { messages = some (λ i. blank); capacity = 2; count = 1; head = 0; tail = 1 }

abbrev handlers : HandlerRegistry
handlers = record { entries = record { type = 3; handler = 77 } ∷ []; capacity = 2 }

abbrev ctx : MessageContext
ctx = record { incoming = two_slots; outgoing = two_slots; handlers = handlers; next_msg_id = 9 }

two_slots-Queued : Queued two_slots (blank ∷ [])
two_slots-Queued = record {
  slots = λ i. blank;
  there = refl;
  head_at = refl;
  tail_at = refl;
  fits = omega arith;
  kept = refl;
}

abbrev requests : List Request
requests =
    record { now = 5; target = b'x' ∷ []; message = blank }
    ∷ record { now = 6; target = b'y' ∷ []; message = blank }
    ∷ []

-- The second request does not fit.
send_all-Sends_example :
    (after : MessageContext) × (send_all ctx requests ≡ some (1, after))
    × Queued after.outgoing (blank ∷ stamped 5 9 (b'x' ∷ []) blank ∷ [])
send_all-Sends_example = send_all-Sends ctx (blank ∷ []) requests two_slots-Queued

abbrev empty_ctx : MessageContext
empty_ctx = record ctx { outgoing = record two_slots { count = 0; tail = 0 } }

empty-Queued : Queued empty_ctx.outgoing []
empty-Queued = record {
  slots = λ i. blank;
  there = refl;
  head_at = refl;
  tail_at = refl;
  fits = omega arith;
  kept = refl;
}

send_all-id_uses_example :
    (sent : ℕ) × (after : MessageContext) × (kept : List Message) × (send_all empty_ctx requests
      ≡ some (sent, after))
    × Queued after.outgoing kept
    × ((a : ℕ) → id_uses a kept ≤ 1)
send_all-id_uses_example =
    send_all-id_uses empty_ctx requests empty-Queued (omega arith) (omega arith)

last_byte : cstr (drop 63 (zeros 64)) ≡ []
unfolding cstr
last_byte = refl

register-Registered_example :
    Registered handlers 4 78 (register handlers 4 78).0 (register handlers 4 78).1
register-Registered_example =
    register-Registered handlers 4 78 (record { fits = omega arith; unique = λ a. ground arith })

abbrev all_given : Grants
all_given = record {
  context = true;
  incoming = true;
  incoming_lock = true;
  outgoing = true;
  outgoing_lock = true;
  entries = true;
  entries_lock = true;
}

-- A layout: the numbers first, then the two arrays.
abbrev layout : Message → Bytes
layout m = m.type ∷ m.id ∷ m.flags ∷ m.timestamp ∷ m.payload ∷ m.data_size ∷ (m.source ++ m.target)

abbrev read_layout : Bytes → Message
read_layout (a ∷ b ∷ c ∷ d ∷ e ∷ f ∷ bytes) = record {
  type = a;
  id = b;
  flags = c;
  source = take 64 bytes;
  target = drop 64 bytes;
  timestamp = d;
  payload = e;
  data_size = f;
}
read_layout bytes = blank

length-layout : (m : Message) → IsMessage m → length (layout m) ≡ 134
length-layout m v = omega (arith, length-append m.source m.target, v.source_size, v.target_size)

read_layout-layout : (m : Message) → IsMessage m → read_layout (layout m) ≡ m
read_layout-layout m v =
    ap₂ (λ xs ys. record m { source = xs; target = ys })
      (take-append_of_eq m.source m.target 64 v.source_size)
      (drop-append_of_eq m.source m.target 64 v.source_size)

decode_message-encode_message_example :
    (written : Bytes) × (encode_message 134 layout read_layout
        (some ctx)
        (some blank)
        (some (zeros 140))
        (some 140)
      ≡ some (true, some written, some 134))
    × (decode_message 134 layout read_layout (some ctx) (some written) 134 (some blank)
        ≡ some (true, some blank))
    × (length written ≡ 140)
decode_message-encode_message_example =
    decode_message-encode_message 134 layout read_layout length-layout read_layout-layout ctx blank
      blank (zeros 140) 140 (record { source_size = refl; target_size = refl }) (omega arith)
      (omega arith)
