-- ===== src/Interface/Message.antt =====
-- interface/message.c: the queues of messages and the handlers by type. The program is what its
-- `user_data` points to, the `MessageContext`; a pointer that may be NULL is an Option.
use phantomid.Common.{
  ℕ, ◌+◌, ◌%◌, Bool, true, false, not, ◌&&◌, List, [], ◌∷◌, ◌++◌, Option, none, some, leb, ltb,
  ◌==◌, if◌then◌else◌, ◌>>=◌, length, take, drop, u32_mod,
}
use phantomid.Common.CString.{Str, Bytes, strncpy}
use phantomid.Interface.Registry.{HandlerRegistry, init_registry, cleanup_registry, register}
pub mod Sending
pub mod Order
pub mod Ids
pub mod Lifetime
pub mod Variants
pub mod Codec
mod Tests

-- `Message`. `source` and `target` are all the 64 bytes of the arrays.
pub record Message : Type 0 where
  pub type : ℕ
  pub id : ℕ
  pub flags : ℕ
  pub source : Bytes
  pub target : Bytes
  pub timestamp : ℕ
  pub payload : ℕ
  pub data_size : ℕ

-- The values of `MessageType` that the code names.
abbrev pub msg_system : ℕ
msg_system = 0

abbrev pub msg_custom : ℕ
msg_custom = 1000

-- `MessageQueue`; the array as a function of the index, or NULL.
pub record MessageQueue : Type 0 where
  pub messages : Option (ℕ → Message)
  pub capacity : ℕ
  pub count : ℕ
  pub head : ℕ
  pub tail : ℕ

-- `MessageContext`
pub record MessageContext : Type 0 where
  pub incoming : MessageQueue
  pub outgoing : MessageQueue
  pub handlers : HandlerRegistry
  pub next_msg_id : ℕ

-- `register_message_handler`
unfoldable pub register_message_handler :
    Option MessageContext → ℕ → Option ℕ → Bool × Option MessageContext
register_message_handler (some ctx) type (some handler) = (
  (register ctx.handlers type handler).0,
  some (record ctx { handlers = (register ctx.handlers type handler).1 }),
)
register_message_handler program type handler = (false, program)

-- What `send_message` writes into the slot.
unfoldable pub stamped : ℕ → ℕ → Str → Message → Message
stamped now id target message = record message {
  target = strncpy message.target target 63;
  id = id;
  timestamp = now;
}

-- `send_message` under the lock; `now` is what `time` returns.
unfoldable pub send : ℕ → MessageContext → Str → Message → Option (Bool × MessageContext)
send now ctx target message =
    if leb ctx.outgoing.capacity ctx.outgoing.count
    then some (false, ctx)
    else (ctx.outgoing.messages >>= λ slots. some (
      true,
      record ctx {
        outgoing = record ctx.outgoing {
          messages = some (λ i.
              if i == ctx.outgoing.tail
              then stamped now ctx.next_msg_id target message
              else slots i);
          tail = (ctx.outgoing.tail + 1) % ctx.outgoing.capacity;
          count = ctx.outgoing.count + 1;
        };
        next_msg_id = (ctx.next_msg_id + 1) % u32_mod;
      },
    ))

unfoldable pub send_message :
    ℕ → Option MessageContext → Option Str → Option Message → Option (Bool × Option MessageContext)
send_message now (some ctx) (some target) (some message) =
    send now ctx target message >>= λ sent. some (sent.0, some sent.1)
send_message now program target message = some (false, program)

-- `a[0] = c`
unfoldable pub set_first : Bytes → ℕ → Bytes
set_first [] c = []
set_first (b ∷ bs) c = c ∷ bs

-- `broadcast_message`
unfoldable pub broadcast_message :
    ℕ → Option MessageContext → Option Message → Option (Bool × Option MessageContext)
broadcast_message now (some ctx) (some message) =
    send_message now (some ctx) (some [])
      (some (record message { target = set_first message.target 0 }))
broadcast_message now program message = some (false, program)

-- `forward_message`
unfoldable pub forward_message :
    ℕ → Option MessageContext → Option Str → Option Message → Option (Bool × Option MessageContext)
forward_message now (some ctx) (some target) (some message) =
    send_message now (some ctx) (some target)
      (some (record message { target = strncpy message.target target 63 }))
forward_message now program target message = some (false, program)

-- `validate_message`
unfoldable pub validate_message : ℕ → Option MessageContext → Option Message → Bool
validate_message now (some ctx) (some message) =
    if leb msg_custom message.type && ltb message.type msg_system
    then false
    else if ltb 0 message.data_size && message.payload == 0
    then false
    else if ltb now message.timestamp
    then false
    else true
validate_message now program message = false

-- `memcpy(dst, src, n)` of `n` bytes to the start of an array: a fault where they do not fit.
unfoldable pub memcpy : Bytes → Bytes → Option Bytes
memcpy dst src = if leb (length src) (length dst) then some (src ++ drop (length src) dst) else none

-- The layout of a `Message` in memory is the compiler's: `image` gives its bytes, `size` of them.
module _ (size : ℕ) (image : Message → Bytes) (parse : Bytes → Message) where
  -- `encode_message`: the result, the buffer and `*size`.
  unfoldable pub encode_message :
      Option MessageContext
      → Option Message
      → Option Bytes
      → Option ℕ
      → Option (Bool × Option Bytes × Option ℕ)
  encode_message (some ctx) (some message) (some buffer) (some room) =
      if ltb room size
      then some (false, some buffer, some room)
      else (memcpy buffer (image message) >>= λ written. some (true, some written, some size))
  encode_message program message buffer room = some (false, buffer, room)

  -- `decode_message`: the result, and the message where it is written.
  unfoldable pub decode_message :
      Option MessageContext → Option Bytes → ℕ → Option Message → Option (Bool × Option Message)
  decode_message (some ctx) (some buffer) given (some message) =
      if ltb given size
      then some (false, some message)
      else if ltb (length buffer) size
      then none
      else some (true, some (parse (take size buffer)))
  decode_message program buffer given message = some (false, message)

-- `init_queue`; `blank` is a slot that `calloc` has set to zeros.
unfoldable pub init_queue : Bool → Bool → Message → ℕ → Option MessageQueue
init_queue calloc_ok mutex_ok blank capacity =
    if not calloc_ok
    then none
    else if not mutex_ok
    then none
    else some (record {
      messages = some (λ i. blank);
      capacity = capacity;
      count = 0;
      head = 0;
      tail = 0;
    })

-- `cleanup_queue`
unfoldable pub cleanup_queue : MessageQueue → MessageQueue
cleanup_queue queue = record queue { messages = none; count = 0 }

-- Which of the calls of `message_init` that may fail succeed.
pub record Grants : Type 0 where
  pub context : Bool
  pub incoming : Bool
  pub incoming_lock : Bool
  pub outgoing : Bool
  pub outgoing_lock : Bool
  pub entries : Bool
  pub entries_lock : Bool

-- The context that `message_init` makes, where nothing fails.
unfoldable pub new_context : Grants → Message → Option MessageContext
new_context g blank =
    if not g.context
    then none
    else (init_queue g.incoming g.incoming_lock blank 1000 >>= λ incoming.
        init_queue g.outgoing g.outgoing_lock blank 1000 >>= λ outgoing.
        init_registry g.entries g.entries_lock 100 >>= λ handlers.
        some (record {
          incoming = incoming;
          outgoing = outgoing;
          handlers = handlers;
          next_msg_id = 0;
        }))

-- `message_init`: the result, and the program's `user_data` afterwards.
unfoldable pub message_init :
    Grants → Message → Option MessageContext → Bool × Option MessageContext
message_init g blank user_data = elim (new_context g blank) [
  | some ctx ↦ (true, some ctx)
  | none ↦ (false, user_data)
]

-- `message_cleanup`: what stands in the context as it is freed.
unfoldable pub message_cleanup : Option MessageContext → Option MessageContext
message_cleanup none = none
message_cleanup (some ctx) = some (record ctx {
  incoming = cleanup_queue ctx.incoming;
  outgoing = cleanup_queue ctx.outgoing;
  handlers = cleanup_registry ctx.handlers;
})
