-- ===== src/Interface/Message/Ids.antt =====
-- The ids that the sends of interface/message.c give to the messages.
use phantomid.Common.{
  ℕ, zero, suc, ◌+◌, ◌-◌, ◌%◌, ◌≤◌, ◌<◌, ◌≡◌, refl, List, [], ◌∷◌, some, arith, ltb, ◌==◌,
  if◌then◌else◌, Bool-cases, inl, inr, length, take, u32_mod,
}
use phantomid.Interface.Message.{Message, MessageContext, stamped}
use phantomid.Interface.Message.Sending.{Queued}
use phantomid.Interface.Message.Order.{Request, send_all, stamped_all, accepted, send_all-Sends}

-- How many of the messages have the id.
abbrev pub id_uses : ℕ → List Message → ℕ
id_uses a [] = 0
id_uses a (m ∷ ms) = (if m.id == a then 1 else 0) + id_uses a ms

-- The ids are those from `id` on, modulo 2^32: the id at a distance below the number of requests.
id_uses-stamped_all :
    (a id : ℕ) (rs : List Request)
    → a < u32_mod
    → id < u32_mod
    → length rs ≤ u32_mod
    → id_uses a (stamped_all id rs)
      ≡ (if ltb ((a + u32_mod - id) % u32_mod) (length rs) then 1 else 0)
unfolding stamped
id_uses-stamped_all a id [] ha hid few = ground arith
id_uses-stamped_all a id (r ∷ rs) ha hid few =
    ground (arith, id_uses-stamped_all a ((id + 1) % u32_mod) rs ha (omega arith) (omega arith))

stamped_all-small :
    (a id : ℕ) (rs : List Request) → u32_mod ≤ a → id < u32_mod → id_uses a (stamped_all id rs) ≡ 0
unfolding stamped
stamped_all-small a id [] ha hid = refl
stamped_all-small a id (r ∷ rs) ha hid =
    ground (arith, stamped_all-small a ((id + 1) % u32_mod) rs ha (omega arith))

id_uses-take-le : (a n : ℕ) (ms : List Message) → id_uses a (take n ms) ≤ id_uses a ms
id_uses-take-le a zero ms = omega arith
id_uses-take-le a (suc n) [] = omega arith
id_uses-take-le a (suc n) (m ∷ ms) = omega (arith, id_uses-take-le a n ms)

-- No two of the messages get the same id.
pub id_uses-accepted-le :
    (ctx : MessageContext) (ms : List Message) (rs : List Request)
    → ctx.next_msg_id < u32_mod
    → length rs ≤ u32_mod
    → (a : ℕ) → id_uses a (accepted ctx ms rs) ≤ 1
id_uses-accepted-le ctx ms rs hid few a = elim (Bool-cases (ltb a u32_mod)) [
  | inl small ↦ ground (
    arith,
    id_uses-take-le a (ctx.outgoing.capacity - length ms) (stamped_all ctx.next_msg_id rs),
    id_uses-stamped_all a ctx.next_msg_id rs (ground arith) hid few,
  )
  | inr big ↦ ground (
    arith,
    id_uses-take-le a (ctx.outgoing.capacity - length ms) (stamped_all ctx.next_msg_id rs),
    stamped_all-small a ctx.next_msg_id rs (ground arith) hid,
  )
]

-- From an empty outgoing queue, after any sequence of at most 2^32 sends, no two messages of the
-- queue have the same id.
pub send_all-id_uses :
    (ctx : MessageContext) (rs : List Request)
    → Queued ctx.outgoing []
    → ctx.next_msg_id < u32_mod
    → length rs ≤ u32_mod
    → (sent : ℕ) × (after : MessageContext) × (kept : List Message) × (send_all ctx rs
        ≡ some (sent, after))
      × Queued after.outgoing kept
      × ((a : ℕ) → id_uses a kept ≤ 1)
send_all-id_uses ctx rs v hid few =
    let (after, ran, held) = send_all-Sends ctx [] rs v in
    (
      length (accepted ctx [] rs),
      after,
      accepted ctx [] rs,
      ran,
      held,
      id_uses-accepted-le ctx [] rs hid few,
    )
