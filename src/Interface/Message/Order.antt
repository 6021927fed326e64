-- ===== src/Interface/Message/Order.antt =====
-- A sequence of sends of interface/message.c: the first that fit are kept, in their order.
use mathlib.Core.Path.{subst, ap₂}
use phantomid.Common.{
  ℕ, zero, suc, ◌+◌, ◌-◌, ◌%◌, ◌<◌, ◌≡◌, refl, sym, ap, ◌∙◌, Bool, true, List, [], ◌∷◌, ◌++◌,
  append-nil, append_assoc, Option, some, arith, leb, if◌then◌else◌, ◌>>=◌, length, length-append,
  take, u32_mod,
}
use phantomid.Common.CString.{Str}
use phantomid.Interface.Message.{Message, MessageContext, stamped, send}
use phantomid.Interface.Message.Sending.{
  Queued, length-Queued, SendOutcome, full, queued, send-SendOutcome,
}

-- A sequence of sends, each of a time, a target and a message, and how many succeeded.
pub record Request : Type 0 where
  pub now : ℕ
  pub target : Str
  pub message : Message

unfoldable pub send_all : MessageContext → List Request → Option (ℕ × MessageContext)
send_all ctx [] = some (0, ctx)
send_all ctx (r ∷ rs) = send r.now ctx r.target r.message >>= λ sent.
    send_all sent.1 rs >>= λ others. some ((if sent.0 then 1 else 0) + others.0, others.1)

-- The messages that the requests make, with the ids from `id` on.
abbrev pub stamped_all : ℕ → List Request → List Message
stamped_all id [] = []
stamped_all id (r ∷ rs) = stamped r.now id r.target r.message ∷ stamped_all ((id + 1) % u32_mod) rs

take_none : {A : Type 0} (n : ℕ) (xs : List A) → n ≡ 0 → take n xs ≡ []
take_none zero xs e = refl
take_none (suc n) xs e = absurd (omega (arith, e))

take_nil : (n : ℕ) → take {A = Message} n [] ≡ []
take_nil zero = refl
take_nil (suc n) = refl

take_some :
    {A : Type 0} (n : ℕ) (x : A) (xs : List A) → 0 < n → take n (x ∷ xs) ≡ x ∷ take (n - 1) xs
take_some zero x xs h = absurd (omega (arith, h))
take_some (suc n) x xs h = let e : n ≡ suc n - 1 = omega arith in ap (λ m. x ∷ take m xs) e

step_in_order :
    {A : Type 0} (c : ℕ) (ms : List A) (x : A) (xs : List A)
    → length ms < c
    → (ms ++ x ∷ []) ++ take (c - length (ms ++ x ∷ [])) xs ≡ ms ++ take (c - length ms) (x ∷ xs)
step_in_order c ms x xs h =
    let e : c - length (ms ++ x ∷ []) ≡ c - length ms - 1 =
      omega (arith, length-append ms (x ∷ [])) in
    append_assoc ms (x ∷ []) _
    ∙ ap (λ n. ms ++ x ∷ take n xs) e
    ∙ ap (λ ys. ms ++ ys) (sym (take_some (c - length ms) x xs (omega arith)))

length-step :
    {A : Type 0} (c : ℕ) (ms : List A) (x : A) (xs : List A)
    → length ms < c
    → 1 + length (take (c - length (ms ++ x ∷ [])) xs) ≡ length (take (c - length ms) (x ∷ xs))
length-step c ms x xs h = omega (
  arith,
  ap length (step_in_order c ms x xs h),
  length-append (ms ++ x ∷ []) (take (c - length (ms ++ x ∷ [])) xs),
  length-append ms (take (c - length ms) (x ∷ xs)),
  length-append ms (x ∷ []),
)

-- What a sequence of sends does.
abbrev pub accepted : MessageContext → List Message → List Request → List Message
accepted ctx ms rs = take (ctx.outgoing.capacity - length ms) (stamped_all ctx.next_msg_id rs)

abbrev pub Sends : MessageContext → List Message → List Request → Type 0
Sends ctx ms rs =
    (after : MessageContext) × (send_all ctx rs ≡ some (length (accepted ctx ms rs), after))
    × Queued after.outgoing (ms ++ accepted ctx ms rs)

-- A full queue refuses all.
send_all_full :
    (ctx : MessageContext) (ms : List Message) (rs : List Request)
    → ctx.outgoing.count ≡ ctx.outgoing.capacity
    → send_all ctx rs ≡ some (0, ctx)
unfolding send_all send
send_all_full ctx ms [] e = refl
send_all_full ctx ms (r ∷ rs) e =
    let stop : leb ctx.outgoing.capacity ctx.outgoing.count ≡ true = ground arith in
    rw (stop, ◌>>=◌) (rw (send_all_full ctx ms rs e, ◌>>=◌) refl)

full-Sends :
    (ctx : MessageContext) (ms : List Message) (rs : List Request)
    → Queued ctx.outgoing ms
    → length ms ≡ ctx.outgoing.capacity
    → Sends ctx ms rs
full-Sends ctx ms rs v e =
    let bare : accepted ctx ms rs ≡ [] =
      take_none (ctx.outgoing.capacity - length ms) _ (omega (arith, e)) in
    (
      ctx,
      send_all_full ctx ms rs (omega (arith, e, length-Queued v))
          ∙ ap (λ xs. some (length xs, ctx)) (sym bare),
      subst (Queued ctx.outgoing) (sym (append-nil ms) ∙ ap (λ xs. ms ++ xs) (sym bare)) v,
    )

first-Sends :
    (ctx : MessageContext) (ms : List Message) (r : Request) (rs : List Request) {done : Bool}
    {a : MessageContext}
    → send r.now ctx r.target r.message ≡ some (done, a)
    → Queued ctx.outgoing ms
    → ((b : MessageContext) (xs : List Message) → Queued b.outgoing xs → Sends b xs rs)
    → SendOutcome r.now ctx r.target r.message ms done a
    → Sends ctx ms (r ∷ rs)
unfolding send_all
first-Sends ctx ms r rs ran v next (full e) = full-Sends ctx ms (r ∷ rs) v e
first-Sends ctx ms r rs {a} ran v next (queued room w same_capacity next_id e f) =
    let x = stamped r.now ctx.next_msg_id r.target r.message in
    let (after, sent, held) = next a (ms ++ x ∷ []) w in
    let same : accepted a (ms ++ x ∷ []) rs
        ≡ take (ctx.outgoing.capacity - length (ms ++ x ∷ []))
            (stamped_all ((ctx.next_msg_id + 1) % u32_mod) rs) =
      ap₂ (λ c n. take (c - length (ms ++ x ∷ [])) (stamped_all n rs)) same_capacity next_id in
    (
      after,
      rw (ran, ◌>>=◌)
          (rw (sent, ◌>>=◌)
            (ap (λ n. some (n, after))
              (ap (λ xs. 1 + length xs) same ∙ length-step ctx.outgoing.capacity ms x _ room))),
      subst (Queued after.outgoing)
          (ap (λ xs. (ms ++ x ∷ []) ++ xs) same ∙ step_in_order ctx.outgoing.capacity ms x _ room)
          held,
    )

-- From an outgoing queue that holds some messages, any sequence of sends returns without a fault:
-- the queue then holds the old messages and behind them those of the first sends that there is room
-- for, in their order, each with its target, its time and the next id; exactly these sends succeed.
pub send_all-Sends :
    (ctx : MessageContext) (ms : List Message) (rs : List Request)
    → Queued ctx.outgoing ms
    → Sends ctx ms rs
unfolding send_all
send_all-Sends ctx ms [] v =
    let bare = take_nil (ctx.outgoing.capacity - length ms) in
    (
      ctx,
      ap (λ xs. some (length xs, ctx)) (sym bare),
      subst (Queued ctx.outgoing) (sym (append-nil ms) ∙ ap (λ xs. ms ++ xs) (sym bare)) v,
    )
send_all-Sends ctx ms (r ∷ rs) v =
    let (done, a, ran, is) = send-SendOutcome r.now ctx r.target r.message ms v in
    first-Sends ctx ms r rs ran v (λ b xs w. send_all-Sends b xs rs w) is
