-- ===== src/Network/Polling.antt =====
-- `poll_connections` of runtime/network/network.c: it holds the lock while it reads.
use phantomid.Common.{
  ℕ, zero, suc, ◌≡◌, refl, sym, ap, ◌∙◌, Bool, true, false, not, ◌&&◌, ◌||◌, List, [], ◌∷◌, ◌++◌,
  append_assoc, Option, none, some, arith, ◌==◌, if◌then◌else◌, ◌>>=◌, Bool-cases, Option-cases,
  inl, inr, length, length-append,
}
use phantomid.Common.CString.{Bytes}
use phantomid.Network.{
  NetworkConnection, NetworkContext, Event, lock, unlock, accept_connection, slot_at,
  disconnect_active, handle_disconnect,
}
use phantomid.Network.Connections.{IsValid, lock_free, unlock_again}

-- `memcpy` into `msg.data`, a flexible array of a local variable: it has room for no byte.
unfoldable pub local_data : Bytes → Option Bytes
local_data bytes = if length bytes == 0 then some bytes else none

-- Which sockets `select` reports, and what `recv` gives: none where it returns no bytes.
module _ (readable : Option ℕ → Bool) (recv : Option ℕ → Option Bytes) where
  -- The body of the loop.
  unfoldable pub poll_slot :
      NetworkContext → ℕ → NetworkConnection → Option (NetworkContext × List Event)
  poll_slot ctx slot conn =
      if conn.is_active && readable conn.socket
      then elim (recv conn.socket) [
        | none ↦ handle_disconnect ctx slot
        | some bytes ↦
            if ctx.message_handler == 0
            then some (ctx, [])
            else (local_data bytes >>= λ copied.
                some (ctx, Event.receives ctx.message_handler copied ∷ []))
      ]
      else some (ctx, [])

  -- The loop over `n` slots from a slot on.
  unfoldable pub poll_slots : ℕ → ℕ → NetworkContext → Option (NetworkContext × List Event)
  poll_slots zero slot ctx = some (ctx, [])
  poll_slots (suc n) slot ctx = slot_at slot ctx.connections >>= λ conn.
      poll_slot ctx slot conn >>= λ polled.
      poll_slots n (suc slot) polled.0 >>= λ others. some (others.0, polled.1 ++ others.1)

  -- `poll_connections`: whether `select` reports activity, whether the server's socket is among it, and
  -- what `accept_connection` is given.
  unfoldable pub poll_connections :
      Bool → Bool → Option ℕ → Bool → NetworkContext → Option (NetworkContext × List Event)
  poll_connections activity server_ready accepted nonblocking ctx = lock ctx >>= λ listed.
      if not activity
      then some (unlock listed, [])
      else ((if server_ready
            then accept_connection accepted nonblocking (unlock listed)
            else some (false, unlock listed, []))
          >>= λ arrived. lock arrived.1 >>= λ held.
              poll_slots (length held.connections) 0 held >>= λ polled.
              some (unlock polled.0, arrived.2 ++ polled.1))

  -- `network_run` of a context that may be NULL: one poll.
  unfoldable pub network_run :
      Bool
      → Bool
      → Option ℕ
      → Bool
      → Option NetworkContext
      → Option (Option NetworkContext × List Event)
  network_run activity server_ready accepted nonblocking none = some (none, [])
  network_run activity server_ready accepted nonblocking (some ctx) =
      poll_connections activity server_ready accepted nonblocking ctx >>= λ polled.
      some (some polled.0, polled.1)

  -- What a poll does not get over: a connection that can be read and gives nothing, or, where there is a
  -- handler, one that gives some bytes.
  abbrev pub not_handled : ℕ → Option Bytes → Bool
  not_handled handler none = true
  not_handled handler (some bytes) = not (handler == 0) && not (length bytes == 0)

  abbrev pub is_lost : ℕ → NetworkConnection → Bool
  is_lost handler c = c.is_active && readable c.socket && not_handled handler (recv c.socket)

  abbrev pub any_lost : ℕ → List NetworkConnection → Bool
  any_lost handler [] = false
  any_lost handler (c ∷ cs) = is_lost handler c || any_lost handler cs

  -- The messages that the other connections bring.
  abbrev pub message_of : ℕ → Option Bytes → List Event
  message_of handler none = []
  message_of handler (some bytes) = if handler == 0 then [] else Event.receives handler bytes ∷ []

  abbrev pub messages : ℕ → List NetworkConnection → List Event
  messages handler [] = []
  messages handler (c ∷ cs) =
      (if c.is_active && readable c.socket then message_of handler (recv c.socket) else [])
      ++ messages handler cs

  slot_at-append :
      (before : List NetworkConnection) (c : NetworkConnection) (cs : List NetworkConnection)
      → slot_at (length before) (before ++ c ∷ cs) ≡ some c
  unfolding slot_at
  slot_at-append [] c cs = refl
  slot_at-append (b ∷ before) c cs = slot_at-append before c cs

  -- With the lock held a disconnection does not return.
  blocked :
      (ctx : NetworkContext) (slot : ℕ) (c : NetworkConnection)
      → ctx.locked ≡ true
      → slot_at slot ctx.connections ≡ some c
      → c.is_active ≡ true
      → handle_disconnect ctx slot ≡ none
  unfolding handle_disconnect disconnect_active lock
  blocked ctx slot c held at on =
      let no_lock : lock ctx ≡ none = rw held refl in
      rw (at, ◌>>=◌) (rw (on, disconnect_active) (rw (no_lock, ◌>>=◌) refl))

  poll_slot_lem :
      (ctx : NetworkContext) (slot : ℕ) (c : NetworkConnection)
      → ctx.locked ≡ true
      → slot_at slot ctx.connections ≡ some c
      → poll_slot ctx slot c ≡ (
          if is_lost ctx.message_handler c
          then none
          else some (
            ctx,
            if c.is_active && readable c.socket
                then message_of ctx.message_handler (recv c.socket)
                else [],
          ))
  unfolding poll_slot local_data
  poll_slot_lem ctx slot c held at = elim (Bool-cases c.is_active) [
    | inr off ↦ rw off refl
    | inl on ↦ elim (Bool-cases (readable c.socket)) [
      | inr quiet ↦ rw (on, quiet) refl
      | inl ready ↦ elim (Option-cases (recv c.socket)) [
        | inl gone ↦ rw (on, ready, gone) (blocked ctx slot c held at on)
        | inr (bytes, got) ↦ elim (Bool-cases (ctx.message_handler == 0)) [
          | inl unhandled ↦ simp (on, ready, got, unhandled) refl
          | inr handled ↦ elim (Bool-cases (length bytes == 0)) [
            | inl empty ↦ simp (on, ready, got, handled, local_data, empty) refl
            | inr full ↦ simp (on, ready, got, handled, local_data, full) refl
          ]
        ]
      ]
    ]
  ]

  -- The end of a poll, where it is not blocked.
  abbrev pub unless : Bool → NetworkContext → List Event → Option (NetworkContext × List Event)
  unless b ctx events = if b then none else some (ctx, events)

  abbrev behind : List Event → NetworkContext × List Event → Option (NetworkContext × List Event)
  behind events others = some (others.0, events ++ others.1)

  -- One round before the others.
  others_after :
      (b : Bool) (ctx : NetworkContext) (events later : List Event)
      → (unless b ctx later >>= behind events) ≡ unless b ctx (events ++ later)
  others_after true ctx events later = refl
  others_after false ctx events later = refl

  abbrev then_others : ℕ → ℕ → NetworkContext × List Event → Option (NetworkContext × List Event)
  then_others n slot polled = poll_slots n slot polled.0 >>= behind polled.1

  round_after :
      (b : Bool) (ctx : NetworkContext) (events : List Event) (slot : ℕ)
      (cs : List NetworkConnection)
      → poll_slots (length cs) slot ctx
        ≡ unless (any_lost ctx.message_handler cs) ctx (messages ctx.message_handler cs)
      → (unless b ctx events >>= then_others (length cs) slot)
        ≡ unless
            (b || any_lost ctx.message_handler cs)
            ctx
            (events ++ messages ctx.message_handler cs)
  round_after true ctx events slot cs rest = refl
  round_after false ctx events slot cs rest =
      ap (λ (o : Option (NetworkContext × List Event)). o >>= behind events) rest
      ∙ others_after (any_lost ctx.message_handler cs) ctx events (messages ctx.message_handler cs)

  -- The loop gets to its end exactly where no connection is lost.
  poll_slots_lem :
      (ctx : NetworkContext) (before cs : List NetworkConnection)
      → ctx.locked ≡ true
      → ctx.connections ≡ before ++ cs
      → poll_slots (length cs) (length before) ctx
        ≡ unless (any_lost ctx.message_handler cs) ctx (messages ctx.message_handler cs)
  unfolding poll_slots
  poll_slots_lem ctx before [] held at = refl
  poll_slots_lem ctx before (c ∷ cs) held at =
      let here : slot_at (length before) ctx.connections ≡ some c =
        ap (slot_at (length before)) at ∙ slot_at-append before c cs in
      let long : length (before ++ c ∷ []) ≡ suc (length before) =
        omega (arith, length-append before (c ∷ [])) in
      let rest =
        ap (λ n. poll_slots (length cs) n ctx) (sym long)
        ∙ poll_slots_lem ctx (before ++ c ∷ []) cs held
            (at ∙ sym (append_assoc before (c ∷ []) cs)) in
      ap
        (λ o. o >>= λ d.
          poll_slot ctx (length before) d >>= then_others (length cs) (suc (length before)))
        here
      ∙ ap
          (λ (o : Option (NetworkContext × List Event)).
            o >>= then_others (length cs) (suc (length before)))
          (poll_slot_lem ctx (length before) c held here)
      ∙ round_after (is_lost ctx.message_handler c) ctx _ (suc (length before)) cs rest

  -- Let the counter of a server be the number of its active connections, which has fewer than 2^64
  -- slots, and let its lock be free. Let `select` report activity, but not on the server. Then
  -- `poll_connections` has a defined result exactly where no active connection that can be read has
  -- lost its client, which gives no bytes, nor, where there is a message handler, has sent bytes;
  -- the server is unchanged then, and nothing that was sent has reached a handler. Where a client
  -- has gone the lock is taken twice, and where bytes have come for the handler they are written
  -- behind the local message.
  pub poll_connections_lem :
      (ctx : NetworkContext) (accepted : Option ℕ) (nonblocking : Bool)
      → IsValid ctx
      → poll_connections true false accepted nonblocking ctx
        ≡ unless
            (any_lost ctx.message_handler ctx.connections)
            ctx
            (messages ctx.message_handler ctx.connections)
  unfolding poll_connections
  poll_connections_lem ctx accepted nonblocking v =
      let listed = record ctx { locked = true } in
      let again : lock (unlock listed) ≡ some listed =
        ap lock (unlock_again ctx v) ∙ lock_free ctx v in
      rw (lock_free ctx v, ◌>>=◌)
        (rw (again, ◌>>=◌)
          (ap (λ (o : Option (NetworkContext × List Event)). o >>= released)
              (poll_slots_lem listed [] ctx.connections refl refl)
            ∙ end (any_lost ctx.message_handler ctx.connections)
                (messages ctx.message_handler ctx.connections)))
    where
      released : NetworkContext × List Event → Option (NetworkContext × List Event)
      released polled = some (unlock polled.0, polled.1)

      end :
          (b : Bool) (events : List Event)
          → (unless b (record ctx { locked = true }) events >>= released) ≡ unless b ctx events
      end true events = refl
      end false events = ap (λ c. some (c, events)) (unlock_again ctx v)
