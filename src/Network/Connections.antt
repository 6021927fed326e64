-- ===== src/Network/Connections.antt =====
-- The number of the active connections of runtime/network/network.c.
use phantomid.Common.{
  ℕ, suc, ◌+◌, ◌%◌, ◌≤◌, ◌<◌, ◌≡◌, refl, sym, ap, Bool, true, false, List, [], ◌∷◌, Option, none,
  some, arith, ◌==◌, if◌then◌else◌, ◌>>=◌, Bool-cases, Option-cases, inl, inr, length, u64_mod,
}
use mathlib.Core.Path.{subst}
use phantomid.Network.{
  NetworkConnection, NetworkContext, Event, lock, unlock, take_slot, place_client,
  accept_connection, slot_at,
}

abbrev pub active_count : List NetworkConnection → ℕ
active_count [] = 0
active_count (c ∷ cs) = (if c.is_active then 1 else 0) + active_count cs

-- The counter is right, and the lock is free.
pub record IsValid (ctx : NetworkContext) : Type 0 where
  pub counted : ctx.active_connections ≡ active_count ctx.connections
  pub small : length ctx.connections < u64_mod
  pub free : ctx.locked ≡ false

pub active_count-le : (cs : List NetworkConnection) → active_count cs ≤ length cs
active_count-le [] = omega arith
active_count-le (c ∷ cs) = ground (arith, active_count-le cs)

take_slot-none :
    (sock : ℕ) (cs : List NetworkConnection)
    → take_slot sock cs ≡ none
    → active_count cs ≡ length cs
unfolding take_slot
take_slot-none sock [] e = refl
take_slot-none sock (c ∷ cs) e = ground (arith, take_slot-none sock cs)

pub record Taken (sock : ℕ) (cs : List NetworkConnection) (slot : ℕ) (ds : List NetworkConnection)
    : Type 0 where
  pub was_free : (c : NetworkConnection) × (slot_at slot cs ≡ some c) × (c.is_active ≡ false)
  pub now_taken :
      (d : NetworkConnection) × (slot_at slot ds ≡ some d)
      × (d.socket ≡ some sock)
      × (d.is_active ≡ true)
  pub one_more : active_count ds ≡ active_count cs + 1
  pub same_length : length ds ≡ length cs

take_slot-Taken :
    (sock : ℕ) (cs : List NetworkConnection) (taken : ℕ × List NetworkConnection)
    → take_slot sock cs ≡ some taken
    → Taken sock cs taken.0 taken.1
unfolding take_slot slot_at
take_slot-Taken sock [] taken e = absurd (ground arith)
take_slot-Taken sock (c ∷ cs) taken e = elim (Bool-cases c.is_active) [
  | inl busy ↦ elim (Option-cases (take_slot sock cs)) [
    | inl nothing ↦ absurd (ground arith)
    | inr (found, ran) ↦
        let r = take_slot-Taken sock cs found ran in
        let made : ◌≡◌ {A = ℕ × List NetworkConnection} (suc found.0, c ∷ found.1) taken =
          ground arith in
        subst (λ (t : ℕ × List NetworkConnection). Taken sock (c ∷ cs) t.0 t.1) made
          (record {
            was_free = r.was_free;
            now_taken = r.now_taken;
            one_more = omega (arith, r.one_more);
            same_length = omega (arith, r.same_length);
          })
  ]
  | inr idle ↦
      let made : ◌≡◌ {A = ℕ × List NetworkConnection}
          (0, record c { socket = some sock; is_active = true } ∷ cs) taken =
        ground arith in
      subst (λ (t : ℕ × List NetworkConnection). Taken sock (c ∷ cs) t.0 t.1) made
        (record {
          was_free = (c, refl, idle);
          now_taken = (record c { socket = some sock; is_active = true }, refl, refl, refl);
          one_more = ground arith;
          same_length = refl;
        })
]

-- The ends of `accept_connection`.
pub data AcceptOutcome (accepted : Option ℕ) (nonblocking : Bool) (ctx : NetworkContext)
    : Bool → NetworkContext → List Event → Type 0 where
  not_accepted : accepted ≡ none → AcceptOutcome accepted nonblocking ctx false ctx []
  not_prepared :
      {sock : ℕ}
      → accepted ≡ some sock
      → nonblocking ≡ false
      → AcceptOutcome accepted nonblocking ctx false ctx (Event.closes (some sock) ∷ [])
  no_slot :
      {sock : ℕ}
      → accepted ≡ some sock
      → nonblocking ≡ true
      → active_count ctx.connections ≡ length ctx.connections
      → AcceptOutcome accepted nonblocking ctx false ctx (Event.closes (some sock) ∷ [])
  placed :
      {sock slot : ℕ} {after : NetworkContext}
      → accepted ≡ some sock
      → nonblocking ≡ true
      → Taken sock ctx.connections slot after.connections
      → IsValid after
      → AcceptOutcome accepted nonblocking ctx true after
          (if ctx.connect_handler == 0 then [] else Event.connects ctx.connect_handler slot ∷ [])

module _ (ctx : NetworkContext) (v : IsValid ctx) where
  pub lock_free : lock ctx ≡ some (record ctx { locked = true })
  unfolding lock
  lock_free = rw v.free refl

  pub unlock_again : unlock (record ctx { locked = true }) ≡ ctx
  unfolding unlock
  unlock_again = ap (λ b. record ctx { locked = b }) (sym v.free)

  -- Let the counter of a server be the number of its active connections, which has fewer than 2^64
  -- slots, and let its lock be free. Then `accept_connection` returns and is one of the branches of
  -- `AcceptOutcome`: nothing where `accept` fails; the client is closed and nothing changed where
  -- its socket cannot be set up or all slots are active; else a slot that was not active is active
  -- with the socket, the counter is right and the lock free, and the connect handler is called with
  -- the slot where there is one.
  pub accept_connection-AcceptOutcome :
      (accepted : Option ℕ) (nonblocking : Bool)
      → (done : Bool) × (after : NetworkContext) × (events : List Event) × (accept_connection
            accepted nonblocking ctx
          ≡ some (done, after, events))
        × AcceptOutcome accepted nonblocking ctx done after events
  unfolding accept_connection place_client unlock
  accept_connection-AcceptOutcome none nonblocking = (false, ctx, [], refl, not_accepted refl)
  accept_connection-AcceptOutcome (some sock) false =
      (false, ctx, Event.closes (some sock) ∷ [], refl, not_prepared refl refl)
  accept_connection-AcceptOutcome (some sock) true =
      elim (Option-cases (take_slot sock ctx.connections)) [
        | inl nothing ↦ (
          false,
          ctx,
          Event.closes (some sock) ∷ [],
          rw (lock_free, ◌>>=◌)
              (rw (place_client, nothing)
                (ap (λ c. some (false, c, Event.closes (some sock) ∷ [])) unlock_again)),
          no_slot refl refl (take_slot-none sock ctx.connections nothing),
        )
        | inr (found, ran) ↦
            let t = take_slot-Taken sock ctx.connections found ran in
            (
              true,
              unlock (record ctx {
                locked = true;
                connections = found.1;
                active_connections = (ctx.active_connections + 1) % u64_mod;
              }),
              _,
              rw (lock_free, ◌>>=◌) (rw (place_client, ran) refl),
              placed {slot = found.0} refl refl t (record {
                counted =
                    omega (
                      arith,
                      v.counted,
                      t.one_more,
                      active_count-le found.1,
                      v.small,
                      t.same_length,
                    );
                small = omega (arith, v.small, t.same_length);
                free = refl;
              }),
            )
      ]
