-- ===== src/Network/Ending.antt =====
-- Disconnecting, stopping and starting in runtime/network/network.c.
use phantomid.Common.{
  ℕ, zero, suc, ◌+◌, ◌-◌, ◌%◌, ◌≡◌, refl, ap, true, false, List, [], ◌∷◌, ◌++◌, none, some, arith,
  ◌==◌, if◌then◌else◌, ◌>>=◌, Bool-cases, inl, inr, length, length-append, u64_mod,
}
use phantomid.Network.{
  NetworkConnection, NetworkContext, Event, unlock, slot_at, set_slot, disconnect_active,
  handle_disconnect, close_all, close_server, network_stop, StartEnv, network_start,
}
use phantomid.Network.Connections.{active_count, active_count-le, IsValid, lock_free}

-- One slot that was active is not any more.
count-set_slot :
    (slot : ℕ) (c d : NetworkConnection) (cs : List NetworkConnection)
    → slot_at slot cs ≡ some c
    → c.is_active ≡ true
    → d.is_active ≡ false
    → (active_count (set_slot slot d cs) + 1 ≡ active_count cs)
      × (length (set_slot slot d cs) ≡ length cs)
unfolding slot_at set_slot
count-set_slot zero c d [] at on off = absurd (ground arith)
count-set_slot (suc n) c d [] at on off = absurd (ground arith)
count-set_slot zero c d (x ∷ cs) at on off =
    let one : x ≡ c = ground arith in
    let same : x.is_active ≡ c.is_active = ap (λ (y : NetworkConnection). y.is_active) one in
    (ground arith, refl)
count-set_slot (suc n) c d (x ∷ cs) at on off =
    let (fewer, long) = count-set_slot n c d cs at on off in
    (omega (arith, fewer), omega (arith, long))

module _ (ctx : NetworkContext) (v : IsValid ctx) where
  -- Let the counter of a server be the number of its active connections, which has fewer than 2^64
  -- slots, and let its lock be free. Then `handle_disconnect` at a slot of the array returns, the
  -- counter is right again and the lock free; where the connection was active there is one active
  -- connection less, and else nothing has changed.
  pub handle_disconnect-IsValid :
      (slot : ℕ) (conn : NetworkConnection)
      → slot_at slot ctx.connections ≡ some conn
      → (after : NetworkContext) × (events : List Event) × (handle_disconnect ctx slot
          ≡ some (after, events))
        × IsValid after
        × (active_count after.connections + (if conn.is_active then 1 else 0)
            ≡ active_count ctx.connections)
        × (conn.is_active ≡ false → (after ≡ ctx) × (events ≡ []))
  unfolding handle_disconnect disconnect_active unlock
  handle_disconnect-IsValid slot conn at = elim (Bool-cases conn.is_active) [
    | inr idle ↦
        (ctx, [], rw (at, ◌>>=◌) (rw idle refl), v, rw idle (omega arith), λ e. (refl, refl))
    | inl busy ↦
        let d = record conn { is_active = false; socket = none } in
        let (fewer, long) = count-set_slot slot conn d ctx.connections at busy refl in
        (
          unlock (record ctx {
            locked = true;
            connections = set_slot slot d ctx.connections;
            active_connections = (ctx.active_connections + u64_mod - 1) % u64_mod;
          }),
          (if ctx.disconnect_handler == 0
                then []
                else Event.disconnects ctx.disconnect_handler slot ∷ [])
              ++ Event.closes conn.socket ∷ [],
          rw (at, ◌>>=◌) (rw busy (rw (lock_free ctx v, ◌>>=◌) refl)),
          record {
            counted = omega (arith, v.counted, fewer, active_count-le ctx.connections, v.small);
            small = omega (arith, long, v.small);
            free = refl;
          },
          rw busy fewer,
          λ e. absurd (ground arith),
        )
  ]

close_all-count :
    (cs : List NetworkConnection)
    → (active_count (close_all cs).0 ≡ 0) × (length (close_all cs).1 ≡ active_count cs)
unfolding close_all
close_all-count [] = (refl, refl)
close_all-count (c ∷ cs) = ground (arith, close_all-count cs)

-- Let the counter of a server be the number of its active connections, which has fewer than 2^64
-- slots, and let its lock be free. Then `network_stop` returns: it has closed as many sockets as
-- there were active connections, and that of the server where there was one; no connection is
-- active, the server has no socket and the lock is free, but the counter is what it was.
pub network_stop_lem :
    (ctx : NetworkContext)
    → IsValid ctx
    → (after : NetworkContext) × (events : List Event) × (network_stop ctx ≡ some (after, events))
      × (length events ≡ active_count ctx.connections + length (close_server ctx.server_socket))
      × (active_count after.connections ≡ 0)
      × (after.server_socket ≡ none)
      × (after.active_connections ≡ active_count ctx.connections)
      × (after.locked ≡ false)
unfolding network_stop unlock
network_stop_lem ctx v =
    let (none_left, as_many) = close_all-count ctx.connections in
    (
      unlock (record ctx {
        locked = true;
        connections = (close_all ctx.connections).0;
        server_socket = none;
      }),
      (close_all ctx.connections).1 ++ close_server ctx.server_socket,
      rw (lock_free ctx v, ◌>>=◌) refl,
      omega (
        arith,
        length-append (close_all ctx.connections).1 (close_server ctx.server_socket),
        as_many,
      ),
      none_left,
      refl,
      v.counted,
      refl,
    )

-- Where `network_start` fails, it has closed the socket that it got, if it got one, and that socket
-- stays the server socket of the context.
pub network_start_lem :
    (env : StartEnv) (ctx : NetworkContext)
    → (network_start env ctx).0 ≡ false
    → (network_start env ctx).2 ≡ close_server (network_start env ctx).1.server_socket
unfolding network_start
network_start_lem env ctx e = ground arith
