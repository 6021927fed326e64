-- ===== src/Network/Tests.antt =====
-- runtime/network/network.c on a server with two slots.
use phantomid.Common.{◌+◌, ◌≡◌, refl, Bool, true, false, List, [], ◌∷◌, none, some, arith}
use phantomid.Network.{
  NetworkConnection, NetworkContext, Event, accept_connection, handle_disconnect, slot_at, StartEnv,
  network_start,
}
use phantomid.Network.Connections.{
  active_count, IsValid, AcceptOutcome, accept_connection-AcceptOutcome,
}
use phantomid.Network.Ending.{handle_disconnect-IsValid}
use phantomid.Network.Polling.{poll_connections, messages, unless, poll_connections_lem}

abbrev idle : NetworkConnection
idle = record { socket = none; is_active = false; node_id = []; user_data = 0 }

abbrev busy : NetworkConnection
busy = record { socket = some 7; is_active = true; node_id = b'a' ∷ 0 ∷ []; user_data = 0 }

abbrev server : NetworkContext
server = record {
  server_socket = some 3;
  port = 8888;
  connections = busy ∷ idle ∷ [];
  active_connections = 1;
  message_handler = 40;
  connect_handler = 41;
  disconnect_handler = 42;
  locked = false;
}

server-IsValid : IsValid server
server-IsValid = record { counted = refl; small = omega arith; free = refl }

accept_connection-AcceptOutcome_example :
    (done : Bool) × (after : NetworkContext) × (events : List Event) × (accept_connection
        (some 9)
        true
        server
      ≡ some (done, after, events))
    × AcceptOutcome (some 9) true server done after events
accept_connection-AcceptOutcome_example =
    accept_connection-AcceptOutcome server server-IsValid (some 9) true

first_slot : slot_at 0 (busy ∷ idle ∷ []) ≡ some busy
unfolding slot_at
first_slot = refl

handle_disconnect-IsValid_example :
    (after : NetworkContext) × (events : List Event) × (handle_disconnect server 0
      ≡ some (after, events))
    × IsValid after
    × (active_count after.connections + 1 ≡ 1)
    × (◌≡◌ {A = Bool} true false → (after ≡ server) × (events ≡ []))
handle_disconnect-IsValid_example =
    handle_disconnect-IsValid server server-IsValid 0 busy first_slot

-- Every socket can be read, and the client has gone.
poll_connections_lem_example :
    poll_connections (λ s. true) (λ s. none) true false none true server
    ≡ unless
        (λ s. true)
        (λ s. none)
        true
        server
        (messages (λ s. true) (λ s. none) 40 (busy ∷ idle ∷ []))
poll_connections_lem_example =
    poll_connections_lem (λ s. true) (λ s. none) server none true server-IsValid

abbrev not_bound : StartEnv
not_bound = record {
  socket = some 3;
  options_set = true;
  nonblocking = true;
  bound = false;
  listening = true;
}

fails : (network_start not_bound server).0 ≡ false
unfolding network_start
fails = refl
