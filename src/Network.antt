-- ===== src/Network.antt =====
-- runtime/network/network.c: the connections of the server. Sockets are numbers; what the system
-- answers to a call on a socket is a parameter. What a call does to the world is a list of events.
use phantomid.Common.{
  ℕ, zero, suc, ◌+◌, ◌-◌, ◌%◌, Bool, true, false, not, ◌&&◌, ◌||◌, is_some, List, [], ◌∷◌, ◌++◌,
  Option, none, some, ltb, ◌==◌, if◌then◌else◌, ◌>>=◌, length, take, u64_mod,
}
use phantomid.Common.CString.{Str, Bytes, cstr, str_eq}
pub mod Connections
pub mod Ending
pub mod Polling
mod Tests

-- `NetworkConnection`; the socket is none for `INVALID_SOCKET`.
pub record NetworkConnection : Type 0 where
  pub socket : Option ℕ
  pub is_active : Bool
  pub node_id : Bytes
  pub user_data : ℕ

-- `NetworkContext`. `max_connections` is the length of the list. The handlers are function pointers,
-- 0 for NULL. The lock is taken or free.
pub record NetworkContext : Type 0 where
  pub server_socket : Option ℕ
  pub port : ℕ
  pub connections : List NetworkConnection
  pub active_connections : ℕ
  pub message_handler : ℕ
  pub connect_handler : ℕ
  pub disconnect_handler : ℕ
  pub locked : Bool

-- What a call does: it closes a socket, sends bytes on one, or calls a handler with the slot of a
-- connection or with the bytes of a message.
pub data Event : Type 0 where
  closes : Option ℕ → Event
  sends : Option ℕ → Bytes → Event
  connects : ℕ → ℕ → Event
  disconnects : ℕ → ℕ → Event
  receives : ℕ → Bytes → Event

-- `pthread_mutex_lock`: it does not return where the thread holds the lock itself.
unfoldable pub lock : NetworkContext → Option NetworkContext
lock ctx = if ctx.locked then none else some (record ctx { locked = true })

unfoldable pub unlock : NetworkContext → NetworkContext
unlock ctx = record ctx { locked = false }

-- `network_create`; `max` is `MAX_CONNECTIONS`, which the build defines, and `blank` a slot of zeros.
abbrev pub slots : ℕ → NetworkConnection → List NetworkConnection
slots zero blank = []
slots (suc n) blank = blank ∷ slots n blank

unfoldable pub network_create :
    ℕ → NetworkConnection → Bool → Bool → Bool → ℕ → Option NetworkContext
network_create max blank context_ok connections_ok mutex_ok port =
    if not (context_ok && connections_ok && mutex_ok)
    then none
    else some (record {
      server_socket = some 0;
      port = port;
      connections = slots max blank;
      active_connections = 0;
      message_handler = 0;
      connect_handler = 0;
      disconnect_handler = 0;
      locked = false;
    })

-- The loop of `accept_connection`: the first slot that is free is taken.
unfoldable pub take_slot : ℕ → List NetworkConnection → Option (ℕ × List NetworkConnection)
take_slot sock [] = none
take_slot sock (c ∷ cs) =
    let rest = take_slot sock cs in
    if not c.is_active
    then some (0, record c { socket = some sock; is_active = true } ∷ cs)
    else (rest >>= λ found. some (suc found.0, c ∷ found.1))

-- `accept_connection` once the client's socket is there.
unfoldable pub place_client : NetworkContext → ℕ → Bool × NetworkContext × List Event
place_client ctx sock = elim (take_slot sock ctx.connections) [
  | none ↦ (false, ctx, closes (some sock) ∷ [])
  | some found ↦ (
    true,
    record ctx {
      connections = found.1;
      active_connections = (ctx.active_connections + 1) % u64_mod;
    },
    if ctx.connect_handler == 0 then [] else connects ctx.connect_handler found.0 ∷ [],
  )
]

-- `accept_connection`: what `accept` returns, and whether the socket can be made non-blocking.
unfoldable pub accept_connection :
    Option ℕ → Bool → NetworkContext → Option (Bool × NetworkContext × List Event)
accept_connection none nonblocking ctx = some (false, ctx, [])
accept_connection (some sock) nonblocking ctx =
    if not nonblocking
    then some (false, ctx, closes (some sock) ∷ [])
    else (lock ctx >>= λ held.
        let (done, after, events) = place_client held sock in some (done, unlock after, events))

-- The connection in a slot, and a change of it.
unfoldable pub slot_at : ℕ → List NetworkConnection → Option NetworkConnection
slot_at n [] = none
slot_at zero (c ∷ cs) = some c
slot_at (suc n) (c ∷ cs) = slot_at n cs

unfoldable pub set_slot : ℕ → NetworkConnection → List NetworkConnection → List NetworkConnection
set_slot n d [] = []
set_slot zero d (c ∷ cs) = d ∷ cs
set_slot (suc n) d (c ∷ cs) = c ∷ set_slot n d cs

-- `handle_disconnect` of a connection that is active.
unfoldable pub disconnect_active :
    NetworkContext → ℕ → NetworkConnection → Option (NetworkContext × List Event)
disconnect_active ctx slot conn = lock ctx >>= λ held. some (
  unlock (record held {
    connections = set_slot slot (record conn { is_active = false; socket = none }) held.connections;
    active_connections = (held.active_connections + u64_mod - 1) % u64_mod;
  }),
  (if ctx.disconnect_handler == 0 then [] else disconnects ctx.disconnect_handler slot ∷ [])
      ++ closes conn.socket ∷ [],
)

-- `handle_disconnect`; a slot that is not there is a fault.
unfoldable pub handle_disconnect : NetworkContext → ℕ → Option (NetworkContext × List Event)
handle_disconnect ctx slot = slot_at slot ctx.connections >>= λ conn.
    if not conn.is_active then some (ctx, []) else disconnect_active ctx slot conn

-- The loop of `network_send`: the first active connection of the node.
unfoldable pub find_node_connection : Str → List NetworkConnection → Option NetworkConnection
find_node_connection node_id [] = none
find_node_connection node_id (c ∷ cs) =
    let rest = find_node_connection node_id cs in
    if c.is_active && str_eq (cstr c.node_id) node_id then some c else rest

-- `network_send` of arguments that are not NULL; `sent` is what `send` returns, none for an error.
unfoldable pub network_send :
    (Option ℕ → Bytes → Option ℕ) → NetworkContext → Str → Bytes → Option (Bool × List Event)
network_send sent ctx node_id bytes = lock ctx >>= λ held.
    elim (find_node_connection node_id held.connections) [
      | none ↦ some (false, [])
      | some conn ↦ elim (sent conn.socket bytes) [
        | none ↦ some (false, sends conn.socket bytes ∷ [])
        | some n ↦ some (n == length bytes, sends conn.socket bytes ∷ [])
      ]
    ]

-- The loop of `network_stop`.
unfoldable pub close_all : List NetworkConnection → List NetworkConnection × List Event
close_all [] = ([], [])
close_all (c ∷ cs) =
    let rest = close_all cs in
    if c.is_active
    then (record c { is_active = false } ∷ rest.0, closes c.socket ∷ rest.1)
    else (c ∷ rest.0, rest.1)

-- The end of `network_stop`.
abbrev pub close_server : Option ℕ → List Event
close_server none = []
close_server (some sock) = closes (some sock) ∷ []

unfoldable pub network_stop : NetworkContext → Option (NetworkContext × List Event)
network_stop ctx = lock ctx >>= λ held. some (
  unlock (record held { connections = (close_all held.connections).0; server_socket = none }),
  (close_all held.connections).1 ++ close_server held.server_socket,
)

-- `network_destroy`: what is closed before the context is freed.
unfoldable pub network_destroy : Option NetworkContext → Option (List Event)
network_destroy none = some []
network_destroy (some ctx) = network_stop ctx >>= λ stopped. some stopped.1

-- `network_broadcast`: the results of the sends are ignored.
unfoldable pub send_each : Bytes → List NetworkConnection → List Event
send_each bytes [] = []
send_each bytes (c ∷ cs) =
    if c.is_active then sends c.socket bytes ∷ send_each bytes cs else send_each bytes cs

unfoldable pub network_broadcast : NetworkContext → Bytes → Option (Bool × List Event)
network_broadcast ctx bytes = lock ctx >>= λ held. some (true, send_each bytes held.connections)

-- The setters of the handlers.
unfoldable pub network_set_message_handler : NetworkContext → ℕ → NetworkContext
network_set_message_handler ctx handler = record ctx { message_handler = handler }

unfoldable pub network_set_connect_handler : NetworkContext → ℕ → NetworkContext
network_set_connect_handler ctx handler = record ctx { connect_handler = handler }

unfoldable pub network_set_disconnect_handler : NetworkContext → ℕ → NetworkContext
network_set_disconnect_handler ctx handler = record ctx { disconnect_handler = handler }

-- What the system answers to the calls of `network_start`.
pub record StartEnv : Type 0 where
  pub socket : Option ℕ
  pub options_set : Bool
  pub nonblocking : Bool
  pub bound : Bool
  pub listening : Bool

-- `network_start`: a socket that is closed again stays in the context.
unfoldable pub network_start : StartEnv → NetworkContext → Bool × NetworkContext × List Event
network_start env ctx =
    if not (is_some env.socket)
    then (false, record ctx { server_socket = none }, [])
    else if not env.options_set || not env.nonblocking
    then (false, record ctx { server_socket = env.socket }, closes env.socket ∷ [])
    else if not env.bound
    then (false, record ctx { server_socket = env.socket }, closes env.socket ∷ [])
    else if not env.listening
    then (false, record ctx { server_socket = env.socket }, closes env.socket ∷ [])
    else (true, record ctx { server_socket = env.socket }, [])
