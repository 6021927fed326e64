-- ===== src/Programs/Reception.antt =====
-- The branches of `phantom_handle_message` of programs/handlers.c.
use phantomid.Common.{
  ◌≡◌, ◌≢◌, ◌⊎◌, true, false, not, ◌&&◌, Option, none, some, ltb, ◌==◌, if◌then◌else◌, ◌>>=◌,
  length,
}
use phantomid.Tree.Store.{Ptr, null, Node, Tree}
use phantomid.Tree.Forest.{Forest}
use phantomid.Tree.Created
use phantomid.Tree.Deleted
use phantomid.Interface.Message.{Message}
use phantomid.Programs.Commands.{Host}
use phantomid.Programs.Messages.{msg_network, msg_data, Peers, Received, forwarded}
use phantomid.Programs.Addressed.{Astray, Between}

-- The types of the messages about nodes.
abbrev pub OnNodes : {W : Type 0} → Peers W → Message → Type 0
OnNodes peers message =
    (message.type ≡ peers.node_created)
    ⊎ (message.type ≡ peers.node_deleted)
    ⊎ (message.type ≡ msg_data)

-- What is left of a message, none for a fault.
pub data Reception {W : Type 0} (host : Host) (peers : Peers W) (t : Tree) (w : W)
    (message : Message) (main lost : Forest) : Option (Received W) → Type 0 where
  astray :
      OnNodes peers message
      → Astray message main
      → Reception host peers t w message main lost (some (false, some t, w))
  -- A node that is created is not announced: the announcement is a fault.
  created :
      (p q a : Ptr) (n : Node) (u : Tree)
      → message.type ≡ peers.node_created
      → Between message main p q
      → t.heap p ≡ some n
      → Created.Outcome host.max_children host.memory t (some n.id) main lost a u
      → Reception host peers t w message main lost
          (if a == null then some (false, some u, w) else none)
  root_kept :
      (p q : Ptr) (n : Node)
      → message.type ≡ peers.node_deleted
      → Between message main p q
      → t.heap p ≡ some n
      → (n.is_root && ltb 0 (length n.children)) ≡ true
      → Reception host peers t w message main lost (some (false, some t, w))
  -- Nor is one that is deleted.
  deleted :
      (p q : Ptr) (n : Node) (u : Tree)
      → message.type ≡ peers.node_deleted
      → Between message main p q
      → t.heap p ≡ some n
      → (n.is_root && ltb 0 (length n.children)) ≡ false
      → Deleted.Outcome t n.id main lost true u
      → Reception host peers t w message main lost none
  no_target :
      (p : Ptr)
      → message.type ≡ msg_data
      → Between message main p null
      → Reception host peers t w message main lost none
  forwards :
      (p q : Ptr) (n m : Node)
      → message.type ≡ msg_data
      → Between message main p q
      → t.heap p ≡ some n
      → t.heap q ≡ some m
      → Reception host peers t w message main lost (
          if not (peers.can_communicate (some t) n.id m.id)
          then some (false, some t, w)
          else if message.data_size == 0
          then some (true, some t, peers.send w m.id (forwarded message n m))
          else none)
  updates :
      message.type ≡ msg_network
      → Reception host peers t w message main lost (
          peers.read message.payload peers.state_size >>= λ state.
          some ((peers.set_network w state).0, some t, (peers.set_network w state).1))
  unknown :
      message.type ≢ peers.node_created
      → message.type ≢ peers.node_deleted
      → message.type ≢ msg_data
      → message.type ≢ msg_network
      → Reception host peers t w message main lost (some (false, some t, w))
