-- ===== src/Programs/Received.antt =====
-- What `phantom_handle_message` of programs/handlers.c does, on a tree that its memory holds.
use phantomid.Common.{◌≤◌, ◌<◌, ◌≡◌, true, Option, none, some}
use phantomid.Tree.Store.{Tree}
use phantomid.Tree.Queue.{max_queue_size}
use phantomid.Tree.Forest.{Forest, count}
use phantomid.Tree.Invariant.{Represents}
use phantomid.Tree.Deleted
use phantomid.Interface.Message.{Message}
use phantomid.Programs.Commands.{Host}
use phantomid.Programs.Messages.{Peers, Received}
use phantomid.Programs.Addressed.{Addressed}
use phantomid.Programs.Reception.{Reception}

abbrev announced : {W : Type 0} → Option Tree → W → Option (Received W)
announced context after = some (true, context, after)

module _ {W : Type 0} (host : Host) (peers : Peers W) (t : Tree) (w : W) (message : Message)
    (main lost : Forest) (fresh : t.heap host.memory.node ≡ none) (fuel : count main < host.fuel)
    (small : count main ≤ max_queue_size) (r : Represents t main lost) where
  abbrev Receives : Option (Received W) → Type 0
  Receives = Reception host peers t w message main lost
