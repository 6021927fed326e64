-- ===== src/Programs/Messages.antt =====
-- The messages of programs/handlers.c, and `validate_message` of programs/phantomid.c.
use phantomid.Common.{
  ℕ, Bool, true, false, not, ◌&&◌, ◌||◌, [], ◌∷◌, Option, none, some, ltb, ◌==◌, if◌then◌else◌,
  ◌>>=◌, length,
}
use phantomid.Common.CString.{Str, Bytes, cstr, strncpy}
use phantomid.Tree.Store.{Ptr, null, Node, Tree}
use phantomid.Tree.Lookup.{tree_find_node}
use phantomid.Tree.Create.{tree_create_node}
use phantomid.Tree.Delete.{tree_delete_node}
use phantomid.Interface.Message.{Message}
use phantomid.Cli.{node_at}
use phantomid.Programs.Commands.{Host}
use phantomid.Programs.Parsing.{zeros}

-- Values of `MessageType`.
abbrev pub msg_network : ℕ
msg_network = 2

abbrev pub msg_data : ℕ
msg_data = 4

-- What no header that handlers.c includes declares: the types MSG_NODE_CREATED and MSG_NODE_DELETED, the
-- size of a `NetworkState`, `tree_can_communicate`, and what the `broadcast`, `send` and `set_entry` that
-- it calls do to the rest of the world; and what memory holds at an address, a number of bytes.
pub record Peers (W : Type 0) : Type 0 where
  pub node_created : ℕ
  pub node_deleted : ℕ
  pub state_size : ℕ
  pub can_communicate : Option Tree → Str → Str → Bool
  pub broadcast : W → Message → W
  pub send : W → Str → Message → W
  pub set_network : W → Bytes → Bool × W
  pub read : ℕ → ℕ → Option Bytes

-- `id[0]`
abbrev pub starts : Bytes → Bool
starts [] = false
starts (b ∷ bs) = not (b == 0)

-- The end of `parse_message_context`.
abbrev pub with_source : Ptr → Ptr → Option (Ptr × Ptr)
with_source source target = if source == null then none else some (source, target)

-- `parse_message_context`: the source and the target where it returns true.
unfoldable pub parse_message_context : ℕ → Option Tree → Message → Option (Option (Ptr × Ptr))
parse_message_context k tree message =
    if not (starts message.source)
    then some none
    else (tree_find_node k tree (some (cstr message.source)) >>= λ source.
        if starts message.target
        then (tree_find_node k tree (some (cstr message.target)) >>= λ target.
            some (if target == null then none else with_source source target))
        else some (with_source source null))

-- Whether `memcpy` can write `n` bytes to an address.
abbrev pub can_copy : ℕ → ℕ → Bool
can_copy address n = n == 0 || not (address == null)

abbrev pub zero_message : Message
zero_message = record {
  type = 0;
  id = 0;
  flags = 0;
  source = zeros 64;
  target = zeros 64;
  timestamp = 0;
  payload = null;
  data_size = 0;
}

-- The message that a node has been created or deleted, and its broadcast.
unfoldable pub notify : {W : Type 0} → Peers W → W → ℕ → Str → Option W
notify peers w type node_id =
    let message = record zero_message {
      type = type;
      flags = 1;
      source = strncpy (zeros 64) node_id 64;
      data_size = 64;
    } in
    if can_copy message.payload message.data_size then some (peers.broadcast w message) else none

-- What the handlers return and leave: the result, the tree and the rest of the world.
abbrev pub Received : Type 0 → Type 0
Received W = Bool × Option Tree × W

-- `handle_node_created`, from the source on.
unfoldable pub create_below :
    {W : Type 0} → Host → Peers W → Option Tree → W → Ptr → Option (Received W)
create_below host peers tree w source = node_at tree source >>= λ parent.
    tree_create_node host.fuel host.max_children host.memory tree (some parent.id) >>= λ made.
    if made.0 == null
    then some (false, made.1, w)
    else (node_at made.1 made.0 >>= λ node.
        notify peers w peers.node_created node.id >>= λ after. some (true, made.1, after))

-- `handle_node_deleted`, from the source on, whose id is read again after the deletion.
unfoldable pub delete_source :
    {W : Type 0} → Host → Peers W → Option Tree → W → Ptr → Option (Received W)
delete_source host peers tree w source = node_at tree source >>= λ node.
    if node.is_root && ltb 0 (length node.children)
    then some (false, tree, w)
    else (tree_delete_node host.fuel tree (some node.id) >>= λ deleted.
        if not deleted.0
        then some (false, deleted.1, w)
        else (node_at deleted.1 source >>= λ gone.
            notify peers w peers.node_deleted gone.id >>= λ after. some (true, deleted.1, after)))

-- The message that `handle_node_message` sends on.
unfoldable pub forwarded : Message → Node → Node → Message
forwarded message source target = record zero_message {
  type = msg_data;
  flags = message.flags;
  source = strncpy (zeros 64) source.id 64;
  target = strncpy (zeros 64) target.id 64;
  data_size = message.data_size;
}

-- `handle_node_message`, from the source and the target on.
unfoldable pub forward_between :
    {W : Type 0} → Peers W → Option Tree → W → Message → Ptr → Ptr → Option (Received W)
forward_between peers tree w message from to = node_at tree from >>= λ source.
    node_at tree to >>= λ target.
    if not (peers.can_communicate tree source.id target.id)
    then some (false, tree, w)
    else let forward = forwarded message source target in
      if can_copy forward.payload message.data_size
      then some (true, tree, peers.send w target.id forward)
      else none

unfoldable pub handle_node_created :
    {W : Type 0} → Host → Peers W → Option Tree → W → Message → Option (Received W)
handle_node_created host peers tree w message =
    parse_message_context host.fuel tree message >>= λ ctx. elim ctx [
      | none ↦ some (false, tree, w)
      | some (source, target) ↦ create_below host peers tree w source
    ]

unfoldable pub handle_node_deleted :
    {W : Type 0} → Host → Peers W → Option Tree → W → Message → Option (Received W)
handle_node_deleted host peers tree w message =
    parse_message_context host.fuel tree message >>= λ ctx. elim ctx [
      | none ↦ some (false, tree, w)
      | some (source, target) ↦ delete_source host peers tree w source
    ]

unfoldable pub handle_node_message :
    {W : Type 0} → Host → Peers W → Option Tree → W → Message → Option (Received W)
handle_node_message host peers tree w message =
    parse_message_context host.fuel tree message >>= λ ctx. elim ctx [
      | none ↦ some (false, tree, w)
      | some (source, target) ↦ forward_between peers tree w message source target
    ]

unfoldable pub handle_network_status :
    {W : Type 0} → Peers W → Option Tree → W → Message → Option (Received W)
handle_network_status peers tree w message =
    peers.read message.payload peers.state_size >>= λ state.
    let (done, after) = peers.set_network w state in some (done, tree, after)

unfoldable pub phantom_handle_message :
    {W : Type 0} → Host → Peers W → Option Tree → W → Message → Option (Received W)
phantom_handle_message host peers tree w message =
    if message.type == peers.node_created
    then handle_node_created host peers tree w message
    else if message.type == peers.node_deleted
    then handle_node_deleted host peers tree w message
    else if message.type == msg_data
    then handle_node_message host peers tree w message
    else if message.type == msg_network
    then handle_network_status peers tree w message
    else some (false, tree, w)

-- `validate_message` of a message that is not NULL.
unfoldable pub validate_message : {W : Type 0} → Peers W → ℕ → Message → Bool
validate_message peers now message =
    if not (starts message.source)
      || (ltb 0 message.data_size && message.payload == null)
      || ltb now message.timestamp
    then false
    else if message.type == peers.node_created || message.type == peers.node_deleted
    then not (message.payload == null) && message.data_size == 64
    else if message.type == msg_data
    then starts message.target
    else if message.type == msg_network
    then message.data_size == peers.state_size
    else false

-- `phantom_handle_message_wrapper`, with the size of the message and of a `Message`, and the message
-- that stands at the address.
unfoldable pub phantom_handle_message_wrapper :
    {W : Type 0}
    → Host
    → Peers W
    → ℕ
    → ℕ
    → ℕ
    → Option Tree
    → W
    → Option Message
    → Option (Received W)
phantom_handle_message_wrapper host peers now size_of size tree w none = some (false, tree, w)
phantom_handle_message_wrapper host peers now size_of size tree w (some message) =
    if ltb size size_of || not (validate_message peers now message)
    then some (false, tree, w)
    else phantom_handle_message host peers tree w message
