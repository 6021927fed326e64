-- ===== src/Lib.antt =====
-- PhantomID: a C program that keeps a tree of anonymous nodes, serves it over a network and the
-- command line, and saves its state.
--
-- The parts. `runtime/tree` is the tree of nodes; `interface/message`, `interface/command`,
-- `interface/state` and `interface/program` are tables and queues that a program is built from;
-- `runtime/state`, `runtime/network` and `runtime/cli` save the tree, hold the connections and
-- read commands; `programs` wires them together. The files named here stand below src of the
-- repository.
--
-- Tree (src/runtime/tree/tree.c and tree.h). The nodes live in a heap, a function from addresses
-- to nodes, so that the sharing and the freeing of the C code are visible: `Tree/Store.antt` has
-- the records of `TreeNode` and `TreeContext`, `Tree/Queue.antt` the ring of the breadth-first
-- loops (`Tree/BoundedQueue.antt`: against a list), `Tree/NodeId.antt` `generate_node_id`,
-- `Tree/Lookup.antt` `tree_find_node`, `Tree/Create.antt` `tree_create` and `tree_create_node`,
-- `Tree/Orphans.antt` `handle_orphans`, `Tree/Delete.antt` `tree_delete_node`,
-- `Tree/Traverse.antt` the traversals and the depth, and `Tree/Walk.antt` `tree_destroy`.
-- `Tree/Forest.antt` has the forests that a heap can hold, and `Tree/Invariant.antt` says when a
-- context holds one: the tree below the root, and the trees that were lost.
-- `Tree/CreateSteps.antt`, `Tree/Created.antt`, `Tree/Site.antt`, `Tree/Attach.antt`,
-- `Tree/Reassign.antt`, `Tree/Rehomed.antt`, `Tree/DeleteBelow.antt`, `Tree/DeleteRoot.antt`,
-- `Tree/Deleted.antt` and `Tree/History.antt` are the proofs about the operations. Results of type
-- Option are `none` for a fault (a bad pointer) and for a loop out of fuel. The fuel of a search
-- bounds its rounds and the fuel of a recursion its depth; one more than the number of the nodes
-- is enough. MAX_CHILDREN comes from the build, and the address of a new node and the time from
-- the system: all are parameters.
--
-- Registry, messages and commands (src/interface/message.c and .h, src/interface/command.c and
-- .h). `Interface/Registry.antt` is the registry of handlers by type that both files have;
-- `Interface/Message.antt` has the queues and every operation of message.c, and
-- `Interface/Message/Sending.antt`, `Order.antt`, `Ids.antt`, `Variants.antt`, `Codec.antt` and
-- `Lifetime.antt` beside it the proofs on sends, on sequences of sends, on ids, on forwarding,
-- broadcasting and validating, on encoding and decoding, and on the initialisation.
-- `Interface/Command.antt` has every operation of command.c, `Interface/Command/Execute.antt` and
-- `Validate.antt` the proofs. A handler is a function pointer, and what its call does is a
-- parameter; so is the layout of a message in memory. The program is what its `user_data` points
-- to.
--
-- State (src/interface/state.c and .h). `Interface/State.antt` has the cache, an array of entries
-- kept as its bytes, with `set_entry`, `get_entry`, `delete_entry`, `register_handler`,
-- `state_init` and the checksum; `Interface/State/Saving.antt` has `save_state` and `load_state`
-- over streams of bytes. Beside it `Interface/State/Cells.antt` reads the bytes as a list of
-- entries, `Table.antt` and `Removal.antt` the list as a table, `Entries.antt` and `Deletion.antt`
-- are the proofs on the operations, `Checksum.antt` that on the checksum, `Handlers.antt` those on
-- the handlers and the initialisation, and `RoundTrip.antt` that on saving and loading. Which
-- calls of the system succeed is a parameter. A handler that is to be called after an operation is
-- returned as a notice. The loop that reads the saved file back is on fuel, and one round is
-- enough.
--
-- Program (src/interface/program.c and .h). `Interface/Program.antt` has the registry by name and
-- the life of a program, whose contexts are what the other components return;
-- `Interface/Program/Names.antt` is about the registry, `Interface/Program/Contexts.antt` and
-- `Interface/Program/Life.antt` about the contexts that are made and destroyed.
--
-- Network (src/runtime/network/network.c and .h). `Network.antt` has the slots of the connections,
-- with accepting, sending, disconnecting, starting and stopping, and `Network/Polling.antt` the
-- poll and what it does; `Network/Connections.antt` and `Network/Ending.antt` have the proofs on
-- the slots and their counter. Here the lock is a field: a thread that takes it twice does not
-- return, which is `none`. What the sockets answer is a parameter, and what is done to them is a
-- list of events. MAX_CONNECTIONS is the length of the list of slots.
--
-- The saved tree (src/runtime/state/state.c and .h). `Common/Files.antt` has the streams of the C
-- library. `State.antt` has the records that `state_save` writes and `state_load` reads, with
-- `state_init`, the flags, the info and the checksum; how a header and a node are laid out in a
-- file is a parameter. `State/Flags.antt` is about the flags, `State/Saved.antt` about what a save
-- writes, `State/Verify.antt` about the checksum of the file. `State/Shape.antt`, `Relabel.antt`,
-- `Ids.antt`, `LoadNode.antt`, `LoadRoot.antt`, `Loaded.antt`, `Rebuilt.antt` and `Restored.antt`
-- prove that a saved tree is loaded back: what of a forest does not depend on addresses, the
-- forest at the addresses of the new nodes, its ids, the load of a node with its subtree, that of
-- the root, that of the whole, and the round trip; `State/AnyFile.antt` is about the load of any
-- file. The fuel of the save bounds the depth of the tree, that of the load the number of the
-- records, that of the checksum the number of the pieces of 4096 bytes.
--
-- The command line (src/runtime/cli/cli.c and .h). `Cli.antt` has the context and the commands for
-- the nodes and for the network, `Cli/Parsing.antt` `parse_args` with the `strtok` of the C
-- library, and `Cli/Process.antt` `cli_process_command`; what is printed is a text that is
-- returned. `Cli/Words.antt` is about the words of a line, `Cli/Line.antt` about its copy,
-- `Cli/Orderly.antt` about codes, flags and errors, `Cli/Dispatched.antt` about what becomes of
-- the words, `Cli/Nodes.antt` about the commands for the nodes, `Cli/Arrays.antt` about the array
-- that is parsed, `Cli/Faults.antt` about the commands that have no defined result, and
-- `Cli/Processed.antt` about how a command ends. `cli_execute_state`, which no file defines, is a
-- parameter. `Tree/Made.antt` reads off from a creation that its node is there, for the components
-- that create nodes.
--
-- The program (src/programs/handlers.c, phantomid.c and state.c). `Programs.antt` says how strings
-- are read, `Programs/Commands.antt` has the commands of handlers.c, and `Programs/Parsing.antt`
-- the command strings of phantomid.c, from the text to the command that is run.
-- `Programs/Effect.antt` has the cases of what the commands do and `Programs/Effects.antt` proves
-- them, `Programs/Typed.antt` about what becomes of a text, `Programs/Bare.antt` about a command
-- with one id. `Programs/Messages.antt` has the messages of handlers.c and their validation,
-- `Programs/Addressed.antt` is about the nodes that a message names, `Programs/Reception.antt` has
-- the cases of what becomes of a message, and `Programs/Received.antt` proves them. The types of
-- messages and the calls that no header of handlers.c declares are parameters, the fields of
-- `Peers`.
--
-- `Programs/State.antt` has what the `user_data` of a program may lead to, the memory, and, as the
-- fields of `Services`, the calls through the member `state`, which no header declares.
-- `Programs/State/Entries.antt` saves and loads the entries of state.c,
-- `Programs/State/Changes.antt` has `handle_state_change`, the setup, the check and the cleanup of
-- the state, `Programs/State/Dangling.antt` is about the data of the entries that are freed, and
-- `Programs/State/Cached.antt` about a save through the calls of interface/state.c, on a cache
-- that is kept apart from `user_data`. `Programs/Life.antt` has the setup, the loop and the end of
-- phantomid.c, its accessors and the registration of handlers, and `Programs/Life/Init.antt` is
-- about what the setup leaves. A pointer that is used at the wrong type, a use of freed memory and
-- a free of memory that `malloc` has not given are faults. The fuel of `phantom_save_state` bounds
-- the depth of the tree. `Common/Ends.antt` is about results that may be faults.
--
-- Not modelled: the locks, but for the one of the network. The functions that change a shared
-- state hold their component's lock from its first use to the end, so one call is one step here.
-- What a handler or a visitor does is a parameter or left as an event. `message_create`,
-- `message_destroy`, `message_process_queue` and the other functions that src/programs calls and
-- no file defines are parameters. `cli_destroy` and the other functions that only free memory have
-- nothing to return. The calls that set the options of a socket are left out. So is the comparison
-- with the id of an entry that has no terminator, where `strcmp` reads on behind the array: the
-- theorems about the cache ask for a terminator. The cache of interface/state.c and the state of
-- src/programs/state.c are kept apart, though both files take `user_data` for their own.
pub mod Common
pub mod Cli
pub mod Interface
pub mod Network
pub mod Programs
pub mod State
pub mod Tree
