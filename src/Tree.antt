-- ===== src/Tree.antt =====
-- runtime/tree/tree.c and tree.h: the tree of nodes, over an explicit heap.
pub mod Store
pub mod Queue
pub mod BoundedQueue
pub mod Forest
pub mod Lookup
pub mod Traverse
pub mod Invariant
pub mod NodeId
pub mod Attach
pub mod Create
pub mod CreateSteps
pub mod Created
pub mod Made
pub mod Site
pub mod Orphans
pub mod Reassign
pub mod Rehomed
pub mod Delete
pub mod DeleteBelow
pub mod DeleteRoot
pub mod Deleted
pub mod Walk
pub mod History
mod Tests
