-- ===== src/Interface.antt =====
-- The tables and queues of src/interface that a program is built from.
pub mod Registry
pub mod Message
pub mod Command
pub mod State
pub mod Program
