-- ===== src/Kepaxos.antt =====
-- The consensus protocol of src/kepaxos.c and its log, src/kepaxos_log.c.
mod Tests
pub mod Message
pub mod Log
pub mod State
pub mod Replica
pub mod Leader
pub mod Node
pub mod Ballot
pub mod Books
pub mod Promise
pub mod Quorum
pub mod Flow
