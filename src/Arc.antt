-- ===== src/Arc.antt =====
-- src/arc.c, the adaptive replacement cache.
pub mod State
pub mod Invariant
pub mod Move
pub mod Balance
pub mod Books
pub mod Lookup
pub mod Create
pub mod Marker
pub mod Remove
pub mod Limits
pub mod Threads
mod Tests
