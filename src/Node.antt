-- ===== src/Node.antt =====
-- A node of the cache in src/shardcache.c: who owns a key, the volatile and the persistent values,
-- the commands on them, the timers that expire them, and migrations.
pub mod State
pub mod Ownership
pub mod Volatile
pub mod Commands
pub mod Expiry
pub mod Locks
pub mod Migration
pub mod View
pub mod Reads
pub mod Timers
mod Tests
