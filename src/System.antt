-- ===== src/System.antt =====
-- The service as a whole: the requests of crates/server/src/handlers/ and the passes of
-- crates/server/src/scheduler.rs over one store, in the order in which they take effect.
pub mod Reads
pub mod Writes
pub mod Background
pub mod Handlers
pub mod History
pub mod Integrity
