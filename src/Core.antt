-- ===== src/Core.antt =====
-- crates/core: the shared data, the numbers of the scores, and the storage interface.
pub mod Float
pub mod Types
pub mod Storage
pub mod Preserves
pub mod Http
