-- ===== src/Fusion.antt =====
-- crates/core/src/search_fusion.rs: hybrid retrieval.
pub mod Query
pub mod Rrf
pub mod Pack
pub mod Dedup
pub mod Recall
