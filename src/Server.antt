-- ===== src/Server.antt =====
-- crates/server/src/handlers: the requests of the HTTP interface, over the Storage and Embedder
-- traits. A response is a record of its fields.
pub mod Context
pub mod Namespace
pub mod Relate
pub mod Graph
pub mod Errors
pub mod Gate
pub mod Memories
pub mod Search
pub mod Write
use merkur_db.Base.{ℕ, min, max}
use merkur_db.Base.Text.{Text}
use merkur_db.Core.Types.{MerkurResult}

-- `clamp(lo, hi)`
abbrev pub clamp : ℕ → ℕ → ℕ → ℕ
clamp lo hi n = min (max n lo) hi
