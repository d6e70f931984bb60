-- ===== src/Store.antt =====
-- crates/storage/src/sqlite.rs and sqlite_helpers.rs: the tables and the vector index as a state,
-- and the statements as functions on the tables. What the engine decides (a failed connection or
-- statement) is a list of faults, one entry taken by each access to the database; a statement
-- whose access fails changes nothing. Row errors count as a failure of their statement.
pub mod Rows
pub mod Write
pub mod Insert
pub mod Search
pub mod Codec
pub mod Migration
pub mod Load
pub mod Overview
pub mod Backend
pub mod Graph
pub mod Quiet
pub mod Mirror
pub mod Refers
pub mod Probe
pub mod Effects
pub mod RoundTrip
use merkur_db.Base.Int.{ℤ}
use merkur_db.Base.Text.{Text, text_eq}
use merkur_db.Base.{ℕ, Bool, List, [], ◌∷◌, Option, none, some, any, if◌then◌else◌}
use merkur_db.Core.Storage.{Act}
use merkur_db.Core.Types.{
  Map, Json, EdgeType, ConsolidationLogEntry, MerkurError, MerkurResult, ok, err,
}
use merkur_db.VectorIndex.{Inner}

-- A row of `memories`. The blob of an embedding is kept as its vector (see Codec).
pub record MemoryRow (F : Type 0) : Type 0 where
  pub id : Text
  pub content : Text
  pub abstract_ : Option Text
  pub category : Text
  pub weight : F
  pub level : ℤ
  pub pending_consolidation : Bool
  pub embedding : Option (List F)
  pub metadata : Map Json
  pub created_at : ℕ
  pub updated_at : ℕ
  pub accessed_at : ℕ
  pub access_count : ℕ
  pub namespace : Text
  pub importance : F
  pub valid_at : ℕ
  pub invalid_at : Option ℕ

-- A row of `edges`, its timestamps left out.
pub record EdgeRow (F : Type 0) : Type 0 where
  pub id : ℕ
  pub source_id : Text
  pub target_id : Text
  pub weight : F
  pub relation : Text
  pub edge_type : EdgeType

pub record TagRow : Type 0 where
  pub memory_id : Text
  pub key : Text
  pub value : Text

-- `SqliteStorage`, with the clock that `Utc::now()` reads and the count of the ids that
-- `Uuid::new_v4()` has given.
pub record Db (F : Type 0) : Type 0 where
  pub memories : List (MemoryRow F)
  pub edges : List (EdgeRow F)
  pub next_edge_id : ℕ
  pub tags : List TagRow
  pub log : List ConsolidationLogEntry
  pub next_log_id : ℕ
  pub vector_index : Inner F
  pub clock : ℕ
  pub next_uuid : ℕ
  pub faults : List (Option MerkurError)

module _ {F : Type 0} where
  unfoldable pub take_fault : List (Option MerkurError) → Db F → MerkurResult (Unit {0}) × Db F
  take_fault [] s = (ok tt, s)
  take_fault (none ∷ faults) s = (ok tt, record s { faults = faults })
  take_fault (some e ∷ faults) s = (err e, record s { faults = faults })

  -- One access to the database.
  unfoldable pub access : Act (Db F) (Unit {0})
  unfolding take_fault
  access s = take_fault s.faults s

-- A panic, by an index out of range, ends the request with an internal error.
abbrev pub or_panic : {S A : Type 0} → Option A → Act S A
or_panic none s = (err (MerkurError.internal []), s)
or_panic (some a) s = (ok a, s)
