-- ===== src/Store/Mirror/Serves.antt =====
-- `impl Storage for SqliteStorage` of crates/storage/src/sqlite.rs: each method of the trait keeps
-- the agreement of the vector index with its table.
use merkur_db.Base.Text.{Text}
use merkur_db.Base.{ℕ, List}
use merkur_db.Core.Float.{Float}
use merkur_db.Core.Preserves.{Preserves}
use merkur_db.Store.Backend.{sqlite_storage}
use merkur_db.Store.Mirror.Keeps.{Mirrors, access-Keeps}
use merkur_db.Store.Mirror.Removals.{purge-Keeps, delete_archived-Keeps, delete_memory-Keeps}
use merkur_db.Store.Mirror.Updates.{
  invalidate_memory-Keeps, record_access-Keeps, mark_consolidated-Keeps, update_level-Keeps,
  update_importance-Keeps, update_abstract-Keeps, insert_edge-Keeps, insert_context_tag-Keeps,
  log_consolidation-Keeps,
}
use merkur_db.Store.Mirror.Writes.{update_memory-Keeps, insert_memory-Keeps}
use merkur_db.Store.Quiet.Serves.{WritesLeave, sqlite_storage-Leaves}
use merkur_db.Store.{MemoryRow}

module _ {F : Type 0} (f : Float F) (uuid : ℕ → Text) where
  pub writes-Mirrors : WritesLeave f uuid (Mirrors f)
  writes-Mirrors = record {
    access_leaves = access-Keeps f;
    insert_memory_leaves = insert_memory-Keeps f uuid;
    update_memory_leaves = update_memory-Keeps f;
    delete_memory_leaves = delete_memory-Keeps f;
    invalidate_memory_leaves = invalidate_memory-Keeps f;
    purge_invalidated_older_than_leaves = purge-Keeps f;
    record_access_leaves = record_access-Keeps f;
    insert_edge_leaves = insert_edge-Keeps f;
    insert_context_tag_leaves = insert_context_tag-Keeps f;
    mark_consolidated_leaves = mark_consolidated-Keeps f;
    update_level_leaves = update_level-Keeps f;
    update_abstract_leaves = update_abstract-Keeps f;
    update_importance_leaves = update_importance-Keeps f;
    delete_archived_older_than_leaves = delete_archived-Keeps f;
    log_consolidation_leaves = log_consolidation-Keeps f;
  }

  pub sqlite_storage-Mirrors :
      (matches : Text → List (MemoryRow F) → List (Text × F))
      → Preserves (sqlite_storage f uuid matches) (Mirrors f)
  sqlite_storage-Mirrors = sqlite_storage-Leaves f uuid (Mirrors f) writes-Mirrors
