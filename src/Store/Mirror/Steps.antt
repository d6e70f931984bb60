-- ===== src/Store/Mirror/Steps.antt =====
-- Every operation of crates/storage/src/sqlite.rs that changes the store, and their histories.
use merkur_db.Base.Int.{ℤ}
use merkur_db.Base.Text.{Text}
use merkur_db.Base.{ℕ, ◌+◌, refl, List, [], ◌∷◌, Option}
use merkur_db.Core.Float.{Float}
use merkur_db.Core.Types.{NewMemory, NewEdge, ConsolidationReport}
use merkur_db.Store.Insert.{
  insert_memory, update_memory, insert_context_tag, log_consolidation, insert_edge,
}
use merkur_db.Store.Search.{insert_memory_dedup}
use merkur_db.Store.Write.{
  delete_memory, purge_invalidated_older_than, delete_archived_older_than, invalidate_memory,
  record_access, mark_consolidated, update_level, update_importance, update_abstract,
}
use merkur_db.Store.{Db}
use merkur_db.Store.Mirror.Keeps.{Mirrors}
use merkur_db.Store.Mirror.Removals.{purge-Keeps, delete_archived-Keeps, delete_memory-Keeps}
use merkur_db.Store.Mirror.Writes.{update_memory-Keeps, insert_memory-Keeps}
use merkur_db.Store.Mirror.Serves.{writes-Mirrors}
use merkur_db.Store.Quiet.Serves.{insert_memory_dedup-Leaves}
use merkur_db.Store.Mirror.Updates.{
  invalidate_memory-Keeps, record_access-Keeps, mark_consolidated-Keeps, update_level-Keeps,
  update_importance-Keeps, update_abstract-Keeps, elsewhere-Mirrors, insert_edge-Keeps,
  insert_context_tag-Keeps, log_consolidation-Keeps,
}

-- The operations of `SqliteStorage` that change it, and the passing of time.
pub data Op (F : Type 0) : Type 0 where
  insert_op : NewMemory F → Op F
  insert_dedup_op : NewMemory F → F → Op F
  update_op : Text → Text → Option (List F) → Op F
  delete_op : Text → Op F
  invalidate_op : Text → Option Text → Op F
  purge_op : ℕ → Op F
  record_access_op : List Text → Op F
  insert_edge_op : NewEdge F → Op F
  insert_context_tag_op : Text → Text → Text → Op F
  mark_consolidated_op : List Text → Op F
  update_level_op : Text → ℤ → Op F
  update_abstract_op : Text → Text → Op F
  update_importance_op : Text → F → Op F
  delete_archived_op : ℕ → Op F
  log_consolidation_op : ℕ → ℕ → ConsolidationReport F → Op F
  wait_op : ℕ → Op F

module _ {F : Type 0} (f : Float F) (uuid : ℕ → Text) where
  unfoldable pub run : Op F → Db F → Db F
  run (insert_op mem) s = (insert_memory f uuid mem s).1
  run (insert_dedup_op mem threshold) s = (insert_memory_dedup f uuid mem threshold s).1
  run (update_op id content embedding) s = (update_memory f id content embedding s).1
  run (delete_op id) s = (delete_memory id s).1
  run (invalidate_op id absorbed_into) s = (invalidate_memory id absorbed_into s).1
  run (purge_op days) s = (purge_invalidated_older_than days s).1
  run (record_access_op ids) s = (record_access ids s).1
  run (insert_edge_op e) s = (insert_edge f e s).1
  run (insert_context_tag_op id key value) s = (insert_context_tag id key value s).1
  run (mark_consolidated_op ids) s = (mark_consolidated ids s).1
  run (update_level_op id level) s = (update_level id level s).1
  run (update_abstract_op id abstract_) s = (update_abstract id abstract_ s).1
  run (update_importance_op id importance) s = (update_importance id importance s).1
  run (delete_archived_op days) s = (delete_archived_older_than days s).1
  run (log_consolidation_op started finished report) s =
      (log_consolidation started finished report s).1
  run (wait_op elapsed) s = record s { clock = s.clock + elapsed }

  unfoldable pub run_all : List (Op F) → Db F → Db F
  unfolding run
  run_all [] s = s
  run_all (op ∷ ops) s = run_all ops (run op s)

module _ {F : Type 0} (f : Float F) where
  run-Mirrors : (uuid : ℕ → Text) (op : Op F) (s : Db F) → Mirrors f s → Mirrors f (run f uuid op s)
  unfolding run
  run-Mirrors uuid (insert_op mem) s v = insert_memory-Keeps f uuid mem s v
  run-Mirrors uuid (insert_dedup_op mem threshold) s v =
      insert_memory_dedup-Leaves f uuid (Mirrors f) (writes-Mirrors f uuid) mem threshold s v
  run-Mirrors uuid (update_op id content vec) s v = update_memory-Keeps f id content vec s v
  run-Mirrors uuid (delete_op id) s v = delete_memory-Keeps f id s v
  run-Mirrors uuid (invalidate_op id target) s v = invalidate_memory-Keeps f id target s v
  run-Mirrors uuid (purge_op days) s v = purge-Keeps f days s v
  run-Mirrors uuid (record_access_op ids) s v = record_access-Keeps f ids s v
  run-Mirrors uuid (insert_edge_op e) s v = insert_edge-Keeps f e s v
  run-Mirrors uuid (insert_context_tag_op id key value) s v =
      insert_context_tag-Keeps f id key value s v
  run-Mirrors uuid (mark_consolidated_op ids) s v = mark_consolidated-Keeps f ids s v
  run-Mirrors uuid (update_level_op id level) s v = update_level-Keeps f id level s v
  run-Mirrors uuid (update_abstract_op id abstract_) s v = update_abstract-Keeps f id abstract_ s v
  run-Mirrors uuid (update_importance_op id importance) s v =
      update_importance-Keeps f id importance s v
  run-Mirrors uuid (delete_archived_op days) s v = delete_archived-Keeps f days s v
  run-Mirrors uuid (log_consolidation_op started finished report) s v =
      log_consolidation-Keeps f started finished report s v
  run-Mirrors uuid (wait_op elapsed) s v = elsewhere-Mirrors f s _ v refl refl

  pub run_all-Mirrors :
      (uuid : ℕ → Text) (ops : List (Op F)) (s : Db F)
      → Mirrors f s
      → Mirrors f (run_all f uuid ops s)
  unfolding run_all
  run_all-Mirrors uuid [] s v = v
  run_all-Mirrors uuid (op ∷ ops) s v =
      run_all-Mirrors uuid ops (run f uuid op s) (run-Mirrors uuid op s v)
