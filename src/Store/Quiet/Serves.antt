-- ===== src/Store/Quiet/Serves.antt =====
-- `impl Storage for SqliteStorage` of crates/storage/src/sqlite.rs: what an access and each operation
-- that writes leave, every method of the trait leaves.
use merkur_db.Store.Write.{
  delete_memory, purge_invalidated_older_than, delete_archived_older_than, invalidate_memory,
  record_access, mark_consolidated, update_level, update_importance, update_abstract,
}
use merkur_db.Store.Insert.{
  insert_memory, update_memory, insert_context_tag, log_consolidation, insert_edge,
}
use merkur_db.Store.Search.{
  insert_memory_dedup, vector_search_ns, dedup_probe, insert_unless, memory_exists,
  get_consolidation_log,
}
use merkur_db.Store.Graph.{get_edges, bfs_expand, bfs_expand_ns}
use merkur_db.Store.Overview.{stats}
use merkur_db.Store.Backend.{sqlite_storage, vector_search}
use merkur_db.Core.Preserves.{Preserves, Leaves, bind-Leaves, or_else-Leaves}
use merkur_db.Core.Storage.{or_else}
use merkur_db.Core.Types.{NewMemory, NewEdge, ConsolidationReport, default_namespace}
use merkur_db.Core.Float.{Float}
use merkur_db.Base.Int.{ℤ}
use merkur_db.Base.Text.{Text}
use merkur_db.Base.{ℕ, List, [], Option, none, some}
use merkur_db.Store.{MemoryRow, Db, access}
use merkur_db.Store.Quiet.{
  expand-Leaves, get_edges_batch-Leaves, get_embeddings-Leaves, get_memory-Leaves,
  list_for_forgetting-Leaves, list_memories-Leaves, list_pending-Leaves, memory_exists_batch-Leaves,
  read-Leaves, search_by_context-Leaves, text_search-Leaves, vector_search_ns-Leaves,
}

module _ {F : Type 0} (f : Float F) (uuid : ℕ → Text) where
  -- What a client of the store is given once these operations leave a property.
  pub record WritesLeave (P : Db F → Type 0) : Type 0 where
    pub access_leaves : Leaves P access
    pub insert_memory_leaves : (mem : NewMemory F) → Leaves P (insert_memory f uuid mem)
    pub update_memory_leaves :
        (id content : Text) (vec : Option (List F)) → Leaves P (update_memory f id content vec)
    pub delete_memory_leaves : (id : Text) → Leaves P (delete_memory id)
    pub invalidate_memory_leaves :
        (id : Text) (target : Option Text) → Leaves P (invalidate_memory id target)
    pub purge_invalidated_older_than_leaves :
        (days : ℕ) → Leaves P (purge_invalidated_older_than days)
    pub record_access_leaves : (ids : List Text) → Leaves P (record_access ids)
    pub insert_edge_leaves : (e : NewEdge F) → Leaves P (insert_edge f e)
    pub insert_context_tag_leaves :
        (id key value : Text) → Leaves P (insert_context_tag id key value)
    pub mark_consolidated_leaves : (ids : List Text) → Leaves P (mark_consolidated ids)
    pub update_level_leaves : (id : Text) (level : ℤ) → Leaves P (update_level id level)
    pub update_abstract_leaves : (id text : Text) → Leaves P (update_abstract id text)
    pub update_importance_leaves :
        (id : Text) (importance : F) → Leaves P (update_importance id importance)
    pub delete_archived_older_than_leaves : (days : ℕ) → Leaves P (delete_archived_older_than days)
    pub log_consolidation_leaves :
        (started finished : ℕ) (r : ConsolidationReport F)
        → Leaves P (log_consolidation started finished r)

module _ {F : Type 0} (f : Float F) (uuid : ℕ → Text) (P : Db F → Type 0)
    (w : WritesLeave f uuid P) where
  pub insert_memory_dedup-Leaves :
      (mem : NewMemory F) (threshold : F) → Leaves P (insert_memory_dedup f uuid mem threshold)
  unfolding insert_memory_dedup dedup_probe insert_unless
  insert_memory_dedup-Leaves mem threshold =
      bind-Leaves P (dedup_probe f uuid mem threshold mem.embedding) _ (probe_first mem.embedding)
        insert_next
    where
      probe_first : (vec : Option (List F)) → Leaves P (dedup_probe f uuid mem threshold vec)
      probe_first none s v = v
      probe_first (some vec) s v =
          bind-Leaves P (or_else (vector_search_ns f vec mem.namespace 1) []) _
            (or_else-Leaves P _ []
              (vector_search_ns-Leaves f P w.access_leaves vec mem.namespace 1))
            (λ hits s v. v) s v

      insert_next : (existing : Option Text) → Leaves P (insert_unless f uuid mem existing)
      insert_next none s v = w.insert_memory_leaves mem s v
      insert_next (some id) s v = v

  pub sqlite_storage-Leaves :
      (matches : Text → List (MemoryRow F) → List (Text × F))
      → Preserves (sqlite_storage f uuid matches) P
  unfolding vector_search get_edges stats memory_exists get_consolidation_log bfs_expand
      bfs_expand_ns
  sqlite_storage-Leaves matches = record {
    insert_memory_leaves = w.insert_memory_leaves;
    insert_memory_dedup_leaves = insert_memory_dedup-Leaves;
    update_memory_leaves = w.update_memory_leaves;
    get_memory_leaves = get_memory-Leaves f P w.access_leaves;
    list_memories_leaves = list_memories-Leaves f P w.access_leaves;
    delete_memory_leaves = w.delete_memory_leaves;
    invalidate_memory_leaves = w.invalidate_memory_leaves;
    purge_invalidated_older_than_leaves = w.purge_invalidated_older_than_leaves;
    vector_search_leaves =
        λ vec limit. vector_search_ns-Leaves f P w.access_leaves vec default_namespace limit;
    vector_search_ns_leaves = vector_search_ns-Leaves f P w.access_leaves;
    record_access_leaves = w.record_access_leaves;
    get_embeddings_leaves = get_embeddings-Leaves f P w.access_leaves;
    text_search_leaves = text_search-Leaves f P w.access_leaves matches;
    insert_edge_leaves = w.insert_edge_leaves;
    get_edges_leaves = λ id. read-Leaves f P w.access_leaves _;
    get_edges_batch_leaves = get_edges_batch-Leaves f P w.access_leaves;
    bfs_expand_leaves = λ seeds. expand-Leaves f P w.access_leaves seeds none;
    bfs_expand_ns_leaves = λ seeds ns. expand-Leaves f P w.access_leaves seeds (some ns);
    insert_context_tag_leaves = w.insert_context_tag_leaves;
    search_by_context_leaves = search_by_context-Leaves f P w.access_leaves;
    list_pending_leaves = list_pending-Leaves f P w.access_leaves;
    list_for_forgetting_leaves = list_for_forgetting-Leaves f P w.access_leaves;
    mark_consolidated_leaves = w.mark_consolidated_leaves;
    update_level_leaves = w.update_level_leaves;
    update_abstract_leaves = w.update_abstract_leaves;
    update_importance_leaves = w.update_importance_leaves;
    delete_archived_older_than_leaves = w.delete_archived_older_than_leaves;
    log_consolidation_leaves = w.log_consolidation_leaves;
    get_consolidation_log_leaves = λ limit. read-Leaves f P w.access_leaves _;
    stats_leaves = read-Leaves f P w.access_leaves _;
    memory_exists_leaves = λ id. read-Leaves f P w.access_leaves _;
    memory_exists_batch_leaves = memory_exists_batch-Leaves f P w.access_leaves;
  }
