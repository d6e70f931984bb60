-- ===== src/Store/Backend.antt =====
-- `impl Storage for SqliteStorage` of crates/storage/src/sqlite.rs: the store as an instance of the
-- Storage trait. `uuid` gives the fresh ids and `matches` is the full-text index.
use merkur_db.Base.Text.{Text}
use merkur_db.Base.{ℕ, List}
use merkur_db.Core.Float.{Float}
use merkur_db.Core.Storage.{Act, Storage}
use merkur_db.Core.Types.{default_namespace, ScoredMemory}
use merkur_db.Store.Graph.{get_edges, get_edges_batch, bfs_expand, bfs_expand_ns}
use merkur_db.Store.Insert.{
  insert_memory, update_memory, insert_context_tag, log_consolidation, insert_edge,
}
use merkur_db.Store.Overview.{stats, search_by_context}
use merkur_db.Store.Search.{
  get_memory, list_memories, vector_search_ns, get_embeddings, text_search, list_pending,
  list_for_forgetting, get_consolidation_log, memory_exists, memory_exists_batch,
  insert_memory_dedup,
}
use merkur_db.Store.Write.{
  delete_memory, purge_invalidated_older_than, delete_archived_older_than, invalidate_memory,
  record_access, mark_consolidated, update_level, update_importance, update_abstract,
}
use merkur_db.Store.{MemoryRow, Db}

module _ {F : Type 0} (f : Float F) (uuid : ℕ → Text)
    (matches : Text → List (MemoryRow F) → List (Text × F)) where
  -- The search across all buckets, which asks the default one.
  unfoldable pub vector_search : List F → ℕ → Act (Db F) (List (ScoredMemory F))
  unfolding vector_search_ns
  vector_search vec limit = vector_search_ns f vec default_namespace limit

  abbrev pub sqlite_storage : Storage (Db F) F
  sqlite_storage = record {
    insert_memory = insert_memory f uuid;
    insert_memory_dedup = insert_memory_dedup f uuid;
    update_memory = update_memory f;
    get_memory = get_memory;
    list_memories = list_memories;
    delete_memory = delete_memory;
    invalidate_memory = invalidate_memory;
    purge_invalidated_older_than = purge_invalidated_older_than;
    vector_search = vector_search;
    vector_search_ns = vector_search_ns f;
    record_access = record_access;
    get_embeddings = get_embeddings;
    text_search = text_search f matches;
    insert_edge = insert_edge f;
    get_edges = get_edges;
    get_edges_batch = get_edges_batch;
    bfs_expand = bfs_expand f;
    bfs_expand_ns = bfs_expand_ns f;
    insert_context_tag = insert_context_tag;
    search_by_context = search_by_context;
    list_pending = list_pending;
    list_for_forgetting = list_for_forgetting;
    mark_consolidated = mark_consolidated;
    update_level = update_level;
    update_abstract = update_abstract;
    update_importance = update_importance;
    delete_archived_older_than = delete_archived_older_than;
    log_consolidation = log_consolidation;
    get_consolidation_log = get_consolidation_log;
    stats = stats;
    memory_exists = memory_exists;
    memory_exists_batch = memory_exists_batch;
  }
