-- ===== src/Store/Quiet.antt =====
-- The reads of crates/storage/src/sqlite.rs and sqlite_helpers.rs leave what an access to the database
-- leaves, whether it fails or not.
pub mod Serves
use merkur_db.Base.Text.{Text}
use merkur_db.Base.Sort.{sort_by}
use merkur_db.Store.Rows.{row_of, get_context_tags}
use merkur_db.Base.{
  map, keep, length, take, drop, min, ℕ, zero, suc, Bool-cases, inl, inr, List, [], ◌∷◌, Option,
  none, some, ◌||◌, leb, ltb, Option-cases,
}
use merkur_db.Core.Float.{Float}
use merkur_db.Core.Storage.{pure, ◌>>=◌, or_else}
use merkur_db.Core.Types.{
  default_namespace, max_bfs_depth, max_bfs_degree, Map, MemoryListFilter, NewMemory,
}
use merkur_db.Fusion.Query.{is_bm25_viable}
use merkur_db.Store.Backend.{sqlite_storage, vector_search}
use merkur_db.Store.Graph.{
  Hop, first_of_each, bfs_rows, diffused, get_edges, get_edges_batch, contexts_of, bfs_query,
  expand, bfs_expand, bfs_expand_ns,
}
use merkur_db.Store.Overview.{stats, search_by_context}
use merkur_db.Store.Search.{
  read, is_listed, newest_first, with_context, get_memory, get_all, list_pending_ids, list_pending,
  list_forgetting_ids, list_for_forgetting, get_embeddings, memory_exists, memory_exists_batch,
  with_contexts, list_memories, get_consolidation_log, text_search, fetch_rows_in_namespace, probe,
  vector_search_ns, dedup_probe, insert_unless, insert_memory_dedup, first_fetch, higher_first,
  scored_row,
}
use merkur_db.Store.{MemoryRow, Db, or_panic, access}
use merkur_db.Fusion.Recall.{saturating_mul}
use merkur_db.VectorIndex.{search}
use merkur_db.Core.Preserves.{Leaves, bind-Leaves, or_else-Leaves}

module _ {F : Type 0} (f : Float F) (P : Db F → Type 0) (access_leaves : Leaves P access) where
  pub read-Leaves : {A : Type 0} (query : Db F → A) → Leaves P (read query)
  unfolding read
  read-Leaves query = bind-Leaves P access _ access_leaves λ a s v. v

  pub fetch_rows-Leaves :
      (ids : List Text) (namespace : Text) → Leaves P (fetch_rows_in_namespace ids namespace)
  unfolding fetch_rows_in_namespace
  fetch_rows-Leaves [] namespace s v = v
  fetch_rows-Leaves (id ∷ ids) namespace s v = read-Leaves _ s v

  pub or_panic-Leaves : {A : Type 0} (r : Db F → Option A) → Leaves P (λ s. or_panic (r s) s)
  or_panic-Leaves r s v = elim (Option-cases (r s)) [ inl h ↦ rw h v | inr (a, h) ↦ rw h v ]

  pub probe-Leaves :
      (fuel : ℕ) (vec : List F) (namespace : Text) (limit fetch : ℕ)
      → Leaves P (probe f fuel vec namespace limit fetch)
  unfolding probe
  probe-Leaves zero vec namespace limit fetch s v = v
  probe-Leaves (suc fuel) vec namespace limit fetch s v =
      bind-Leaves P (λ s. or_panic (search f vec fetch s.vector_index) s) _
        (or_panic-Leaves (λ s. search f vec fetch s.vector_index))
        (λ scored_ids.
          bind-Leaves P (fetch_rows_in_namespace (map (λ h. h.0) scored_ids) namespace) _
            (fetch_rows-Leaves (map (λ h. h.0) scored_ids) namespace)
            λ rows s v.
              elim (Bool-cases (leb limit (length rows) || ltb (length scored_ids) fetch)) [
                | inl h ↦ rw h v
                | inr h ↦ rw h (probe-Leaves fuel vec namespace limit (saturating_mul fetch 2) s v)
              ])
        s v

  pub vector_search_ns-Leaves :
      (vec : List F) (namespace : Text) (limit : ℕ)
      → Leaves P (vector_search_ns f vec namespace limit)
  unfolding vector_search_ns
  vector_search_ns-Leaves vec namespace limit s v =
      bind-Leaves P
        (λ s. probe f (suc (length s.vector_index.ids)) vec namespace limit (first_fetch limit) s)
        (λ found.
          read (λ s. map (λ (r : MemoryRow F). (r.id, get_context_tags r.id s.tags)) found.0)
          >>= λ contexts.
              pure (
                take limit
                  (sort_by (higher_first f) (map (scored_row f found.1 contexts) found.0))))
        (λ s.
          probe-Leaves (suc (length s.vector_index.ids)) vec namespace limit (first_fetch limit) s)
        (λ found.
          bind-Leaves P
            (read (λ s. map (λ (r : MemoryRow F). (r.id, get_context_tags r.id s.tags)) found.0))
            (λ contexts.
              pure (
                take limit
                  (sort_by (higher_first f) (map (scored_row f found.1 contexts) found.0))))
            (read-Leaves _) (λ contexts s v. v))
        s v

  pub get_memory-Leaves : (id : Text) → Leaves P (get_memory id)
  unfolding get_memory with_context
  get_memory-Leaves id =
      bind-Leaves P (read λ s. row_of id s.memories) with_context (read-Leaves _) with_tags
    where
      with_tags : (r : Option (MemoryRow F)) → Leaves P (with_context r)
      with_tags none s v = v
      with_tags (some r) s v =
          bind-Leaves P (read λ s. get_context_tags r.id s.tags) _ (read-Leaves _)
            (λ context s v. v) s v

  pub get_all-Leaves : (ids : List Text) → Leaves P (get_all ids)
  unfolding get_all
  get_all-Leaves [] s v = v
  get_all-Leaves (id ∷ ids) s v =
      bind-Leaves P (get_memory id) _ (get_memory-Leaves id)
        (λ m. bind-Leaves P (get_all ids) _ (get_all-Leaves ids) λ rest s v. v) s v

  pub list_pending-Leaves : (limit : ℕ) → Leaves P (list_pending limit)
  unfolding list_pending list_pending_ids
  list_pending-Leaves limit =
      bind-Leaves P (list_pending_ids limit) get_all (read-Leaves _) get_all-Leaves

  pub list_for_forgetting-Leaves : (limit : ℕ) → Leaves P (list_for_forgetting limit)
  unfolding list_for_forgetting list_forgetting_ids
  list_for_forgetting-Leaves limit =
      bind-Leaves P (list_forgetting_ids limit) get_all (read-Leaves _) get_all-Leaves

  pub with_contexts-Leaves : (rows : List (MemoryRow F)) → Leaves P (with_contexts rows)
  unfolding with_contexts
  with_contexts-Leaves [] s v = v
  with_contexts-Leaves (r ∷ rows) s v =
      bind-Leaves P (read λ s. get_context_tags r.id s.tags) _ (read-Leaves _)
        (λ context. bind-Leaves P (with_contexts rows) _ (with_contexts-Leaves rows) λ rest s v. v)
        s v

  pub list_memories-Leaves : (filter : MemoryListFilter) → Leaves P (list_memories filter)
  unfolding list_memories
  list_memories-Leaves filter =
      bind-Leaves P (read λ s. keep (is_listed filter) s.memories)
        (λ rows. with_contexts (page_of rows) >>= λ items. pure (items, length rows))
        (read-Leaves _)
        λ rows.
          bind-Leaves P (with_contexts (page_of rows)) (λ items. pure (items, length rows))
            (with_contexts-Leaves (page_of rows)) λ items s v. v
    where
      page_of : List (MemoryRow F) → List (MemoryRow F)
      page_of rows = take filter.limit (drop filter.offset (sort_by newest_first rows))

  pub get_embeddings-Leaves : (ids : List Text) → Leaves P (get_embeddings ids)
  unfolding get_embeddings
  get_embeddings-Leaves [] s v = v
  get_embeddings-Leaves (id ∷ ids) s v = read-Leaves _ s v

  pub memory_exists_batch-Leaves : (ids : List Text) → Leaves P (memory_exists_batch ids)
  unfolding memory_exists_batch
  memory_exists_batch-Leaves [] s v = v
  memory_exists_batch-Leaves (id ∷ ids) s v = read-Leaves _ s v

  pub get_edges_batch-Leaves : (ids : List Text) → Leaves P (get_edges_batch ids)
  unfolding get_edges_batch
  get_edges_batch-Leaves [] s v = v
  get_edges_batch-Leaves (id ∷ ids) s v = read-Leaves _ s v

  pub search_by_context-Leaves : (filters : Map Text) → Leaves P (search_by_context filters)
  unfolding search_by_context
  search_by_context-Leaves [] s v = v
  search_by_context-Leaves (e ∷ filters) s v = read-Leaves _ s v

  pub contexts_of-Leaves : (ids : List Text) → Leaves P (contexts_of ids)
  unfolding contexts_of
  contexts_of-Leaves [] s v = v
  contexts_of-Leaves (id ∷ ids) s v = read-Leaves _ s v

  pub expand-Leaves :
      (seeds : List (Text × F)) (ns : Option Text) (depth limit : ℕ)
      → Leaves P (expand f seeds ns depth limit)
  unfolding expand bfs_query
  expand-Leaves [] ns depth limit s v = v
  expand-Leaves (seed ∷ seeds) ns zero limit s v = v
  expand-Leaves (seed ∷ seeds) ns (suc depth) limit s v =
      bind-Leaves P
        (read λ s.
          bfs_rows f (seed ∷ seeds) ns (min (suc depth) max_bfs_depth) (min limit max_bfs_degree) s)
        (λ rows. contexts_of (ids_of_hops rows) >>= λ contexts.
          pure (map (diffused f contexts) (first_of_each [] rows)))
        (read-Leaves _)
        (λ rows.
          bind-Leaves P (contexts_of (ids_of_hops rows))
            (λ contexts. pure (map (diffused f contexts) (first_of_each [] rows)))
            (contexts_of-Leaves _) λ contexts s v. v)
        s v
    where
      ids_of_hops : List (Hop F × MemoryRow F) → List Text
      ids_of_hops rows = map (λ (h : Hop F × MemoryRow F). h.0.id) (first_of_each [] rows)

  pub text_search-Leaves :
      (matches : Text → List (MemoryRow F) → List (Text × F)) (query ns : Text) (limit : ℕ)
      → Leaves P (text_search f matches query ns limit)
  unfolding text_search
  text_search-Leaves matches query ns limit s v = elim (Bool-cases (is_bm25_viable query)) [
    | inl h ↦ rw h (read-Leaves _ s v)
    | inr h ↦ rw h v
  ]
