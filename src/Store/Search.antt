-- ===== src/Store/Search.antt =====
-- The reads of crates/storage/src/sqlite.rs and sqlite_helpers.rs: the namespace-scoped vector
-- search, the keyword search, the listings of the scheduler and the write-time dedup.
use merkur_db.Base.Sort.{sort_by}
use merkur_db.Base.Text.{Text, text_eq, text_le}
use merkur_db.Base.Int.{int_eq}
use merkur_db.Base.{
  ◌≡◌, refl, ℕ, zero, suc, Bool, true, false, not, ◌&&◌, ◌||◌, List, [], ◌∷◌, Option, none, some,
  map, any, keep, leb, ltb, ◌==◌, if◌then◌else◌, length, take, drop, max,
}
use merkur_db.Core.Float.{Float}
use merkur_db.Core.Storage.{Act, pure, raise, ◌>>=◌, ◌>>◌, or_else}
use merkur_db.Core.Types.{
  Map, get, insert, Memory, NewMemory, ScoredMemory, MemoryListFilter, ConsolidationLogEntry,
  internal, from_i32, to_i32, ok,
}
use merkur_db.Fusion.Query.{escape_fts_query, is_bm25_viable}
use merkur_db.Fusion.Recall.{saturating_mul}
use merkur_db.Store.Insert.{unwrap_or, insert_memory}
use merkur_db.Store.Rows.{
  row_of, exists_row, is_live, is_live_in, is_among, is_none, get_context_tags,
}
use merkur_db.Store.{MemoryRow, Db, access, or_panic}
use merkur_db.VectorIndex.{search}

-- A read: one access, then a function of the tables.
unfoldable pub read : {F A : Type 0} → (Db F → A) → Act (Db F) A
unfolding access
read query = do access; λ s. (ok (query s), s)

pub read_quiet :
    {F A : Type 0} (query : Db F → A) (s : Db F) → s.faults ≡ [] → read query s ≡ (ok (query s), s)
unfolding read access
read_quiet query s h = rw h refl

-- `WHERE …_id = ? IS NULL OR …`: an absent filter passes every row.
abbrev pub passes {ℓ} : {A : Type ℓ} → (A → Bool) → Option A → Bool
passes p none = true
passes p (some a) = p a

abbrev consed : {A : Type 0} → Option A → List A → List A
consed none l = l
consed (some a) l = a ∷ l

unfoldable pub first_fetch : ℕ → ℕ
first_fetch limit = max (max (saturating_mul limit 2) limit) 1

module _ {F : Type 0} where
  unfoldable pub fetch_rows_in_namespace : List Text → Text → Act (Db F) (List (MemoryRow F))
  unfolding read
  fetch_rows_in_namespace [] namespace = pure []
  fetch_rows_in_namespace (id ∷ ids) namespace =
      read λ s. keep (λ r. is_among (id ∷ ids) r && is_live_in namespace r) s.memories

  unfoldable pub memory_from_row : MemoryRow F → Map Text → Memory F
  unfolding from_i32
  memory_from_row r context = record {
    id = r.id;
    content = r.content;
    abstract_ = r.abstract_;
    category = r.category;
    weight = r.weight;
    level = from_i32 r.level;
    pending_consolidation = r.pending_consolidation;
    embedding = none;
    metadata = r.metadata;
    context = context;
    created_at = r.created_at;
    updated_at = r.updated_at;
    accessed_at = r.accessed_at;
    access_count = r.access_count;
    namespace = r.namespace;
    importance = r.importance;
    valid_at = r.valid_at;
    invalid_at = r.invalid_at;
  }

  -- The tags are a second access.
  unfoldable pub with_context : Option (MemoryRow F) → Act (Db F) (Option (Memory F))
  unfolding read get_context_tags memory_from_row
  with_context none = pure none
  with_context (some r) = do
    context ← read λ s. get_context_tags r.id s.tags
    pure (some (memory_from_row r context))

  unfoldable pub get_memory : Text → Act (Db F) (Option (Memory F))
  unfolding read with_context
  get_memory id = do row ← read λ s. row_of id s.memories; with_context row

  -- One `get_memory` for each id; the ids that are gone meanwhile are passed over.
  unfoldable pub get_all : List Text → Act (Db F) (List (Memory F))
  unfolding get_memory
  get_all [] = pure []
  get_all (id ∷ ids) = do m ← get_memory id; rest ← get_all ids; pure (consed m rest)

  abbrev pub ids_of : List (MemoryRow F) → List Text
  ids_of = map λ (r : MemoryRow F). r.id

  -- `WHERE pending_consolidation = 1 AND invalid_at IS NULL LIMIT ?`
  unfoldable pub list_pending_ids : ℕ → Act (Db F) (List Text)
  unfolding read
  list_pending_ids limit = read λ s.
      take limit (ids_of (keep (λ r. r.pending_consolidation && is_none r.invalid_at) s.memories))

  unfoldable pub list_pending : ℕ → Act (Db F) (List (Memory F))
  unfolding list_pending_ids get_all
  list_pending limit = do ids ← list_pending_ids limit; get_all ids

  abbrev pub accessed_before : MemoryRow F → MemoryRow F → Bool
  accessed_before a b = leb a.accessed_at b.accessed_at

  -- `WHERE level >= 0 AND invalid_at IS NULL ORDER BY accessed_at ASC LIMIT ?`
  unfoldable pub list_forgetting_ids : ℕ → Act (Db F) (List Text)
  unfolding read sort_by
  list_forgetting_ids limit =
      read λ s. take limit (ids_of (sort_by accessed_before (keep is_live s.memories)))

  unfoldable pub list_for_forgetting : ℕ → Act (Db F) (List (Memory F))
  unfolding list_forgetting_ids get_all
  list_for_forgetting limit = do ids ← list_forgetting_ids limit; get_all ids

  unfoldable pub embeddings_of : List Text → List (MemoryRow F) → Map (List F)
  unfolding insert
  embeddings_of ids [] = []
  embeddings_of ids (r ∷ rows) =
      let rest = embeddings_of ids rows in
      if is_among ids r then elim r.embedding [ none ↦ rest | some v ↦ (r.id, v) ∷ rest ] else rest

  unfoldable pub get_embeddings : List Text → Act (Db F) (Map (List F))
  unfolding read embeddings_of
  get_embeddings [] = pure []
  get_embeddings (id ∷ ids) = read λ s. embeddings_of (id ∷ ids) s.memories

  unfoldable pub memory_exists : Text → Act (Db F) Bool
  unfolding read
  memory_exists id = read λ s. exists_row id s.memories

  unfoldable pub memory_exists_batch : List Text → Act (Db F) (List Text)
  unfolding read
  memory_exists_batch [] = pure []
  memory_exists_batch (id ∷ ids) = read λ s. ids_of (keep (is_among (id ∷ ids)) s.memories)

  -- The rows that a browse filter selects, without a page.
  abbrev pub is_listed : MemoryListFilter → MemoryRow F → Bool
  unfolding to_i32
  is_listed filter r =
      is_none r.invalid_at
      && passes (text_eq r.namespace) filter.namespace
      && passes (any λ l. int_eq r.level (to_i32 l)) filter.levels
      && passes (text_eq r.category) filter.category

  -- `ORDER BY created_at DESC, id ASC`
  abbrev pub newest_first : MemoryRow F → MemoryRow F → Bool
  newest_first a b =
      if a.created_at == b.created_at then text_le a.id b.id else ltb b.created_at a.created_at

  -- The tags of each row are one more access.
  unfoldable pub with_contexts : List (MemoryRow F) → Act (Db F) (List (Memory F))
  unfolding read get_context_tags memory_from_row
  with_contexts [] = pure []
  with_contexts (r ∷ rows) = do
    context ← read λ s. get_context_tags r.id s.tags
    rest ← with_contexts rows
    pure (memory_from_row r context ∷ rest)

  unfoldable pub list_memories : MemoryListFilter → Act (Db F) (List (Memory F) × ℕ)
  unfolding read sort_by with_contexts
  list_memories filter = do
    rows ← read λ s. keep (is_listed filter) s.memories
    items ← with_contexts (take filter.limit (drop filter.offset (sort_by newest_first rows)))
    pure (items, length rows)

  -- `ORDER BY id DESC LIMIT ?`
  unfoldable pub get_consolidation_log : ℕ → Act (Db F) (List ConsolidationLogEntry)
  unfolding read sort_by
  get_consolidation_log limit =
      read λ s. take limit (sort_by (λ (a b : ConsolidationLogEntry). leb b.id a.id) s.log)

module _ {F : Type 0} (f : Float F) where
  -- `ORDER BY score`, the smallest first.
  abbrev pub score_order : Text × F → Text × F → Bool
  score_order a b = not (f.lt b.1 a.1)

  -- `matches` is the full-text index: the ids of the rows that match an expression, with `bm25()`.
  unfoldable pub text_search :
      (Text → List (MemoryRow F) → List (Text × F)) → Text → Text → ℕ → Act (Db F) (List (Text × F))
  unfolding is_bm25_viable escape_fts_query read sort_by
  text_search matches query namespace limit =
      if not (is_bm25_viable query)
      then pure []
      else read λ s. take limit (
          sort_by score_order (
            keep (λ h. any (λ r. text_eq r.id h.0 && is_live_in namespace r) s.memories)
              (matches (escape_fts_query query) s.memories)))

  -- The loop of `vector_search_ns`, with the fuel of its rounds.
  unfoldable pub probe : ℕ → List F → Text → ℕ → ℕ → Act (Db F) (List (MemoryRow F) × Map F)
  unfolding search fetch_rows_in_namespace
  probe zero vec namespace limit fetch = raise (internal [])
  probe (suc fuel) vec namespace limit fetch = do
    scored_ids ← λ s. or_panic (search f vec fetch s.vector_index) s
    rows ← fetch_rows_in_namespace (map (λ h. h.0) scored_ids) namespace
    elim (leb limit (length rows) || ltb (length scored_ids) fetch) [
      | true ↦ pure (rows, scored_ids)
      | false ↦ probe fuel vec namespace limit (saturating_mul fetch 2)
    ]

  unfoldable pub scored_row : Map F → Map (Map Text) → MemoryRow F → ScoredMemory F
  unfolding get from_i32
  scored_row scores contexts r = record {
    id = r.id;
    content = r.content;
    abstract_ = r.abstract_;
    score = unwrap_or (get r.id scores) (f.of_nat 0);
    weight = r.weight;
    level = from_i32 r.level;
    category = r.category;
    context = unwrap_or (get r.id contexts) [];
    created_at = r.created_at;
    namespace = r.namespace;
    importance = r.importance;
  }

  -- `partial_cmp`, equal where it has no answer.
  abbrev pub higher_first : ScoredMemory F → ScoredMemory F → Bool
  higher_first a b = not (f.lt a.score b.score)

  unfoldable pub vector_search_ns : List F → Text → ℕ → Act (Db F) (List (ScoredMemory F))
  unfolding probe read get_context_tags scored_row sort_by first_fetch
  vector_search_ns vec namespace limit = do
    found ← λ s. probe (suc (length s.vector_index.ids)) vec namespace limit (first_fetch limit) s
    contexts ← read λ s. map (λ (r : MemoryRow F). (r.id, get_context_tags r.id s.tags)) found.0
    pure (take limit (sort_by higher_first (map (scored_row found.1 contexts) found.0)))

  unfoldable pub dedup_verdict : Option (Text × F) → F → Option Text
  dedup_verdict none threshold = none
  dedup_verdict (some (id, score)) threshold = if f.ge score threshold then some id else none

  abbrev pub top_hit : List (ScoredMemory F) → Option (Text × F)
  top_hit [] = none
  top_hit (h ∷ hits) = some (h.id, h.score)

  module _ (uuid : ℕ → Text) where
    unfoldable pub insert_unless : NewMemory F → Option Text → Act (Db F) Text
    unfolding insert_memory
    insert_unless mem none = insert_memory f uuid mem
    insert_unless mem (some existing_id) = pure existing_id

    unfoldable pub dedup_probe : NewMemory F → F → Option (List F) → Act (Db F) (Option Text)
    unfolding vector_search_ns dedup_verdict
    dedup_probe mem threshold none = pure none
    dedup_probe mem threshold (some embedding) = do
      hits ← or_else (vector_search_ns embedding mem.namespace 1) []
      pure (dedup_verdict (top_hit hits) threshold)

    unfoldable pub insert_memory_dedup : NewMemory F → F → Act (Db F) Text
    unfolding dedup_probe insert_unless
    insert_memory_dedup mem threshold = do
      existing ← dedup_probe mem threshold mem.embedding
      insert_unless mem existing
