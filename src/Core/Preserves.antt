-- ===== src/Core/Preserves.antt =====
-- A property of the state that every operation of a Storage (crates/core/src/traits.rs) preserves,
-- and the steps by which a client that only calls the trait preserves it too.
use merkur_db.Base.Int.{ℤ}
use merkur_db.Base.Text.{Text}
use merkur_db.Base.{ℕ, List, Option}
use merkur_db.Core.Storage.{Act, Storage, ◌>>=◌, and_then, or_else, rescued}
use merkur_db.Core.Types.{
  Map, NewMemory, NewEdge, ConsolidationReport, MemoryListFilter, MerkurResult, ok, err,
}

module _ {S : Type 0} (P : S → Type 0) where
  -- Whatever the action answers, the property holds after it.
  abbrev pub Leaves : {A : Type 0} → Act S A → Type 0
  Leaves m = (s : S) → P s → P (m s).1

  pub bind-Leaves :
      {A B : Type 0} (m : Act S A) (k : A → Act S B)
      → Leaves m
      → ((a : A) → Leaves (k a))
      → Leaves (m >>= k)
  bind-Leaves {A} {B} m k h g s v = go (m s) (h s v)
    where
      go : (out : MerkurResult A × S) → P out.1 → P (and_then out k).1
      go (ok a, t) w = g a t w
      go (err e, t) w = w

  pub or_else-Leaves : {A : Type 0} (m : Act S A) (d : A) → Leaves m → Leaves (or_else m d)
  or_else-Leaves {A} m d h s v = go (m s) (h s v)
    where
      go : (out : MerkurResult A × S) → P out.1 → P (rescued d out).1
      go (ok a, t) w = w
      go (err e, t) w = w

pub record Preserves {S F : Type 0} (storage : Storage S F) (P : S → Type 0) : Type 0 where
  pub insert_memory_leaves : (mem : NewMemory F) → Leaves P (storage.insert_memory mem)
  pub insert_memory_dedup_leaves :
      (mem : NewMemory F) (threshold : F) → Leaves P (storage.insert_memory_dedup mem threshold)
  pub update_memory_leaves :
      (id content : Text) (vec : Option (List F)) → Leaves P (storage.update_memory id content vec)
  pub get_memory_leaves : (id : Text) → Leaves P (storage.get_memory id)
  pub list_memories_leaves : (filter : MemoryListFilter) → Leaves P (storage.list_memories filter)
  pub delete_memory_leaves : (id : Text) → Leaves P (storage.delete_memory id)
  pub invalidate_memory_leaves :
      (id : Text) (target : Option Text) → Leaves P (storage.invalidate_memory id target)
  pub purge_invalidated_older_than_leaves :
      (days : ℕ) → Leaves P (storage.purge_invalidated_older_than days)
  pub vector_search_leaves : (vec : List F) (limit : ℕ) → Leaves P (storage.vector_search vec limit)
  pub vector_search_ns_leaves :
      (vec : List F) (ns : Text) (limit : ℕ) → Leaves P (storage.vector_search_ns vec ns limit)
  pub record_access_leaves : (ids : List Text) → Leaves P (storage.record_access ids)
  pub get_embeddings_leaves : (ids : List Text) → Leaves P (storage.get_embeddings ids)
  pub text_search_leaves :
      (query ns : Text) (limit : ℕ) → Leaves P (storage.text_search query ns limit)
  pub insert_edge_leaves : (e : NewEdge F) → Leaves P (storage.insert_edge e)
  pub get_edges_leaves : (id : Text) → Leaves P (storage.get_edges id)
  pub get_edges_batch_leaves : (ids : List Text) → Leaves P (storage.get_edges_batch ids)
  pub bfs_expand_leaves :
      (seeds : List (Text × F)) (depth limit : ℕ) → Leaves P (storage.bfs_expand seeds depth limit)
  pub bfs_expand_ns_leaves :
      (seeds : List (Text × F)) (ns : Text) (depth limit : ℕ)
      → Leaves P (storage.bfs_expand_ns seeds ns depth limit)
  pub insert_context_tag_leaves :
      (id key value : Text) → Leaves P (storage.insert_context_tag id key value)
  pub search_by_context_leaves : (tags : Map Text) → Leaves P (storage.search_by_context tags)
  pub list_pending_leaves : (limit : ℕ) → Leaves P (storage.list_pending limit)
  pub list_for_forgetting_leaves : (limit : ℕ) → Leaves P (storage.list_for_forgetting limit)
  pub mark_consolidated_leaves : (ids : List Text) → Leaves P (storage.mark_consolidated ids)
  pub update_level_leaves : (id : Text) (level : ℤ) → Leaves P (storage.update_level id level)
  pub update_abstract_leaves : (id text : Text) → Leaves P (storage.update_abstract id text)
  pub update_importance_leaves :
      (id : Text) (importance : F) → Leaves P (storage.update_importance id importance)
  pub delete_archived_older_than_leaves :
      (days : ℕ) → Leaves P (storage.delete_archived_older_than days)
  pub log_consolidation_leaves :
      (started finished : ℕ) (r : ConsolidationReport F)
      → Leaves P (storage.log_consolidation started finished r)
  pub get_consolidation_log_leaves : (limit : ℕ) → Leaves P (storage.get_consolidation_log limit)
  pub stats_leaves : Leaves P storage.stats
  pub memory_exists_leaves : (id : Text) → Leaves P (storage.memory_exists id)
  pub memory_exists_batch_leaves : (ids : List Text) → Leaves P (storage.memory_exists_batch ids)
