-- ===== src/Core/Storage.antt =====
-- The `Storage` trait of crates/core/src/traits.rs as a record of operations on a state, and the
-- `Embedder` and `Consolidator` traits, which stand for services outside the repository. An
-- operation returns its result beside the state that it leaves, also when it fails.
use merkur_db.Base.Int.{ℤ}
use merkur_db.Base.Text.{Text}
use merkur_db.Base.{ℕ, Bool, List, Option}
use merkur_db.Core.Types.{
  Map, Memory, NewMemory, NewEdge, Edge, ScoredMemory, ConsolidationReport, Adjudication,
  MemoryListFilter, ConsolidationLogEntry, StorageStats, MerkurResult, ok, err, MerkurError,
}

-- A fallible action on a state.
abbrev pub Act : Type 0 → Type 0 → Type 0
Act S A = S → MerkurResult A × S

module _ {S : Type 0} where
  abbrev pub pure : {A : Type 0} → A → Act S A
  pure a s = (ok a, s)

  abbrev pub raise : {A : Type 0} → MerkurError → Act S A
  raise e s = (err e, s)

  -- `?` after a call: the first error returns.
  abbrev pub and_then : {A B : Type 0} → MerkurResult A × S → (A → Act S B) → MerkurResult B × S
  and_then (ok a, s) k = k a s
  and_then (err e, s) k = (err e, s)

  infixl 5 ◌>>=◌ ◌>>◌
  abbrev pub ◌>>=◌ : {A B : Type 0} → Act S A → (A → Act S B) → Act S B
  ◌>>=◌ m k s = and_then (m s) k

  abbrev pub ◌>>◌ : {A B : Type 0} → Act S A → Act S B → Act S B
  m >> k = m >>= λ _. k

  -- `match call { Ok(a) => a, Err(_) => d }`: the error is logged and dropped.
  abbrev pub rescued : {A : Type 0} → A → MerkurResult A × S → MerkurResult A × S
  rescued d (ok a, s) = (ok a, s)
  rescued d (err e, s) = (ok d, s)

  abbrev pub or_else : {A : Type 0} → Act S A → A → Act S A
  or_else m d s = rescued d (m s)

pub record Storage (S F : Type 0) : Type 0 where
  pub insert_memory : NewMemory F → Act S Text
  pub insert_memory_dedup : NewMemory F → F → Act S Text
  pub update_memory : Text → Text → Option (List F) → Act S (Unit {0})
  pub get_memory : Text → Act S (Option (Memory F))
  pub list_memories : MemoryListFilter → Act S (List (Memory F) × ℕ)
  pub delete_memory : Text → Act S (Unit {0})
  pub invalidate_memory : Text → Option Text → Act S (Unit {0})
  pub purge_invalidated_older_than : ℕ → Act S ℕ
  pub vector_search : List F → ℕ → Act S (List (ScoredMemory F))
  pub vector_search_ns : List F → Text → ℕ → Act S (List (ScoredMemory F))
  pub record_access : List Text → Act S (Unit {0})
  pub get_embeddings : List Text → Act S (Map (List F))
  pub text_search : Text → Text → ℕ → Act S (List (Text × F))
  pub insert_edge : NewEdge F → Act S (Unit {0})
  pub get_edges : Text → Act S (List (Edge F))
  pub get_edges_batch : List Text → Act S (Map (List (Edge F)))
  pub bfs_expand : List (Text × F) → ℕ → ℕ → Act S (List (ScoredMemory F))
  pub bfs_expand_ns : List (Text × F) → Text → ℕ → ℕ → Act S (List (ScoredMemory F))
  pub insert_context_tag : Text → Text → Text → Act S (Unit {0})
  pub search_by_context : Map Text → Act S (List Text)
  pub list_pending : ℕ → Act S (List (Memory F))
  pub list_for_forgetting : ℕ → Act S (List (Memory F))
  pub mark_consolidated : List Text → Act S (Unit {0})
  pub update_level : Text → ℤ → Act S (Unit {0})
  pub update_abstract : Text → Text → Act S (Unit {0})
  pub update_importance : Text → F → Act S (Unit {0})
  pub delete_archived_older_than : ℕ → Act S ℕ
  pub log_consolidation : ℕ → ℕ → ConsolidationReport F → Act S (Unit {0})
  pub get_consolidation_log : ℕ → Act S (List ConsolidationLogEntry)
  pub stats : Act S StorageStats
  pub memory_exists : Text → Act S Bool
  pub memory_exists_batch : List Text → Act S (List Text)

pub record Embedder (F : Type 0) : Type 0 where
  pub dim : ℕ
  pub encode : Text → MerkurResult (List F)
  pub encode_batch : List Text → MerkurResult (List (List F))

pub record Consolidator (F : Type 0) : Type 0 where
  pub consolidate : List (Memory F) → MerkurResult (ConsolidationReport F)
  pub adjudicate : Memory F → List (ScoredMemory F) → MerkurResult Adjudication
