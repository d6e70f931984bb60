-- ===== src/Server/Memories.antt =====
-- crates/server/src/handlers/memory.rs, memories.rs, status.rs and admin.rs: one memory, the
-- listing, the counts and the log. A response is a record of its fields.
use merkur_db.Base.Text.{Text, codes}
use merkur_db.Base.{ℕ, Bool, true, false, List, [], ◌∷◌, ◌++◌, Option, none, some, ◌-◌, ◌/◌, ◌^◌}
use merkur_db.Core.Storage.{Storage, Embedder, ◌>>=◌, ◌>>◌, pure}
use merkur_db.Core.Types.{
  Memory, MemoryLevel, MemoryListFilter, ConsolidationLogEntry, StorageStats, MerkurResult, ok, err,
}
use merkur_db.Server.Errors.{
  ApiResult, Handler, done, failed, responded, not_found, bad_request_error,
}
use merkur_db.Server.Search.{parse_level_list}
use merkur_db.Server.{clamp}
use merkur_db.Store.Insert.{unwrap_or}

pub record ListQuery : Type 0 where
  pub namespace : Option Text
  pub level : Option Text
  pub category : Option Text
  pub offset : Option ℕ
  pub limit : Option ℕ

pub record ListResponse (F : Type 0) : Type 0 where
  pub items : List (Memory F)
  pub total : ℕ
  pub offset : ℕ
  pub limit : ℕ

pub record StatusResponse : Type 0 where
  pub stats : StorageStats
  pub uptime_seconds : ℕ

pub record HealthResponse : Type 0 where
  pub status : Text
  pub database : Text
  pub embedder_dim : ℕ

abbrev pub levels_in : Option Text → Option (List MemoryLevel)
unfolding parse_level_list
levels_in none = none
levels_in (some s) = some (parse_level_list s)

unfoldable pub list_filter : Text → ListQuery → MemoryListFilter
list_filter ns params = record {
  namespace = some (unwrap_or params.namespace ns);
  levels = levels_in params.level;
  category = params.category;
  offset = unwrap_or params.offset 0;
  limit = clamp 1 200 (unwrap_or params.limit 20);
}

module _ {F S : Type 0} (storage : Storage S F) where
  abbrev pub page_of : MemoryListFilter → List (Memory F) × ℕ → ListResponse F
  page_of filter found = record {
    items = found.0;
    total = found.1;
    offset = filter.offset;
    limit = filter.limit;
  }

  unfoldable pub list_memories_handler : Text → ListQuery → Handler S (ListResponse F)
  unfolding list_filter
  list_memories_handler ns params s = responded (
      (do
        found ← storage.list_memories (list_filter ns params)
        pure (page_of (list_filter ns params) found))
        s)

  abbrev pub found_memory : Text → MerkurResult (Option (Memory F)) × S → ApiResult (Memory F) × S
  found_memory id (ok none, s) =
      (failed (not_found (codes "Memory " ++ id ++ codes " not found")), s)
  found_memory id (ok (some m), s) = (done m, s)
  found_memory id (err e, s) = responded (err e, s)

  unfoldable pub get_memory_handler : Text → Handler S (Memory F)
  get_memory_handler id s = found_memory id (storage.get_memory id s)

  -- The answer is the id.
  unfoldable pub update_memory_handler : Embedder F → Text → Text → Handler S Text
  update_memory_handler embedder id [] s =
      (failed (bad_request_error (codes "content must not be empty")), s)
  update_memory_handler embedder id (c ∷ rest) s = responded (
      (do
        embedding ← λ s. (embedder.encode (c ∷ rest), s)
        storage.update_memory id (c ∷ rest) (some embedding)
        pure id)
        s)

  unfoldable pub delete_memory_handler : Text → Handler S Text
  delete_memory_handler id s = responded ((do storage.delete_memory id; pure id) s)

  -- Times are in nanoseconds.
  unfoldable pub status : ℕ → ℕ → Handler S StatusResponse
  status started_at now s = responded (
      (do
        stats ← storage.stats
        pure (record { stats = stats; uptime_seconds = (now - started_at) / 10 ^ 9 }))
        s)

  abbrev is_ok : {A : Type 0} → MerkurResult A → Bool
  is_ok (ok a) = true
  is_ok (err e) = false

  abbrev health_of : Embedder F → Bool → HealthResponse
  health_of embedder true = record {
    status = codes "ok";
    database = codes "ok";
    embedder_dim = embedder.dim;
  }
  health_of embedder false = record {
    status = codes "degraded";
    database = codes "error";
    embedder_dim = embedder.dim;
  }

  -- The version of the package is left out.
  unfoldable pub health : Embedder F → S → HealthResponse × S
  health embedder s = let out = storage.stats s in (health_of embedder (is_ok out.0), out.1)

  unfoldable pub consolidation_log : Option ℕ → Handler S (List ConsolidationLogEntry)
  consolidation_log limit s =
      responded (storage.get_consolidation_log (clamp 1 1000 (unwrap_or limit 20)) s)
