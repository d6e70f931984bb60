-- ===== src/Tests/Sample.antt =====
-- Sample data.
use merkur_db.Base.Text.{Text, codes}
use merkur_db.Base.{ℕ, zero, suc, true, List, [], ◌∷◌, none, some, refl}
use merkur_db.Core.Storage.{Storage, Consolidator}
use merkur_db.Core.Types.{
  Memory, NewMemory, ScoredMemory, MemoryLevel, full, update, empty_report, ok,
}
use merkur_db.Store.Mirror.Keeps.{Mirrors}
use merkur_db.Store.{MemoryRow, Db}
use merkur_db.Tests.Numbers.{tenths}
use merkur_db.VectorIndex.Invariant.{new-IsValid}
use merkur_db.VectorIndex.{new, vector_of}

abbrev pub alice : Text
alice = codes "mem_1"

abbrev pub bob : Text
bob = codes "mem_11"

abbrev pub team : Text
team = codes "team"

abbrev pub memory_of : Text → ℕ → MemoryLevel → Memory ℕ
memory_of id hits level = record {
  id = id;
  content = codes "likes tea";
  abstract_ = none;
  category = codes "general";
  weight = 10;
  level = level;
  pending_consolidation = true;
  embedding = none;
  metadata = [];
  context = [];
  created_at = 1;
  updated_at = 1;
  accessed_at = 1;
  access_count = hits;
  namespace = team;
  importance = 5;
  valid_at = 1;
  invalid_at = none;
}

abbrev pub hit_of : Text → ℕ → ScoredMemory ℕ
hit_of id score = record {
  id = id;
  content = codes "likes tea";
  abstract_ = none;
  score = score;
  weight = 10;
  level = full;
  category = codes "general";
  context = [];
  created_at = 1;
  namespace = team;
  importance = 5;
}

abbrev pub note_of : List ℕ → NewMemory ℕ
note_of vec = record {
  content = codes "likes tea";
  category = none;
  context = (codes "source", codes "chat") ∷ [];
  metadata = [];
  embedding = some vec;
  namespace = team;
}

-- The n-th id is n ones.
unfoldable pub ones : ℕ → Text
ones zero = codes "1"
ones (suc n) = 49 ∷ ones n

unfoldable pub empty_db : Db ℕ
empty_db = record {
  memories = [];
  edges = [];
  next_edge_id = 1;
  tags = [];
  log = [];
  next_log_id = 1;
  vector_index = new;
  clock = 100;
  next_uuid = 0;
  faults = [];
}

pub empty_db-Mirrors : Mirrors tenths empty_db
unfolding empty_db new vector_of
empty_db-Mirrors = record {
  index_valid = new-IsValid tenths;
  ids_unique = tt;
  mirrored = λ q. refl;
}

-- A store that answers each read with the same data and accepts each write, counting them.
unfoldable pub counting : Storage ℕ ℕ
counting = record {
  insert_memory = λ m s. (ok alice, suc s);
  insert_memory_dedup = λ m t s. (ok alice, suc s);
  update_memory = λ id c e s. (ok tt, suc s);
  get_memory = λ id s. (ok (some (memory_of id 0 full)), s);
  list_memories = λ f s. (ok ([], 0), s);
  delete_memory = λ id s. (ok tt, suc s);
  invalidate_memory = λ id t s. (ok tt, suc s);
  purge_invalidated_older_than = λ d s. (ok 2, suc s);
  vector_search = λ v l s. (ok [], s);
  vector_search_ns = λ v n l s. (ok (hit_of alice 9 ∷ hit_of bob 8 ∷ []), s);
  record_access = λ ids s. (ok tt, suc s);
  get_embeddings = λ ids s. (ok ((alice, 10 ∷ []) ∷ (bob, 10 ∷ []) ∷ []), s);
  text_search = λ q n l s. (ok ((bob, 1) ∷ []), s);
  insert_edge = λ e s. (ok tt, suc s);
  get_edges = λ id s. (ok [], s);
  get_edges_batch = λ ids s. (ok [], s);
  bfs_expand = λ seeds d l s. (ok [], s);
  bfs_expand_ns = λ seeds n d l s. (ok [], s);
  insert_context_tag = λ id k v s. (ok tt, suc s);
  search_by_context = λ m s. (ok [], s);
  list_pending = λ l s. (ok (memory_of alice 0 full ∷ memory_of bob 0 full ∷ []), s);
  list_for_forgetting = λ l s. (ok (memory_of alice 0 full ∷ memory_of bob 9 full ∷ []), s);
  mark_consolidated = λ ids s. (ok tt, suc s);
  update_level = λ id l s. (ok tt, suc s);
  update_abstract = λ id a s. (ok tt, suc s);
  update_importance = λ id i s. (ok tt, suc s);
  delete_archived_older_than = λ d s. (ok 1, suc s);
  log_consolidation = λ a b r s. (ok tt, suc s);
  get_consolidation_log = λ l s. (ok [], s);
  stats = λ s. (
    ok (record {
      total_memories = 2;
      total_edges = 0;
      pending_consolidation = 2;
      by_level = [];
      by_namespace = [];
    }),
    s,
  );
  memory_exists = λ id s. (ok true, s);
  memory_exists_batch = λ ids s. (ok ids, s);
}

-- A consolidator that merges everything into the first memory.
abbrev pub merging : Consolidator ℕ
merging = record {
  consolidate = λ ms. ok empty_report;
  adjudicate = λ m cs. ok (record { action = update; target_id = some alice; reason = [] });
}

-- A full-text index that finds nothing.
abbrev pub no_match : Text → List (MemoryRow ℕ) → List (Text × ℕ)
no_match q rows = []
