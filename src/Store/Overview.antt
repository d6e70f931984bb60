-- ===== src/Store/Overview.antt =====
-- stats and search_by_context of crates/storage/src/sqlite_helpers.rs.
use merkur_db.Base.Int.{int_eq}
use merkur_db.Base.Text.{Text, text_eq}
use merkur_db.Base.{ℕ, suc, ◌+◌, Bool, ◌&&◌, List, [], ◌∷◌, map, any, keep, if◌then◌else◌, length}
use merkur_db.Core.Storage.{Act, pure}
use merkur_db.Core.Types.{Map, StorageStats}
use merkur_db.Store.Rows.{is_none}
use merkur_db.Store.Search.{read}
use merkur_db.Store.{MemoryRow, TagRow, Db}

-- `SELECT key, COUNT(*) … GROUP BY key`
module _ {K : Type 0} (same : K → K → Bool) where
  unfoldable pub count_one : K → List (K × ℕ) → List (K × ℕ)
  count_one k [] = (k, 1) ∷ []
  count_one k ((j, n) ∷ m) = if same j k then (j, suc n) ∷ m else (j, n) ∷ count_one k m

  unfoldable pub count_by : List K → List (K × ℕ)
  unfolding count_one
  count_by [] = []
  count_by (k ∷ ks) = count_one k (count_by ks)

abbrev pub total_count : {K : Type 0} → List (K × ℕ) → ℕ
total_count [] = 0
total_count (e ∷ m) = e.1 + total_count m

-- `(key = ? AND value = ?) OR …`
abbrev pub matches_any : Map Text → TagRow → Bool
matches_any filters t = any (λ e. text_eq t.key e.0 && text_eq t.value e.1) filters

-- `SELECT DISTINCT memory_id`
unfoldable pub distinct_ids : List TagRow → List Text
distinct_ids [] = []
distinct_ids (t ∷ tags) =
    let rest = distinct_ids tags in
    if any (text_eq t.memory_id) rest then rest else t.memory_id ∷ rest

module _ {F : Type 0} where
  abbrev pub is_pending : MemoryRow F → Bool
  is_pending r = r.pending_consolidation && is_none r.invalid_at

  unfoldable pub stats : Act (Db F) StorageStats
  unfolding read count_by
  stats = read λ s. record {
    total_memories = length s.memories;
    total_edges = length s.edges;
    pending_consolidation = length (keep is_pending s.memories);
    by_level = count_by int_eq (map (λ (r : MemoryRow F). r.level) s.memories);
    by_namespace = count_by text_eq (map (λ (r : MemoryRow F). r.namespace) s.memories);
  }

  unfoldable pub search_by_context : Map Text → Act (Db F) (List Text)
  unfolding read distinct_ids
  search_by_context [] = pure []
  search_by_context (e ∷ filters) = read λ s. distinct_ids (keep (matches_any (e ∷ filters)) s.tags)
