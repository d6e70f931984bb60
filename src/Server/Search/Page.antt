-- ===== src/Server/Search/Page.antt =====
-- What the search handler of crates/server/src/handlers/search.rs answers.
use merkur_db.Base.Sort.{IsSorted, sort_by-IsSorted}
use merkur_db.Base.Text.{Text}
use merkur_db.Base.{
  ℕ, ◌-◌, ◌≡◌, ◌≤◌, Bool, List, map, keep, take, drop, length, Option, if◌then◌else◌,
}
use merkur_db.Core.Float.{Float, FloatLaws}
use merkur_db.Core.Storage.{Storage, Embedder}
use merkur_db.Core.Types.{Map, Json, ScoredMemory, SearchMode, fast, MerkurResult, ok}
use merkur_db.Fusion.Dedup.{by_score}
use merkur_db.Server.Search.{
  SearchQuery, SearchConfig, SearchResponse, passes_filters, ranked_results, boosted, tags_of,
  levels_of, limit_of, is_hybrid,
}
use merkur_db.Store.Insert.{unwrap_or}

module _ {F : Type 0} (f : Float F) where
  ranked_results-IsSorted :
      (laws : FloatLaws f) (mode : SearchMode) (threshold : F) (p : ScoredMemory F → Bool)
      (tags : Option (Map Json)) (results : List (ScoredMemory F))
      → IsSorted (by_score f) (ranked_results f mode threshold p tags results)
  unfolding ranked_results
  ranked_results-IsSorted laws mode threshold p tags results =
      sort_by-IsSorted (by_score f) (λ a b c h k. laws.total_le_trans c.score b.score a.score k h)
        (λ a b h. laws.total_le_total b.score a.score h)
        (if is_hybrid mode
          then map (boosted f tags) (keep p results)
          else keep (λ r. f.ge r.score threshold) (map (boosted f tags) (keep p results)))

module _ {S F : Type 0} (f : Float F) (storage : Storage S F) (embedder : Embedder F)
    (config : SearchConfig F) (namespace : Text) where
  -- A page is always served, whatever bookkeeping fails.
  abbrev pub Serves :
      Bool → ℕ → ℕ → List (ScoredMemory F) → MerkurResult (SearchResponse F) × S → Type 0
  Serves include_graph offset limit filtered out =
      (r : SearchResponse F) × (t : S) × (out ≡ (ok r, t))
      × (r.results ≡ take limit (drop offset filtered))
      × (r.total ≡ length filtered)

  module _ (parse_date : Text → Option ℕ) (parse_object : Text → Option (Map Json)) where
    -- A page of found results: no longer than the limit, nor than what the offset leaves.
    abbrev pub IsPage : SearchQuery F → ℕ → MerkurResult (SearchResponse F) × S → Type 0
    IsPage params found out =
        (r : SearchResponse F) × (t : S) × (out ≡ (ok r, t))
        × (length r.results
            ≤ limit_of f storage embedder config namespace parse_date parse_object params)
        × (length r.results ≤ found - unwrap_or params.offset 0)
        × (r.total ≤ found)

    abbrev fast_ranked :
        SearchQuery F → Option ℕ → Option ℕ → List (ScoredMemory F) → List (ScoredMemory F)
    fast_ranked params from to hits =
        ranked_results f fast (unwrap_or params.score_threshold config.score_threshold)
          (passes_filters
            (levels_of f storage embedder config namespace parse_date parse_object params.level)
            params.category from to)
          (tags_of f storage embedder config namespace parse_date parse_object params.context) hits
