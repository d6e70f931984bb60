-- ===== src/Fusion/Recall.antt =====
-- hybrid_recall and composite_score_with of crates/core/src/search_fusion.rs, over any storage.
pub mod Provenance
use merkur_db.Base.Sort.{sort_by}
use merkur_db.Base.Text.{Text, text_eq}
use merkur_db.Base.{
  ℕ, ◌*◌, ◌-◌, ◌^◌, min, max, Bool, true, false, List, [], ◌∷◌, Option, none, some, map,
  if◌then◌else◌,
}
use merkur_db.Core.Float.{Float}
use merkur_db.Core.Storage.{Storage, Act, or_else, pure, ◌>>=◌}
use merkur_db.Core.Types.{Map, Memory, ScoredMemory, get, insert, MerkurResult, ok, err}
use merkur_db.Fusion.Dedup.{by_score}
use merkur_db.Fusion.Query.{is_bm25_viable}
use merkur_db.Fusion.Rrf.{Ranked, rrf_fuse_weighted}

abbrev pub usize_max : ℕ
usize_max = 2 ^ 64 - 1

abbrev pub saturating_mul : ℕ → ℕ → ℕ
saturating_mul a b = min (a * b) usize_max

pub record ScoreWeights (F : Type 0) : Type 0 where
  pub search : F
  pub weight : F
  pub importance : F

pub record FusionParams (F : Type 0) : Type 0 where
  pub rrf_k : F
  pub bm25_weight : F
  pub vector_weight : F
  pub score : ScoreWeights F

module _ {V : Type 0} where
  unfoldable pub remove_key : Text → Map V → Map V
  remove_key k [] = []
  remove_key k ((j, v) ∷ m) = if text_eq j k then remove_key k m else (j, v) ∷ remove_key k m

module _ {F : Type 0} where
  -- `vec_hits.into_iter().map(|m| (m.id.clone(), m)).collect()`
  unfoldable pub by_id_from : List (ScoredMemory F) → Map (ScoredMemory F) → Map (ScoredMemory F)
  by_id_from [] m = m
  by_id_from (h ∷ hits) m = by_id_from hits (insert h.id h m)

  unfoldable pub scored_from_memory : Memory F → F → ScoredMemory F
  scored_from_memory m score = record {
    id = m.id;
    content = m.content;
    abstract_ = m.abstract_;
    score = score;
    weight = m.weight;
    level = m.level;
    category = m.category;
    context = m.context;
    created_at = m.created_at;
    namespace = m.namespace;
    importance = m.importance;
  }

module _ {S F : Type 0} where
  -- A fetched memory under its fused score; nothing for a vanished one, or a failed fetch.
  unfoldable pub fetched : F → MerkurResult (Option (Memory F)) × S → Option (ScoredMemory F) × S
  unfolding scored_from_memory
  fetched score (ok (some m), t) = (some (scored_from_memory m score), t)
  fetched score (ok none, t) = (none, t)
  fetched score (err e, t) = (none, t)

module _ {F : Type 0} (f : Float F) where
  -- `ScoreWeights::default()` and `FusionParams::default()`.
  unfoldable pub default_fusion : FusionParams F
  default_fusion = record {
    rrf_k = f.of_nat 60;
    bm25_weight = f.of_nat 1;
    vector_weight = f.of_nat 1;
    score = record { search = f.lit 5 1; weight = f.lit 2 1; importance = f.lit 3 1 };
  }

  -- `x.clamp(0.0, 1.0)`
  unfoldable pub clamp_unit : F → F
  clamp_unit x =
      if f.lt x (f.of_nat 0) then f.of_nat 0 else if f.lt (f.of_nat 1) x then f.of_nat 1 else x

  unfoldable pub composite_score_with : ScoreWeights F → F → F → F → F
  unfolding clamp_unit
  composite_score_with w fused weight importance =
      f.add (f.add (f.mul w.search fused) (f.mul w.weight (clamp_unit weight)))
        (f.mul w.importance (clamp_unit importance))

  module _ {S : Type 0} (storage : Storage S F) where
    -- The record for a fused id: a vector hit, or else fetched by id; one that has vanished or
    -- cannot be fetched is skipped.
    unfoldable pub hydrate_one : Map (ScoredMemory F) → Text → F → S → Option (ScoredMemory F) × S
    unfolding fetched
    hydrate_one by_id id fused_score s = elim (get id by_id) [
      | some m ↦ (some m, s)
      | none ↦ fetched fused_score (storage.get_memory id s)
    ]

    abbrev pub rescored : ScoreWeights F → F → ScoredMemory F → ScoredMemory F
    rescored w fused_score m = record m {
      score = composite_score_with w fused_score m.weight m.importance;
    }

    -- The loop over the fused ids.
    unfoldable pub hydrate :
        ScoreWeights F → F → Map (ScoredMemory F) → Ranked F → S → List (ScoredMemory F) × S
    unfolding hydrate_one
    hydrate w floor by_id [] s = ([], s)
    hydrate w floor by_id ((id, fused_score) ∷ fused) s =
        let skip = hydrate w floor by_id fused s in
        let (found, t) = hydrate_one by_id id fused_score s in
        let rest = hydrate w floor (remove_key id by_id) fused t in
        if f.lt fused_score floor
        then skip
        else elim found [ none ↦ rest | some m ↦ (rescored w fused_score m ∷ rest.0, rest.1) ]

    unfoldable pub text_channel : Text → Text → ℕ → Act S (Ranked F)
    unfolding is_bm25_viable
    text_channel raw_query namespace oversample =
        if is_bm25_viable raw_query
        then or_else (storage.text_search raw_query namespace oversample) []
        else pure []

    unfoldable pub hybrid_recall :
        List F → Text → Text → ℕ → F → FusionParams F → Act S (List (ScoredMemory F))
    unfolding text_channel rrf_fuse_weighted by_id_from hydrate
    hybrid_recall query_vec raw_query namespace limit relevance_floor fusion = do
      let oversample = max (saturating_mul limit 2) limit
      vec_hits ← or_else (storage.vector_search_ns query_vec namespace oversample) []
      bm25 ← text_channel raw_query namespace oversample
      let vec_ranked = map (λ h. (h.id, h.score)) vec_hits
      let fused =
          rrf_fuse_weighted f bm25 vec_ranked fusion.rrf_k fusion.bm25_weight fusion.vector_weight
            limit
      λ s.
          let (out, t) = hydrate fusion.score relevance_floor (by_id_from vec_hits []) fused s in
          (ok (sort_by (by_score f) out), t)
