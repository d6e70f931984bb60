-- ===== src/Config.antt =====
-- crates/server/src/config.rs: the settings that the components read, and `Config::validate`.
-- Paths, credentials and the settings of outside services are left out.
pub mod Validated
use merkur_db.Base.Int.{ℤ, nonneg}
use merkur_db.Base.Text.{Text, codes, text_eq}
use merkur_db.Base.{
  ℕ, Bool, true, false, List, [], ◌∷◌, any, Option, none, some, ◌==◌, ◌&&◌, ◌||◌, not,
  if◌then◌else◌,
}
use merkur_db.Core.Float.{Float}
use merkur_db.Core.Types.{MerkurResult, ok, err, config}
use merkur_db.Forgetter.{EbbinghausConfig}
use merkur_db.Fusion.Recall.{FusionParams, ScoreWeights, default_fusion}
use merkur_db.Server.Search.{SearchConfig}
use merkur_db.Server.Write.{WriteConfig, is_empty}
use merkur_db.Store.Insert.{unwrap_or}

pub record ServerConfig : Type 0 where
  pub host : Text
  pub port : ℕ
  pub cors_allow_origin : Option Text
  pub dev_mode : Bool

pub record FusionConfig (F : Type 0) : Type 0 where
  pub rrf_k : Option F
  pub bm25_weight : Option F
  pub vector_weight : Option F
  pub score_search : Option F
  pub score_weight : Option F
  pub score_importance : Option F

pub record RetrievalConfig (F : Type 0) : Type 0 where
  pub fast_default_limit : Option ℕ
  pub score_threshold : Option F
  pub default_depth : Option ℕ
  pub default_degree_limit : Option ℕ
  pub fusion : Option (FusionConfig F)

pub record ConsolidationConfig (F : Type 0) : Type 0 where
  pub interval_seconds : ℕ
  pub batch_size : ℕ
  pub adjudication_floor : F
  pub adjudication_candidates : ℕ

pub record ForgettingConfig (F : Type 0) : Type 0 where
  pub interval_seconds : ℕ
  pub batch_size : ℕ
  pub archive_days : ℤ
  pub purge_invalidated_days : ℤ
  pub decay_factor : F
  pub half_life_seconds : F
  pub access_boost : F
  pub threshold_to_l1 : F
  pub threshold_to_l0 : F
  pub threshold_archive : F
  pub threshold_upgrade : F
  pub upgrade_min_access_count : ℕ

pub record AuthConfig : Type 0 where
  pub tokens : List Text
  pub disabled : Bool

-- `noop_dim` is `plugins.embedder.noop.dim`.
pub record Config (F : Type 0) : Type 0 where
  pub server : ServerConfig
  pub noop_dim : Option ℕ
  pub retrieval : RetrievalConfig F
  pub consolidation : ConsolidationConfig F
  pub forgetting : ForgettingConfig F
  pub write : WriteConfig F
  pub auth : AuthConfig

-- `if let Some(x) = o && p(x)`
abbrev pub some_with {ℓ} : {A : Type ℓ} → (A → Bool) → Option A → Bool
some_with p none = false
some_with p (some a) = p a

unfoldable pub is_wildcard : Option Text → Bool
is_wildcard none = false
is_wildcard (some s) = text_eq s (codes "*") || text_eq s (codes "Any") || text_eq s (codes "any")

-- Early returns: the first test that holds is the error.
unfoldable pub none_of : List Bool → MerkurResult (Unit {0})
none_of [] = ok tt
none_of (b ∷ bs) = if b then err (config []) else none_of bs

module _ {F : Type 0} (f : Float F) where
  -- `a <= b`
  abbrev pub at_most : F → F → Bool
  at_most a b = f.ge b a

  -- The weights of both channels, as `validate` reads them.
  unfoldable pub bad_channels : F → F → Bool
  bad_channels bw vw =
      f.lt bw (f.of_nat 0)
      || f.lt vw (f.of_nat 0)
      || (f.feq bw (f.of_nat 0) && f.feq vw (f.of_nat 0))

  unfoldable pub bad_fusion : FusionConfig F → Bool
  unfolding bad_channels
  bad_fusion g =
      some_with (λ k. at_most k (f.of_nat 0)) g.rrf_k
      || bad_channels (unwrap_or g.bm25_weight (f.of_nat 1))
          (unwrap_or g.vector_weight (f.of_nat 1))
      || any (some_with λ v. f.lt v (f.of_nat 0))
          (g.score_search ∷ g.score_weight ∷ g.score_importance ∷ [])

  unfoldable pub is_unsafe : Config F → Bool
  unfolding is_wildcard
  is_unsafe c =
      not c.server.dev_mode
      && (is_wildcard c.server.cors_allow_origin || (is_empty c.auth.tokens && not c.auth.disabled))

  -- The tests of `validate` in its order.
  unfoldable pub checks : Config F → List Bool
  unfolding bad_fusion is_unsafe
  checks c =
      (c.server.port == 0)
      ∷ at_most c.forgetting.half_life_seconds (f.of_nat 0)
      ∷ not (nonneg c.forgetting.archive_days)
      ∷ not (nonneg c.forgetting.purge_invalidated_days)
      ∷ some_with (λ dim. dim == 0) c.noop_dim
      ∷ some_with (λ t. f.lt t (f.neg (f.of_nat 1)) || f.lt (f.of_nat 1) t)
          c.retrieval.score_threshold
      ∷ (at_most c.write.dedup_threshold (f.of_nat 0) || f.lt (f.of_nat 1) c.write.dedup_threshold)
      ∷ not (text_eq c.write.adjudication (codes "async"))
      ∷ not (
          at_most (f.of_nat 0) c.consolidation.adjudication_floor
          && at_most c.consolidation.adjudication_floor (f.of_nat 1))
      ∷ some_with bad_fusion c.retrieval.fusion
      ∷ at_most c.forgetting.threshold_upgrade c.forgetting.threshold_to_l1
      ∷ is_unsafe c
      ∷ []

  unfoldable pub validate : Config F → MerkurResult (Unit {0})
  unfolding none_of checks
  validate c = none_of (checks c)

  unfoldable pub fusion_params : Config F → FusionParams F
  unfolding default_fusion
  fusion_params c =
      let p = default_fusion f in
      elim c.retrieval.fusion [
        | none ↦ p
        | some g ↦ record {
          rrf_k = unwrap_or g.rrf_k p.rrf_k;
          bm25_weight = unwrap_or g.bm25_weight p.bm25_weight;
          vector_weight = unwrap_or g.vector_weight p.vector_weight;
          score = record {
            search = unwrap_or g.score_search p.score.search;
            weight = unwrap_or g.score_weight p.score.weight;
            importance = unwrap_or g.score_importance p.score.importance;
          };
        }
      ]

  -- `fast_limit()`, `default_depth()`, `default_degree_limit()` and `score_threshold()`.
  unfoldable pub search_config : Config F → SearchConfig F
  unfolding fusion_params
  search_config c = record {
    fast_limit = unwrap_or c.retrieval.fast_default_limit 10;
    default_depth = unwrap_or c.retrieval.default_depth 2;
    default_degree_limit = unwrap_or c.retrieval.default_degree_limit 10;
    score_threshold = unwrap_or c.retrieval.score_threshold (f.lit 3 1);
    fusion_params = fusion_params c;
  }

-- The forgetter's settings as crates/server/src/main.rs copies them.
unfoldable pub forgetter_config : {F : Type 0} → Config F → EbbinghausConfig F
forgetter_config c = record {
  decay_factor = c.forgetting.decay_factor;
  half_life_seconds = c.forgetting.half_life_seconds;
  access_boost = c.forgetting.access_boost;
  threshold_to_l1 = c.forgetting.threshold_to_l1;
  threshold_to_l0 = c.forgetting.threshold_to_l0;
  threshold_archive = c.forgetting.threshold_archive;
  threshold_upgrade = c.forgetting.threshold_upgrade;
  upgrade_min_access_count = c.forgetting.upgrade_min_access_count;
}
