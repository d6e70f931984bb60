-- ===== src/Tests/Config.antt =====
-- A configuration that passes, and what it gives.
use merkur_db.Base.Int.{pos}
use merkur_db.Base.Text.{codes, text_dec}
use merkur_db.Base.{ℕ, ◌≡◌, refl, true, false, [], ◌∷◌, none, some}
use merkur_db.Config.Validated.{Guarded, validate-decide, validate-Guarded}
use merkur_db.Config.{Config, FusionConfig, validate, forgetter_config}
use merkur_db.Core.Types.{full, summary, upgrade, downgrade, ok}
use merkur_db.Forgetter.Ladder.{NotDown, NotUp}
use merkur_db.Forgetter.{decide}
use merkur_db.Tests.Numbers.{tenths, tenths_lawful}
use merkur_db.Tests.Sample.{alice, memory_of}

abbrev weights : FusionConfig ℕ
weights = record {
  rrf_k = some 600;
  bm25_weight = some 0;
  vector_weight = none;
  score_search = none;
  score_weight = some 2;
  score_importance = none;
}

abbrev served : Config ℕ
served = record {
  server = record {
    host = codes "127.0.0.1";
    port = 1934;
    cors_allow_origin = some (codes "https://merkur.dev");
    dev_mode = false;
  };
  noop_dim = some 384;
  retrieval = record {
    fast_default_limit = some 10;
    score_threshold = some 3;
    default_depth = some 2;
    default_degree_limit = some 10;
    fusion = some weights;
  };
  consolidation = record {
    interval_seconds = 60;
    batch_size = 10;
    adjudication_floor = 6;
    adjudication_candidates = 5;
  };
  forgetting = record {
    interval_seconds = 300;
    batch_size = 100;
    archive_days = pos 30;
    purge_invalidated_days = pos 30;
    decay_factor = 9;
    half_life_seconds = 864000;
    access_boost = 1;
    threshold_to_l1 = 3;
    threshold_to_l0 = 2;
    threshold_archive = 1;
    threshold_upgrade = 6;
    upgrade_min_access_count = 3;
  };
  write = record { dedup_threshold = 9; dedup_enabled = true; adjudication = codes "async" };
  auth = record { tokens = codes "secret" ∷ []; disabled = false };
}

served_ok : validate tenths served ≡ ok tt
unfolding validate text_dec
served_ok = refl

validate-decide_example :
    (decide tenths (forgetter_config served) (memory_of alice 0 full) 5 ≡ upgrade summary
      → NotDown (
          decide tenths
            (forgetter_config served)
            (record (memory_of alice 0 full) { level = summary })
            5))
    × (decide tenths (forgetter_config served) (memory_of alice 0 full) 5 ≡ downgrade summary
        → NotUp (
            decide tenths
              (forgetter_config served)
              (record (memory_of alice 0 full) { level = summary })
              5))
validate-decide_example =
    validate-decide tenths served tenths_lawful served_ok (λ h. refl) (memory_of alice 0 full) 5
      summary

validate-Guarded_example : Guarded tenths served
validate-Guarded_example = validate-Guarded tenths served served_ok
