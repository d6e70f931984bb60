-- ===== src/System/Background.antt =====
-- The passes of crates/server/src/scheduler.rs preserve what the store preserves.
pub mod Forgetting
pub mod Consolidation
use merkur_db.Base.Int.{negsuc}
use merkur_db.Base.Text.{Text, text_eq}
use merkur_db.Base.{
  ℕ, suc, Bool, true, false, List, [], ◌∷◌, Option, none, some, map, Bool-cases, Option-cases, inl,
  inr, ◌==◌,
}
use merkur_db.Core.Float.{Float}
use merkur_db.Core.Preserves.{Preserves}
use merkur_db.Core.Storage.{Storage, Consolidator}
use merkur_db.Core.Types.{
  Map, get, Memory, NewEdge, ConsolidationReport, to_i32, LevelAction, downgrade, upgrade, archive,
  keep_level, AdjudicationAction, add, update, delete, noop, MerkurResult, ok, err,
}
use merkur_db.Scheduler.Consolidation.{
  errors_up, absorptions_up, invalidations_up, Gathered, persist_abstracts, persist_importance,
  create_edges, mark, absorb_into, execute_update, execute_delete, execute_action, execute_one,
  execute_all, gather_one, gather, adjudicate_all, apply_report, consolidated, consolidate_pending,
  run_consolidation_once, clears, score_of, evidence,
}
use merkur_db.Scheduler.Forgetting.{
  Tally, no_tally, archived_up, downgraded_up, upgraded_up, apply_action, apply_all,
  run_forgetting_once,
}
use merkur_db.Scheduler.{counted, value_or}

module _ {S : Type 0} (P : S → Type 0) where
  counted_leaves :
      {A R : Type 0} (good bad : R → R) (r : R) (out : MerkurResult A × S)
      → P out.1
      → P (counted good bad r out).1
  counted_leaves good bad r (ok a, s) w = w
  counted_leaves good bad r (err e, s) w = w

  value_or_leaves : {A : Type 0} (d : A) (out : MerkurResult A × S) → P out.1 → P (value_or d out).1
  value_or_leaves d (ok a, s) w = w
  value_or_leaves d (err e, s) w = w
