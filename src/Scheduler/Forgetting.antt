-- ===== src/Scheduler/Forgetting.antt =====
-- crates/server/src/scheduler.rs, run_forgetting_once.
pub mod Counts
use merkur_db.Base.Int.{ℤ, negsuc}
use merkur_db.Base.Text.{Text}
use merkur_db.Base.{ℕ, suc, List, [], ◌∷◌}
use merkur_db.Core.Storage.{Storage}
use merkur_db.Core.Types.{
  Memory, MemoryLevel, to_i32, LevelAction, downgrade, upgrade, archive, keep_level,
}
use merkur_db.Scheduler.{counted, value_or}

pub record Tally : Type 0 where
  pub archived : ℕ
  pub downgraded : ℕ
  pub upgraded : ℕ
  pub cleaned : ℕ
  pub purged : ℕ

abbrev pub no_tally : Tally
no_tally = record { archived = 0; downgraded = 0; upgraded = 0; cleaned = 0; purged = 0 }

abbrev pub archived_up : Tally → Tally
archived_up t = record t { archived = suc t.archived }

abbrev pub downgraded_up : Tally → Tally
downgraded_up t = record t { downgraded = suc t.downgraded }

abbrev pub upgraded_up : Tally → Tally
upgraded_up t = record t { upgraded = suc t.upgraded }

module _ {S F : Type 0} (storage : Storage S F) where
  unfoldable pub apply_action : Text → LevelAction → Tally → S → Tally × S
  unfolding to_i32
  apply_action id archive t s =
      counted archived_up (λ t. t) t (storage.update_level id (negsuc 0) s)
  apply_action id (downgrade level) t s =
      counted downgraded_up (λ t. t) t (storage.update_level id (to_i32 level) s)
  apply_action id (upgrade level) t s =
      counted upgraded_up (λ t. t) t (storage.update_level id (to_i32 level) s)
  apply_action id keep_level t s = (t, s)

  module _ (decide : Memory F → ℕ → LevelAction) where
    unfoldable pub apply_all : ℕ → List (Memory F) → Tally → S → Tally × S
    unfolding apply_action
    apply_all now [] t s = (t, s)
    apply_all now (m ∷ memories) t s =
        let step = apply_action m.id (decide m now) t s in apply_all now memories step.0 step.1

    unfoldable pub run_forgetting_once : ℕ → ℕ → ℕ → ℕ → S → Tally × S
    unfolding apply_all
    run_forgetting_once batch_size archive_days purge_invalidated_days now s =
        let listed = value_or [] (storage.list_for_forgetting batch_size s) in
        let acted = apply_all now listed.0 no_tally listed.1 in
        let cleaned = value_or 0 (storage.delete_archived_older_than archive_days acted.1) in
        let purged =
          value_or 0 (storage.purge_invalidated_older_than purge_invalidated_days cleaned.1) in
        (record acted.0 { cleaned = cleaned.0; purged = purged.0 }, purged.1)
