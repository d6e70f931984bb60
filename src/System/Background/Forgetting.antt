-- ===== src/System/Background/Forgetting.antt =====
-- run_forgetting_once of crates/server/src/scheduler.rs preserves what the store preserves.
use merkur_db.Base.Int.{negsuc}
use merkur_db.Base.Text.{Text}
use merkur_db.Base.{ℕ, List, [], ◌∷◌}
use merkur_db.Core.Preserves.{Preserves}
use merkur_db.Core.Storage.{Storage}
use merkur_db.Core.Types.{Memory, to_i32, LevelAction, downgrade, upgrade, archive, keep_level}
use merkur_db.Scheduler.Forgetting.{
  Tally, no_tally, archived_up, downgraded_up, upgraded_up, apply_action, apply_all,
  run_forgetting_once,
}
use merkur_db.Scheduler.{value_or}
use merkur_db.System.Background.{counted_leaves, value_or_leaves}

module _ {S F : Type 0} (storage : Storage S F) (P : S → Type 0) (keeps : Preserves storage P) where
  apply_action_leaves :
      (id : Text) (a : LevelAction) (t : Tally) (s : S) → P s → P (apply_action storage id a t s).1
  unfolding apply_action
  apply_action_leaves id archive t s v =
      counted_leaves P archived_up (λ t. t) t _ (keeps.update_level_leaves id (negsuc 0) s v)
  apply_action_leaves id (downgrade l) t s v =
      counted_leaves P downgraded_up (λ t. t) t _ (keeps.update_level_leaves id (to_i32 l) s v)
  apply_action_leaves id (upgrade l) t s v =
      counted_leaves P upgraded_up (λ t. t) t _ (keeps.update_level_leaves id (to_i32 l) s v)
  apply_action_leaves id keep_level t s v = v

  module _ (decide : Memory F → ℕ → LevelAction) where
    apply_all_leaves :
        (now : ℕ) (ms : List (Memory F)) (t : Tally) (s : S)
        → P s
        → P (apply_all storage decide now ms t s).1
    unfolding apply_all
    apply_all_leaves now [] t s v = v
    apply_all_leaves now (m ∷ ms) t s v =
        apply_all_leaves now ms _ _ (apply_action_leaves m.id (decide m now) t s v)

    pub run_forgetting_once_leaves :
        (batch archive_days purge_days now : ℕ) (s : S)
        → P s
        → P (run_forgetting_once storage decide batch archive_days purge_days now s).1
    unfolding run_forgetting_once
    run_forgetting_once_leaves batch archive_days purge_days now s v = value_or_leaves P 0 _ (
        keeps.purge_invalidated_older_than_leaves purge_days _ (
          value_or_leaves P 0 _ (
            keeps.delete_archived_older_than_leaves archive_days _ (
              apply_all_leaves now
                (value_or {A = List (Memory F)} [] (storage.list_for_forgetting batch s)).0 no_tally
                _
                (value_or_leaves P {A = List (Memory F)} [] (storage.list_for_forgetting batch s)
                  (keeps.list_for_forgetting_leaves batch s v))))))
