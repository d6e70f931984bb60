-- ===== src/Scheduler/Forgetting/Counts.antt =====
-- The counts that run_forgetting_once of crates/server/src/scheduler.rs returns.
use merkur_db.Base.Int.{ℤ}
use merkur_db.Base.Text.{Text}
use merkur_db.Base.{ℕ, ◌+◌, ◌≡◌, Bool, true, false, List, keep, length}
use merkur_db.Core.Storage.{Storage}
use merkur_db.Core.Types.{Memory, LevelAction, downgrade, upgrade, archive, ok}
use merkur_db.Scheduler.Forgetting.{Tally}

abbrev pub is_archive : LevelAction → Bool
is_archive archive = true
is_archive _ = false

abbrev pub is_downgrade : LevelAction → Bool
is_downgrade (downgrade level) = true
is_downgrade _ = false

abbrev pub is_upgrade : LevelAction → Bool
is_upgrade (upgrade level) = true
is_upgrade _ = false

module _ {S F : Type 0} (storage : Storage S F) (decide : Memory F → ℕ → LevelAction) where
  -- `update_level` succeeds.
  abbrev pub NeverFails : Type 0
  NeverFails =
      (id : Text) (level : ℤ) (s : S) → (t : S) × (storage.update_level id level s ≡ (ok tt, t))

  abbrev pub decided : (LevelAction → Bool) → ℕ → List (Memory F) → ℕ
  decided p now memories = length (keep (λ m. p (decide m now)) memories)

  abbrev Adds : Tally → Tally → ℕ → ℕ → ℕ → Type 0
  Adds t u a d g =
      (u.archived ≡ t.archived + a)
      × (u.downgraded ≡ t.downgraded + d)
      × (u.upgraded ≡ t.upgraded + g)

  abbrev one_if : Bool → ℕ
  one_if true = 1
  one_if false = 0
