-- ===== src/Tests/Scheduler.antt =====
-- Runs of the scheduler's passes.
use merkur_db.Base.Text.{codes, text_dec}
use merkur_db.Base.{ℕ, ◌≡◌, refl, List, [], ◌∷◌, some, false}
use merkur_db.Core.Types.{Memory, full, empty_report, delete}
use merkur_db.Scheduler.Consolidation.Guard.{execute_one_guarded}
use merkur_db.Scheduler.Consolidation.{Gathered, execute_one}
use merkur_db.Tests.Numbers.{tenths}
use merkur_db.Tests.Sample.{alice, bob, memory_of, hit_of, counting}

abbrev listed : List (Memory ℕ)
listed = memory_of alice 0 full ∷ memory_of bob 9 full ∷ []

-- A DELETE of a memory that is not among the candidates.
abbrev far_delete : Gathered ℕ
far_delete = record {
  memory = memory_of alice 0 full;
  verdict = record { action = delete; target_id = some (codes "mem_404"); reason = [] };
  candidates = hit_of bob 9 ∷ [];
  failed = false;
}

execute_one_guarded_example :
    execute_one tenths counting 5 ((alice, 10 ∷ []) ∷ []) far_delete empty_report 0
    ≡ (empty_report, 0)
unfolding text_dec
execute_one_guarded_example =
    execute_one_guarded tenths counting 5 ((alice, 10 ∷ []) ∷ []) far_delete empty_report 0 refl
      refl
