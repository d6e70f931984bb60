-- ===== src/Scheduler.antt =====
-- crates/server/src/scheduler.rs: one pass of consolidation and one pass of forgetting, over the
-- Storage, Consolidator and Forgetter traits. The clock readings are arguments.
pub mod Forgetting
pub mod Consolidation
use merkur_db.Base.{ℕ, Bool, true, false}
use merkur_db.Core.Types.{MerkurResult, ok, err}

-- `match call { Ok(_) => …, Err(_) => … }` on a running count.
abbrev pub counted : {S A R : Type 0} → (R → R) → (R → R) → R → MerkurResult A × S → R × S
counted good bad r (ok a, s) = (good r, s)
counted good bad r (err e, s) = (bad r, s)

-- `unwrap_or(d)` and `Err(_) => d`: the value and the state.
abbrev pub value_or : {S A : Type 0} → A → MerkurResult A × S → A × S
value_or d (ok a, s) = (a, s)
value_or d (err e, s) = (d, s)
