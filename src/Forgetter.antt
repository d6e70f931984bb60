-- ===== src/Forgetter.antt =====
-- crates/forgetters/src/ebbinghaus.rs: the forgetting curve and the decision on a memory's level.
pub mod Ladder
use merkur_db.Base.{ℕ, ◌+◌, ◌-◌, ◌*◌, ◌/◌, ◌^◌, Bool, true, false, ◌&&◌, leb, if◌then◌else◌}
use merkur_db.Core.Float.{Float}
use merkur_db.Core.Types.{
  Memory, MemoryLevel, full, summary, title, archived, LevelAction, downgrade, upgrade, archive,
  keep_level,
}

pub record EbbinghausConfig (F : Type 0) : Type 0 where
  pub decay_factor : F
  pub half_life_seconds : F
  pub access_boost : F
  pub threshold_to_l1 : F
  pub threshold_to_l0 : F
  pub threshold_archive : F
  pub threshold_upgrade : F
  pub upgrade_min_access_count : ℕ

-- `EbbinghausConfig::default()`.
abbrev pub default_config : {F : Type 0} → Float F → EbbinghausConfig F
default_config f = record {
  decay_factor = f.lit 9 1;
  half_life_seconds = f.of_nat 86400;
  access_boost = f.lit 1 1;
  threshold_to_l1 = f.lit 3 1;
  threshold_to_l0 = f.lit 2 1;
  threshold_archive = f.lit 1 1;
  threshold_upgrade = f.lit 6 1;
  upgrade_min_access_count = 3;
}

module _ {F : Type 0} (f : Float F) (c : EbbinghausConfig F) where
  -- `(now - accessed_at).num_seconds().max(0)`: whole seconds, and 0 if `accessed_at` is ahead,
  -- where the subtraction stops at 0.
  unfoldable pub delta_seconds : Memory F → ℕ → ℕ
  delta_seconds m now = (now - m.accessed_at) / 10 ^ 9

  unfoldable pub compute_weight : Memory F → ℕ → F
  unfolding delta_seconds
  compute_weight m now =
      let delta = f.of_nat (delta_seconds m now) in
      let decay =
        if f.lt (f.of_nat 0) c.half_life_seconds
        then f.exp (f.div (f.mul (f.neg delta) f.ln_2) c.half_life_seconds)
        else f.of_nat 1 in
      let hits = f.ln (f.add (f.of_nat 1) (f.of_nat m.access_count)) in
      let access_bonus =
        f.fmin (f.add (f.of_nat 1) (f.div (f.mul c.access_boost hits) f.ln_2)) (f.of_nat 3) in
      f.mul (f.mul m.weight decay) access_bonus

  -- The last `match` of `decide`.
  decide_level : MemoryLevel → F → LevelAction
  decide_level full w = if f.lt w c.threshold_to_l1 then downgrade summary else keep_level
  decide_level summary w = if f.lt w c.threshold_to_l0 then downgrade title else keep_level
  decide_level title w = if f.lt w c.threshold_archive then archive else keep_level
  decide_level archived w = keep_level

  -- `decide` once the derived weight is known; the promotion comes before the last `match`.
  unfoldable pub decide_at : MemoryLevel → ℕ → F → LevelAction
  unfolding decide_level
  decide_at level hits w =
      if f.lt w c.threshold_archive
      then archive
      else if leb c.upgrade_min_access_count hits && f.ge w c.threshold_upgrade
      then elim level [
        | title ↦ upgrade summary
        | summary ↦ upgrade full
        | full ↦ decide_level full w
        | archived ↦ decide_level archived w
      ]
      else decide_level level w

  unfoldable pub decide : Memory F → ℕ → LevelAction
  unfolding decide_at
  decide m now = decide_at m.level m.access_count (compute_weight m now)
