-- ===== src/Forgetter/Ladder.antt =====
-- `decide` of crates/forgetters/src/ebbinghaus.rs as a walk on the ladder of levels.
use merkur_db.Base.{ℕ, zero, suc, ◌≤◌, true, false, ◌≡◌, ◌≢◌, ◌⊎◌, Option, none, some, arith}
use merkur_db.Core.Float.{Float, FloatLaws}
use merkur_db.Core.Types.{
  Memory, MemoryLevel, full, summary, title, archived, LevelAction, downgrade, upgrade, archive,
  keep_level,
}
use merkur_db.Forgetter.{EbbinghausConfig, compute_weight, decide_level, decide_at, decide}

abbrev pub one_down : MemoryLevel → Option MemoryLevel
one_down full = some summary
one_down summary = some title
one_down title = none
one_down archived = none

abbrev pub one_up : MemoryLevel → Option MemoryLevel
one_up full = none
one_up summary = some full
one_up title = some summary
one_up archived = none

abbrev pub NotDown : LevelAction → Type 0
NotDown a = (k : MemoryLevel) → a ≢ downgrade k

abbrev pub NotUp : LevelAction → Type 0
NotUp a = (k : MemoryLevel) → a ≢ upgrade k

-- `run_forgetting_once` writes this level for an action.
abbrev pub moved : MemoryLevel → LevelAction → MemoryLevel
moved l (downgrade k) = k
moved l (upgrade k) = k
moved l archive = archived
moved l keep_level = l

module _ {F : Type 0} (f : Float F) (c : EbbinghausConfig F) where
  -- The level after a number of forgetting ticks at the same weight and access count.
  pub walk : ℕ → MemoryLevel → ℕ → F → MemoryLevel
  walk zero l hits w = l
  walk (suc n) l hits w = walk n (moved l (decide_at f c l hits w)) hits w

  -- What an action of `decide` says of the level and the weight it was decided at.
  abbrev pub Justified : MemoryLevel → ℕ → F → LevelAction → Type 0
  Justified l hits w archive = f.lt w c.threshold_archive ≡ true
  Justified l hits w (upgrade k) =
      (one_up l ≡ some k)
      × (c.upgrade_min_access_count ≤ hits)
      × (f.ge w c.threshold_upgrade ≡ true)
      × (f.lt w c.threshold_archive ≡ false)
  Justified l hits w (downgrade k) =
      (one_down l ≡ some k)
      × (f.lt w c.threshold_archive ≡ false)
      × ((f.lt w c.threshold_to_l1 ≡ true) ⊎ (f.lt w c.threshold_to_l0 ≡ true))
  Justified l hits w keep_level = f.lt w c.threshold_archive ≡ false

  module _ (laws : FloatLaws f) (bars : f.lt c.threshold_to_l1 c.threshold_upgrade ≡ true) where
    below_upgrade : (w : F) → f.lt w c.threshold_to_l1 ≡ true → f.ge w c.threshold_upgrade ≡ false
    below_upgrade w h =
        laws.ge_of_lt w c.threshold_upgrade (laws.lt_trans w c.threshold_to_l1 _ h bars)

    up_then-NotDown :
        (l k : MemoryLevel) (hits : ℕ) (w : F)
        → decide_at f c l hits w ≡ upgrade k
        → NotDown (decide_at f c k hits w)
    unfolding decide_at decide_level
    up_then-NotDown full k hits w h j e = ground (arith, below_upgrade w)
    up_then-NotDown summary full hits w h j e = ground (arith, below_upgrade w)
    up_then-NotDown summary k hits w h j e = ground (arith, below_upgrade w)
    up_then-NotDown title summary hits w h j e = ground (arith, below_upgrade w)
    up_then-NotDown title k hits w h j e = ground (arith, below_upgrade w)
    up_then-NotDown archived k hits w h j e = ground (arith, below_upgrade w)

    down_then-NotUp :
        (l k : MemoryLevel) (hits : ℕ) (w : F)
        → decide_at f c l hits w ≡ downgrade k
        → NotUp (decide_at f c k hits w)
    unfolding decide_at decide_level
    down_then-NotUp full summary hits w h j e = ground (arith, below_upgrade w)
    down_then-NotUp full k hits w h j e = ground (arith, below_upgrade w)
    down_then-NotUp summary title hits w h j e = ground (arith, below_upgrade w)
    down_then-NotUp summary k hits w h j e = ground (arith, below_upgrade w)
    down_then-NotUp title k hits w h j e = ground (arith, below_upgrade w)
    down_then-NotUp archived k hits w h j e = ground (arith, below_upgrade w)

    -- No flip-flop: when the promotion bar lies above the first downgrade bar, a memory that was
    -- just promoted is not downgraded by the next decision at the same time, and one that was
    -- just downgraded is not promoted back.
    pub decide_no_flip_flop :
        (m : Memory F) (now : ℕ) (k : MemoryLevel)
        → (decide f c m now ≡ upgrade k → NotDown (decide f c (record m { level = k }) now))
          × (decide f c m now ≡ downgrade k → NotUp (decide f c (record m { level = k }) now))
    unfolding decide compute_weight
    decide_no_flip_flop m now k =
        let w = compute_weight f c m now in
        (up_then-NotDown m.level k m.access_count w, down_then-NotUp m.level k m.access_count w)
