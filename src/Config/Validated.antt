-- ===== src/Config/Validated.antt =====
-- What a configuration that passes validate of crates/server/src/config.rs gives the components.
use merkur_db.Base.{
  ℕ, ◌≡◌, ◌⊎◌, inl, inr, refl, Bool, true, false, List, [], ◌∷◌, Option, none, some, All, arith,
  ◌&&◌, ◌||◌, not,
}
use merkur_db.Config.{
  Config, none_of, checks, validate, bad_fusion, bad_channels, is_unsafe, is_wildcard, some_with,
  fusion_params, forgetter_config,
}
use merkur_db.Core.Float.{Float, FloatLaws}
use merkur_db.Core.Types.{Memory, MemoryLevel, upgrade, downgrade, ok}
use merkur_db.Forgetter.Ladder.{NotDown, NotUp, decide_no_flip_flop}
use merkur_db.Forgetter.{decide}
use merkur_db.Fusion.Recall.{default_fusion}
use merkur_db.Server.Write.{is_empty}

none_of_ok : (bs : List Bool) → none_of bs ≡ ok tt → All (λ b. b ≡ false) bs
unfolding none_of
none_of_ok [] h = tt
none_of_ok (true ∷ bs) h = absurd (cc)
none_of_ok (false ∷ bs) h = (refl, none_of_ok bs h)

open_only_in_dev :
    (dev wild bare off : Bool)
    → (not dev && (wild || (bare && not off))) ≡ false
    → (dev ≡ true) ⊎ ((wild ≡ false) × ((bare ≡ false) ⊎ (off ≡ true)))
open_only_in_dev true wild bare off h = inl refl
open_only_in_dev false true bare off h = absurd (ground arith)
open_only_in_dev false false false off h = inr (refl, inl refl)
open_only_in_dev false false true true h = inr (refl, inr refl)
open_only_in_dev false false true false h = absurd (ground arith)

module _ {F : Type 0} (f : Float F) (c : Config F) where
  -- The last three tests, of a configuration that passes all.
  validated :
      validate f c ≡ ok tt
      → (some_with (bad_fusion f) c.retrieval.fusion ≡ false)
        × (f.ge c.forgetting.threshold_to_l1 c.forgetting.threshold_upgrade ≡ false)
        × (is_unsafe f c ≡ false)
  unfolding validate checks
  validated valid =
      let last = (none_of_ok (checks f c) valid).1.1.1.1.1.1.1.1.1 in (last.0, last.1.0, last.1.1.0)

  -- Two numbers, neither of them a NaN: the one that is not at least the other lies below it.
  abbrev pub Comparable : F → F → Type 0
  Comparable a b = f.ge a b ≡ false → f.lt a b ≡ true

  -- The forgetter of a validated configuration, whose thresholds are numbers, does not downgrade at
  -- once what it promoted, nor promote what it downgraded.
  pub validate-decide :
      (laws : FloatLaws f)
      → validate f c ≡ ok tt
      → Comparable c.forgetting.threshold_to_l1 c.forgetting.threshold_upgrade
      → (m : Memory F) (now : ℕ) (k : MemoryLevel)
      → (decide f (forgetter_config c) m now ≡ upgrade k
          → NotDown (decide f (forgetter_config c) (record m { level = k }) now))
        × (decide f (forgetter_config c) m now ≡ downgrade k
            → NotUp (decide f (forgetter_config c) (record m { level = k }) now))
  unfolding forgetter_config
  validate-decide laws valid numbers m now k =
      let (fusion, bars, safe) = validated valid in
      decide_no_flip_flop f (forgetter_config c) laws (numbers bars) m now k

  -- A service is open only in development: otherwise the origins are restricted, and there are
  -- tokens or authentication was turned off on purpose.
  abbrev pub Guarded : Type 0
  Guarded =
      (c.server.dev_mode ≡ true)
      ⊎ ((is_wildcard c.server.cors_allow_origin ≡ false)
          × ((is_empty c.auth.tokens ≡ false) ⊎ (c.auth.disabled ≡ true)))

  safe-Guarded : is_unsafe f c ≡ false → Guarded
  unfolding is_unsafe
  safe-Guarded h =
      open_only_in_dev c.server.dev_mode (is_wildcard c.server.cors_allow_origin)
        (is_empty c.auth.tokens) c.auth.disabled h

  -- A validated configuration is guarded: in development mode, or with restricted origins and
  -- with tokens or authentication turned off on purpose.
  pub validate-Guarded : validate f c ≡ ok tt → Guarded
  validate-Guarded valid = let (fusion, bars, safe) = validated valid in safe-Guarded safe

  channels_of :
      (g : Option _)
      → c.retrieval.fusion ≡ g
      → some_with (bad_fusion f) g ≡ false
      → bad_channels f (f.of_nat 1) (f.of_nat 1) ≡ false
      → bad_channels f (fusion_params f c).bm25_weight (fusion_params f c).vector_weight ≡ false
  unfolding fusion_params default_fusion bad_fusion
  channels_of none e h one = rw e one
  channels_of (some g) e h one = rw e (ground arith)

  -- The fusion parameters of a validated configuration have no negative channel weight, nor both
  -- weights zero, provided that the default weight of one passes the same test.
  validate-fusion_params :
      validate f c ≡ ok tt
      → bad_channels f (f.of_nat 1) (f.of_nat 1) ≡ false
      → bad_channels f (fusion_params f c).bm25_weight (fusion_params f c).vector_weight ≡ false
  validate-fusion_params valid one =
      let (fusion, bars, safe) = validated valid in channels_of c.retrieval.fusion refl fusion one
