-- ===== src/Fusion/Rrf/Scores.antt =====
-- The scores of rrf_fuse_weighted: each id is scored once, by the sum over the places where the
-- channels rank it.
use merkur_db.Base.Text.{Text, text_eq}
use merkur_db.Base.{
  ℕ, suc, ◌≡◌, refl, ap, ◌∙◌, List, [], ◌∷◌, ◌++◌, Option, none, some, arith, if◌then◌else◌, All,
  All-imp,
}
use merkur_db.Core.Float.{Float}
use merkur_db.Core.Types.{Map, get}
use merkur_db.Fusion.Rrf.{Ranked, bump, contribution, add_channel, fuse_channels}

-- No two entries have one key.
abbrev pub Distinct {ℓ} : {V : Type ℓ} → Map V → Type ℓ
Distinct [] = Unit
Distinct (e ∷ m) = (get e.0 m ≡ none) × Distinct m

-- Under distinct keys each entry is what a lookup finds.
pub get_entries {ℓ} : {V : Type ℓ} (m : Map V) → Distinct m → All (λ e. get e.0 m ≡ some e.1) m
unfolding get
get_entries [] d = tt
get_entries {V} ((j, v) ∷ m) (fresh, d) = (ground arith, All-imp later m (get_entries m d))
  where
    later : (e : Text × V) → get e.0 m ≡ some e.1 → get e.0 ((j, v) ∷ m) ≡ some e.1
    later e h = ground arith

module _ {F : Type 0} (f : Float F) where
  abbrev or_zero : Option F → F
  or_zero none = f.of_nat 0
  or_zero (some s) = s

  get-bump :
      (q id : Text) (c : F) (m : Map F)
      → get q (bump f id c m)
        ≡ (if text_eq q id then some (f.add (or_zero (get id m)) c) else get q m)
  unfolding bump get
  get-bump q id c [] = ground arith
  get-bump q id c ((j, s) ∷ m) = ground (arith, get-bump q id c m)

  bump-Distinct : (id : Text) (c : F) (m : Map F) → Distinct m → Distinct (bump f id c m)
  unfolding bump get
  bump-Distinct id c [] d = (refl, tt)
  bump-Distinct id c ((j, s) ∷ m) (fresh, d) =
      ground (arith, get-bump j id c m, bump-Distinct id c m d)

  add_channel-Distinct :
      (w k : F) (rank : ℕ) (hits : Ranked F) (m : Map F)
      → Distinct m
      → Distinct (add_channel f w k rank hits m)
  unfolding add_channel
  add_channel-Distinct w k rank [] m d = d
  add_channel-Distinct w k rank ((id, score) ∷ hits) m d =
      add_channel-Distinct w k (suc rank) hits _ (bump-Distinct id _ m d)

  -- The contributions of a channel to an id, one for each rank where the channel holds it.
  pub contributions : Text → F → F → ℕ → Ranked F → List F
  contributions q w k rank [] = []
  contributions q w k rank ((id, score) ∷ hits) =
      if text_eq q id
      then contribution f w k rank ∷ contributions q w k (suc rank) hits
      else contributions q w k (suc rank) hits

  -- The score after more contributions: `0.0 + c1 + c2 + …`, or no entry where there are none.
  pub added_to : Option F → List F → Option F
  added_to o [] = o
  added_to o (c ∷ cs) = added_to (some (f.add (or_zero o) c)) cs

  get-add_channel :
      (q : Text) (w k : F) (rank : ℕ) (hits : Ranked F) (m : Map F)
      → get q (add_channel f w k rank hits m) ≡ added_to (get q m) (contributions q w k rank hits)
  unfolding add_channel contributions added_to
  get-add_channel q w k rank [] m = refl
  get-add_channel q w k rank ((id, score) ∷ hits) m =
      let m' = bump f id (contribution f w k rank) m in
      let ih = get-add_channel q w k (suc rank) hits m' in
      let step = get-bump q id (contribution f w k rank) m in ground (arith, ih, step)

  added_to-append :
      (o : Option F) (xs ys : List F) → added_to (added_to o xs) ys ≡ added_to o (xs ++ ys)
  unfolding added_to
  added_to-append o [] ys = refl
  added_to-append o (x ∷ xs) ys = added_to-append (some (f.add (or_zero o) x)) xs ys

  -- Everything that the two channels add to the score of an id: first the full-text ranks, then
  -- the vector ranks.
  pub all_contributions : Text → Ranked F → Ranked F → F → F → F → List F
  all_contributions q bm25 vector k bm25_weight vector_weight =
      contributions q bm25_weight k 0 bm25 ++ contributions q vector_weight k 0 vector

  -- The fused map holds an id exactly once, and its score is the sum of `weight / (k + rank + 1)`
  -- over all the ranks at which either channel holds the id; an id that no channel holds is absent.
  pub fuse_channels_scores :
      (q : Text) (bm25 vector : Ranked F) (k bm25_weight vector_weight : F)
      → (get q (fuse_channels f bm25 vector k bm25_weight vector_weight)
          ≡ added_to none (all_contributions q bm25 vector k bm25_weight vector_weight))
        × Distinct (fuse_channels f bm25 vector k bm25_weight vector_weight)
  unfolding fuse_channels get all_contributions
  fuse_channels_scores q bm25 vector k bw vw =
      let m = add_channel f bw k 0 bm25 [] in
      (
        get-add_channel q vw k 0 vector m
            ∙ ap (λ o. added_to o (contributions q vw k 0 vector))
                (get-add_channel q bw k 0 bm25 [])
            ∙ added_to-append none (contributions q bw k 0 bm25) (contributions q vw k 0 vector),
        add_channel-Distinct vw k 0 vector m (add_channel-Distinct bw k 0 bm25 [] tt),
      )
