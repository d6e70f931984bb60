-- ===== src/Fusion/Rrf.antt =====
-- rrf_fuse_weighted of crates/core/src/search_fusion.rs. The hash map of scores is the list of its
-- entries; in which order a hash map gives them is shown not to matter (Fusion/Rrf/Ranking).
pub mod Scores
pub mod Ranking
use merkur_db.Base.Sort.{sort_by}
use merkur_db.Base.Text.{Text, text_eq, text_le}
use merkur_db.Base.{
  ℕ, zero, suc, Bool, true, false, ◌||◌, List, [], ◌∷◌, map, ◌==◌, if◌then◌else◌, take,
}
use merkur_db.Core.Float.{Float}
use merkur_db.Core.Types.{Map}

-- A ranked channel, best first. The scores in it are ignored.
abbrev pub Ranked : Type 0 → Type 0
Ranked F = List (Text × F)

module _ {F : Type 0} (f : Float F) where
  -- `*fused.entry(id).or_insert(0.0) += c`
  unfoldable pub bump : Text → F → Map F → Map F
  bump id c [] = (id, f.add (f.of_nat 0) c) ∷ []
  bump id c ((j, s) ∷ m) = if text_eq j id then (j, f.add s c) ∷ m else (j, s) ∷ bump id c m

  -- `weight / (k + rank as f64 + 1.0)`
  unfoldable pub contribution : F → F → ℕ → F
  contribution weight k rank = f.div weight (f.add (f.add k (f.of_nat rank)) (f.of_nat 1))

  -- The loop over one channel, from a rank on.
  unfoldable pub add_channel : F → F → ℕ → Ranked F → Map F → Map F
  unfolding bump contribution
  add_channel weight k rank [] m = m
  add_channel weight k rank ((id, score) ∷ hits) m =
      add_channel weight k (suc rank) hits (bump id (contribution weight k rank) m)

  unfoldable pub fuse_channels : Ranked F → Ranked F → F → F → F → Map F
  unfolding add_channel
  fuse_channels bm25 vector k bm25_weight vector_weight =
      add_channel vector_weight k 0 vector (add_channel bm25_weight k 0 bm25 [])

  -- `b.1.total_cmp(&a.1).then_with(|| a.0.cmp(&b.0)) != Greater`
  abbrev pub before : Text × F → Text × F → Bool
  before (a, s) (b, t) =
      if f.total_le t s then (if f.total_le s t then text_le a b else true) else false

  abbrev pub scaled : F → Text × F → Text × F
  scaled top (id, s) = (id, f.div s top)

  -- What follows the loops, on the entries in the order of the hash map.
  unfoldable pub rank_fused : F → F → ℕ → Map F → Ranked F
  unfolding sort_by
  rank_fused k weight_sum limit [] = []
  rank_fused k weight_sum limit (e ∷ m) =
      if limit == 0 || f.ge (f.of_nat 0) weight_sum
      then []
      else let top = f.div weight_sum (f.add k (f.of_nat 1)) in
        take limit (sort_by before (map (scaled top) (e ∷ m)))

  unfoldable pub rrf_fuse_weighted : Ranked F → Ranked F → F → F → F → ℕ → Ranked F
  unfolding fuse_channels rank_fused
  rrf_fuse_weighted bm25 vector k bm25_weight vector_weight limit =
      rank_fused k (f.add bm25_weight vector_weight) limit
        (fuse_channels bm25 vector k bm25_weight vector_weight)

  unfoldable pub rrf_fuse : Ranked F → Ranked F → F → ℕ → Ranked F
  unfolding rrf_fuse_weighted
  rrf_fuse bm25 vector k limit = rrf_fuse_weighted bm25 vector k (f.of_nat 1) (f.of_nat 1) limit
