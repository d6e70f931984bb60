-- ===== src/Tests/Fusion.antt =====
-- Runs of search fusion.
use mathlib.Core.List.Perm
use merkur_db.Base.Text.{codes}
use merkur_db.Base.{ℕ, ◌≡◌, [], ◌∷◌, none, arith, All}
use merkur_db.Core.Types.{get}
use merkur_db.Fusion.Dedup.Clusters.{Spread, IsCovered, mmr_dedup_clusters}
use merkur_db.Fusion.Dedup.{mmr_dedup}
use merkur_db.Fusion.Pack.{greedy_pack, Packed, greedy_pack_maximal}
use merkur_db.Fusion.Query.{escape_fts_query, Expression, escape_is_one_literal}
use merkur_db.Fusion.Recall.Provenance.{FetchesById, HasProvenance, hybrid_recall_provenance}
use merkur_db.Fusion.Recall.{default_fusion}
use merkur_db.Fusion.Rrf.Ranking.{rrf_deterministic}
use merkur_db.Fusion.Rrf.Scores.{Distinct, added_to, all_contributions, fuse_channels_scores}
use merkur_db.Fusion.Rrf.{Ranked, fuse_channels, rank_fused, rrf_fuse_weighted}
use merkur_db.Tests.Numbers.{tenths, tenths_lawful}
use merkur_db.Tests.Sample.{alice, bob, team, hit_of, counting}

abbrev words : Ranked ℕ
words = (alice, 10) ∷ (bob, 20) ∷ []

abbrev near : Ranked ℕ
near = (bob, 90) ∷ []

escape_is_one_literal_example :
    Expression (codes "say \"tea\" now") (escape_fts_query (codes "say \"tea\" now"))
escape_is_one_literal_example = escape_is_one_literal (codes "say \"tea\" now")

fuse_channels_scores_example :
    (get bob (fuse_channels tenths words near 600 10 10)
      ≡ added_to tenths none (all_contributions tenths bob words near 600 10 10))
    × Distinct (fuse_channels tenths words near 600 10 10)
fuse_channels_scores_example = fuse_channels_scores tenths bob words near 600 10 10

rrf_deterministic_example :
    rank_fused tenths 600 20 5 (fuse_channels tenths words near 600 10 10)
    ≡ rrf_fuse_weighted tenths words near 600 10 10 5
rrf_deterministic_example =
    rrf_deterministic tenths_lawful words near 600 10 10 5
      (fuse_channels tenths words near 600 10 10) Perm.rfl

greedy_pack_maximal_example :
    Packed 4
      (hit_of alice 9 ∷ hit_of bob 8 ∷ [])
      (greedy_pack (hit_of alice 9 ∷ hit_of bob 8 ∷ []) 4)
greedy_pack_maximal_example = greedy_pack_maximal (hit_of alice 9 ∷ hit_of bob 8 ∷ []) 4

mmr_dedup_clusters_example :
    Spread tenths 9 [] (mmr_dedup tenths (hit_of alice 9 ∷ hit_of bob 8 ∷ []) 9)
    × All
        (IsCovered tenths 9 (mmr_dedup tenths (hit_of alice 9 ∷ hit_of bob 8 ∷ []) 9))
        (hit_of alice 9 ∷ hit_of bob 8 ∷ [])
mmr_dedup_clusters_example =
    mmr_dedup_clusters tenths tenths_lawful (hit_of alice 9 ∷ hit_of bob 8 ∷ []) 9

pub counting-FetchesById : FetchesById tenths counting
unfolding counting
counting-FetchesById id s t m e = ground arith

hybrid_recall_provenance_example :
    HasProvenance tenths counting (10 ∷ []) (codes "green tea") team 3 1 (default_fusion tenths) 0
hybrid_recall_provenance_example =
    hybrid_recall_provenance tenths counting counting-FetchesById tenths_lawful (10 ∷ [])
      (codes "green tea") team 3 1 (default_fusion tenths) 0
