-- ===== src/Fusion/Recall/Provenance.antt =====
-- Where the results of hybrid_recall of crates/core/src/search_fusion.rs come from.
use merkur_db.Base.Sort.{sort_by, IsSorted, sort_by-IsSorted, All-sort_by, length-sort_by}
use merkur_db.Base.Text.{Text, text_eq}
use merkur_db.Base.{
  ℕ, ◌≤◌, ◌≡◌, refl, false, List, [], ◌∷◌, Option, none, some, arith, map, if◌then◌else◌, In, All,
  All-imp, Bool-cases, Option-cases, inl, inr, length, max,
}
use merkur_db.Core.Float.{Float, FloatLaws}
use merkur_db.Core.Storage.{Storage, Act, or_else, rescued}
use merkur_db.Core.Types.{Map, Memory, ScoredMemory, get, insert, MerkurResult, ok, err}
use merkur_db.Fusion.Dedup.{by_score}
use merkur_db.Fusion.Query.{is_bm25_viable}
use merkur_db.Fusion.Rrf.Ranking.{rrf_ordered}
use merkur_db.Fusion.Rrf.{Ranked, rrf_fuse_weighted}
use merkur_db.Fusion.Recall.{
  ScoreWeights, FusionParams, remove_key, by_id_from, scored_from_memory, fetched,
  composite_score_with, saturating_mul, hydrate_one, hydrate, text_channel, hybrid_recall,
}

module _ {F : Type 0} where
  -- A map of hits by their own ids.
  abbrev Keyed : Map (ScoredMemory F) → Type 0
  Keyed m = (q : Text) (h : ScoredMemory F) → get q m ≡ some h → h.id ≡ q

  get-insert :
      (k q : Text) (v : ScoredMemory F) (m : Map (ScoredMemory F))
      → get q (insert k v m) ≡ (if text_eq q k then some v else get q m)
  unfolding get insert
  get-insert k q v [] = ground arith
  get-insert k q v ((j, w) ∷ m) = ground (arith, get-insert k q v m)

  get-remove_key :
      (k q : Text) (m : Map (ScoredMemory F))
      → get q (remove_key k m) ≡ (if text_eq q k then none else get q m)
  unfolding get remove_key
  get-remove_key k q [] = ground arith
  get-remove_key k q ((j, w) ∷ m) = ground (arith, get-remove_key k q m)

  nil-Keyed : Keyed []
  unfolding get
  nil-Keyed q h e = absurd (ground arith)

  by_id_from-Keyed :
      (hits : List (ScoredMemory F)) (m : Map (ScoredMemory F))
      → Keyed m
      → Keyed (by_id_from hits m)
  unfolding by_id_from
  by_id_from-Keyed [] m k = k
  by_id_from-Keyed (h ∷ hits) m k =
      by_id_from-Keyed hits (insert h.id h m)
        (λ q v e. ground (arith, get-insert h.id q h m, k q v))

module _ {S F : Type 0} (f : Float F) (storage : Storage S F) where
  -- `get_memory` answers with the memory that was asked for.
  abbrev pub FetchesById : Type 0
  FetchesById =
      (id : Text) (s t : S) (m : Memory F) → storage.get_memory id s ≡ (ok (some m), t) → m.id ≡ id

  -- A result comes from a fused id whose relevance is not below the floor, and carries the
  -- composite of that relevance with its own weight and importance.
  abbrev pub IsScored : ScoreWeights F → F → Ranked F → ScoredMemory F → Type 0
  IsScored w floor fused m =
      (r : F) × In (m.id, r) fused
      × (f.lt r floor ≡ false)
      × (m.score ≡ composite_score_with f w r m.weight m.importance)

  -- The run of a recall, and where its results come from.
  abbrev pub HasProvenance : List F → Text → Text → ℕ → F → FusionParams F → S → Type 0
  HasProvenance query_vec raw_query namespace limit relevance_floor fusion s =
      (vec_hits : List (ScoredMemory F)) × (bm25 : Ranked F) × (s1 s2 t : S) × (out : List
        (ScoredMemory F))
      × (or_else (storage.vector_search_ns query_vec namespace (max (saturating_mul limit 2) limit))
            [] s
          ≡ (ok vec_hits, s1))
      × (text_channel f storage raw_query namespace (max (saturating_mul limit 2) limit) s1
          ≡ (ok bm25, s2))
      × (hybrid_recall f storage query_vec raw_query namespace limit relevance_floor fusion s
          ≡ (ok out, t))
      × IsSorted (by_score f) out
      × (length out ≤ limit)
      × All
          (IsScored fusion.score relevance_floor (
            rrf_fuse_weighted f bm25 (map (λ h. (h.id, h.score)) vec_hits) fusion.rrf_k
              fusion.bm25_weight fusion.vector_weight limit))
          out

  module _ (fetches : FetchesById) where
    fetched-id :
        (id : Text) (s : S) (r : F) (m : ScoredMemory F)
        → (fetched r (storage.get_memory id s)).0 ≡ some m
        → m.id ≡ id
    unfolding fetched scored_from_memory
    fetched-id id s r m e = go (storage.get_memory id s) refl e
      where
        go :
            (out : MerkurResult (Option (Memory F)) × S)
            → storage.get_memory id s ≡ out
            → (fetched r out).0 ≡ some m
            → m.id ≡ id
        go (ok (some v), t) h k = ground (arith, fetches id s t v h)
        go (ok none, t) h k = absurd (ground arith)
        go (err e, t) h k = absurd (ground arith)

    hydrate_one-id :
        (by_id : Map (ScoredMemory F)) (id : Text) (r : F) (s : S) (m : ScoredMemory F)
        → Keyed by_id
        → (hydrate_one f storage by_id id r s).0 ≡ some m
        → m.id ≡ id
    unfolding hydrate_one
    hydrate_one-id by_id id r s m keyed e = elim (Option-cases (get id by_id)) [
      | inl none_here ↦ fetched-id id s r m (rw (none_here, hydrate_one) at e)
      | inr (h, here) ↦ ground (arith, keyed id h)
    ]

    weaker :
        (w : ScoreWeights F) (floor : F) (e : Text × F) (fused : Ranked F) (m : ScoredMemory F)
        → IsScored w floor fused m
        → IsScored w floor (e ∷ fused) m
    weaker w floor e fused m (r, i, a, b) = (r, inr i, a, b)

    hydrate-IsScored :
        (w : ScoreWeights F) (floor : F) (by_id : Map (ScoredMemory F)) (fused : Ranked F) (s : S)
        → Keyed by_id
        → All (IsScored w floor fused) (hydrate f storage w floor by_id fused s).0
          × (length (hydrate f storage w floor by_id fused s).0 ≤ length fused)
    unfolding hydrate
    hydrate-IsScored w floor by_id [] s k = (tt, omega arith)
    hydrate-IsScored w floor by_id ((id, r) ∷ fused) s k =
        let found = hydrate_one f storage by_id id r s in
        let (skip, n) = hydrate-IsScored w floor by_id fused s k in
        let (rest, n') =
          hydrate-IsScored w floor (remove_key id by_id) fused found.1
            (λ q h e. ground (arith, get-remove_key id q by_id, k q h)) in
        elim (Bool-cases (f.lt r floor)) [
          | inl low ↦ rw low (All-imp (weaker w floor (id, r) fused) _ skip, omega arith)
          | inr high ↦ elim (Option-cases found.0) [
            | inl e ↦ rw (high, e) (All-imp (weaker w floor (id, r) fused) _ rest, omega arith)
            | inr (m, e) ↦
                rw (high, e)
                  (
                    (
                      (r, inl (ground (arith, hydrate_one-id by_id id r s m k e)), high, refl),
                      All-imp (weaker w floor (id, r) fused) _ rest,
                    ),
                    omega arith,
                  )
          ]
        ]

    -- A rescued call succeeds.
    or_else-ok :
        {A : Type 0} (m : Act S A) (d : A) (s : S) → (a : A) × (t : S) × (or_else m d s ≡ (ok a, t))
    or_else-ok {A} m d s = go (m s)
      where
        go : (r : MerkurResult A × S) → (a : A) × (t : S) × (rescued d r ≡ (ok a, t))
        go (ok a, t) = (a, t, refl)
        go (err e, t) = (d, t, refl)

    text_channel-ok :
        (raw_query namespace : Text) (n : ℕ) (s : S)
        → (hits : Ranked F) × (t : S) × (text_channel f storage raw_query namespace n s
            ≡ (ok hits, t))
    unfolding text_channel
    text_channel-ok raw_query namespace n s = elim (Bool-cases (is_bm25_viable raw_query)) [
      | inl h ↦ rw h (or_else-ok (storage.text_search raw_query namespace n) [] s)
      | inr h ↦ rw h ([], s, refl)
    ]

    -- Recall never fails: a channel that fails counts as empty. With the two channels' hits fused,
    -- every result comes from a fused id whose relevance reaches the floor, under the composite of
    -- that relevance; the results are ordered by falling score and at most `limit`.
    pub hybrid_recall_provenance :
        (laws : FloatLaws f) (query_vec : List F) (raw_query namespace : Text) (limit : ℕ)
        (relevance_floor : F) (fusion : FusionParams F) (s : S)
        → HasProvenance query_vec raw_query namespace limit relevance_floor fusion s
    unfolding hybrid_recall
    hybrid_recall_provenance laws query_vec raw_query namespace limit floor fusion s =
        let n = max (saturating_mul limit 2) limit in
        let (vec_hits, s1, e1) = or_else-ok (storage.vector_search_ns query_vec namespace n) [] s in
        let (bm25, s2, e2) = text_channel-ok raw_query namespace n s1 in
        let vector : Ranked F = map (λ h. (h.id, h.score)) vec_hits in
        let fused =
          rrf_fuse_weighted f bm25 vector fusion.rrf_k fusion.bm25_weight fusion.vector_weight
            limit in
        let keyed = by_id_from-Keyed vec_hits [] nil-Keyed in
        let (scored, count) =
          hydrate-IsScored fusion.score floor (by_id_from vec_hits []) fused s2 keyed in
        let out = hydrate f storage fusion.score floor (by_id_from vec_hits []) fused s2 in
        let ranked =
          rrf_ordered laws bm25 vector fusion.rrf_k fusion.bm25_weight fusion.vector_weight limit in
        (
          vec_hits,
          bm25,
          s1,
          s2,
          out.1,
          sort_by (by_score f) out.0,
          e1,
          e2,
          rw (e1, e2),
          sort_by-IsSorted (by_score f) (λ a b c h k. laws.total_le_trans _ _ _ k h)
              (λ a b h. laws.total_le_total _ _ h) out.0,
          ground (arith, length-sort_by (by_score f) out.0, count, ranked),
          All-sort_by (by_score f) _ out.0 scored,
        )
