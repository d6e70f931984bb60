-- ===== src/Fusion/Dedup/Clusters.antt =====
-- What mmr_dedup of crates/core/src/search_fusion.rs keeps and what it drops.
use merkur_db.Base.Sort.{sort_by, IsSorted, sort_by-IsSorted, All-of_sort_by}
use merkur_db.Base.{
  ℕ, ◌≡◌, refl, sym, ap, ◌∙◌, true, false, List, [], ◌∷◌, ◌++◌, map, any, any-map, any-In, In,
  All-In, In-append_left, In-append_right, All, All-imp, All-append, Bool-cases, inl, inr, ◌⊎◌,
}
use merkur_db.Core.Float.{Float, FloatLaws}
use merkur_db.Core.Types.{ScoredMemory}
use merkur_db.Fusion.Dedup.{jaccard, word_set, repeats, dedup_loop, by_score, mmr_dedup, similar}
use mathlib.Core.List.{append_assoc, append-nil, map-append}
use mathlib.Core.Path.{subst}

module _ {F : Type 0} (f : Float F) where
  -- No item is similar to one before it.
  pub Spread : F → List (ScoredMemory F) → List (ScoredMemory F) → Type 0
  Spread threshold seen [] = Unit
  Spread threshold seen (m ∷ ms) =
      (any (similar f threshold m) seen ≡ false) × Spread threshold (seen ++ m ∷ []) ms

  -- An item is among the kept ones, or similar to a kept one of at least its score.
  abbrev pub IsCovered : F → List (ScoredMemory F) → ScoredMemory F → Type 0
  IsCovered threshold kept m =
      (k : ScoredMemory F) × In k kept
      × ((k ≡ m) ⊎ (similar f threshold m k ≡ true))
      × (f.total_le m.score k.score ≡ true)

  abbrev words : List (ScoredMemory F) → List (List (List ℕ))
  words = map (λ k. word_set k.content)

  -- The kept items from `kept` on, with the claims about the items that were still to come.
  abbrev Loops : F → List (ScoredMemory F) → List (ScoredMemory F) → List (ScoredMemory F) → Type 0
  Loops threshold kept items r =
      (more : List (ScoredMemory F)) × (r ≡ kept ++ more)
      × Spread threshold kept more
      × All (IsCovered threshold (kept ++ more)) items

  IsCovered-later :
      (threshold : F) (kept more : List (ScoredMemory F)) (m : ScoredMemory F)
      → IsCovered threshold kept m
      → IsCovered threshold (kept ++ more) m
  IsCovered-later threshold kept more m (k, i, s, le) = (k, In-append_left k kept more i, s, le)

  repeats-words :
      (threshold : F) (m : ScoredMemory F) (kept : List (ScoredMemory F))
      → repeats f threshold (word_set m.content) (words kept) ≡ any (similar f threshold m) kept
  unfolding repeats
  repeats-words threshold m kept =
      any-map (λ e. f.ge (jaccard f (word_set m.content) e) threshold)
        (λ (k : ScoredMemory F). word_set k.content) kept

  -- A dropped item is covered by the kept one that it repeats.
  Loops-skip :
      (threshold : F) (m : ScoredMemory F) (items kept : List (ScoredMemory F))
      → any (similar f threshold m) kept ≡ true
      → All (λ k. f.total_le m.score k.score ≡ true) kept
      → Loops threshold kept items (dedup_loop f threshold items kept (words kept))
      → Loops threshold kept (m ∷ items) (dedup_loop f threshold (m ∷ items) kept (words kept))
  unfolding dedup_loop
  Loops-skip threshold m items kept h above (more, e, sp, cov) =
      let (k, i, t) = any-In (similar f threshold m) kept h in
      let le = All-In (λ k. f.total_le m.score k.score ≡ true) k kept above i in
      (
        more,
        rw (repeats-words threshold m kept, h) e,
        sp,
        ((k, In-append_left k kept more i, inr t, le), cov),
      )

  -- A kept item is covered by itself.
  Loops-keep :
      (threshold : F) (m : ScoredMemory F) (items kept : List (ScoredMemory F))
      → any (similar f threshold m) kept ≡ false
      → f.total_le m.score m.score ≡ true
      → Loops threshold
          (kept ++ m ∷ [])
          items
          (dedup_loop f threshold items (kept ++ m ∷ []) (words (kept ++ m ∷ [])))
      → Loops threshold kept (m ∷ items) (dedup_loop f threshold (m ∷ items) kept (words kept))
  unfolding dedup_loop Spread
  Loops-keep threshold m items kept h self (more, e, sp, cov) =
      let joined = append_assoc kept (m ∷ []) more in
      (
        m ∷ more,
        rw (repeats-words threshold m kept, h)
            (ap (dedup_loop f threshold items (kept ++ m ∷ []))
                (sym (map-append (λ (k : ScoredMemory F). word_set k.content) kept (m ∷ [])))
              ∙ e
              ∙ joined),
        (h, sp),
        (
          (m, In-append_right m kept (m ∷ more) (inl refl), inl refl, self),
          subst (λ r. All (IsCovered threshold r) items) joined cov,
        ),
      )

  module _ (laws : FloatLaws f) where
    dedup_loop-Loops :
        (threshold : F) (items kept : List (ScoredMemory F))
        → IsSorted (by_score f) items
        → All (λ k. All (λ m. f.total_le m.score k.score ≡ true) items) kept
        → Loops threshold kept items (dedup_loop f threshold items kept (words kept))
    unfolding dedup_loop Spread
    dedup_loop-Loops threshold [] kept s above = ([], sym (append-nil kept), tt, tt)
    dedup_loop-Loops threshold (m ∷ items) kept s above =
        let below = All-imp (λ k a. a.1) kept above in
        elim (Bool-cases (any (similar f threshold m) kept)) [
          | inl h ↦
              Loops-skip threshold m items kept h (All-imp (λ k a. a.0) kept above)
                (dedup_loop-Loops threshold items kept s.1 below)
          | inr h ↦ Loops-keep threshold m items kept h (laws.total_le_refl m.score) (
              dedup_loop-Loops threshold items (kept ++ m ∷ []) s.1
                (All-append _ kept (m ∷ []) below (s.0, tt)))
        ]

    -- Deduplication keeps no item that is similar to one kept before it, and drops an item only
    -- where a kept one of at least its score is similar to it: every item that came in is kept, or
    -- covered by a kept one.
    pub mmr_dedup_clusters :
        (items : List (ScoredMemory F)) (threshold : F)
        → Spread threshold [] (mmr_dedup f items threshold)
          × All (IsCovered threshold (mmr_dedup f items threshold)) items
    unfolding mmr_dedup
    mmr_dedup_clusters items threshold =
        let sorted = sort_by (by_score f) items in
        let (more, e, sp, cov) =
          dedup_loop-Loops threshold sorted []
            (sort_by-IsSorted (by_score f) (λ a b c h k. laws.total_le_trans _ _ _ k h)
              (λ a b h. laws.total_le_total _ _ h) items)
            tt in
        (
          subst (Spread threshold []) (sym e) sp,
          All-of_sort_by (by_score f) (IsCovered threshold _) items
              (subst (λ r. All (IsCovered threshold r) sorted) (sym e) cov),
        )
