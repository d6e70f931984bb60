-- ===== src/VectorIndex/TopK.antt =====
-- InMemoryVectorIndex::search of crates/storage/src/vector_index.rs: the bounded heap against the
-- ranking of all the stored vectors.
use mathlib.Core.List.Perm
use mathlib.Core.List.{Perm, perm_middle, append-nil}
use merkur_db.Base.Sort.{
  insert_by, sort_by, IsSorted, insert_by-perm, insert_by-IsSorted, All-insert_by, length-insert_by,
  take-insert_by-take, length-sort_by, sort_by-IsSorted, sort_by-perm,
}
use mathlib.Core.Path.{subst}
use merkur_db.Base.Text.{Text}
use merkur_db.Base.{
  ℕ, zero, suc, ◌+◌, ◌<◌, ◌≤◌, ◌≡◌, refl, ap, true, false, List, [], ◌∷◌, ◌++◌, some, arith, min,
  length, take, get_elem?_lt, dec_lt, All, All-take, length-take,
}
use merkur_db.Core.Float.{Float, FloatLaws}
use merkur_db.VectorIndex.Invariant.{IsValid}
use merkur_db.VectorIndex.{
  Inner, l2_norm, cosine_similarity, not_less, heap_push, scan, name_all, best_first, search, pop,
}

pop-take {ℓ} : {A : Type ℓ} (xs : List A) (n : ℕ) → length xs ≡ suc n → pop xs ≡ take n xs
unfolding pop
pop-take [] n h = absurd (omega arith)
pop-take (x ∷ []) zero h = refl
pop-take (x ∷ []) (suc n) h = absurd (omega arith)
pop-take (x ∷ y ∷ xs) zero h = absurd (omega arith)
pop-take (x ∷ y ∷ xs) (suc n) h = ap (◌∷◌ x) (pop-take (y ∷ xs) n (omega arith))

take_nil {ℓ} : {A : Type ℓ} (n : ℕ) → take {A = A} n [] ≡ []
take_nil zero = refl
take_nil (suc n) = refl

pub take_all {ℓ} : {A : Type ℓ} (xs : List A) (n : ℕ) → length xs ≤ n → take n xs ≡ xs
take_all [] zero h = refl
take_all [] (suc n) h = refl
take_all (x ∷ xs) zero h = absurd (omega arith)
take_all (x ∷ xs) (suc n) h = ap (◌∷◌ x) (take_all xs n (omega arith))

module _ {F : Type 0} (f : Float F) where
  -- Every stored vector with its similarity to the query and its position.
  unfoldable pub scored_from : List F → F → ℕ → List (List F) → List F → List (F × ℕ)
  scored_from query query_norm i (vec ∷ vectors) (norm ∷ norms) =
      (cosine_similarity f query vec query_norm norm, i)
      ∷ scored_from query query_norm (suc i) vectors norms
  scored_from query query_norm i _ _ = []

  unfoldable pub scored : List F → Inner F → List (F × ℕ)
  scored query s = scored_from query (l2_norm f query) 0 s.vectors s.norms

  insert_all : List (F × ℕ) → List (F × ℕ) → List (F × ℕ)
  insert_all [] ranked = ranked
  insert_all (p ∷ ps) ranked = insert_all ps (insert_by (not_less f) p ranked)

  heap_push-take :
      (limit : ℕ) (p : F × ℕ) (ranked : List (F × ℕ))
      → heap_push f limit p (take limit ranked) ≡ take limit (insert_by (not_less f) p ranked)
  unfolding heap_push
  heap_push-take limit p ranked =
      let heap = take limit ranked in
      let pushed = insert_by (not_less f) p heap in
      let n = length-insert_by (not_less f) p heap in
      let m = length-take limit ranked in
      let same = take-insert_by-take (not_less f) limit p ranked in
      elim (dec_lt limit (length pushed)) [
        | yes over ↦
            let e : length pushed ≡ suc limit = omega arith in
            ground (arith, pop-take pushed limit e, same)
        | no fits ↦ ground (arith, take_all pushed limit (omega arith), same)
      ]

  -- The heap after the loop holds the first `limit` of the ranking.
  scan-take :
      (query : List F) (query_norm : F) (limit i : ℕ) (vectors : List (List F)) (norms : List F)
      (ranked : List (F × ℕ))
      → length vectors ≡ length norms
      → scan f query query_norm limit i vectors norms (take limit ranked)
        ≡ some (take limit (insert_all (scored_from query query_norm i vectors norms) ranked))
  unfolding scan scored_from insert_all
  scan-take query query_norm limit i [] [] ranked h = refl
  scan-take query query_norm limit i [] (norm ∷ norms) ranked h = refl
  scan-take query query_norm limit i (vec ∷ vectors) [] ranked h = absurd (omega arith)
  scan-take query query_norm limit i (vec ∷ vectors) (norm ∷ norms) ranked h = rw heap_push-take (
      scan-take query query_norm limit (suc i) vectors norms
        (insert_by (not_less f) (cosine_similarity f query vec query_norm norm, i) ranked)
        (omega arith))

  insert_all-perm : (ps ranked : List (F × ℕ)) → Perm (insert_all ps ranked) (ps ++ ranked)
  unfolding insert_all
  insert_all-perm [] ranked = Perm.rfl
  insert_all-perm (p ∷ ps) ranked =
      Perm.trans (insert_all-perm ps (insert_by (not_less f) p ranked)) (
        Perm.trans (Perm.append_left ps (insert_by-perm (not_less f) p ranked))
          (perm_middle ps ranked))

  -- Every position lies below the number of ids.
  abbrev InRange : ℕ → F × ℕ → Type 0
  InRange n p = p.1 < n

  scored_from-InRange :
      (query : List F) (query_norm : F) (i n : ℕ) (vectors : List (List F)) (norms : List F)
      → i + length vectors ≤ n
      → All (InRange n) (scored_from query query_norm i vectors norms)
  unfolding scored_from
  scored_from-InRange query query_norm i n (vec ∷ vectors) (norm ∷ norms) h =
      (omega arith, scored_from-InRange query query_norm (suc i) n vectors norms (omega arith))
  scored_from-InRange query query_norm i n (vec ∷ vectors) [] h = tt
  scored_from-InRange query query_norm i n [] _ h = tt

  pub length-scored_from :
      (query : List F) (query_norm : F) (i : ℕ) (vectors : List (List F)) (norms : List F)
      → length vectors ≡ length norms
      → length (scored_from query query_norm i vectors norms) ≡ length vectors
  unfolding scored_from
  length-scored_from query query_norm i [] norms h = refl
  length-scored_from query query_norm i (vec ∷ vectors) [] h = absurd (omega arith)
  length-scored_from query query_norm i (vec ∷ vectors) (norm ∷ norms) h =
      ap suc (length-scored_from query query_norm (suc i) vectors norms (omega arith))

  insert_all-InRange :
      (n : ℕ) (ps ranked : List (F × ℕ))
      → All (InRange n) ps
      → All (InRange n) ranked
      → All (InRange n) (insert_all ps ranked)
  unfolding insert_all
  insert_all-InRange n [] ranked h k = k
  insert_all-InRange n (p ∷ ps) ranked h k =
      insert_all-InRange n ps _ h.1 (All-insert_by (not_less f) (InRange n) p ranked h.0 k)

  length-insert_all :
      (ps ranked : List (F × ℕ)) → length (insert_all ps ranked) ≡ length ps + length ranked
  unfolding insert_all
  length-insert_all [] ranked = omega arith
  length-insert_all (p ∷ ps) ranked = omega (
    arith,
    length-insert_all ps (insert_by (not_less f) p ranked),
    length-insert_by (not_less f) p ranked,
  )

  -- Positions in range have names.
  name_all-total :
      (ids : List Text) (ps : List (F × ℕ))
      → All (InRange (length ids)) ps
      → (named : List (Text × F)) × (name_all ids ps ≡ some named) × (length named ≡ length ps)
  unfolding name_all
  name_all-total ids [] h = ([], refl, refl)
  name_all-total ids ((score, i) ∷ ps) h =
      let (id, e) = get_elem?_lt ids i h.0 in
      let (named, e', n) = name_all-total ids ps h.1 in ((id, score) ∷ named, rw (e, e'), ap suc n)

  search_steps :
      (query : List F) (limit : ℕ) (s : Inner F) (heap : List (F × ℕ)) (named : List (Text × F))
      → 0 < limit
      → scan f query (l2_norm f query) limit 0 s.vectors s.norms [] ≡ some heap
      → name_all s.ids heap ≡ some named
      → search f query limit s ≡ some (sort_by (best_first f) named)
  unfolding search
  search_steps query limit s heap named h e k = ground arith

  module _ (laws : FloatLaws f) where
    not_less_trans :
        (a b c : F × ℕ) → not_less f a b ≡ true → not_less f b c ≡ true → not_less f a c ≡ true
    not_less_trans (a, i) (b, j) (c, k) h g =
        let t = laws.total_le_trans in
        ground (arith, t c b a, t a b c, t a c b, t b a c, t c a b, t b c a)

    not_less-total : (a b : F × ℕ) → not_less f a b ≡ false → not_less f b a ≡ true
    not_less-total (a, i) (b, j) h =
        ground (arith, laws.total_le_total a b, laws.total_le_total b a)

    insert_all-IsSorted :
        (ps ranked : List (F × ℕ))
        → IsSorted (not_less f) ranked
        → IsSorted (not_less f) (insert_all ps ranked)
    unfolding insert_all
    insert_all-IsSorted [] ranked s = s
    insert_all-IsSorted (p ∷ ps) ranked s =
        insert_all-IsSorted ps _
          (insert_by-IsSorted (not_less f) not_less_trans not_less-total p ranked s)

    best_first_trans :
        (a b c : Text × F)
        → best_first f a b ≡ true
        → best_first f b c ≡ true
        → best_first f a c ≡ true
    best_first_trans a b c h k = laws.total_le_trans c.1 b.1 a.1 k h

    best_first-total : (a b : Text × F) → best_first f a b ≡ false → best_first f b a ≡ true
    best_first-total a b h = laws.total_le_total b.1 a.1 h

    -- The results of a search against the full ranking.
    abbrev pub IsTopK : List F → ℕ → Inner F → Type 0
    IsTopK query limit s =
        (ranked : List (F × ℕ)) × IsSorted (not_less f) ranked
        × Perm ranked (scored query s)
        × ((named results : List (Text × F)) × (name_all s.ids (take limit ranked) ≡ some named)
            × (search f query limit s ≡ some results)
            × Perm results named
            × IsSorted (best_first f) results
            × (length results ≡ min limit (length s.ids)))

    -- On a valid index and a positive limit the bounded heap finds the top of the full ranking:
    -- with `ranked` the stored vectors ordered by similarity (and position), `search` does not
    -- panic and returns the names of the first `limit` of `ranked`, as many as there are, best
    -- first.
    pub search-IsTopK :
        (query : List F) (limit : ℕ) (s : Inner F) → IsValid f s → 0 < limit → IsTopK query limit s
    unfolding search scored
    search-IsTopK query limit s v positive =
        let ps = scored query s in
        let ranked = insert_all ps [] in
        let step : length s.vectors ≡ length s.norms =
          omega (arith, v.vectors_in_step, v.norms_in_step) in
        let range =
          insert_all-InRange (length s.ids) ps []
            (scored_from-InRange query _ 0 _ s.vectors s.norms (omega (arith, v.vectors_in_step)))
            tt in
        let (named, e, n) =
          name_all-total s.ids (take limit ranked) (All-take _ limit ranked range) in
        let found' = scan-take query (l2_norm f query) limit 0 s.vectors s.norms [] step in
        let found =
          subst
            (λ h.
              scan f query (l2_norm f query) limit 0 s.vectors s.norms h ≡ some (take limit ranked))
            (take_nil limit) found' in
        let all : Perm ranked ps = subst (Perm ranked) (append-nil ps) (insert_all-perm ps []) in
        let sorted = sort_by-IsSorted (best_first f) best_first_trans best_first-total named in
        (
          ranked,
          insert_all-IsSorted ps [] tt,
          all,
          (
            named,
            sort_by (best_first f) named,
            e,
            search_steps query limit s (take limit ranked) named positive found e,
            sort_by-perm (best_first f) named,
            sorted,
            omega (
              arith,
              length-sort_by (best_first f) named,
              n,
              length-take limit ranked,
              length-insert_all ps [],
              length-scored_from query (l2_norm f query) 0 s.vectors s.norms step,
              v.vectors_in_step,
            ),
          ),
        )
