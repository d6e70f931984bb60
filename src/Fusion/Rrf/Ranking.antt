-- ===== src/Fusion/Rrf/Ranking.antt =====
-- The order of the result of rrf_fuse_weighted.
use mathlib.Core.List.Perm
use mathlib.Core.List.{Perm}
use merkur_db.Base.Sort.{
  sort_by, IsSorted, sort_by-IsSorted, sort_by-perm, length-sort_by, IsSorted-eq_of_perm,
}
use merkur_db.Base.Text.{Text, text_le, text_le_trans, text_le_total, text_le_antisymm}
use merkur_db.Base.{
  ℕ, suc, zero, ◌≡◌, Bool, true, false, List, [], ◌∷◌, arith, map, take, length, length-take, ap,
  if◌then◌else◌, Bool-cases, inl, inr, ◌==◌, ◌||◌, min, length-map, All-take,
}
use merkur_db.Core.Float.{Float, FloatLaws, Float-set}
use merkur_db.Core.Types.{Map}
use merkur_db.Fusion.Rrf.{Ranked, before, scaled, rank_fused, fuse_channels, rrf_fuse_weighted}

IsSorted-take {ℓ} :
    {A : Type ℓ} (le : A → A → Bool) (n : ℕ) (xs : List A)
    → IsSorted le xs
    → IsSorted le (take n xs)
IsSorted-take le zero xs s = tt
IsSorted-take le (suc n) [] s = tt
IsSorted-take le (suc n) (x ∷ xs) s = (All-take _ n xs s.0, IsSorted-take le n xs s.1)

module _ {F : Type 0} {f : Float F} (laws : FloatLaws f) where
  before_refl : (a : Text × F) → before f a a ≡ true
  before_refl (a, s) = ground (arith, laws.total_le_refl s, text_le_refl a)
    where
      text_le_refl : (a : Text) → text_le a a ≡ true
      text_le_refl a = elim (Bool-cases (text_le a a)) [ inl h ↦ h | inr h ↦ text_le_total a a h ]

  before-total : (a b : Text × F) → before f a b ≡ false → before f b a ≡ true
  before-total (a, s) (b, t) h =
      ground (arith, laws.total_le_total s t, laws.total_le_total t s, text_le_total a b)

  before_trans :
      (a b c : Text × F) → before f a b ≡ true → before f b c ≡ true → before f a c ≡ true
  before_trans (a, s) (b, t) (c, u) h g =
      let tr = laws.total_le_trans in
      ground
        (arith, tr u t s, tr s t u, tr s u t, tr t s u, tr u s t, tr t u s, text_le_trans a b c)

  before_antisymm : (a b : Text × F) → before f a b ≡ true → before f b a ≡ true → a ≡ b
  before_antisymm (a, s) (b, t) h g =
      ground (arith, laws.total_le_antisymm s t, text_le_antisymm a b)

  entry-set : IsSet (Text × F)
  entry-set = hlevel (Float-set laws)

  sort-perm : (m m' : Ranked F) → Perm m m' → sort_by (before f) m ≡ sort_by (before f) m'
  sort-perm m m' p =
      IsSorted-eq_of_perm (before f) entry-set before_refl before_antisymm _ _
        (sort_by-IsSorted (before f) before_trans before-total m)
        (sort_by-IsSorted (before f) before_trans before-total m')
        (Perm.trans (sort_by-perm (before f) m)
          (Perm.trans p (Perm.symm (sort_by-perm (before f) m'))))

  rank_fused-perm :
      (k weight_sum : F) (limit : ℕ) (m m' : Map F)
      → Perm m m'
      → rank_fused f k weight_sum limit m ≡ rank_fused f k weight_sum limit m'
  unfolding rank_fused
  rank_fused-perm k weight_sum limit [] m' p = ap (rank_fused f k weight_sum limit) (Perm.nil-eq p)
  rank_fused-perm k weight_sum limit (e ∷ m) [] p =
      ap (rank_fused f k weight_sum limit) (Perm.eq-nil p)
  rank_fused-perm k weight_sum limit (e ∷ m) (e' ∷ m') p =
      ap (λ (r : Ranked F). if limit == 0 || f.ge (f.of_nat 0) weight_sum then [] else take limit r)
        (sort-perm _ _ (Perm.map (scaled f _) p))

  -- The result does not depend on the order in which the hash map gives its entries: any order of
  -- the fused entries is ranked to the same list.
  pub rrf_deterministic :
      (bm25 vector : Ranked F) (k bm25_weight vector_weight : F) (limit : ℕ) (entries : Map F)
      → Perm entries (fuse_channels f bm25 vector k bm25_weight vector_weight)
      → rank_fused f k (f.add bm25_weight vector_weight) limit entries
        ≡ rrf_fuse_weighted f bm25 vector k bm25_weight vector_weight limit
  unfolding rrf_fuse_weighted
  rrf_deterministic bm25 vector k bw vw limit entries p =
      rank_fused-perm k (f.add bw vw) limit entries _ p

  rank_fused_ordered :
      (k weight_sum : F) (limit : ℕ) (m : Map F)
      → IsSorted (before f) (rank_fused f k weight_sum limit m)
        × (length (rank_fused f k weight_sum limit m)
            ≡ (if f.ge (f.of_nat 0) weight_sum then 0 else min limit (length m)))
  unfolding rank_fused
  rank_fused_ordered k weight_sum limit [] = (tt, ground arith)
  rank_fused_ordered k weight_sum limit (e ∷ m) =
      let top = f.div weight_sum (f.add k (f.of_nat 1)) in
      let sorted = sort_by (before f) (map (scaled f top) (e ∷ m)) in
      let s =
        IsSorted-take (before f) limit sorted
          (sort_by-IsSorted (before f) before_trans before-total (map (scaled f top) (e ∷ m))) in
      let n : length (take limit sorted) ≡ min limit (length (e ∷ m)) = omega (
        arith,
        length-take limit sorted,
        length-sort_by (before f) (map (scaled f top) (e ∷ m)),
        length-map (scaled f top) (e ∷ m),
      ) in
      elim (Bool-cases (f.ge (f.of_nat 0) weight_sum)) [
        | inl h ↦ rw h (ground arith)
        | inr h ↦ rw h (elim (Bool-cases (limit == 0)) [
          | inl z ↦ rw z (tt, ground arith)
          | inr z ↦ rw z (s, n)
        ])
      ]

  -- The result is ordered by falling score, ties by rising id, and has as many entries as the
  -- limit allows, or none if the limit or the sum of the weights is not positive.
  pub rrf_ordered :
      (bm25 vector : Ranked F) (k bm25_weight vector_weight : F) (limit : ℕ)
      → let result = rrf_fuse_weighted f bm25 vector k bm25_weight vector_weight limit in
        let fused = fuse_channels f bm25 vector k bm25_weight vector_weight in
        IsSorted (before f) result
        × (length result ≡ (
            if f.ge (f.of_nat 0) (f.add bm25_weight vector_weight)
            then 0
            else min limit (length fused)))
  unfolding rrf_fuse_weighted
  rrf_ordered bm25 vector k bw vw limit =
      rank_fused_ordered k (f.add bw vw) limit (fuse_channels f bm25 vector k bw vw)
