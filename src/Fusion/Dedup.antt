-- ===== src/Fusion/Dedup.antt =====
-- mmr_dedup of crates/core/src/search_fusion.rs. A `HashSet` of words is the list of its distinct
-- words.
pub mod Clusters
use merkur_db.Base.Sort.{sort_by, IsSorted, sort_by-IsSorted}
use merkur_db.Base.Text.{Text, text_eq, is_whitespace, split_on}
use merkur_db.Base.{
  ℕ, suc, ◌+◌, ◌-◌, ◌≤◌, ◌≡◌, refl, ap, Bool, true, false, not, ◌||◌, List, [], ◌∷◌, ◌++◌, arith,
  map, if◌then◌else◌, length, keep, any, All, All-imp, All-append, Bool-cases, inl, inr, ◌⊎◌,
}
use merkur_db.Core.Float.{Float, FloatLaws}
use merkur_db.Core.Types.{ScoredMemory}

abbrev is_word : Text → Bool
is_word [] = false
is_word (c ∷ s) = true

-- `s.split_whitespace()`
unfoldable pub split_whitespace : Text → List Text
unfolding split_on is_whitespace
split_whitespace s = keep is_word (split_on is_whitespace [] s)

abbrev pub has : List Text → Text → Bool
has set w = any (text_eq w) set

-- `collect()` into a set.
unfoldable pub to_set : List Text → List Text
to_set [] = []
to_set (w ∷ ws) = let set = to_set ws in if has set w then set else w ∷ set

unfoldable pub word_set : Text → List Text
unfolding split_whitespace to_set
word_set s = to_set (split_whitespace s)

module _ {F : Type 0} (f : Float F) where
  unfoldable pub jaccard : List Text → List Text → F
  jaccard [] b = f.of_nat 0
  jaccard (w ∷ a) [] = f.of_nat 0
  jaccard (w ∷ a) (v ∷ b) =
      let inter = length (keep (has (v ∷ b)) (w ∷ a)) in
      let union = length (w ∷ a) + length (keep (λ x. not (has (w ∷ a) x)) (v ∷ b)) in
      f.div (f.of_nat inter) (f.of_nat union)

  -- Whether an item repeats one whose word set was kept.
  unfoldable pub repeats : F → List Text → List (List Text) → Bool
  unfolding jaccard
  repeats threshold cand kept_sets =
      any (λ existing. f.ge (jaccard cand existing) threshold) kept_sets

  -- The loop over the drained items.
  unfoldable pub dedup_loop :
      F → List (ScoredMemory F) → List (ScoredMemory F) → List (List Text) → List (ScoredMemory F)
  unfolding repeats word_set
  dedup_loop threshold [] kept kept_sets = kept
  dedup_loop threshold (item ∷ items) kept kept_sets =
      let skip = dedup_loop threshold items kept kept_sets in
      let keeps =
        dedup_loop threshold items (kept ++ item ∷ []) (kept_sets ++ word_set item.content ∷ []) in
      if repeats threshold (word_set item.content) kept_sets then skip else keeps

  abbrev pub by_score : ScoredMemory F → ScoredMemory F → Bool
  by_score a b = f.total_le b.score a.score

  unfoldable pub mmr_dedup : List (ScoredMemory F) → F → List (ScoredMemory F)
  unfolding dedup_loop sort_by
  mmr_dedup items threshold = dedup_loop threshold (sort_by by_score items) [] []

  abbrev pub similar : F → ScoredMemory F → ScoredMemory F → Bool
  similar threshold m k = f.ge (jaccard (word_set m.content) (word_set k.content)) threshold
