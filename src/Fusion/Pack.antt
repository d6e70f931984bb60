-- ===== src/Fusion/Pack.antt =====
-- estimate_tokens and greedy_pack of crates/core/src/search_fusion.rs.
use merkur_db.Base.Text.{Text}
use merkur_db.Base.{
  ℕ, ◌+◌, ◌-◌, ◌/◌, ◌≤◌, ◌<◌, ◌≡◌, refl, List, [], ◌∷◌, arith, leb, leb→le, leb-gt, if◌then◌else◌,
  length, All, All-imp, Bool-cases, inl, inr,
}
use merkur_db.Core.Types.{ScoredMemory}

-- `text.chars().count().div_ceil(4)`
unfoldable pub estimate_tokens : Text → ℕ
estimate_tokens text = (length text + 3) / 4

module _ {F : Type 0} where
  -- The loop of `greedy_pack`: the items that are packed, and how many are dropped.
  pack_from : ℕ → List (ScoredMemory F) → List (ScoredMemory F) × ℕ
  pack_from remaining [] = ([], 0)
  pack_from remaining (item ∷ items) =
      let cost = estimate_tokens item.content in
      let fits = pack_from (remaining - cost) items in
      let over = pack_from remaining items in
      if leb cost remaining then (item ∷ fits.0, fits.1) else (over.0, over.1 + 1)

  unfoldable pub greedy_pack : List (ScoredMemory F) → ℕ → List (ScoredMemory F) × ℕ
  unfolding pack_from estimate_tokens
  greedy_pack items token_budget = pack_from token_budget items

  pub total_tokens : List (ScoredMemory F) → ℕ
  total_tokens [] = 0
  total_tokens (m ∷ ms) = estimate_tokens m.content + total_tokens ms

  -- `xs` is the order-preserving interleaving of `ys` and `zs`.
  pub data Splits
      : List (ScoredMemory F) → List (ScoredMemory F) → List (ScoredMemory F) → Type 0 where
    done : Splits [] [] []
    packs :
        {m : ScoredMemory F} {xs ys zs : List (ScoredMemory F)}
        → Splits xs ys zs
        → Splits (m ∷ xs) (m ∷ ys) zs
    drops :
        {m : ScoredMemory F} {xs ys zs : List (ScoredMemory F)}
        → Splits xs ys zs
        → Splits (m ∷ xs) ys (m ∷ zs)

  -- What a packing under a budget promises of its result.
  abbrev pub Packed : ℕ → List (ScoredMemory F) → List (ScoredMemory F) × ℕ → Type 0
  Packed budget items r =
      (left : List (ScoredMemory F)) × Splits items r.0 left
      × (length left ≡ r.1)
      × (total_tokens r.0 ≤ budget)
      × All (λ m. budget < total_tokens r.0 + estimate_tokens m.content) left

  pack_from-Packed :
      (remaining : ℕ) (items : List (ScoredMemory F))
      → Packed remaining items (pack_from remaining items)
  unfolding pack_from total_tokens
  pack_from-Packed remaining [] = ([], done, refl, omega arith, tt)
  pack_from-Packed remaining (item ∷ items) =
      let cost = estimate_tokens item.content in
      elim (Bool-cases (leb cost remaining)) [
        | inl h ↦
            let le = leb→le cost remaining h in
            let fits = pack_from (remaining - cost) items in
            let (left, s, n, below, above) = pack_from-Packed (remaining - cost) items in
            rw h (
              left,
              packs s,
              n,
              omega arith,
              All-imp {P = λ m. remaining - cost < total_tokens fits.0 + estimate_tokens m.content}
                  (λ m k. omega arith) left above,
            )
        | inr h ↦
            let (left, s, n, below, above) = pack_from-Packed remaining items in
            rw h (
              item ∷ left,
              drops s,
              omega arith,
              below,
              (omega (arith, leb-gt cost remaining h), above),
            )
      ]

  -- The packing fits the budget, keeps the order, counts what it dropped, and leaves no room: no
  -- dropped item could be added to the packed ones without exceeding the budget.
  pub greedy_pack_maximal :
      (items : List (ScoredMemory F)) (token_budget : ℕ)
      → Packed token_budget items (greedy_pack items token_budget)
  unfolding greedy_pack
  greedy_pack_maximal items token_budget = pack_from-Packed token_budget items
