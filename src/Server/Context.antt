-- ===== src/Server/Context.antt =====
-- crates/server/src/handlers/context.rs: assembly of a digest under a token budget.
pub mod Budget
use merkur_db.Base.Text.{Text, codes, trim}
use merkur_db.Base.{
  ℕ, ◌≡◌, Bool, true, false, List, [], ◌∷◌, ◌++◌, map, Option, none, some, ◌==◌, if◌then◌else◌,
}
use merkur_db.Core.Float.{Float}
use merkur_db.Core.Storage.{Act, Storage, Embedder, pure, raise, or_else, ◌>>=◌, ◌>>◌}
use merkur_db.Core.Types.{ScoredMemory, MerkurResult, MerkurError, bad_request, ok, err}
use merkur_db.Fusion.Dedup.{mmr_dedup}
use merkur_db.Fusion.Pack.{greedy_pack, total_tokens}
use merkur_db.Fusion.Recall.{FusionParams, hybrid_recall}
use merkur_db.Server.{clamp}
use merkur_db.Store.Insert.{unwrap_or}

pub record ContextRequest : Type 0 where
  pub q : Text
  pub token_budget : ℕ
  pub limit : Option ℕ

pub record ContextResponse (F : Type 0) : Type 0 where
  pub digest : Text
  pub items : List (ScoredMemory F)
  pub token_estimate : ℕ
  pub dropped : ℕ

unfoldable pub is_blank : Text → Bool
unfolding trim
is_blank s = elim (trim s) [ [] ↦ true | c ∷ cs ↦ false ]

-- `collect::<Vec<_>>().join("\n")`
unfoldable pub join_lines : List Text → Text
join_lines [] = []
join_lines (l ∷ []) = l
join_lines (l ∷ k ∷ lines) = l ++ 10 ∷ join_lines (k ∷ lines)

unfoldable pub digest_of : {F : Type 0} → List (ScoredMemory F) → Text
unfolding join_lines
digest_of items = join_lines (map (λ m. codes "- " ++ m.content) items)

unfoldable pub response_of : {F : Type 0} → List (ScoredMemory F) × ℕ → ContextResponse F
unfolding digest_of
response_of packed = record {
  digest = digest_of packed.0;
  items = packed.0;
  token_estimate = total_tokens packed.0;
  dropped = packed.1;
}

module _ {S F : Type 0} (f : Float F) (storage : Storage S F) (embedder : Embedder F)
    (fusion : FusionParams F) (namespace : Text) where
  -- `packed` is what `greedy_pack` returned.
  unfoldable pub serve : List (ScoredMemory F) × ℕ → Act S (ContextResponse F)
  unfolding response_of
  serve packed = do
    or_else (storage.record_access (map (λ (m : ScoredMemory F). m.id) packed.0)) tt
    pure (response_of packed)

  unfoldable pub assemble : ContextRequest → Act S (ContextResponse F)
  unfolding hybrid_recall mmr_dedup greedy_pack serve
  assemble req = do
    query_vec ← λ s. (embedder.encode req.q, s)
    hits ←
        hybrid_recall f storage query_vec req.q namespace (clamp 1 200 (unwrap_or req.limit 50))
          (f.of_nat 0) fusion
    serve (greedy_pack (mmr_dedup f hits (f.lit 8 1)) req.token_budget)

  unfoldable pub assemble_context : ContextRequest → Act S (ContextResponse F)
  unfolding assemble
  assemble_context req =
      if is_blank req.q
      then raise (bad_request [])
      else if req.token_budget == 0
      then raise (bad_request [])
      else assemble req
