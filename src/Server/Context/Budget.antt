-- ===== src/Server/Context/Budget.antt =====
-- What assemble_context of crates/server/src/handlers/context.rs answers.
use merkur_db.Base.Text.{Text}
use merkur_db.Base.{ℕ, ◌≡◌, ◌≤◌, refl, false, List, map, ◌==◌}
use merkur_db.Core.Float.{Float, FloatLaws}
use merkur_db.Core.Storage.{Storage, Embedder, pure, rescued, and_then}
use merkur_db.Core.Types.{ScoredMemory, MerkurResult, ok, err}
use merkur_db.Fusion.Dedup.{mmr_dedup}
use merkur_db.Fusion.Pack.{greedy_pack, greedy_pack_maximal, total_tokens, Packed}
use merkur_db.Fusion.Recall.Provenance.{FetchesById, hybrid_recall_provenance}
use merkur_db.Fusion.Recall.{FusionParams, hybrid_recall}
use merkur_db.Server.Context.{
  ContextRequest, ContextResponse, is_blank, digest_of, response_of, serve, assemble,
  assemble_context,
}
use merkur_db.Server.{clamp}
use merkur_db.Store.Insert.{unwrap_or}

module _ {S F : Type 0} (f : Float F) (storage : Storage S F) (embedder : Embedder F)
    (fusion : FusionParams F) (namespace : Text) where
  -- The answer to a request: the packing of a recall under the budget, the estimate that of its
  -- items, and the accesses of the served ids recorded.
  abbrev pub Answers : ContextRequest → List F → S → Type 0
  Answers req vec s =
      (hits : List (ScoredMemory F)) × (t : S) × (r : ContextResponse F) × (hybrid_recall f storage
          vec req.q namespace (clamp 1 200 (unwrap_or req.limit 50)) (f.of_nat 0) fusion s
        ≡ (ok hits, t))
      × (assemble_context f storage embedder fusion namespace req s
          ≡ (ok r, (storage.record_access (map (λ (m : ScoredMemory F). m.id) r.items) t).1))
      × Packed req.token_budget (mmr_dedup f hits (f.lit 8 1)) (r.items, r.dropped)
      × (r.token_estimate ≡ total_tokens r.items)
      × (r.token_estimate ≤ req.token_budget)
      × (r.digest ≡ digest_of r.items)

  serve_lem :
      (packed : List (ScoredMemory F) × ℕ) (t : S)
      → serve f storage embedder fusion namespace packed t ≡ (
        ok (response_of packed),
        (storage.record_access (map (λ (m : ScoredMemory F). m.id) packed.0) t).1,
      )
  unfolding serve
  serve_lem packed t = go (storage.record_access (map (λ (m : ScoredMemory F). m.id) packed.0) t)
    where
      go :
          (out : MerkurResult (Unit {0}) × S)
          → and_then (rescued tt out) (λ a. pure (response_of packed))
            ≡ (ok (response_of packed), out.1)
      go (ok a, u) = refl
      go (err e, u) = refl

  -- A valid request whose query is embedded is answered, whatever fails in the store: the items
  -- are the greedy packing of the deduplicated recall, their estimated tokens are within the
  -- budget, and the served ids are recorded as accessed.
  pub assemble_context-Answers :
      (fetches : FetchesById f storage) (laws : FloatLaws f) (req : ContextRequest) (vec : List F)
      (s : S)
      → is_blank req.q ≡ false
      → (req.token_budget == 0) ≡ false
      → embedder.encode req.q ≡ ok vec
      → Answers req vec s
  unfolding assemble_context assemble response_of
  assemble_context-Answers fetches laws req vec s q budget encoded =
      let width = clamp 1 200 (unwrap_or req.limit 50) in
      let (vec_hits, bm25, s1, s2, t, hits, a, b, runs, sorted, few, all) =
        hybrid_recall_provenance f storage fetches laws vec req.q namespace width (f.of_nat 0)
          fusion s in
      let packed = greedy_pack (mmr_dedup f hits (f.lit 8 1)) req.token_budget in
      let fits = greedy_pack_maximal (mmr_dedup f hits (f.lit 8 1)) req.token_budget in
      (
        hits,
        t,
        response_of packed,
        runs,
        rw q (rw budget (rw encoded (rw runs (serve_lem packed t)))),
        fits,
        refl,
        fits.3,
        refl,
      )
