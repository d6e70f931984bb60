-- ===== src/System/Reads.antt =====
-- Recall, context assembly and search (crates/core/src/search_fusion.rs, crates/server/src/
-- handlers/context.rs and search.rs) preserve what the store preserves.
use merkur_db.Base.Text.{Text}
use merkur_db.Base.{
  ℕ, ◌*◌, Bool, true, false, List, [], ◌∷◌, Option, none, some, Bool-cases, Option-cases, inl, inr,
  ◌==◌,
}
use merkur_db.Core.Float.{Float}
use merkur_db.Core.Preserves.{Preserves, Leaves, bind-Leaves, or_else-Leaves}
use merkur_db.Core.Storage.{Act, Storage, Embedder, raise, or_else}
use merkur_db.Core.Types.{
  Map, get, Json, Memory, ScoredMemory, MerkurResult, ok, err, bad_request, SearchMode, hybrid,
  fast, deep,
}
use merkur_db.Fusion.Query.{is_bm25_viable}
use merkur_db.Fusion.Recall.{
  FusionParams, ScoreWeights, fetched, hydrate_one, hydrate, text_channel, hybrid_recall,
  remove_key,
}
use merkur_db.Fusion.Rrf.{Ranked}
use merkur_db.Server.Context.{ContextRequest, serve, assemble, assemble_context, is_blank}
use merkur_db.Server.Search.{
  SearchQuery, SearchConfig, SearchResponse, mode_results, page_graph, serve_page, search_in,
  search_handler, limit_of, ranked_results, passes_filters, levels_of, tags_of, parse_mode,
  parse_optional,
}
use merkur_db.Store.Insert.{unwrap_or}

module _ {S F : Type 0} (f : Float F) (storage : Storage S F) (P : S → Type 0)
    (keeps : Preserves storage P) where
  fetched_leaves :
      (score : F) (out : MerkurResult (Option (Memory F)) × S) → P out.1 → P (fetched score out).1
  unfolding fetched
  fetched_leaves score (ok (some m), t) w = w
  fetched_leaves score (ok none, t) w = w
  fetched_leaves score (err e, t) w = w

  hydrate_one_leaves :
      (by_id : Map (ScoredMemory F)) (id : Text) (score : F) (s : S)
      → P s
      → P (hydrate_one f storage by_id id score s).1
  unfolding hydrate_one
  hydrate_one_leaves by_id id score s v = elim (Option-cases (get id by_id)) [
    | inl e ↦
        rw (e, hydrate_one)
          (fetched_leaves score (storage.get_memory id s) (keeps.get_memory_leaves id s v))
    | inr (m, e) ↦ rw (e, hydrate_one) v
  ]

  hydrate_leaves :
      (w : ScoreWeights F) (floor : F) (by_id : Map (ScoredMemory F)) (fused : Ranked F) (s : S)
      → P s
      → P (hydrate f storage w floor by_id fused s).1
  unfolding hydrate
  hydrate_leaves w floor by_id [] s v = v
  hydrate_leaves w floor by_id ((id, score) ∷ fused) s v =
      let one = hydrate_one f storage by_id id score s in
      let skip = hydrate_leaves w floor by_id fused s v in
      let rest =
        hydrate_leaves w floor (remove_key id by_id) fused one.1
          (hydrate_one_leaves by_id id score s v) in
      elim (Bool-cases (f.lt score floor)) [
        | inl h ↦ rw h skip
        | inr h ↦ rw h (elim (Option-cases one.0) [ inl e ↦ rw e rest | inr (m, e) ↦ rw e rest ])
      ]

  text_channel-Leaves : (q ns : Text) (n : ℕ) → Leaves P (text_channel f storage q ns n)
  unfolding text_channel
  text_channel-Leaves q ns n s v = elim (Bool-cases (is_bm25_viable q)) [
    | inl h ↦
        rw h
          (or_else-Leaves P (storage.text_search q ns n) [] (keeps.text_search_leaves q ns n) s v)
    | inr h ↦ rw h v
  ]

  pub hybrid_recall-Leaves :
      (vec : List F) (q ns : Text) (limit : ℕ) (floor : F) (fusion : FusionParams F)
      → Leaves P (hybrid_recall f storage vec q ns limit floor fusion)
  unfolding hybrid_recall
  hybrid_recall-Leaves vec q ns limit floor fusion =
      bind-Leaves P (or_else (storage.vector_search_ns vec ns _) []) _
        (or_else-Leaves P (storage.vector_search_ns vec ns _) []
          (keeps.vector_search_ns_leaves vec ns _))
        λ hits.
          bind-Leaves P (text_channel f storage q ns _) _ (text_channel-Leaves q ns _)
            λ bm25 s v. hydrate_leaves fusion.score floor _ _ s v

  module _ (embedder : Embedder F) (ns : Text) where
    served-Leaves : (ids : List Text) → Leaves P (or_else (storage.record_access ids) tt)
    served-Leaves ids =
        or_else-Leaves P (storage.record_access ids) tt (keeps.record_access_leaves ids)

    assemble-Leaves :
        (fusion : FusionParams F) (req : ContextRequest)
        → Leaves P (assemble f storage embedder fusion ns req)
    unfolding assemble serve
    assemble-Leaves fusion req =
        bind-Leaves P (λ s. (embedder.encode req.q, s)) _ (λ s v. v)
          λ vec.
            bind-Leaves P (hybrid_recall f storage vec req.q ns _ _ fusion) _
              (hybrid_recall-Leaves vec req.q ns _ _ fusion)
              λ hits.
                bind-Leaves P (or_else (storage.record_access _) tt) _ (served-Leaves _) λ u s v. v

    pub assemble_context-Leaves :
        (fusion : FusionParams F) (req : ContextRequest)
        → Leaves P (assemble_context f storage embedder fusion ns req)
    unfolding assemble_context
    assemble_context-Leaves fusion req s v = elim (Bool-cases (is_blank req.q)) [
      | inl h ↦ rw h v
      | inr h ↦ rw h (elim (Bool-cases (req.token_budget == 0)) [
        | inl k ↦ rw k v
        | inr k ↦ rw k (assemble-Leaves fusion req s v)
      ])
    ]

    module _ (config : SearchConfig F) where
      mode_results-Leaves :
          (mode : SearchMode) (vec : List F) (q : Text) (limit offset depth degree : ℕ)
          (threshold : F)
          → Leaves P (
              mode_results f storage embedder config ns mode vec q limit offset depth degree
                threshold)
      unfolding mode_results
      mode_results-Leaves hybrid vec q limit offset depth degree threshold =
          hybrid_recall-Leaves vec q ns _ threshold config.fusion_params
      mode_results-Leaves fast vec q limit offset depth degree threshold =
          keeps.vector_search_ns_leaves vec ns (limit * 2)
      mode_results-Leaves deep vec q limit offset depth degree threshold =
          bind-Leaves P (storage.vector_search_ns vec ns limit) _
            (keeps.vector_search_ns_leaves vec ns limit)
            λ seeds.
              bind-Leaves P (storage.bfs_expand_ns _ ns depth degree) _
                (keeps.bfs_expand_ns_leaves _ ns depth degree) λ neighbors s v. v

      page_graph-Leaves :
          (wanted : Bool) (ids : List Text)
          → Leaves P (page_graph f storage embedder config ns wanted ids)
      unfolding page_graph
      page_graph-Leaves false ids s v = v
      page_graph-Leaves true [] s v = v
      page_graph-Leaves true (id ∷ ids) s v =
          bind-Leaves P (or_else (storage.get_edges_batch (id ∷ ids)) []) _
            (or_else-Leaves P (storage.get_edges_batch (id ∷ ids)) []
              (keeps.get_edges_batch_leaves (id ∷ ids)))
            (λ by_id s v. v) s v

      serve_page-Leaves :
          (wanted : Bool) (offset limit : ℕ) (filtered : List (ScoredMemory F))
          → Leaves P (serve_page f storage embedder config ns wanted offset limit filtered)
      unfolding serve_page
      serve_page-Leaves wanted offset limit filtered =
          bind-Leaves P (or_else (storage.record_access _) tt) _ (served-Leaves _) λ u.
            bind-Leaves P (page_graph f storage embedder config ns wanted _) _
              (page_graph-Leaves wanted _) λ graph s v. v

      module _ (parse_date : Text → Option ℕ) (parse_object : Text → Option (Map Json)) where
        search_in-Leaves :
            (mode : SearchMode) (params : SearchQuery F)
            → Leaves P (search_in f storage embedder config ns parse_date parse_object mode params)
        unfolding search_in
        search_in-Leaves mode params =
            bind-Leaves P (λ s. (parse_optional parse_date params.from, s)) _ (λ s v. v)
              λ from.
                bind-Leaves P (λ s. (parse_optional parse_date params.to, s)) _ (λ s v. v)
                  λ to.
                    bind-Leaves P (λ s. (embedder.encode params.q, s)) _ (λ s v. v)
                      λ vec.
                        bind-Leaves P
                          (mode_results f storage embedder config ns mode vec params.q _ _ _ _ _) _
                          (mode_results-Leaves mode vec params.q _ _ _ _ _)
                          λ results.
                            serve_page-Leaves (unwrap_or params.include_graph false)
                              (unwrap_or params.offset 0)
                              (limit_of f storage embedder config ns parse_date parse_object params)
                              (ranked_results f mode
                                (unwrap_or params.score_threshold config.score_threshold)
                                (passes_filters
                                  (levels_of f storage embedder config ns parse_date parse_object
                                    params.level)
                                  params.category from to)
                                (tags_of f storage embedder config ns parse_date parse_object
                                  params.context)
                                results)

        pub search_handler-Leaves :
            (params : SearchQuery F)
            → Leaves P (search_handler f storage embedder config ns parse_date parse_object params)
        unfolding search_handler
        search_handler-Leaves params s v = go params.q (parse_mode params.mode)
          where
            go :
                (q : Text) (m : Option SearchMode)
                → P
                    ((elim q as (λ x. Act S (SearchResponse F)) [
                      | [] ↦ raise (bad_request [])
                      | c ∷ q ↦ elim m [
                        | none ↦ raise (bad_request [])
                        | some mode ↦
                            search_in f storage embedder config ns parse_date parse_object mode
                              params
                      ]
                    ])
                      s).1
            go [] m = v
            go (c ∷ q) none = v
            go (c ∷ q) (some mode) = search_in-Leaves mode params s v
