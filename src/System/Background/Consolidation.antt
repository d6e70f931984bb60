-- ===== src/System/Background/Consolidation.antt =====
-- run_consolidation_once of crates/server/src/scheduler.rs preserves what the store preserves.
use merkur_db.Base.Text.{Text, text_eq}
use merkur_db.Base.{
  ℕ, suc, Bool, true, false, List, [], ◌∷◌, Option, none, some, map, Bool-cases, Option-cases, inl,
  inr, ◌==◌,
}
use merkur_db.Core.Float.{Float}
use merkur_db.Core.Preserves.{Preserves}
use merkur_db.Core.Storage.{Storage, Consolidator}
use merkur_db.Core.Types.{
  Map, get, Memory, NewEdge, ConsolidationReport, AdjudicationAction, add, update, delete, noop,
  MerkurResult, ok, err,
}
use merkur_db.Scheduler.Consolidation.{
  errors_up, absorptions_up, invalidations_up, Gathered, persist_abstracts, persist_importance,
  create_edges, mark, absorb_into, execute_update, execute_delete, execute_action, execute_one,
  execute_all, gather_one, gather, adjudicate_all, apply_report, consolidated, consolidate_pending,
  run_consolidation_once, clears, score_of, evidence,
}
use merkur_db.Scheduler.{counted, value_or}
use merkur_db.System.Background.{counted_leaves, value_or_leaves}

module _ {S F : Type 0} (storage : Storage S F) (P : S → Type 0) (keeps : Preserves storage P) where
  persist_abstracts_leaves :
      (abstracts : List (Text × Text)) (r : ConsolidationReport F) (s : S)
      → P s
      → P (persist_abstracts storage abstracts r s).1
  unfolding persist_abstracts
  persist_abstracts_leaves [] r s v = v
  persist_abstracts_leaves ((id, a) ∷ abstracts) r s v = persist_abstracts_leaves abstracts _ _ (
      counted_leaves P {R = Bool × ConsolidationReport F} (λ o. (true, o.1))
        (λ o. (false, errors_up o.1)) (false, r) _ (keeps.update_abstract_leaves id a s v))

  persist_importance_leaves :
      (ids : List Text) (m : Map F) (r : ConsolidationReport F) (s : S)
      → P s
      → P (persist_importance storage ids m r s).1
  unfolding persist_importance
  persist_importance_leaves [] m r s v = v
  persist_importance_leaves (id ∷ ids) m r s v =
      persist_importance_leaves ids m _ _ (stored (get id m))
    where
      stored :
          (o : Option F)
          → P
              (elim o as (λ x. ConsolidationReport F × S) [
                | none ↦ (r, s)
                | some importance ↦
                    counted (λ r. r) errors_up r (storage.update_importance id importance s)
              ]).1
      stored none = v
      stored (some importance) =
          counted_leaves P (λ r. r) errors_up r _ (keeps.update_importance_leaves id importance s v)

  create_edges_leaves :
      (edges : List (NewEdge F)) (n : ℕ) (r : ConsolidationReport F) (s : S)
      → P s
      → P (create_edges storage edges n r s).1
  unfolding create_edges
  create_edges_leaves [] n r s v = v
  create_edges_leaves (e ∷ edges) n r s v = create_edges_leaves edges _ _ _ (
      counted_leaves P {R = ℕ × ConsolidationReport F} (λ o. (suc o.0, o.1))
        (λ o. (o.0, errors_up o.1)) (n, r) _ (keeps.insert_edge_leaves e s v))

  mark_leaves :
      (ids : List Text) (r : ConsolidationReport F) (s : S) → P s → P (mark storage ids r s).1
  unfolding mark
  mark_leaves [] r s v = v
  mark_leaves (id ∷ ids) r s v =
      counted_leaves P (λ r. r) errors_up r _ (keeps.mark_consolidated_leaves (id ∷ ids) s v)

  absorb_into_leaves :
      (target : Text) (m : Memory F) (r : ConsolidationReport F) (out : MerkurResult (Unit {0}) × S)
      → P out.1
      → P (absorb_into storage target m r out).1
  unfolding absorb_into
  absorb_into_leaves target m r (ok a, s) v =
      counted_leaves P absorptions_up errors_up r _
        (keeps.invalidate_memory_leaves m.id (some target) s v)
  absorb_into_leaves target m r (err e, s) v = v

  module _ (f : Float F) (floor : F) where
    execute_update_leaves :
        (g : Gathered F) (vec : List F) (target : Option Text) (r : ConsolidationReport F) (s : S)
        → P s
        → P (execute_update f storage floor g vec target r s).1
    unfolding execute_update
    execute_update_leaves g vec none r s v = v
    execute_update_leaves g vec (some target) r s v =
        elim (Bool-cases (text_eq target g.memory.id)) [
          | inl h ↦ rw h v
          | inr h ↦ rw h (elim (Bool-cases (clears f floor (score_of g.candidates target))) [
            | inr k ↦ rw k v
            | inl k ↦ rw k (
                absorb_into_leaves target g.memory r _
                  (keeps.update_memory_leaves target g.memory.content (some vec) s v))
          ])
        ]

    execute_delete_leaves :
        (g : Gathered F) (target : Option Text) (r : ConsolidationReport F) (s : S)
        → P s
        → P (execute_delete f storage floor g target r s).1
    unfolding execute_delete
    execute_delete_leaves g none r s v = v
    execute_delete_leaves g (some target) r s v =
        elim (Bool-cases (clears f floor (evidence g target))) [
          | inr k ↦ rw k v
          | inl k ↦ rw k (
              counted_leaves P invalidations_up errors_up r _
                (keeps.invalidate_memory_leaves target none s v))
        ]

    execute_action_leaves :
        (g : Gathered F) (vec : List F) (a : AdjudicationAction) (r : ConsolidationReport F) (s : S)
        → P s
        → P (execute_action f storage floor g vec a r s).1
    unfolding execute_action
    execute_action_leaves g vec add r s v = v
    execute_action_leaves g vec noop r s v = v
    execute_action_leaves g vec update r s v = execute_update_leaves g vec g.verdict.target_id r s v
    execute_action_leaves g vec delete r s v = execute_delete_leaves g g.verdict.target_id r s v

    execute_one_leaves :
        (m : Map (List F)) (g : Gathered F) (r : ConsolidationReport F) (s : S)
        → P s
        → P (execute_one f storage floor m g r s).1
    unfolding execute_one
    execute_one_leaves m g r s v = elim (Bool-cases g.failed) [
      | inl h ↦ rw h v
      | inr h ↦ rw h (elim (Option-cases (get g.memory.id m)) [
        | inl e ↦ rw e v
        | inr (vec, e) ↦ rw e (execute_action_leaves g vec g.verdict.action r s v)
      ])
    ]

    execute_all_leaves :
        (m : Map (List F)) (gs : List (Gathered F)) (r : ConsolidationReport F) (s : S)
        → P s
        → P (execute_all f storage floor m gs r s).1
    unfolding execute_all
    execute_all_leaves m [] r s v = v
    execute_all_leaves m (g ∷ gs) r s v = execute_all_leaves m gs _ _ (execute_one_leaves m g r s v)

    module _ (consolidator : Consolidator F) (width : ℕ) where
      gather_one_leaves :
          (m : Map (List F)) (memory : Memory F) (s : S)
          → P s
          → P (gather_one f storage consolidator floor width m memory s).1
      unfolding gather_one
      gather_one_leaves m memory s v = elim (Option-cases (get memory.id m)) [
        | inl e ↦ rw (e, gather_one) v
        | inr (vec, e) ↦
            rw (e, gather_one)
              (value_or_leaves P [] _
                (keeps.vector_search_ns_leaves vec memory.namespace (suc width) s v))
      ]

      gather_leaves :
          (m : Map (List F)) (memories : List (Memory F)) (s : S)
          → P s
          → P (gather f storage consolidator floor width m memories s).1
      unfolding gather
      gather_leaves m [] s v = v
      gather_leaves m (memory ∷ memories) s v =
          gather_leaves m memories _ (gather_one_leaves m memory s v)

      adjudicate_all_leaves :
          (pending : List (Memory F)) (r : ConsolidationReport F) (s : S)
          → P s
          → P (adjudicate_all f storage consolidator floor width pending r s).1
      unfolding adjudicate_all
      adjudicate_all_leaves pending r s v =
          let ids = map (λ (m : Memory F). m.id) pending in
          let found = storage.get_embeddings ids s in
          let embeddings = value_or {A = Map (List F)} [] found in
          let all = gather f storage consolidator floor width embeddings.0 pending embeddings.1 in
          let w =
            value_or_leaves P {A = Map (List F)} [] found (keeps.get_embeddings_leaves ids s v) in
          elim (Bool-cases (width == 0)) [
            | inl h ↦ rw h v
            | inr h ↦ rw h (
                execute_all_leaves embeddings.0 all.0 r all.1
                  (gather_leaves embeddings.0 pending embeddings.1 w))
          ]

      apply_report_leaves :
          (started finished : ℕ) (pending : List (Memory F)) (r : ConsolidationReport F) (s : S)
          → P s
          → P (apply_report f storage consolidator floor width started finished pending r s).1
      unfolding apply_report
      apply_report_leaves started finished pending r s v =
          let stored = persist_abstracts storage r.new_abstracts r s in
          let assessed =
            persist_importance storage stored.0.0 r.new_importance stored.0.1 stored.1 in
          let edges = create_edges storage r.new_edges 0 assessed.0 assessed.1 in
          let report = record edges.0.1 { edges_created = edges.0.0 } in
          let marked = mark storage stored.0.0 report edges.1 in
          let judged =
            adjudicate_all f storage consolidator floor width pending marked.0 marked.1 in
          let v1 = persist_abstracts_leaves r.new_abstracts r s v in
          let v2 = persist_importance_leaves stored.0.0 r.new_importance stored.0.1 stored.1 v1 in
          let v3 = create_edges_leaves r.new_edges 0 assessed.0 assessed.1 v2 in
          let v4 = mark_leaves stored.0.0 report edges.1 v3 in
          let v5 = adjudicate_all_leaves pending marked.0 marked.1 v4 in
          value_or_leaves P tt (storage.log_consolidation started finished judged.0 judged.1)
            (keeps.log_consolidation_leaves started finished judged.0 judged.1 v5)

      consolidated_leaves :
          (started finished : ℕ) (pending : List (Memory F))
          (out : MerkurResult (ConsolidationReport F)) (s : S)
          → P s
          → P (consolidated f storage consolidator floor width started finished pending out s).1
      unfolding consolidated
      consolidated_leaves started finished pending (ok r) s v =
          apply_report_leaves started finished pending r s v
      consolidated_leaves started finished pending (err e) s v = v

      pub run_consolidation_once_leaves :
          (batch started finished : ℕ) (s : S)
          → P s
          → P (run_consolidation_once f storage consolidator floor width batch started finished s).1
      unfolding run_consolidation_once consolidate_pending
      run_consolidation_once_leaves batch started finished s v =
          let found = storage.list_pending batch s in
          let pending = value_or {A = List (Memory F)} [] found in
          go pending.0 pending.1
            (value_or_leaves P {A = List (Memory F)} [] found (keeps.list_pending_leaves batch s v))
        where
          go :
              (pending : List (Memory F)) (t : S)
              → P t
              → P
                  (consolidate_pending f storage consolidator floor width started finished pending
                    t).1
          go [] t w = w
          go (m ∷ pending) t w = consolidated_leaves started finished (m ∷ pending) _ t w
