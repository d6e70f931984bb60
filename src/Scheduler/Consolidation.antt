-- ===== src/Scheduler/Consolidation.antt =====
-- crates/server/src/scheduler.rs, run_consolidation_once. Candidates and verdicts are gathered by
-- concurrent tasks in the source, in chunks of four; they only read the store, so they run here one
-- after the other, and their order by the pending index is the order of the list.
pub mod Accounts
pub mod Guard
use merkur_db.Base.Text.{Text, text_eq}
use merkur_db.Base.{
  ℕ, suc, Bool, true, false, not, ◌&&◌, List, [], ◌∷◌, Option, none, some, find, keep, map, take,
  length, ◌==◌, if◌then◌else◌,
}
use merkur_db.Core.Float.{Float}
use merkur_db.Core.Storage.{Storage, Consolidator}
use merkur_db.Core.Types.{
  Map, get, Memory, NewEdge, ScoredMemory, ConsolidationReport, empty_report, Adjudication,
  AdjudicationAction, add, update, delete, noop, default_adjudication, MerkurResult, ok, err,
}
use merkur_db.Scheduler.{counted, value_or}

module _ {F : Type 0} where
  abbrev pub errors_up : ConsolidationReport F → ConsolidationReport F
  errors_up r = record r { errors = suc r.errors }

  abbrev pub absorptions_up : ConsolidationReport F → ConsolidationReport F
  absorptions_up r = record r { absorptions = suc r.absorptions }

  abbrev pub invalidations_up : ConsolidationReport F → ConsolidationReport F
  invalidations_up r = record r { invalidations = suc r.invalidations }

  -- `score_of`.
  abbrev pub score_of : List (ScoredMemory F) → Text → Option F
  score_of [] id = none
  score_of (c ∷ candidates) id = if text_eq c.id id then some c.score else score_of candidates id

  abbrev pub first_score : List (ScoredMemory F) → Option F
  first_score [] = none
  first_score (c ∷ candidates) = some c.score

-- A pending memory with its embedding, the verdict on it and the candidates; `failed` if the
-- adjudication failed.
pub record Gathered (F : Type 0) : Type 0 where
  pub memory : Memory F
  pub verdict : Adjudication
  pub candidates : List (ScoredMemory F)
  pub failed : Bool

module _ {F : Type 0} where
  -- The similarity that backs a verdict on a target.
  abbrev pub evidence : Gathered F → Text → Option F
  evidence g target =
      if text_eq target g.memory.id then first_score g.candidates else score_of g.candidates target

  unfoldable pub judged : Memory F → List (ScoredMemory F) → MerkurResult Adjudication → Gathered F
  unfolding default_adjudication
  judged memory candidates (ok verdict) = record {
    memory = memory;
    verdict = verdict;
    candidates = candidates;
    failed = false;
  }
  judged memory candidates (err e) = record {
    memory = memory;
    verdict = default_adjudication;
    candidates = [];
    failed = true;
  }

  abbrev gathered : Option (Gathered F) → List (Gathered F) → List (Gathered F)
  gathered none gs = gs
  gathered (some g) gs = g ∷ gs

module _ {F : Type 0} (f : Float F) (floor : F) where
  abbrev pub above_floor : ℕ → Memory F → List (ScoredMemory F) → List (ScoredMemory F)
  above_floor width memory hits =
      take width (keep (λ h. not (text_eq h.id memory.id) && f.ge h.score floor) hits)

  -- `Some(sim) if sim >= floor`
  abbrev pub clears : Option F → Bool
  clears none = false
  clears (some sim) = f.ge sim floor

module _ {F : Type 0} (consolidator : Consolidator F) where
  unfoldable pub judge : Memory F → List (ScoredMemory F) → Option (Gathered F)
  unfolding judged
  judge memory [] = none
  judge memory (c ∷ candidates) =
      some (judged memory (c ∷ candidates) (consolidator.adjudicate memory (c ∷ candidates)))

module _ {S F : Type 0} (storage : Storage S F) where
  -- The ids whose abstracts were stored, the errors counted in the report.
  unfoldable pub persist_abstracts :
      List (Text × Text) → ConsolidationReport F → S → (List Text × ConsolidationReport F) × S
  persist_abstracts [] r s = (([], r), s)
  persist_abstracts ((id, abstract_) ∷ abstracts) r s =
      let stored =
        counted {R = Bool × ConsolidationReport F} (λ o. (true, o.1)) (λ o. (false, errors_up o.1))
          (false, r) (storage.update_abstract id abstract_ s) in
      let rest = persist_abstracts abstracts stored.0.1 stored.1 in
      ((if stored.0.0 then id ∷ rest.0.0 else rest.0.0, rest.0.1), rest.1)

  unfoldable pub persist_importance :
      List Text → Map F → ConsolidationReport F → S → ConsolidationReport F × S
  unfolding get
  persist_importance [] m r s = (r, s)
  persist_importance (id ∷ ids) m r s =
      let stored : ConsolidationReport F × S = elim (get id m) [
        | none ↦ (r, s)
        | some importance ↦ counted (λ r. r) errors_up r (storage.update_importance id importance s)
      ] in
      persist_importance ids m stored.0 stored.1

  unfoldable pub create_edges :
      List (NewEdge F) → ℕ → ConsolidationReport F → S → (ℕ × ConsolidationReport F) × S
  create_edges [] created r s = ((created, r), s)
  create_edges (e ∷ edges) created r s =
      let made =
        counted {R = ℕ × ConsolidationReport F} (λ o. (suc o.0, o.1)) (λ o. (o.0, errors_up o.1))
          (created, r) (storage.insert_edge e s) in
      create_edges edges made.0.0 made.0.1 made.1

  unfoldable pub mark : List Text → ConsolidationReport F → S → ConsolidationReport F × S
  mark [] r s = (r, s)
  mark (id ∷ ids) r s = counted (λ r. r) errors_up r (storage.mark_consolidated (id ∷ ids) s)

  -- The target takes the content, then the pending row is invalidated with a pointer to it.
  unfoldable pub absorb_into :
      Text
      → Memory F
      → ConsolidationReport F
      → MerkurResult (Unit {0}) × S
      → ConsolidationReport F × S
  absorb_into target memory r (ok a, s) =
      counted absorptions_up errors_up r (storage.invalidate_memory memory.id (some target) s)
  absorb_into target memory r (err e, s) = (errors_up r, s)

module _ {S F : Type 0} (f : Float F) (storage : Storage S F) (floor : F) where
  unfoldable pub execute_update :
      Gathered F → List F → Option Text → ConsolidationReport F → S → ConsolidationReport F × S
  unfolding absorb_into
  execute_update g embedding none r s = (r, s)
  execute_update g embedding (some target) r s =
      if text_eq target g.memory.id
      then (r, s)
      else if clears f floor (score_of g.candidates target)
      then absorb_into storage target g.memory r
          (storage.update_memory target g.memory.content (some embedding) s)
      else (r, s)

  unfoldable pub execute_delete :
      Gathered F → Option Text → ConsolidationReport F → S → ConsolidationReport F × S
  execute_delete g none r s = (r, s)
  execute_delete g (some target) r s =
      if clears f floor (evidence g target)
      then counted invalidations_up errors_up r (storage.invalidate_memory target none s)
      else (r, s)

  unfoldable pub execute_action :
      Gathered F
      → List F
      → AdjudicationAction
      → ConsolidationReport F
      → S
      → ConsolidationReport F × S
  unfolding execute_update execute_delete
  execute_action g embedding add r s = (r, s)
  execute_action g embedding noop r s = (r, s)
  execute_action g embedding update r s = execute_update g embedding g.verdict.target_id r s
  execute_action g embedding delete r s = execute_delete g g.verdict.target_id r s

  unfoldable pub execute_one :
      Map (List F) → Gathered F → ConsolidationReport F → S → ConsolidationReport F × S
  unfolding get execute_action
  execute_one embeddings g r s =
      if g.failed then (errors_up r, s) else elim (get g.memory.id embeddings) [
        | none ↦ (r, s)
        | some embedding ↦ execute_action g embedding g.verdict.action r s
      ]

  unfoldable pub execute_all :
      Map (List F) → List (Gathered F) → ConsolidationReport F → S → ConsolidationReport F × S
  unfolding execute_one
  execute_all embeddings [] r s = (r, s)
  execute_all embeddings (g ∷ gs) r s =
      let one = execute_one embeddings g r s in execute_all embeddings gs one.0 one.1

module _ {S F : Type 0} (f : Float F) (storage : Storage S F) (consolidator : Consolidator F)
    (floor : F) (width : ℕ) where
  unfoldable pub gather_one : Map (List F) → Memory F → S → Option (Gathered F) × S
  unfolding get judge
  gather_one embeddings memory s = elim (get memory.id embeddings) [
    | none ↦ (none, s)
    | some embedding ↦
        let hits =
          value_or [] (storage.vector_search_ns embedding memory.namespace (suc width) s) in
        (judge consolidator memory (above_floor f floor width memory hits.0), hits.1)
  ]

  unfoldable pub gather : Map (List F) → List (Memory F) → S → List (Gathered F) × S
  unfolding gather_one
  gather embeddings [] s = ([], s)
  gather embeddings (memory ∷ memories) s =
      let one = gather_one embeddings memory s in
      let rest = gather embeddings memories one.1 in (gathered one.0 rest.0, rest.1)

  unfoldable pub adjudicate_all :
      List (Memory F) → ConsolidationReport F → S → ConsolidationReport F × S
  unfolding gather execute_all
  adjudicate_all pending r s =
      if width == 0
      then (r, s)
      else let ids = map (λ (m : Memory F). m.id) pending in
        let embeddings = value_or [] (storage.get_embeddings ids s) in
        let all = gather embeddings.0 pending embeddings.1 in
        execute_all f storage floor embeddings.0 all.0 r all.1

  -- What follows a successful `consolidate`.
  unfoldable pub apply_report :
      ℕ → ℕ → List (Memory F) → ConsolidationReport F → S → ConsolidationReport F × S
  unfolding persist_abstracts persist_importance create_edges mark adjudicate_all
  apply_report started finished pending r0 s0 =
      let stored = persist_abstracts storage r0.new_abstracts r0 s0 in
      let assessed = persist_importance storage stored.0.0 r0.new_importance stored.0.1 stored.1 in
      let edges = create_edges storage r0.new_edges 0 assessed.0 assessed.1 in
      let report = record edges.0.1 { edges_created = edges.0.0 } in
      let marked = mark storage stored.0.0 report edges.1 in
      let judged = adjudicate_all pending marked.0 marked.1 in
      (judged.0, (value_or tt (storage.log_consolidation started finished judged.0 judged.1)).1)

  unfoldable pub consolidated :
      ℕ → ℕ → List (Memory F) → MerkurResult (ConsolidationReport F) → S → ConsolidationReport F × S
  unfolding apply_report empty_report
  consolidated started finished pending (ok r) s = apply_report started finished pending r s
  consolidated started finished pending (err e) s = (empty_report, s)

  unfoldable pub consolidate_pending : ℕ → ℕ → List (Memory F) → S → ConsolidationReport F × S
  unfolding consolidated empty_report
  consolidate_pending started finished [] s = (empty_report, s)
  consolidate_pending started finished (m ∷ pending) s =
      consolidated started finished (m ∷ pending) (consolidator.consolidate (m ∷ pending)) s

  unfoldable pub run_consolidation_once : ℕ → ℕ → ℕ → S → ConsolidationReport F × S
  unfolding consolidate_pending
  run_consolidation_once batch_size started finished s =
      let pending = value_or [] (storage.list_pending batch_size s) in
      consolidate_pending started finished pending.0 pending.1
