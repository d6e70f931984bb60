-- ===== src/Scheduler/Consolidation/Guard.antt =====
-- The guard of run_consolidation_once of crates/server/src/scheduler.rs: a verdict alone writes
-- nothing.
use mathlib.Core.Path.{subst}
use merkur_db.Base.Text.{Text, text_eq}
use merkur_db.Base.{
  ℕ, suc, ◌≡◌, refl, sym, Bool, true, false, not, ◌&&◌, List, [], ◌∷◌, Option, none, some, arith,
  ◌≤◌, length, In, All, All-take, All-imp, keep_sound, Bool-cases, Option-cases, inl, inr,
}
use merkur_db.Core.Float.{Float}
use merkur_db.Core.Storage.{Storage, Consolidator}
use merkur_db.Core.Types.{
  Map, get, Memory, ScoredMemory, ConsolidationReport, Adjudication, AdjudicationAction, add,
  update, delete, noop, MerkurResult, ok, err,
}
use merkur_db.Scheduler.Consolidation.{
  Gathered, execute_update, execute_delete, execute_action, execute_one, clears, evidence, score_of,
  judge, judged, above_floor, gather, gather_one, gathered,
}
use merkur_db.Scheduler.{value_or}

All-self : {A : Type 0} (xs : List A) → All (λ x. In x xs) xs
All-self [] = tt
All-self {A = A} (x ∷ xs) =
    let Later : A → Type 0 = λ y. In y (x ∷ xs) in
    (inl refl, All-imp {Q = Later} (λ y m. inr m) xs (All-self xs))

module _ {F : Type 0} (f : Float F) (floor : F) where
  -- A verdict that may write: UPDATE of another memory, or DELETE, whose similarity is not below
  -- the floor.
  abbrev has_backing : Gathered F → AdjudicationAction → Option Text → Bool
  has_backing g add target = false
  has_backing g noop target = false
  has_backing g update none = false
  has_backing g delete none = false
  has_backing g update (some target) =
      not (text_eq target g.memory.id) && clears f floor (evidence g target)
  has_backing g delete (some target) = clears f floor (evidence g target)

  abbrev pub is_backed : Gathered F → Bool
  is_backed g = has_backing g g.verdict.action g.verdict.target_id

module _ {S F : Type 0} (f : Float F) (storage : Storage S F) (floor : F) where
  execute_action_unbacked :
      (g : Gathered F) (embedding : List F) (action : AdjudicationAction) (target : Option Text)
      (r : ConsolidationReport F) (s : S)
      → g.verdict.target_id ≡ target
      → has_backing f floor g action target ≡ false
      → execute_action f storage floor g embedding action r s ≡ (r, s)
  unfolding execute_action execute_update execute_delete
  execute_action_unbacked g embedding add target r s e h = refl
  execute_action_unbacked g embedding noop target r s e h = refl
  execute_action_unbacked g embedding update none r s e h = rw e refl
  execute_action_unbacked g embedding delete none r s e h = rw e refl
  execute_action_unbacked g embedding update (some target) r s e h =
      rw e (elim (Bool-cases (text_eq target g.memory.id)) [
        | inl same ↦ rw same refl
        | inr other ↦
            let low : clears f floor (score_of g.candidates target) ≡ false = rw other at h in
            rw other (rw low refl)
      ])
  execute_action_unbacked g embedding delete (some target) r s e h = rw e (rw h refl)

  -- Executing a verdict whose adjudication did not fail leaves the report and the store as they
  -- are, unless it is an UPDATE of another memory or a DELETE whose similarity clears the floor.
  pub execute_one_guarded :
      (embeddings : Map (List F)) (g : Gathered F) (r : ConsolidationReport F) (s : S)
      → g.failed ≡ false
      → is_backed f floor g ≡ false
      → execute_one f storage floor embeddings g r s ≡ (r, s)
  unfolding execute_one
  execute_one_guarded embeddings g r s ok_ h =
      rw ok_ (elim (Option-cases (get g.memory.id embeddings)) [
        | inl e ↦ rw e refl
        | inr (v, e) ↦
            rw e (execute_action_unbacked g v g.verdict.action g.verdict.target_id r s refl h)
      ])

module _ {S F : Type 0} (f : Float F) (storage : Storage S F) (consolidator : Consolidator F)
    (floor : F) (width : ℕ) where
  -- A candidate is another memory whose similarity is not below the floor.
  abbrev pub IsCandidate : Memory F → ScoredMemory F → Type 0
  IsCandidate memory h = (not (text_eq h.id memory.id) && f.ge h.score floor) ≡ true

  -- The memory is a pending one and all its candidates qualify.
  abbrev pub IsGathered : List (Memory F) → Gathered F → Type 0
  IsGathered pending g = In g.memory pending × All (IsCandidate g.memory) g.candidates

  above_floor-All :
      (memory : Memory F) (hits : List (ScoredMemory F))
      → All (IsCandidate memory) (above_floor f floor width memory hits)
  above_floor-All memory hits = All-take (IsCandidate memory) width _ (keep_sound _ hits)

  judge-All :
      (memory : Memory F) (pending : List (Memory F)) (candidates : List (ScoredMemory F))
      (gs : List (Gathered F))
      → In memory pending
      → All (IsCandidate memory) candidates
      → All (IsGathered pending) gs
      → All (IsGathered pending) (gathered (judge consolidator memory candidates) gs)
  unfolding judge judged
  judge-All memory pending [] gs m c h = h
  judge-All memory pending (k ∷ candidates) gs m c h =
      go (consolidator.adjudicate memory (k ∷ candidates))
    where
      go :
          (verdict : MerkurResult Adjudication)
          → All (IsGathered pending) (judged memory (k ∷ candidates) verdict ∷ gs)
      go (ok verdict) = ((m, c), h)
      go (err e) = ((m, tt), h)

  gather_one-none :
      (memory : Memory F) (embeddings : Map (List F)) (s : S)
      → get memory.id embeddings ≡ none
      → gather_one f storage consolidator floor width embeddings memory s ≡ (none, s)
  unfolding gather_one
  gather_one-none memory embeddings s e = rw (e, gather_one) refl

  gather_one-some :
      (memory : Memory F) (embeddings : Map (List F)) (s : S) (v : List F)
      → get memory.id embeddings ≡ some v
      → let hits = value_or [] (storage.vector_search_ns v memory.namespace (suc width) s) in
        gather_one f storage consolidator floor width embeddings memory s
        ≡ (judge consolidator memory (above_floor f floor width memory hits.0), hits.1)
  unfolding gather_one
  gather_one-some memory embeddings s v e = rw (e, gather_one) refl

  gather_one-All :
      (memory : Memory F) (pending : List (Memory F)) (embeddings : Map (List F)) (s : S)
      (gs : List (Gathered F))
      → In memory pending
      → All (IsGathered pending) gs
      → All
          (IsGathered pending)
          (gathered (gather_one f storage consolidator floor width embeddings memory s).0 gs)
  gather_one-All memory pending embeddings s gs m h =
      let P : Option (Gathered F) × S → Type 0 = λ o. All (IsGathered pending) (gathered o.0 gs) in
      elim (Option-cases (get memory.id embeddings)) [
        | inl e ↦ subst P (sym (gather_one-none memory embeddings s e)) h
        | inr (v, e) ↦
            let hits = value_or [] (storage.vector_search_ns v memory.namespace (suc width) s) in
            subst P (sym (gather_one-some memory embeddings s v e)) (
              judge-All memory pending (above_floor f floor width memory hits.0) gs m
                (above_floor-All memory hits.0) h)
      ]

  length-gathered :
      (o : Option (Gathered F)) (gs : List (Gathered F)) → length (gathered o gs) ≤ suc (length gs)
  length-gathered none gs = omega arith
  length-gathered (some g) gs = omega arith

  gather_lem :
      (pending memories : List (Memory F)) (embeddings : Map (List F)) (s : S)
      → All (λ m. In m pending) memories
      → All (IsGathered pending) (gather f storage consolidator floor width embeddings memories s).0
        × (length (gather f storage consolidator floor width embeddings memories s).0
            ≤ length memories)
  unfolding gather
  gather_lem pending [] embeddings s h = (tt, omega arith)
  gather_lem pending (m ∷ memories) embeddings s h =
      let one = gather_one f storage consolidator floor width embeddings m s in
      let rest = gather_lem pending memories embeddings one.1 h.1 in
      let gs = (gather f storage consolidator floor width embeddings memories one.1).0 in
      (
        gather_one-All m pending embeddings s gs h.0 rest.0,
        omega (arith, rest.1, length-gathered one.0 gs),
      )

  pub gather_candidates :
      (pending : List (Memory F)) (embeddings : Map (List F)) (s : S)
      → All (IsGathered pending) (gather f storage consolidator floor width embeddings pending s).0
        × (length (gather f storage consolidator floor width embeddings pending s).0
            ≤ length pending)
  gather_candidates pending embeddings s =
      gather_lem pending pending embeddings s (All-self pending)
