-- ===== src/Scheduler/Consolidation/Accounts.antt =====
-- The counts of run_consolidation_once of crates/server/src/scheduler.rs.
use merkur_db.Base.Text.{Text, text_eq}
use merkur_db.Base.{
  ℕ, suc, ◌+◌, ◌≤◌, ◌≡◌, refl, List, [], ◌∷◌, Option, none, some, arith, map, length, In,
  Bool-cases, Option-cases, inl, inr, ◌⊎◌, ◌==◌,
}
use merkur_db.Core.Float.{Float}
use merkur_db.Core.Storage.{Storage, Consolidator}
use merkur_db.Core.Types.{
  Map, get, Memory, ConsolidationReport, AdjudicationAction, add, update, delete, noop,
  MerkurResult, MerkurError, ok, err,
}
use merkur_db.Scheduler.Consolidation.Guard.{gather_candidates}
use merkur_db.Scheduler.Consolidation.{
  Gathered, errors_up, absorptions_up, invalidations_up, execute_update, execute_delete,
  execute_action, execute_one, execute_all, absorb_into, clears, evidence, score_of, gather,
  adjudicate_all, persist_abstracts,
}
use merkur_db.Scheduler.{counted, value_or}

result-cases :
    {A S : Type 0} (out : MerkurResult A × S)
    → ((a : A) × ((t : S) × (out ≡ (ok a, t))))
      ⊎ ((x : MerkurError) × ((t : S) × (out ≡ (err x, t))))
result-cases (ok a, t) = inl (a, (t, refl))
result-cases (err x, t) = inr (x, (t, refl))

module _ {F : Type 0} where
  abbrev pub outcomes : ConsolidationReport F → ℕ
  outcomes r = r.errors + r.absorptions + r.invalidations

module _ {S F : Type 0} (f : Float F) (storage : Storage S F) (floor : F) where
  counted_one :
      {A : Type 0} (good bad : ConsolidationReport F → ConsolidationReport F)
      (r : ConsolidationReport F) (out : MerkurResult A × S)
      → outcomes (good r) ≡ suc (outcomes r)
      → outcomes (bad r) ≡ suc (outcomes r)
      → outcomes (counted good bad r out).0 ≤ suc (outcomes r)
  counted_one good bad r (ok a, s) g b = omega (arith, g)
  counted_one good bad r (err e, s) g b = omega (arith, b)

  absorb_one :
      (target : Text) (memory : Memory F) (r : ConsolidationReport F)
      (out : MerkurResult (Unit {0}) × S)
      → outcomes (absorb_into storage target memory r out).0 ≤ suc (outcomes r)
  unfolding absorb_into
  absorb_one target memory r (ok a, s) =
      counted_one absorptions_up errors_up r (storage.invalidate_memory memory.id (some target) s)
        (omega arith) (omega arith)
  absorb_one target memory r (err e, s) = omega arith

  execute_action_one :
      (g : Gathered F) (embedding : List F) (action : AdjudicationAction) (target : Option Text)
      (r : ConsolidationReport F) (s : S)
      → g.verdict.target_id ≡ target
      → outcomes (execute_action f storage floor g embedding action r s).0 ≤ suc (outcomes r)
  unfolding execute_action execute_update execute_delete
  execute_action_one g embedding add target r s e = omega arith
  execute_action_one g embedding noop target r s e = omega arith
  execute_action_one g embedding update none r s e = rw e (omega arith)
  execute_action_one g embedding delete none r s e = rw e (omega arith)
  execute_action_one g embedding update (some target) r s e =
      rw e (elim (Bool-cases (text_eq target g.memory.id)) [
        | inl same ↦ rw same (omega arith)
        | inr other ↦ rw other (elim (Bool-cases (clears f floor (score_of g.candidates target))) [
          | inl high ↦ rw high (
              absorb_one target g.memory r
                (storage.update_memory target g.memory.content (some embedding) s))
          | inr low ↦ rw low (omega arith)
        ])
      ])
  execute_action_one g embedding delete (some target) r s e =
      rw e (elim (Bool-cases (clears f floor (evidence g target))) [
        | inl high ↦ rw high (
            counted_one invalidations_up errors_up r (storage.invalidate_memory target none s)
              (omega arith) (omega arith))
        | inr low ↦ rw low (omega arith)
      ])

  execute_one_one :
      (embeddings : Map (List F)) (g : Gathered F) (r : ConsolidationReport F) (s : S)
      → outcomes (execute_one f storage floor embeddings g r s).0 ≤ suc (outcomes r)
  unfolding execute_one
  execute_one_one embeddings g r s = elim (Bool-cases g.failed) [
    | inl h ↦ rw h (omega arith)
    | inr h ↦ rw h (elim (Option-cases (get g.memory.id embeddings)) [
      | inl e ↦ rw e (omega arith)
      | inr (v, e) ↦ rw e (execute_action_one g v g.verdict.action g.verdict.target_id r s refl)
    ])
  ]

  outcomes-execute_all :
      (embeddings : Map (List F)) (gs : List (Gathered F)) (r : ConsolidationReport F) (s : S)
      → outcomes (execute_all f storage floor embeddings gs r s).0 ≤ outcomes r + length gs
  unfolding execute_all
  outcomes-execute_all embeddings [] r s = omega arith
  outcomes-execute_all embeddings (g ∷ gs) r s =
      let one = execute_one f storage floor embeddings g r s in
      omega
        (arith, execute_one_one embeddings g r s, outcomes-execute_all embeddings gs one.0 one.1)

module _ {S F : Type 0} (f : Float F) (storage : Storage S F) (consolidator : Consolidator F)
    (floor : F) (width : ℕ) where
  -- Adjudication settles each pending memory at most once: the errors, absorptions and
  -- invalidations that it adds to the report are together no more than the pending memories.
  outcomes-adjudicate_all :
      (pending : List (Memory F)) (r : ConsolidationReport F) (s : S)
      → outcomes (adjudicate_all f storage consolidator floor width pending r s).0
        ≤ outcomes r + length pending
  unfolding adjudicate_all
  outcomes-adjudicate_all pending r s =
      let embeddings =
        value_or [] (storage.get_embeddings (map (λ (m : Memory F). m.id) pending) s) in
      let all = gather f storage consolidator floor width embeddings.0 pending embeddings.1 in
      let few =
        (gather_candidates f storage consolidator floor width pending embeddings.0
          embeddings.1).1 in
      let done = outcomes-execute_all f storage floor embeddings.0 all.0 r all.1 in
      elim (Bool-cases (width == 0)) [
        | inl h ↦ rw h (omega arith)
        | inr h ↦ rw h (omega (arith, few, done))
      ]

module _ {S F : Type 0} (storage : Storage S F) where
  -- Storing the abstracts accounts for each of them: it is either among the returned ids, which
  -- alone are marked as consolidated, or one more error of the report; nothing else is returned.
  pub persist_abstracts_accounts :
      (abstracts : List (Text × Text)) (r : ConsolidationReport F) (s : S)
      → let out = (persist_abstracts storage abstracts r s).0 in
        (length out.0 + out.1.errors ≡ length abstracts + r.errors)
        × ((id : Text) → In id out.0 → In id (map (λ a. a.0) abstracts))
  unfolding persist_abstracts
  persist_abstracts_accounts [] r s = (omega arith, λ id m. m)
  persist_abstracts_accounts ((id, abstract_) ∷ abstracts) r s =
      elim (result-cases (storage.update_abstract id abstract_ s)) [
        | inl (a, (t, e)) ↦
            let rest = persist_abstracts_accounts abstracts r t in
            rw e (
              omega (arith, rest.0),
              λ q m. elim m [ inl here ↦ inl here | inr later ↦ inr (rest.1 q later) ],
            )
        | inr (x, (t, e)) ↦
            let rest = persist_abstracts_accounts abstracts (errors_up r) t in
            rw e (omega (arith, rest.0), λ q m. inr (rest.1 q m))
      ]
