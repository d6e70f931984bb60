-- ===== src/Server/Relate/Batch.antt =====
-- What relate_batch of crates/server/src/handlers/trigger.rs writes and answers.
use merkur_db.Base.Text.{Text, text_eq}
use merkur_db.Base.{
  ℕ, suc, ◌+◌, ◌≡◌, refl, ◌∙◌, Bool, false, List, [], ◌∷◌, keep, length, any, arith, ltb, not, ◌&&◌,
  Option, none, some, if◌then◌else◌, Bool-cases, inl, inr,
}
use merkur_db.Core.Storage.{Storage}
use merkur_db.Core.Types.{MerkurResult, ok, err, max_batch_items}
use merkur_db.Server.Relate.{
  RelateRequest, EdgeFailure, RelateBatchResponse, edge_of, check_edge, counted, outcome, attempt,
  relate_each, relate_batch, id_pool,
}

-- Two different memories that exist.
abbrev pub is_valid : {F : Type 0} → List Text → RelateRequest F → Bool
is_valid existing r =
    not (text_eq r.source_id r.target_id)
    && any (text_eq r.source_id) existing
    && any (text_eq r.target_id) existing

module _ {S F : Type 0} (storage : Storage S F) where
  -- The insertion of each edge in turn, whatever it answers.
  abbrev pub insert_edges : List (RelateRequest F) → S → S
  insert_edges [] s = s
  insert_edges (r ∷ rs) s = insert_edges rs (storage.insert_edge (edge_of r) s).1

  outcome_state : (out : MerkurResult (Unit {0}) × S) → (outcome storage out).1 ≡ out.1
  outcome_state (ok u, s) = refl
  outcome_state (err e, s) = refl

  counted_one :
      (i : ℕ) (e : Option EdgeFailure) (done : ℕ × List (ℕ × EdgeFailure))
      → (counted i e done).0 + length (counted i e done).1 ≡ suc (done.0 + length done.1)
  unfolding counted
  counted_one i none done = omega arith
  counted_one i (some e) done = omega arith

  relate_each_accounts :
      (existing : List Text) (i : ℕ) (rs : List (RelateRequest F)) (s : S)
      → (relate_each storage existing i rs s).0.0 + length (relate_each storage existing i rs s).0.1
        ≡ length rs
  unfolding relate_each
  relate_each_accounts existing i [] s = omega arith
  relate_each_accounts existing i (r ∷ rs) s =
      let one = attempt storage (check_edge existing r) r s in
      let rest = relate_each storage existing (suc i) rs one.1 in
      omega (arith, counted_one i one.0 rest.0, relate_each_accounts existing (suc i) rs one.1)

  attempt_state :
      (existing : List Text) (r : RelateRequest F) (s : S)
      → (attempt storage (check_edge existing r) r s).1
        ≡ (if is_valid existing r then (storage.insert_edge (edge_of r) s).1 else s)
  unfolding check_edge attempt
  attempt_state existing r s = ground (arith, outcome_state (storage.insert_edge (edge_of r) s))

  relate_each_writes :
      (existing : List Text) (i : ℕ) (rs : List (RelateRequest F)) (s : S)
      → (relate_each storage existing i rs s).1 ≡ insert_edges (keep (is_valid existing) rs) s
  unfolding relate_each
  relate_each_writes existing i [] s = refl
  relate_each_writes existing i (r ∷ rs) s =
      relate_each_writes existing (suc i) rs (attempt storage (check_edge existing r) r s).1
      ∙ rw (attempt_state existing r s)
          (elim (Bool-cases (is_valid existing r)) [ inl h ↦ rw h refl | inr h ↦ rw h refl ])

  -- A batch is answered for each of its edges, and writes the valid ones.
  abbrev pub Relates :
      List (RelateRequest F) → List Text → S → MerkurResult RelateBatchResponse × S → Type 0
  Relates edges existing t out =
      (r : RelateBatchResponse) × (out ≡ (ok r, insert_edges (keep (is_valid existing) edges) t))
      × (r.created + length r.errors ≡ length edges)
      × (r.requested ≡ length edges)

  -- A batch of edges within the limit, once the store has told which ids exist, is answered: the
  -- edges between two different memories that exist are inserted in their order and no others, and
  -- the created edges and the errors together are as many as the edges.
  pub relate_batch-Relates :
      (edges : List (RelateRequest F)) (existing : List Text) (s t : S)
      → ltb max_batch_items (length edges) ≡ false
      → storage.memory_exists_batch (id_pool edges) s ≡ (ok existing, t)
      → Relates edges existing t (relate_batch storage edges s)
  unfolding relate_batch
  relate_batch-Relates edges existing s t within found = (
    record {
      created = (relate_each storage existing 0 edges t).0.0;
      requested = length edges;
      errors = (relate_each storage existing 0 edges t).0.1;
    },
    rw within (rw found (rw (relate_each_writes existing 0 edges t) refl)),
    relate_each_accounts existing 0 edges t,
    refl,
  )
