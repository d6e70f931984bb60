-- ===== src/Server/Relate.antt =====
-- crates/server/src/handlers/trigger.rs: the creation of one edge and of a batch of edges.
pub mod Batch
use merkur_db.Base.Text.{Text, text_eq}
use merkur_db.Base.{
  ℕ, suc, Bool, true, false, List, [], ◌∷◌, length, any, Option, none, some, ltb, if◌then◌else◌,
  ◌&&◌, not,
}
use merkur_db.Core.Storage.{Act, Storage, pure, raise, ◌>>=◌, ◌>>◌}
use merkur_db.Core.Types.{
  NewEdge, manual, MerkurResult, MerkurError, bad_request, memory_not_found, ok, err,
  max_batch_items,
}

pub record RelateRequest (F : Type 0) : Type 0 where
  pub source_id : Text
  pub target_id : Text
  pub weight : Option F
  pub relation : Option Text

-- What an edge of a batch failed at, beside its index.
pub data EdgeFailure : Type 0 where
  self_edge missing_source missing_target insert_failed : EdgeFailure

pub record RelateBatchResponse : Type 0 where
  pub created : ℕ
  pub requested : ℕ
  pub errors : List (ℕ × EdgeFailure)

-- `HashSet::insert`, the set as a list without repetitions.
abbrev pub insert_id : Text → List Text → List Text
insert_id id pool = if any (text_eq id) pool then pool else id ∷ pool

module _ {F : Type 0} where
  unfoldable pub edge_of : RelateRequest F → NewEdge F
  edge_of req = record {
    source_id = req.source_id;
    target_id = req.target_id;
    weight = req.weight;
    relation = req.relation;
    edge_type = manual;
  }

  unfoldable pub id_pool : List (RelateRequest F) → List Text
  id_pool [] = []
  id_pool (r ∷ rs) = insert_id r.source_id (insert_id r.target_id (id_pool rs))

  -- The checks before an edge is inserted, the first that fails first.
  unfoldable pub check_edge : List Text → RelateRequest F → Option EdgeFailure
  check_edge existing r =
      if text_eq r.source_id r.target_id
      then some self_edge
      else if not (any (text_eq r.source_id) existing)
      then some missing_source
      else if not (any (text_eq r.target_id) existing)
      then some missing_target
      else none

-- An edge is created or its failure noted.
unfoldable pub counted :
    ℕ → Option EdgeFailure → ℕ × List (ℕ × EdgeFailure) → ℕ × List (ℕ × EdgeFailure)
counted i none done = (suc done.0, done.1)
counted i (some e) done = (done.0, (i, e) ∷ done.1)

module _ {S F : Type 0} (storage : Storage S F) where
  abbrev pub found_or : MerkurError → Bool → Act S (Unit {0})
  found_or e true = pure tt
  found_or e false = raise e

  unfoldable pub validate_edge : Text → Text → Act S (Unit {0})
  validate_edge src dst = if text_eq src dst then raise (bad_request []) else (do
    storage.memory_exists src >>= found_or (memory_not_found src)
    storage.memory_exists dst >>= found_or (memory_not_found dst))

  unfoldable pub relate : RelateRequest F → Act S (Unit {0})
  unfolding validate_edge edge_of
  relate req = do validate_edge req.source_id req.target_id; storage.insert_edge (edge_of req)

  abbrev pub outcome : MerkurResult (Unit {0}) × S → Option EdgeFailure × S
  outcome (ok u, s) = (none, s)
  outcome (err e, s) = (some insert_failed, s)

  unfoldable pub attempt : Option EdgeFailure → RelateRequest F → S → Option EdgeFailure × S
  unfolding edge_of
  attempt (some e) r s = (some e, s)
  attempt none r s = outcome (storage.insert_edge (edge_of r) s)

  unfoldable pub relate_each :
      List Text → ℕ → List (RelateRequest F) → S → (ℕ × List (ℕ × EdgeFailure)) × S
  unfolding check_edge attempt counted
  relate_each existing i [] s = ((0, []), s)
  relate_each existing i (r ∷ rs) s =
      let one = attempt (check_edge existing r) r s in
      let rest = relate_each existing (suc i) rs one.1 in (counted i one.0 rest.0, rest.1)

  unfoldable pub relate_batch : List (RelateRequest F) → Act S RelateBatchResponse
  unfolding id_pool relate_each
  relate_batch edges = if ltb max_batch_items (length edges) then raise (bad_request []) else (do
    existing ← storage.memory_exists_batch (id_pool edges)
    λ s.
        let out = relate_each existing 0 edges s in
        pure (record { created = out.0.0; requested = length edges; errors = out.0.1 }) out.1)
