-- ===== src/Consolidators/Llm.antt =====
-- crates/consolidators/src/llm.rs: LlmConsolidator. `serde_json`, the derived decoders and the HTTP
-- client are parameters, and `round_thousandths` is `(x * 1000.0).round() / 1000.0`.
pub mod Calls
pub mod Verdict
pub mod Report
use merkur_db.Base.Text.{Text, text_eq, codes}
use merkur_db.Base.{
  ℕ, suc, Bool, true, false, not, ◌&&◌, ◌||◌, List, [], ◌∷◌, ◌++◌, Option, none, some, map, any,
  length, leb, if◌then◌else◌, ◌+◌, ◌==◌,
}
use merkur_db.Consolidators.Extract.{extract_json_object}
use merkur_db.Core.Float.{Float}
use merkur_db.Core.Http.{HttpRequest, HttpResponse, then_, trim_slashes}
use merkur_db.Core.Storage.{Consolidator}
use merkur_db.Core.Types.{
  Map, insert, Memory, ScoredMemory, NewEdge, auto, ConsolidationReport, empty_report, Adjudication,
  default_adjudication, AdjudicationAction, add, update, delete, noop, MerkurResult, ok, err,
  MerkurError, consolidation,
}
use merkur_db.Store.Insert.{unwrap_or}

-- `serde_json::Value`: how the values that the module builds and reads are made and taken apart.
pub record Values (F V : Type 0) : Type 0 where
  pub text : Text → V
  pub number : F → V
  pub boolean : Bool → V
  pub array : List V → V
  pub object : List (Text × V) → V
  -- `body["key"]` and `body[0]`, which are null where nothing is there
  pub at_key : Text → V → V
  pub at_index : ℕ → V → V
  pub as_str : V → Option Text
  -- `serde_json::to_string`
  pub to_string : V → Option Text

pub data LlmBackend : Type 0 where
  ollama openai : LlmBackend

pub record LlmConsolidator : Type 0 where
  pub base_url : Text
  pub model : Text
  pub backend : LlmBackend
  pub api_key : Option Text

pub record AbstractResult (F : Type 0) : Type 0 where
  pub id : Text
  pub abstract_ : Text
  pub importance : Option F

pub record EdgeResult (F : Type 0) : Type 0 where
  pub source_id : Text
  pub target_id : Text
  pub relation : Option Text
  pub weight : Option F

pub record LlmResponse (F : Type 0) : Type 0 where
  pub memories : List (AbstractResult F)
  pub edges : List (EdgeResult F)

pub record AdjudicationJson : Type 0 where
  pub action : Option Text
  pub target_id : Option Text
  pub reason : Option Text

-- The message of the error is not modelled.
abbrev pub failed : {A : Type 0} → MerkurResult A
failed = err (consolidation [])

abbrev pub or_failed : {A : Type 0} → Option A → MerkurResult A
or_failed none = failed
or_failed (some a) = ok a

unfoldable pub new : Text → Text → LlmBackend → LlmConsolidator
unfolding trim_slashes
new base_url model backend = record {
  base_url = trim_slashes base_url;
  model = model;
  backend = backend;
  api_key = none;
}

abbrev pub with_api_key : Text → LlmConsolidator → LlmConsolidator
with_api_key key c = record c { api_key = some key }

-- `to_ascii_lowercase`
abbrev pub lower : ℕ → ℕ
lower c = if leb 65 c && leb c 90 then c + 32 else c

unfoldable pub action_of : Option Text → AdjudicationAction
action_of none = add
action_of (some a) =
    let word = map lower a in
    if text_eq word (codes "update")
    then update
    else if text_eq word (codes "delete")
    then delete
    else if text_eq word (codes "noop")
    then noop
    else add

-- A target is the pending memory or one of the candidates.
unfoldable pub known_target : Text → List Text → Option Text → Option Text
known_target pending_id candidate_ids none = none
known_target pending_id candidate_ids (some t) =
    if text_eq t pending_id || any (text_eq t) candidate_ids then some t else none

-- An UPDATE or DELETE that has no target is an ADD.
unfoldable pub settled : AdjudicationAction → Option Text → AdjudicationAction × Option Text
settled update none = (add, none)
settled delete none = (add, none)
settled add t = (add, t)
settled noop t = (noop, t)
settled update (some t) = (update, some t)
settled delete (some t) = (delete, some t)

unfoldable pub verdict_of : Text → List Text → Option AdjudicationJson → Adjudication
unfolding action_of known_target settled default_adjudication
verdict_of pending_id candidate_ids none = default_adjudication
verdict_of pending_id candidate_ids (some parsed) =
    let verdict =
      settled (action_of parsed.action) (known_target pending_id candidate_ids parsed.target_id) in
    record { action = verdict.0; target_id = verdict.1; reason = unwrap_or parsed.reason [] }

-- `parse` decodes an AdjudicationJson.
unfoldable pub parse_adjudication :
    (Text → Option AdjudicationJson) → Text → Text → List Text → Adjudication
unfolding extract_json_object verdict_of
parse_adjudication parse raw pending_id candidate_ids =
    verdict_of pending_id candidate_ids (parse (extract_json_object raw))

module _ {F : Type 0} (f : Float F) where
  -- `(0.0..=1.0).contains(&imp)`
  abbrev pub in_unit : F → Bool
  in_unit x = f.ge x (f.of_nat 0) && f.ge (f.of_nat 1) x

  unfoldable pub assess_one :
      List Text → AbstractResult F → ConsolidationReport F → ConsolidationReport F
  unfolding insert
  assess_one valid_ids m r =
      if any (text_eq m.id) valid_ids
      then record r {
        new_abstracts = insert m.id m.abstract_ r.new_abstracts;
        new_importance = elim m.importance [
          | none ↦ r.new_importance
          | some x ↦ if in_unit x then insert m.id x r.new_importance else r.new_importance
        ];
      }
      else record r { errors = suc r.errors }

  -- The first loop of `consolidate`.
  unfoldable pub assess :
      List Text → List (AbstractResult F) → ConsolidationReport F → ConsolidationReport F
  unfolding assess_one
  assess valid_ids [] r = r
  assess valid_ids (m ∷ ms) r = assess valid_ids ms (assess_one valid_ids m r)

  abbrev pub edge_from : EdgeResult F → NewEdge F
  edge_from e = record {
    source_id = e.source_id;
    target_id = e.target_id;
    weight = e.weight;
    relation = e.relation;
    edge_type = auto;
  }

  -- Both ends are input ids, and they differ.
  abbrev pub is_proper : List Text → EdgeResult F → Bool
  is_proper valid_ids e =
      any (text_eq e.source_id) valid_ids
      && any (text_eq e.target_id) valid_ids
      && not (text_eq e.source_id e.target_id)

  unfoldable pub connect_one :
      List Text → EdgeResult F → ConsolidationReport F → ConsolidationReport F
  connect_one valid_ids e r =
      if is_proper valid_ids e
      then record r { new_edges = r.new_edges ++ (edge_from e ∷ []) }
      else record r { errors = suc r.errors }

  -- The second loop of `consolidate`.
  unfoldable pub connect :
      List Text → List (EdgeResult F) → ConsolidationReport F → ConsolidationReport F
  unfolding connect_one
  connect valid_ids [] r = r
  connect valid_ids (e ∷ es) r = connect valid_ids es (connect_one valid_ids e r)

  -- What `consolidate` makes of the decoded answer about the memories of these ids.
  unfoldable pub report_of : List Text → LlmResponse F → ConsolidationReport F
  unfolding assess connect empty_report
  report_of valid_ids parsed =
      let r = record (empty_report {F = F}) { memories_processed = length valid_ids } in
      record (connect valid_ids parsed.edges (assess valid_ids parsed.memories r)) {
        edges_created = 0;
      }
