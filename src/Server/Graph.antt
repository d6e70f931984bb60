-- ===== src/Server/Graph.antt =====
-- get_graph of crates/server/src/handlers/trigger.rs: the neighbourhood of a memory.
pub mod Confined
use merkur_db.Base.Text.{Text, text_eq}
use merkur_db.Base.{
  ℕ, Bool, true, false, ◌&&◌, not, List, [], ◌∷◌, ◌++◌, Option, map, any, ◌==◌, if◌then◌else◌,
}
use merkur_db.Core.Float.{Float}
use merkur_db.Core.Storage.{Act, Storage, pure, ◌>>=◌, or_else}
use merkur_db.Core.Types.{Map, Edge, ScoredMemory, max_bfs_depth, max_bfs_degree}
use merkur_db.Server.Relate.{insert_id}
use merkur_db.Server.{clamp}
use merkur_db.Store.Insert.{unwrap_or}

pub record GraphQuery : Type 0 where
  pub depth : Option ℕ
  pub degree_limit : Option ℕ
  pub namespace : Option Text

pub record GraphConfig : Type 0 where
  pub default_depth : ℕ
  pub default_degree_limit : ℕ

pub record GraphResponse (F : Type 0) : Type 0 where
  pub center : Text
  pub depth : ℕ
  pub degree_limit : ℕ
  pub neighborhood : List (ScoredMemory F)
  pub edges : List (Edge F)

module _ {F : Type 0} where
  abbrev pub is_inside : List Text → Edge F → Bool
  is_inside node_ids e = any (text_eq e.source_id) node_ids && any (text_eq e.target_id) node_ids

  -- The edges inside the node set, each id once.
  unfoldable pub collect : List Text → List ℕ → List (Edge F) → List (Edge F)
  collect node_ids seen [] = []
  collect node_ids seen (e ∷ es) = elim (is_inside node_ids e && not (any (λ i. e.id == i) seen)) [
    | true ↦ e ∷ collect node_ids (e.id ∷ seen) es
    | false ↦ collect node_ids seen es
  ]

  -- `edges_by_node.values()`, one after another.
  unfoldable pub all_values : Map (List (Edge F)) → List (Edge F)
  all_values [] = []
  all_values ((id, edges) ∷ m) = edges ++ all_values m

  unfoldable pub nodes_of : Text → List (ScoredMemory F) → List Text
  nodes_of id neighborhood = insert_id id (map (λ (m : ScoredMemory F). m.id) neighborhood)

module _ {S F : Type 0} (f : Float F) (storage : Storage S F) (config : GraphConfig)
    (ns : Text) where
  unfoldable pub get_graph : Text → GraphQuery → Act S (GraphResponse F)
  unfolding collect all_values nodes_of
  get_graph id params = do
    let depth = clamp 1 max_bfs_depth (unwrap_or params.depth config.default_depth)
    let degree_limit =
        clamp 1 max_bfs_degree (unwrap_or params.degree_limit config.default_degree_limit)
    let scope = unwrap_or params.namespace ns
    neighborhood ← storage.bfs_expand_ns ((id, f.of_nat 1) ∷ []) scope depth degree_limit
    let node_ids = nodes_of id neighborhood
    by_node ← or_else (storage.get_edges_batch node_ids) []
    pure (record {
      center = id;
      depth = depth;
      degree_limit = degree_limit;
      neighborhood = neighborhood;
      edges = collect node_ids [] (all_values by_node);
    })
