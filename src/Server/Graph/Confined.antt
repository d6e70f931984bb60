-- ===== src/Server/Graph/Confined.antt =====
-- get_graph of crates/server/src/handlers/trigger.rs over the SQLite store: what it lets be seen.
use merkur_db.Base.Text.{Text, text_eq, text_eq-In}
use merkur_db.Base.{
  ℕ, ◌≡◌, refl, ◌⊎◌, inl, inr, Bool, true, false, ◌&&◌, not, List, [], ◌∷◌, some, map, any, ◌==◌,
  In, All, All-In, All-imp, All-map, arith, Bool-cases,
}
use merkur_db.Core.Float.{Float}
use merkur_db.Core.Types.{Map, Edge, ScoredMemory, MerkurResult, ok, max_bfs_depth, max_bfs_degree}
use merkur_db.Server.Graph.{
  GraphQuery, GraphConfig, GraphResponse, is_inside, collect, all_values, nodes_of, get_graph,
}
use merkur_db.Server.{clamp}
use merkur_db.Store.Backend.{sqlite_storage}
use merkur_db.Store.Graph.Expand.{IsReached, expand-Reaches}
use merkur_db.Store.Graph.{bfs_expand_ns, get_edges_batch}
use merkur_db.Store.Insert.{unwrap_or}
use merkur_db.Store.Rows.{row_of, is_live}
use merkur_db.Store.Search.{read_quiet}
use merkur_db.Store.{MemoryRow, Db}

both : (a b : Bool) → (a && b) ≡ true → (a ≡ true) × (b ≡ true)
both a b h = ground (arith, h)

module _ {F : Type 0} where
  -- Both ends of an edge are among the ids.
  abbrev pub IsInside : List Text → Edge F → Type 0
  IsInside ids e = In e.source_id ids × In e.target_id ids

  collect-IsInside :
      (ids : List Text) (seen : List ℕ) (es : List (Edge F))
      → All (IsInside ids) (collect ids seen es)
  unfolding collect
  collect-IsInside ids seen [] = tt
  collect-IsInside ids seen (e ∷ es) =
      elim (Bool-cases (is_inside ids e && not (any (λ i. e.id == i) seen))) [
        | inr h ↦ rw (h, collect) (collect-IsInside ids seen es)
        | inl h ↦
            rw (h, collect)
              (let inside =
                  both (any (text_eq e.source_id) ids) (any (text_eq e.target_id) ids)
                    (both (is_inside ids e) _ h).0 in
                (
                  (text_eq-In e.source_id ids inside.0, text_eq-In e.target_id ids inside.1),
                  collect-IsInside ids (e.id ∷ seen) es,
                ))
      ]

  abbrev pub DistinctEdges : List (Edge F) → Type 0
  DistinctEdges [] = Unit
  DistinctEdges (e ∷ es) = All (λ (o : Edge F). (o.id == e.id) ≡ false) es × DistinctEdges es

  collect_unseen :
      (i : ℕ) (ids : List Text) (seen : List ℕ) (es : List (Edge F))
      → In i seen
      → All (λ (o : Edge F). (o.id == i) ≡ false) (collect ids seen es)
  unfolding collect
  collect_unseen i ids seen [] m = tt
  collect_unseen i ids seen (e ∷ es) m =
      elim (Bool-cases (is_inside ids e && not (any (λ i. e.id == i) seen))) [
        | inr h ↦ rw (h, collect) (collect_unseen i ids seen es m)
        | inl h ↦
            rw (h, collect)
              (
                unseen_id seen m (ground (arith, (both (is_inside ids e) _ h).1)),
                collect_unseen i ids (e.id ∷ seen) es (inr m),
              )
      ]
    where
      unseen_id :
          (seen : List ℕ) → In i seen → any (λ i. e.id == i) seen ≡ false → (e.id == i) ≡ false
      unseen_id [] n k = absurd n
      unseen_id (j ∷ js) (inl q) k = ground (arith, q, k)
      unseen_id (j ∷ js) (inr n) k = unseen_id js n (ground (arith, k))

  collect-DistinctEdges :
      (ids : List Text) (seen : List ℕ) (es : List (Edge F)) → DistinctEdges (collect ids seen es)
  unfolding collect
  collect-DistinctEdges ids seen [] = tt
  collect-DistinctEdges ids seen (e ∷ es) =
      elim (Bool-cases (is_inside ids e && not (any (λ i. e.id == i) seen))) [
        | inr h ↦ rw (h, collect) (collect-DistinctEdges ids seen es)
        | inl h ↦
            rw (h, collect)
              (
                collect_unseen e.id ids (e.id ∷ seen) es (inl refl),
                collect-DistinctEdges ids (e.id ∷ seen) es,
              )
      ]

module _ {F : Type 0} (f : Float F) (uuid : ℕ → Text)
    (matches : Text → List (MemoryRow F) → List (Text × F)) (config : GraphConfig) (ns : Text)
    (s : Db F) where
  -- The center that was asked for, or a live row of the bucket.
  abbrev pub IsShown : Text → Text → Text → Type 0
  IsShown id scope q =
      (q ≡ id)
      ⊎ ((r : MemoryRow F) × (row_of q s.memories ≡ some r)
          × (is_live r ≡ true)
          × (r.namespace ≡ scope))

  abbrev scope_of : GraphQuery → Text
  scope_of params = unwrap_or params.namespace ns

  abbrev pub IsConfined : Text → GraphQuery → MerkurResult (GraphResponse F) × Db F → Type 0
  IsConfined id params answer =
      (r : GraphResponse F) × (answer ≡ (ok r, s))
      × All (λ (m : ScoredMemory F). IsShown id (scope_of params) m.id) r.neighborhood
      × All
          (λ (e : Edge F).
            IsShown id (scope_of params) e.source_id × IsShown id (scope_of params) e.target_id)
          r.edges
      × DistinctEdges r.edges

  edges_quiet :
      (ids : List Text)
      → s.faults ≡ []
      → (m : Map (List (Edge F))) × (get_edges_batch ids s ≡ (ok m, s))
  unfolding get_edges_batch
  edges_quiet [] quiet = ([], refl)
  edges_quiet (id ∷ ids) quiet = (_, read_quiet _ s quiet)

  reached-IsShown :
      (id scope : Text) (seeds : List (Text × F)) (n : ℕ) (m : ScoredMemory F)
      → IsReached f (some scope) s seeds n m
      → IsShown id scope m.id
  reached-IsShown id scope seeds n m (ids, r, trail, far, near, score, row, live, bucket) =
      inr (r, row, live, ground (arith, bucket))

  nodes-IsShown :
      (id scope : Text) (out : List (ScoredMemory F))
      → All (λ (m : ScoredMemory F). IsShown id scope m.id) out
      → All (IsShown id scope) (nodes_of id out)
  unfolding nodes_of
  nodes-IsShown id scope out h =
      let rest = All-map (IsShown id scope) (λ (m : ScoredMemory F). m.id) out h in
      elim (Bool-cases (any (text_eq id) (map (λ (m : ScoredMemory F). m.id) out))) [
        | inl e ↦ rw e rest
        | inr e ↦ rw e (inl refl, rest)
      ]

  -- In a store without faults the graph around an id is answered and nothing changes. Its
  -- neighbours and both ends of its edges are the id asked for or live rows of the bucket asked for,
  -- and no edge is listed twice.
  pub get_graph-IsConfined :
      (id : Text) (params : GraphQuery)
      → s.faults ≡ []
      → IsConfined id params (get_graph f (sqlite_storage f uuid matches) config ns id params s)
  unfolding get_graph bfs_expand_ns
  get_graph-IsConfined id params quiet =
      let depth = clamp 1 max_bfs_depth (unwrap_or params.depth config.default_depth) in
      let degree_limit =
        clamp 1 max_bfs_degree (unwrap_or params.degree_limit config.default_degree_limit) in
      let seeds : List (Text × F) = (id, f.of_nat 1) ∷ [] in
      let (out, e, reached, distinct, few) =
        expand-Reaches f (some (scope_of params)) s seeds depth degree_limit quiet in
      let (by_node, k) = edges_quiet (nodes_of id out) quiet in
      let shown = All-imp (reached-IsShown id (scope_of params) seeds _) out reached in
      let nodes = nodes-IsShown id (scope_of params) out shown in
      let ends : (o : Edge F)
          → IsInside (nodes_of id out) o
          → IsShown id (scope_of params) o.source_id × IsShown id (scope_of params) o.target_id =
        λ o m. (
          All-In (IsShown id (scope_of params)) o.source_id (nodes_of id out) nodes m.0,
          All-In (IsShown id (scope_of params)) o.target_id (nodes_of id out) nodes m.1,
        ) in
      (
        record {
          center = id;
          depth = depth;
          degree_limit = degree_limit;
          neighborhood = out;
          edges = collect (nodes_of id out) [] (all_values by_node);
        },
        rw e (rw k refl),
        shown,
        All-imp ends _ (collect-IsInside (nodes_of id out) [] (all_values by_node)),
        collect-DistinctEdges (nodes_of id out) [] (all_values by_node),
      )
