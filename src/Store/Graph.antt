-- ===== src/Store/Graph.antt =====
-- The graph reads of crates/storage/src/sqlite_helpers.rs: bfs_expand, get_edges and
-- get_edges_batch. The recursive query runs in layers, one for each depth, as the queue of the
-- engine does; rows that the order of the query leaves open stand in the order of that queue.
pub mod Like
pub mod Cycles
pub mod Trails
pub mod Expand
use merkur_db.Base.Sort.{sort_by}
use merkur_db.Base.Text.{Text, text_eq}
use merkur_db.Base.{
  ℕ, zero, suc, Bool, true, false, not, ◌&&◌, ◌||◌, List, [], ◌∷◌, ◌++◌, Option, none, some, map,
  any, keep, ltb, ◌==◌, if◌then◌else◌, take, min,
}
use merkur_db.Core.Float.{Float}
use merkur_db.Core.Storage.{Act, pure, ◌>>=◌}
use merkur_db.Core.Types.{
  Map, get, Edge, EdgeType, auto, manual, ScoredMemory, from_i32, max_bfs_depth, max_bfs_degree,
}
use merkur_db.Store.Graph.Like.{like}
use merkur_db.Store.Insert.{unwrap_or}
use merkur_db.Store.Rows.{row_of, is_live, is_none, get_context_tags}
use merkur_db.Store.Search.{read}
use merkur_db.Store.{MemoryRow, EdgeRow, Db}

-- A row of the recursive table `bfs`.
pub record Hop (F : Type 0) : Type 0 where
  pub id : Text
  pub d : ℕ
  pub w : F
  pub path : Text

abbrev pub is_auto : EdgeType → Bool
is_auto auto = true
is_auto manual = false

-- `bfs.path LIKE '%,' || id || ',%'`
abbrev pub on_path : Text → Text → Bool
on_path id path = like (37 ∷ 44 ∷ id ++ 44 ∷ 37 ∷ []) path

module _ {F : Type 0} where
  -- `CASE WHEN e.source_id = bfs.id THEN e.target_id ELSE e.source_id END`
  abbrev pub other_end : EdgeRow F → Text → Text
  other_end e id = if text_eq e.source_id id then e.target_id else e.source_id

  -- The condition of the join: automatic edges lead both ways, manual ones forward.
  abbrev pub joins : EdgeRow F → Text → Bool
  joins e id =
      (is_auto e.edge_type && (text_eq e.source_id id || text_eq e.target_id id))
      || (not (is_auto e.edge_type) && text_eq e.source_id id)

  abbrev pub in_bucket : Option Text → MemoryRow F → Bool
  in_bucket none r = true
  in_bucket (some ns) r = text_eq r.namespace ns

  -- The join and the filter of a step in a bucket; a step in no bucket has neither.
  abbrev pub may_enter : Option Text → List (MemoryRow F) → Text → Bool
  may_enter none rows id = true
  may_enter (some ns) rows id = elim (row_of id rows) [
    | none ↦ false
    | some r ↦ text_eq r.namespace ns && is_none r.invalid_at
  ]

  -- `get_edges`: both directions.
  abbrev pub touches : Text → EdgeRow F → Bool
  touches id e = text_eq e.source_id id || text_eq e.target_id id

  abbrev pub edge_from_row : EdgeRow F → Edge F
  edge_from_row e = record {
    id = e.id;
    source_id = e.source_id;
    target_id = e.target_id;
    weight = e.weight;
    relation = e.relation;
    edge_type = e.edge_type;
  }

  unfoldable pub get_edges : Text → Act (Db F) (List (Edge F))
  unfolding read
  get_edges id = read λ s. map edge_from_row (keep (touches id) s.edges)

  -- `entry(id).or_default().push(edge)`
  unfoldable pub push_edge : Text → Edge F → Map (List (Edge F)) → Map (List (Edge F))
  push_edge id e [] = (id, e ∷ []) ∷ []
  push_edge id e ((j, es) ∷ m) =
      if text_eq j id then (j, es ++ e ∷ []) ∷ m else (j, es) ∷ push_edge id e m

  abbrev pub push_if : List Text → Text → Edge F → Map (List (Edge F)) → Map (List (Edge F))
  push_if ids id e m = if any (text_eq id) ids then push_edge id e m else m

  -- Each edge is pushed at its source and at its target.
  unfoldable pub group_edges :
      List Text → List (EdgeRow F) → Map (List (Edge F)) → Map (List (Edge F))
  unfolding push_edge
  group_edges ids [] m = m
  group_edges ids (e ∷ es) m =
      let edge = edge_from_row e in
      group_edges ids es (push_if ids e.target_id edge (push_if ids e.source_id edge m))

  unfoldable pub get_edges_batch : List Text → Act (Db F) (Map (List (Edge F)))
  unfolding read group_edges
  get_edges_batch [] = pure []
  get_edges_batch (id ∷ ids) = read λ s.
      group_edges (id ∷ ids)
        (keep (λ e. any (text_eq e.source_id) (id ∷ ids) || any (text_eq e.target_id) (id ∷ ids))
          s.edges)
        []

  -- `if !seen.insert(id) { continue; }`
  unfoldable pub first_of_each : List Text → List (Hop F × MemoryRow F) → List (Hop F × MemoryRow F)
  first_of_each seen [] = []
  first_of_each seen (h ∷ hs) =
      let rest = first_of_each (h.0.id ∷ seen) hs in
      let more = first_of_each seen hs in if any (text_eq h.0.id) seen then more else h ∷ rest

  -- `get_context_tags_batch`, which asks nothing for no ids.
  unfoldable pub contexts_of : List Text → Act (Db F) (Map (Map Text))
  unfolding read get_context_tags
  contexts_of [] = pure []
  contexts_of (id ∷ ids) = read λ s. map (λ i. (i, get_context_tags i s.tags)) (id ∷ ids)

module _ {F : Type 0} (f : Float F) where
  -- `SELECT key_id, 0, MAX(score), ',' || key_id || ',' … GROUP BY key_id`
  unfoldable pub add_seed : Text → F → List (Hop F) → List (Hop F)
  add_seed id score [] = record { id = id; d = 0; w = score; path = 44 ∷ id ++ 44 ∷ [] } ∷ []
  add_seed id score (h ∷ hs) =
      if text_eq h.id id
      then (if f.lt h.w score then record h { w = score } else h) ∷ hs
      else h ∷ add_seed id score hs

  unfoldable pub seed_rows : List (Text × F) → List (Hop F) → List (Hop F)
  unfolding add_seed
  seed_rows [] hs = hs
  seed_rows (s ∷ seeds) hs = seed_rows seeds (add_seed s.0 s.1 hs)

  unfoldable pub extended : Hop F → EdgeRow F → Hop F
  extended h e = record {
    id = other_end e h.id;
    d = suc h.d;
    w = f.mul h.w e.weight;
    path = h.path ++ other_end e h.id ++ 44 ∷ [];
  }

  -- The edges that a row is joined with, and its `WHERE`.
  abbrev pub leads_on : Option Text → List (MemoryRow F) → Hop F → EdgeRow F → Bool
  leads_on ns rows h e =
      joins e h.id
      && not (on_path (other_end e h.id) h.path)
      && may_enter ns rows (other_end e h.id)

  -- `UNION` keeps one of the rows that agree in every column.
  abbrev pub same_hop : Hop F → Hop F → Bool
  same_hop a b = text_eq a.id b.id && a.d == b.d && f.feq a.w b.w && text_eq a.path b.path

  unfoldable pub add_new : List (Hop F) → List (Hop F) → List (Hop F)
  add_new hs [] = hs
  add_new hs (k ∷ ks) = add_new (if any (same_hop k) hs then hs else hs ++ k ∷ []) ks

  -- The rows one step away from a layer.
  unfoldable pub next_layer : Option Text → Db F → List (Hop F) → List (Hop F) → List (Hop F)
  unfolding extended add_new
  next_layer ns s [] out = out
  next_layer ns s (h ∷ hs) out =
      next_layer ns s hs (add_new out (map (extended h) (keep (leads_on ns s.memories h) s.edges)))

  unfoldable pub layers : ℕ → Option Text → Db F → List (Hop F) → List (Hop F)
  unfolding next_layer
  layers zero ns s hs = hs
  layers (suc depth) ns s hs = hs ++ layers depth ns s (next_layer ns s hs [])

  -- The terminal `SELECT` with its join on `memories`.
  unfoldable pub visible :
      Option Text → List (MemoryRow F) → List (Hop F) → List (Hop F × MemoryRow F)
  visible ns rows [] = []
  visible ns rows (h ∷ hs) =
      let rest = visible ns rows hs in
      elim (row_of h.id rows) [
        | none ↦ rest
        | some r ↦ if ltb 0 h.d && is_live r && in_bucket ns r then (h, r) ∷ rest else rest
      ]

  -- `ORDER BY bfs.d, bfs.w DESC`
  abbrev pub nearer : Hop F × MemoryRow F → Hop F × MemoryRow F → Bool
  nearer a b = if a.0.d == b.0.d then not (f.lt a.0.w b.0.w) else ltb a.0.d b.0.d

  unfoldable pub bfs_rows :
      List (Text × F) → Option Text → ℕ → ℕ → Db F → List (Hop F × MemoryRow F)
  unfolding seed_rows layers visible sort_by
  bfs_rows seeds ns depth degree_limit s =
      take degree_limit
        (sort_by nearer (visible ns s.memories (layers depth ns s (seed_rows seeds []))))

  unfoldable pub diffused : Map (Map Text) → Hop F × MemoryRow F → ScoredMemory F
  unfolding get from_i32
  diffused contexts h = record {
    id = h.0.id;
    content = h.1.content;
    abstract_ = h.1.abstract_;
    score = f.mul (f.powi (f.lit 5 1) h.0.d) h.0.w;
    weight = h.0.w;
    level = from_i32 h.1.level;
    category = h.1.category;
    context = unwrap_or (get h.0.id contexts) [];
    created_at = h.1.created_at;
    namespace = h.1.namespace;
    importance = h.1.importance;
  }

  unfoldable pub bfs_query :
      List (Text × F) → Option Text → ℕ → ℕ → Act (Db F) (List (ScoredMemory F))
  unfolding read bfs_rows first_of_each contexts_of diffused
  bfs_query seeds ns depth degree_limit = do
    rows ← read λ s. bfs_rows seeds ns (min depth max_bfs_depth) (min degree_limit max_bfs_degree) s
    let found = first_of_each [] rows
    contexts ← contexts_of (map (λ (h : Hop F × MemoryRow F). h.0.id) found)
    pure (map (diffused contexts) found)

  unfoldable pub expand : List (Text × F) → Option Text → ℕ → ℕ → Act (Db F) (List (ScoredMemory F))
  unfolding bfs_query
  expand [] ns depth degree_limit = pure []
  expand (s ∷ seeds) ns zero degree_limit = pure []
  expand (s ∷ seeds) ns (suc depth) degree_limit = bfs_query (s ∷ seeds) ns (suc depth) degree_limit

  unfoldable pub bfs_expand : List (Text × F) → ℕ → ℕ → Act (Db F) (List (ScoredMemory F))
  unfolding expand
  bfs_expand seeds depth degree_limit = expand seeds none depth degree_limit

  unfoldable pub bfs_expand_ns : List (Text × F) → Text → ℕ → ℕ → Act (Db F) (List (ScoredMemory F))
  unfolding expand
  bfs_expand_ns seeds namespace depth degree_limit =
      expand seeds (some namespace) depth degree_limit
