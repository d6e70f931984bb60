-- ===== src/Server/Search.antt =====
-- crates/server/src/handlers/search.rs: search in its three modes, with its filters and its page.
-- The parsers of dates and of the JSON of `context` are parameters. The values of a hash map come
-- in the order of its entries.
pub mod Page
use merkur_db.Base.Sort.{sort_by}
use merkur_db.Base.Text.{Text, codes, text_eq, trim, split_on}
use merkur_db.Base.{
  ℕ, suc, ◌+◌, ◌*◌, Bool, true, false, not, ◌&&◌, List, [], ◌∷◌, ◌++◌, map, keep, take, drop, any,
  length, Option, none, some, ◌==◌, leb, min, max, if◌then◌else◌,
}
use merkur_db.Core.Float.{Float}
use merkur_db.Core.Storage.{Act, Storage, Embedder, pure, raise, or_else, ◌>>=◌, ◌>>◌}
use merkur_db.Core.Types.{
  Map, get, insert, Json, string, other, Edge, EdgeType, ScoredMemory, MemoryLevel, full, summary,
  title, archived, to_i32, SearchMode, hybrid, fast, deep, MerkurResult, MerkurError, bad_request,
  ok, err, max_search_limit, max_bfs_depth, max_bfs_degree,
}
use merkur_db.Fusion.Dedup.{by_score}
use merkur_db.Fusion.Recall.{FusionParams, hybrid_recall, saturating_mul, by_id_from, usize_max}
use merkur_db.Server.{clamp}
use merkur_db.Store.Insert.{unwrap_or}
use merkur_db.Base.Int.{int_eq}

pub record SearchQuery (F : Type 0) : Type 0 where
  pub q : Text
  pub mode : Text
  pub limit : Option ℕ
  pub score_threshold : Option F
  pub context : Option Text
  pub offset : Option ℕ
  pub depth : Option ℕ
  pub degree_limit : Option ℕ
  pub level : Option Text
  pub category : Option Text
  pub from : Option Text
  pub to : Option Text
  pub include_graph : Option Bool

-- The settings of `Config` that the handler reads.
pub record SearchConfig (F : Type 0) : Type 0 where
  pub fast_limit : ℕ
  pub default_depth : ℕ
  pub default_degree_limit : ℕ
  pub score_threshold : F
  pub fusion_params : FusionParams F

pub record SearchResponse (F : Type 0) : Type 0 where
  pub results : List (ScoredMemory F)
  pub total : ℕ
  pub graph : Option (List Text × List (Edge F))

abbrev pub saturating_add : ℕ → ℕ → ℕ
saturating_add a b = min (a + b) usize_max

unfoldable pub parse_mode : Text → Option SearchMode
parse_mode s =
    if text_eq s (codes "hybrid")
    then some hybrid
    else if text_eq s (codes "fast")
    then some fast
    else if text_eq s (codes "deep")
    then some deep
    else none

-- `to_ascii_lowercase`
abbrev pub lowercase : ℕ → ℕ
lowercase c = if leb 65 c && leb c 90 then c + 32 else c

unfoldable pub parse_level : Text → Option MemoryLevel
parse_level token =
    let t = map lowercase token in
    if text_eq t (codes "full")
    then some full
    else if text_eq t (codes "summary")
    then some summary
    else if text_eq t (codes "title")
    then some title
    else if text_eq t (codes "archived")
    then some archived
    else none

-- `filter_map`; an empty token parses as no level.
unfoldable pub parse_tokens : List Text → List MemoryLevel
unfolding trim parse_level
parse_tokens [] = []
parse_tokens (token ∷ tokens) =
    let rest = parse_tokens tokens in
    elim (parse_level (trim token)) [ none ↦ rest | some l ↦ l ∷ rest ]

unfoldable pub parse_level_list : Text → List MemoryLevel
unfolding parse_tokens split_on
parse_level_list s = parse_tokens (split_on (λ c. c == 44) [] s)

-- `None => Ok(None)`, a date that does not parse is a bad request.
unfoldable pub parse_optional : (Text → Option ℕ) → Option Text → MerkurResult (Option ℕ)
parse_optional parse none = ok none
parse_optional parse (some s) = elim (parse s) [
  | none ↦ err (bad_request [])
  | some t ↦ ok (some t)
]

abbrev pub none_or {ℓ} : {A : Type ℓ} → (A → Bool) → Option A → Bool
none_or p none = true
none_or p (some a) = p a

abbrev pub is_hybrid : SearchMode → Bool
is_hybrid hybrid = true
is_hybrid fast = false
is_hybrid deep = false

module _ {F : Type 0} where
  abbrev pub passes_filters :
      Option (List MemoryLevel) → Option Text → Option ℕ → Option ℕ → ScoredMemory F → Bool
  unfolding to_i32
  passes_filters levels category from to r =
      none_or (any λ l. int_eq (to_i32 l) (to_i32 r.level)) levels
      && none_or (text_eq r.category) category
      && none_or (λ t. leb t r.created_at) from
      && none_or (leb r.created_at) to

  -- The edges with both ends on the page.
  abbrev pub induced : List Text → Map (List (Edge F)) → List (Edge F)
  induced ids [] = []
  induced ids ((id, edges) ∷ m) =
      keep (λ e. any (text_eq e.source_id) ids && any (text_eq e.target_id) ids) edges
      ++ induced ids m

module _ {F : Type 0} (f : Float F) where
  -- The larger score of a seed and a neighbour of one id.
  abbrev pub raised : ScoredMemory F → ScoredMemory F → ScoredMemory F
  raised n e = if f.lt e.score n.score then record e { score = n.score } else e

  -- The hash map as a list, a new entry last.
  unfoldable pub merge_neighbor : ScoredMemory F → Map (ScoredMemory F) → Map (ScoredMemory F)
  merge_neighbor n [] = (n.id, n) ∷ []
  merge_neighbor n ((j, e) ∷ m) =
      if text_eq j n.id then (j, raised n e) ∷ m else (j, e) ∷ merge_neighbor n m

  unfoldable pub merge_all : List (ScoredMemory F) → Map (ScoredMemory F) → Map (ScoredMemory F)
  unfolding merge_neighbor
  merge_all [] m = m
  merge_all (n ∷ ns) m = merge_all ns (merge_neighbor n m)

  -- `v.as_str().unwrap_or("")`
  abbrev pub as_text : Json → Text
  as_text (string s) = s
  as_text (other s) = []

  unfoldable pub boost : Map Json → ScoredMemory F → F → F
  unfolding get
  boost [] r b = b
  boost ((k, v) ∷ tags) r b =
      let hit : Bool = elim (get k r.context) [
        | none ↦ false
        | some val ↦ text_eq val (as_text v)
      ] in
      boost tags r (if hit then f.add b (f.lit 1 1) else b)

  unfoldable pub boosted : Option (Map Json) → ScoredMemory F → ScoredMemory F
  unfolding boost
  boosted none r = r
  boosted (some tags) r = record r { score = f.add r.score (boost tags r (f.of_nat 0)) }

  -- From the results of a mode to the ranked list before the page.
  unfoldable pub ranked_results :
      SearchMode
      → F
      → (ScoredMemory F → Bool)
      → Option (Map Json)
      → List (ScoredMemory F)
      → List (ScoredMemory F)
  unfolding boosted sort_by
  ranked_results mode threshold p tags results =
      let candidates = map (boosted tags) (keep p results) in
      let filtered =
        if is_hybrid mode then candidates else keep (λ r. f.ge r.score threshold) candidates in
      sort_by (by_score f) filtered

module _ {S F : Type 0} (f : Float F) (storage : Storage S F) (embedder : Embedder F)
    (config : SearchConfig F) (namespace : Text) where
  unfoldable pub mode_results :
      SearchMode → List F → Text → ℕ → ℕ → ℕ → ℕ → F → Act S (List (ScoredMemory F))
  unfolding hybrid_recall by_id_from merge_all
  mode_results hybrid vec q limit offset depth degree_limit threshold =
      hybrid_recall f storage vec q namespace
        (max (saturating_mul limit 2) (saturating_add offset limit)) threshold config.fusion_params
  mode_results fast vec q limit offset depth degree_limit threshold =
      storage.vector_search_ns vec namespace (limit * 2)
  mode_results deep vec q limit offset depth degree_limit threshold = do
    seeds ← storage.vector_search_ns vec namespace limit
    neighbors ←
        storage.bfs_expand_ns (map (λ (s : ScoredMemory F). (s.id, s.score)) seeds) namespace depth
          degree_limit
    pure (map (λ e. e.1) (merge_all f neighbors (by_id_from seeds [])))

  unfoldable pub page_graph : Bool → List Text → Act S (Option (List Text × List (Edge F)))
  page_graph false ids = pure none
  page_graph true [] = pure none
  page_graph true (id ∷ ids) = do
    by_id ← or_else (storage.get_edges_batch (id ∷ ids)) []
    pure (some (id ∷ ids, induced (id ∷ ids) by_id))

  unfoldable pub serve_page : Bool → ℕ → ℕ → List (ScoredMemory F) → Act S (SearchResponse F)
  unfolding page_graph
  serve_page include_graph offset limit filtered = do
    let paginated = take limit (drop offset filtered)
    let served = map (λ (r : ScoredMemory F). r.id) paginated
    or_else (storage.record_access served) tt
    graph ← page_graph include_graph served
    pure (record { results = paginated; total = length filtered; graph = graph })

  module _ (parse_date : Text → Option ℕ) (parse_object : Text → Option (Map Json)) where
    abbrev pub tags_of : Option Text → Option (Map Json)
    tags_of none = none
    tags_of (some s) = parse_object s

    abbrev pub levels_of : Option Text → Option (List MemoryLevel)
    unfolding parse_level_list
    levels_of none = none
    levels_of (some s) = some (parse_level_list s)

    unfoldable pub limit_of : SearchQuery F → ℕ
    limit_of params = clamp 1 max_search_limit (unwrap_or params.limit config.fast_limit)

    unfoldable pub search_in : SearchMode → SearchQuery F → Act S (SearchResponse F)
    unfolding parse_optional mode_results ranked_results serve_page limit_of
    search_in mode params = do
      let limit = limit_of params
      let depth = clamp 0 max_bfs_depth (unwrap_or params.depth config.default_depth)
      let degree_limit =
          clamp 1 max_bfs_degree (unwrap_or params.degree_limit config.default_degree_limit)
      let threshold = unwrap_or params.score_threshold config.score_threshold
      let offset = unwrap_or params.offset 0
      from ← λ s. (parse_optional parse_date params.from, s)
      to ← λ s. (parse_optional parse_date params.to, s)
      query_vec ← λ s. (embedder.encode params.q, s)
      results ← mode_results mode query_vec params.q limit offset depth degree_limit threshold
      serve_page (unwrap_or params.include_graph false) offset limit (
          ranked_results f mode threshold
            (passes_filters (levels_of params.level) params.category from to)
            (tags_of params.context) results)

    unfoldable pub search_handler : SearchQuery F → Act S (SearchResponse F)
    unfolding parse_mode search_in
    search_handler params = elim params.q [
      | [] ↦ raise (bad_request [])
      | c ∷ q ↦ elim (parse_mode params.mode) [
        | none ↦ raise (bad_request [])
        | some mode ↦ search_in mode params
      ]
    ]
