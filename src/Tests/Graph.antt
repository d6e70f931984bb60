-- ===== src/Tests/Graph.antt =====
-- Runs of the graph expansion, of SQL's LIKE, of the blob of a vector and of opening a store.
use merkur_db.Base.Text.{Text, codes, text_dec}
use merkur_db.Base.{ℕ, ◌*◌, ◌≡◌, refl, true, List, [], ◌∷◌, ◌++◌, map, length, none, some, arith}
use merkur_db.Core.Types.{NewEdge, ScoredMemory, manual, MerkurResult, ok, err}
use merkur_db.Server.Graph.Confined.{IsConfined, get_graph-IsConfined}
use merkur_db.Server.Graph.{get_graph}
use merkur_db.Store.Backend.{sqlite_storage}
use merkur_db.Store.Codec.{vec_f32_to_bytes, blob_to_f32, blob_to_f32-vec_f32_to_bytes}
use merkur_db.Store.Graph.Expand.{Reaches, expand-Reaches}
use merkur_db.Store.Graph.Like.{like}
use merkur_db.Store.Graph.{expand}
use merkur_db.Store.Load.{Opens, load_vectors_from_db, load-Mirrors}
use merkur_db.Store.Mirror.Keeps.{Mirrors}
use merkur_db.Store.Mirror.Steps.{Op, insert_op, insert_edge_op, run_all, run_all-Mirrors}
use merkur_db.Store.{Db}
use merkur_db.Tests.Numbers.{tenths}
use merkur_db.Tests.Sample.{alice, bob, team, note_of, ones, empty_db, empty_db-Mirrors, no_match}
use merkur_db.VectorIndex.{new, upsert}
use merkur_db.Store.Insert.{insert_edge, insert_memory}

abbrev link : Text → Text → NewEdge ℕ
link a b = record {
  source_id = a;
  target_id = b;
  weight = some 10;
  relation = none;
  edge_type = manual;
}

abbrev three : Text
three = codes "mem_111"

abbrev chain : List (Op ℕ)
chain =
    insert_op (note_of (10 ∷ []))
    ∷ insert_op (note_of (20 ∷ []))
    ∷ insert_op (note_of (30 ∷ []))
    ∷ insert_edge_op (link alice bob)
    ∷ insert_edge_op (link bob three)
    ∷ []

unfoldable chain_db : Db ℕ
chain_db = run_all tenths ones chain empty_db

chain_db_quiet : chain_db.faults ≡ []
unfolding chain_db run_all empty_db ones insert_edge insert_memory upsert new text_dec
chain_db_quiet = refl

chain_db-Mirrors : Mirrors tenths chain_db
unfolding chain_db
chain_db-Mirrors = run_all-Mirrors tenths ones chain empty_db empty_db-Mirrors

abbrev served : MerkurResult (List (ScoredMemory ℕ)) × Db ℕ → List (Text × ℕ)
served (ok hits, s) = map (λ (h : ScoredMemory ℕ). (h.id, h.score)) hits
served (err e, s) = []

-- Two steps along the chain: half of the score, and a quarter of it in tenths.
reaches_two :
    served (expand tenths ((alice, 40) ∷ []) (some team) 2 10 chain_db)
    ≡ (bob, 20) ∷ (three, 8) ∷ []
unfolding chain_db run_all empty_db ones expand insert_edge insert_memory upsert new text_dec like
reaches_two = refl

-- The wildcard `_` of an id in LIKE stands for any one character.
like_wildcard : like (codes "%,mem_1,%") (codes ",memX1,") ≡ true
unfolding like
like_wildcard = refl

expand-Reaches_example :
    Reaches tenths
      (some team)
      chain_db
      ((alice, 40) ∷ [])
      2
      10
      (expand tenths ((alice, 40) ∷ []) (some team) 2 10 chain_db)
expand-Reaches_example =
    expand-Reaches tenths (some team) chain_db ((alice, 40) ∷ []) 2 10 chain_db_quiet

load-Mirrors_example :
    Opens tenths chain_db (load_vectors_from_db tenths (record chain_db { vector_index = new }))
load-Mirrors_example = load-Mirrors tenths chain_db new chain_db-Mirrors chain_db_quiet

-- 1.0 and 0.5, behind them one byte of a chunk that is not whole.
blob_to_f32-vec_f32_to_bytes_example :
    (blob_to_f32 (vec_f32_to_bytes (1065353216 ∷ 1056964608 ∷ []) ++ 7 ∷ [])
      ≡ 1065353216 ∷ 1056964608 ∷ [])
    × (length (vec_f32_to_bytes (1065353216 ∷ 1056964608 ∷ [])) ≡ 4 * 2)
blob_to_f32-vec_f32_to_bytes_example =
    blob_to_f32-vec_f32_to_bytes (1065353216 ∷ 1056964608 ∷ []) (7 ∷ [])
      (omega arith, (omega arith, tt)) (omega arith)

get_graph-IsConfined_example :
    IsConfined tenths ones no_match
      (record { default_depth = 2; default_degree_limit = 20 })
      team
      chain_db
      alice
      (record { depth = none; degree_limit = none; namespace = none })
      (get_graph tenths
        (sqlite_storage tenths ones no_match)
        (record { default_depth = 2; default_degree_limit = 20 })
        team
        alice
        (record { depth = none; degree_limit = none; namespace = none })
        chain_db)
get_graph-IsConfined_example =
    get_graph-IsConfined tenths ones no_match
      (record { default_depth = 2; default_degree_limit = 20 }) team chain_db alice
      (record { depth = none; degree_limit = none; namespace = none }) chain_db_quiet
