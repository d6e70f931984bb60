-- ===== src/Lib.antt =====
-- MerkurDB, a memory store for agents (crates/): memories are rows of an SQL table with an
-- embedding each, found by vector similarity and by keywords, merged and judged by a background
-- pass, and forgotten along a curve.
--
-- The parts, and the files that model them:
--   * Core/Types: the data of crates/core/src/types.rs and error.rs; Core/Storage: the traits of
--     crates/core/src/traits.rs, `Storage` as a record of operations on a state; Core/Float: `f64`
--     as a parameter, with the documented laws of its order tests as named hypotheses.
--   * VectorIndex: crates/storage/src/vector_index.rs, the parallel vectors `Inner` with `upsert`,
--     `remove`, `rebuild` and the heap of `search`; an index out of range is an absent result.
--   * Store: crates/storage/src/sqlite.rs and sqlite_helpers.rs. `Db` holds the tables and the
--     index of `SqliteStorage`; each statement is a function on the tables (Rows, Write, Insert,
--     Search) and each trait method an `Act` that keeps the state also when it fails. What the
--     engine decides is a list of faults, one entry taken by each access to the database. Graph
--     (`get_edges`, `get_edges_batch` and the recursive query of `bfs_expand`, with SQL's LIKE),
--     Overview (`stats`, `search_by_context`), Codec (the blob of an embedding), Load
--     (`load_vectors_from_db`), Backend (`impl Storage for SqliteStorage`) and Migration
--     (migration.rs: `migrate` and its steps over the schema).
--   * Fusion: crates/core/src/search_fusion.rs: Query (`escape_fts_query`), Rrf
--     (`rrf_fuse_weighted`), Pack (`estimate_tokens`, `greedy_pack`), Dedup (`mmr_dedup`) and
--     Recall (`hybrid_recall`, over any Storage).
--   * Forgetter: crates/forgetters/src/ebbinghaus.rs, `compute_weight` and `decide`.
--   * Scheduler: crates/server/src/scheduler.rs, `run_forgetting_once` and
--     `run_consolidation_once`, over any Storage and Consolidator.
--   * Server: crates/server/src/handlers/: Context (`assemble_context`), Search (`search`, here
--     `search_handler`, with its modes and its page), Write (`write`, `write_batch`), Relate
--     (`relate`, `relate_batch` of trigger.rs), Graph (`get_graph` of trigger.rs), Memories
--     (memory.rs, memories.rs, status.rs, admin.rs; a handler has the source's name and `_handler`
--     where the trait's method has that name) and Namespace (`from_request_parts`), over any
--     Storage and Embedder; the parsers of dates and of JSON objects are parameters. Errors is
--     crates/server/src/error.rs, and Gate is auth.rs and rate_limit.rs in the order of router.rs.
--   * Consolidators: crates/consolidators/src/: Extract (`extract_json_object`), Llm (the decoded
--     answers, `parse_adjudication`, the two loops of `consolidate`), Llm/Calls (the prompts, the
--     requests and the methods of the trait) and noop.rs.
--   * Embedders: crates/embedders/src/: Ollama (`OllamaEmbedder`), Openai (`OpenAIEmbedder`) and Noop
--     (`NoopEmbedder`); what an HTTP client sends is Core/Http, shared with the consolidators.
--   * System: the routes of crates/server/src/router.rs and the passes of the scheduler over the
--     SQLite store, as histories of events; Core/Preserves is the interface by which what every
--     method of a Storage preserves is preserved by its clients, and Store/Quiet brings it down
--     to the operations that write. Store/Mirror is about the vector index against the table,
--     Store/Refers about the foreign keys.
--   * Config: crates/server/src/config.rs, the settings that these parts read, `validate` and
--     `fusion_params`, and the forgetter's settings as crates/server/src/main.rs copies them.
--   * Base: shared names, lists and texts over native numbers, and the stable sort. Tests: runs at
--     concrete inputs, over fixed-point numbers.
--
-- How they interact: the scheduler and recall call the Storage trait; the store keeps its vector
-- index beside the table and answers a search of a bucket from both; recall fuses the store's two
-- channels, for the search and context handlers; the scheduler asks the forgetter for each listed
-- memory; the configuration gives the forgetter its bars and recall its weights.
--
-- Bounds and fuel: the loop of `vector_search_ns` runs on as many rounds as the index has ids and
-- one more. The width of a round doubles from at least one, so it exceeds the size of the index
-- before the rounds end, provided that the size lies below the largest `usize`, where the width
-- saturates; that the fuel is enough is part of what is shown. The recursive query of `bfs_expand`
-- goes as many layers as its depth, which the source caps at five. All other loops are recursions
-- on lists.
--
-- A text is the list of its code points, a time is in nanoseconds, a JSON value is its text, a
-- map is the list of its entries. The clock and the fresh ids are parts of the state.
--
-- The rows of the recursive query come in the order of its layers, whose order within the answer
-- the query fixes but for equal weights; an order on all floats stands for the comparison of the
-- engine, which has no NaN there. A request is handled to its end before the next event: each call
-- of the store is one transaction of it, and what holds between such calls in any order is shown
-- for the operations of the store themselves.
--
-- Not modelled: the loading of the configuration, start-up, metrics and the pages of the console;
-- the LanceDB backend, the clients and the benchmark, which are input and output or wrap libraries.
-- The full-text index of SQLite is a parameter of `text_search`; serde_json, the derived decoders
-- and the HTTP client are parameters of the consolidators and the embedders, the random generator
-- is one of `NoopEmbedder`, and the answer of the rate limiter one of the gate.
pub mod Base
pub mod Core
pub mod Embedders
pub mod Forgetter
pub mod VectorIndex
pub mod Fusion
pub mod Store
pub mod Scheduler
pub mod Server
pub mod Config
pub mod System
pub mod Consolidators
pub mod Tests
