-- ===== src/System/History.antt =====
-- The routes of crates/server/src/router.rs over the SQLite store: requests to every handler of
-- memories behind its gate, the health check, and passes of the background workers, one after another. The
-- embedder and the consolidator of an event answer it as they like, since they are services beside
-- the process.
use merkur_db.Base.Text.{Text}
use merkur_db.Base.{ℕ, ◌+◌, Bool, List, [], ◌∷◌, Option}
use merkur_db.Config.{AuthConfig}
use merkur_db.Core.Float.{Float}
use merkur_db.Core.Preserves.{Preserves}
use merkur_db.Core.Storage.{Storage, Embedder, Consolidator}
use merkur_db.Core.Types.{Map, Json, WriteItem}
use merkur_db.Forgetter.{EbbinghausConfig, decide}
use merkur_db.Scheduler.Consolidation.{run_consolidation_once}
use merkur_db.Scheduler.Forgetting.{run_forgetting_once}
use merkur_db.Server.Errors.{Handler, done}
use merkur_db.Server.Gate.{protected}
use merkur_db.Server.Graph.{GraphQuery, GraphConfig, get_graph}
use merkur_db.Server.Memories.{
  ListQuery, list_memories_handler, get_memory_handler, update_memory_handler,
  delete_memory_handler, status, health, consolidation_log,
}
use merkur_db.System.Handlers.{
  protected_leaves, list_memories_leaves, get_memory_leaves, update_memory_leaves,
  delete_memory_leaves, status_leaves, health_leaves, consolidation_log_leaves, get_graph-Leaves,
}
use merkur_db.Server.Context.{ContextRequest, assemble_context}
use merkur_db.Server.Relate.{RelateRequest, relate, relate_batch}
use merkur_db.Server.Search.{SearchQuery, SearchConfig, search_handler}
use merkur_db.Server.Write.{WriteConfig, write, write_batch}
use merkur_db.Store.Backend.{sqlite_storage}
use merkur_db.Store.{MemoryRow, Db}
use merkur_db.System.Background.Forgetting.{run_forgetting_once_leaves}
use merkur_db.System.Background.Consolidation.{run_consolidation_once_leaves}
use merkur_db.System.Reads.{search_handler-Leaves, assemble_context-Leaves}
use merkur_db.System.Writes.{write-Leaves, write_batch-Leaves, relate-Leaves, relate_batch-Leaves}

-- What the process is started with; the last two fields are the parsers of the query parameters.
pub record Service (F : Type 0) : Type 0 where
  pub searching : SearchConfig F
  pub auth : AuthConfig
  pub exploring : GraphConfig
  pub started_at : ℕ
  pub writing : WriteConfig F
  pub forgetting : EbbinghausConfig F
  pub floor : F
  pub width : ℕ
  pub batch : ℕ
  pub archive_days : ℕ
  pub purge_days : ℕ
  pub parse_date : Text → Option ℕ
  pub parse_object : Text → Option (Map Json)

-- The protected routes. The two triggers run the passes of the scheduler on request.
pub data Request (F : Type 0) : Type 0 where
  write_request : WriteItem → Request F
  write_batch_request : List WriteItem → Request F
  search_request : SearchQuery F → Request F
  list_request : ListQuery → Request F
  context_request : ContextRequest → Request F
  get_request : Text → Request F
  update_request : Text → Text → Request F
  delete_request : Text → Request F
  status_request : Request F
  consolidate_request : Consolidator F → ℕ → Request F
  log_request : Option ℕ → Request F
  forget_request : Request F
  relate_request : RelateRequest F → Request F
  relate_batch_request : List (RelateRequest F) → Request F
  graph_request : Text → GraphQuery → Request F

-- What happens to the process: a request with the answer of the rate limiter, its Authorization
-- header, the embedder that it meets and its bucket; a health check; a tick of a background worker;
-- time that passes.
pub data Event (F : Type 0) : Type 0 where
  asked : Option Bool → Option Text → Embedder F → Text → Request F → Event F
  health_check : Embedder F → Event F
  forgetting_tick : Event F
  consolidation_tick : Consolidator F → ℕ → Event F
  quiet_time : ℕ → Event F

module _ {F : Type 0} (f : Float F) (uuid : ℕ → Text)
    (matches : Text → List (MemoryRow F) → List (Text × F)) (c : Service F) where
  abbrev storage : Storage (Db F) F
  storage = sqlite_storage f uuid matches

  unfoldable pub forgetting_pass : Db F → Db F
  forgetting_pass s =
      (run_forgetting_once storage (decide f c.forgetting) c.batch c.archive_days c.purge_days
        s.clock s).1

  unfoldable pub consolidation_pass : Consolidator F → ℕ → Db F → Db F
  consolidation_pass consolidator took s =
      (run_consolidation_once f storage consolidator c.floor c.width c.batch s.clock
        (s.clock + took) s).1

  -- A handler of which only the state that it leaves is followed.
  abbrev ended : {A : Type 0} → (Db F → A × Db F) → Handler (Db F) Unit
  ended h s = (done tt, (h s).1)

  -- The handler of a route.
  unfoldable pub route : Embedder F → Text → Request F → Handler (Db F) Unit
  unfolding forgetting_pass consolidation_pass
  route embedder ns (write_request item) = ended (write storage embedder c.writing ns item)
  route embedder ns (write_batch_request items) =
      ended (write_batch storage embedder c.writing ns items)
  route embedder ns (search_request params) =
      ended (search_handler f storage embedder c.searching ns c.parse_date c.parse_object params)
  route embedder ns (list_request params) = ended (list_memories_handler storage ns params)
  route embedder ns (context_request req) =
      ended (assemble_context f storage embedder c.searching.fusion_params ns req)
  route embedder ns (get_request id) = ended (get_memory_handler storage id)
  route embedder ns (update_request id content) =
      ended (update_memory_handler storage embedder id content)
  route embedder ns (delete_request id) = ended (delete_memory_handler storage id)
  route embedder ns status_request = λ s. ended (status storage c.started_at s.clock) s
  route embedder ns (consolidate_request consolidator took) =
      λ s. (done tt, consolidation_pass consolidator took s)
  route embedder ns (log_request limit) = ended (consolidation_log storage limit)
  route embedder ns forget_request = λ s. (done tt, forgetting_pass s)
  route embedder ns (relate_request req) = ended (relate storage req)
  route embedder ns (relate_batch_request edges) = ended (relate_batch storage edges)
  route embedder ns (graph_request id params) = ended (get_graph f storage c.exploring ns id params)

  unfoldable pub handle : Event F → Db F → Db F
  unfolding route forgetting_pass consolidation_pass
  handle (asked limit header embedder ns req) s =
      (protected limit c.auth header (route embedder ns req) s).1
  handle (health_check embedder) s = (health storage embedder s).1
  handle forgetting_tick s = forgetting_pass s
  handle (consolidation_tick consolidator took) s = consolidation_pass consolidator took s
  handle (quiet_time elapsed) s = record s { clock = s.clock + elapsed }

  unfoldable pub handle_all : List (Event F) → Db F → Db F
  unfolding handle
  handle_all [] s = s
  handle_all (e ∷ es) s = handle_all es (handle e s)

  -- A property that every method of the store and the passing of time preserve.
  module _ (P : Db F → Type 0) (keeps : Preserves storage P)
      (timeless : (now : ℕ) (s : Db F) → P s → P (record s { clock = now })) where
    forgetting_pass-Leaves : (s : Db F) → P s → P (forgetting_pass s)
    unfolding forgetting_pass
    forgetting_pass-Leaves s v =
        run_forgetting_once_leaves storage P keeps (decide f c.forgetting) c.batch c.archive_days
          c.purge_days s.clock s v

    consolidation_pass-Leaves :
        (consolidator : Consolidator F) (took : ℕ) (s : Db F)
        → P s
        → P (consolidation_pass consolidator took s)
    unfolding consolidation_pass
    consolidation_pass-Leaves consolidator took s v =
        run_consolidation_once_leaves storage P keeps f c.floor consolidator c.width c.batch s.clock
          (s.clock + took) s v

    route-Leaves :
        (embedder : Embedder F) (ns : Text) (req : Request F) (s : Db F)
        → P s
        → P (route embedder ns req s).1
    unfolding route
    route-Leaves embedder ns (write_request item) s v =
        write-Leaves storage P keeps embedder c.writing ns item s v
    route-Leaves embedder ns (write_batch_request items) s v =
        write_batch-Leaves storage P keeps embedder c.writing ns items s v
    route-Leaves embedder ns (search_request params) s v =
        search_handler-Leaves f storage P keeps embedder ns c.searching c.parse_date c.parse_object
          params s v
    route-Leaves embedder ns (list_request params) s v =
        list_memories_leaves storage P keeps ns params s v
    route-Leaves embedder ns (context_request req) s v =
        assemble_context-Leaves f storage P keeps embedder ns c.searching.fusion_params req s v
    route-Leaves embedder ns (get_request id) s v = get_memory_leaves storage P keeps id s v
    route-Leaves embedder ns (update_request id content) s v =
        update_memory_leaves storage P keeps embedder id content s v
    route-Leaves embedder ns (delete_request id) s v = delete_memory_leaves storage P keeps id s v
    route-Leaves embedder ns status_request s v =
        status_leaves storage P keeps c.started_at s.clock s v
    route-Leaves embedder ns (consolidate_request consolidator took) s v =
        consolidation_pass-Leaves consolidator took s v
    route-Leaves embedder ns (log_request limit) s v =
        consolidation_log_leaves storage P keeps limit s v
    route-Leaves embedder ns forget_request s v = forgetting_pass-Leaves s v
    route-Leaves embedder ns (relate_request req) s v = relate-Leaves storage P keeps req s v
    route-Leaves embedder ns (relate_batch_request edges) s v =
        relate_batch-Leaves storage P keeps edges s v
    route-Leaves embedder ns (graph_request id params) s v =
        get_graph-Leaves storage P keeps f c.exploring ns id params s v

    handle-Leaves : (e : Event F) (s : Db F) → P s → P (handle e s)
    unfolding handle
    handle-Leaves (asked limit header embedder ns req) s v =
        protected_leaves P limit c.auth header (route embedder ns req)
          (route-Leaves embedder ns req) s v
    handle-Leaves (health_check embedder) s v = health_leaves storage P keeps embedder s v
    handle-Leaves forgetting_tick s v = forgetting_pass-Leaves s v
    handle-Leaves (consolidation_tick consolidator took) s v =
        consolidation_pass-Leaves consolidator took s v
    handle-Leaves (quiet_time elapsed) s v = timeless (s.clock + elapsed) s v

    pub handle_all-Leaves : (es : List (Event F)) (s : Db F) → P s → P (handle_all es s)
    unfolding handle_all
    handle_all-Leaves [] s v = v
    handle_all-Leaves (e ∷ es) s v = handle_all-Leaves es (handle e s) (handle-Leaves e s v)
