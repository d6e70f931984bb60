-- ===== src/Tests/System.antt =====
-- A history of requests and passes over the SQLite store.
use merkur_db.Base.Text.{codes}
use merkur_db.Base.{ℕ, true, false, List, [], ◌∷◌, none, some}
use merkur_db.Core.Storage.{Embedder}
use merkur_db.Core.Types.{ok, WriteItem}
use merkur_db.Forgetter.{default_config}
use merkur_db.System.History.{
  Service, Request, write_request, write_batch_request, context_request, update_request,
  graph_request, relate_request, delete_request, Event, asked, health_check, forgetting_tick,
  consolidation_tick, quiet_time, handle_all,
}
use merkur_db.Store.Refers.{Refers}
use merkur_db.System.Integrity.{handle_all-Refers}
use merkur_db.Tests.Numbers.{tenths}
use merkur_db.Tests.Sample.{team, ones, merging, empty_db, no_match}
use merkur_db.Tests.Server.{green_tea, settings}

abbrev flat : Embedder ℕ
flat = record { dim = 1; encode = λ t. ok (10 ∷ []); encode_batch = λ ts. ok ((10 ∷ []) ∷ []) }

abbrev note : WriteItem
note = record { content = codes "likes tea"; context = none; metadata = none }

abbrev started : Service ℕ
started = record {
  searching = settings;
  auth = record { tokens = codes "sesame" ∷ []; disabled = false };
  exploring = record { default_depth = 2; default_degree_limit = 20 };
  started_at = 0;
  writing = record { dedup_threshold = 9; dedup_enabled = true; adjudication = codes "off" };
  forgetting = default_config tenths;
  floor = 5;
  width = 2;
  batch = 10;
  archive_days = 30;
  purge_days = 30;
  parse_date = λ t. none;
  parse_object = λ t. none;
}

abbrev with_token : Request ℕ → Event ℕ
with_token req = asked none (some (codes "Bearer sesame")) flat team req

abbrev day : List (Event ℕ)
day =
    with_token (write_request note)
    ∷ with_token (write_batch_request (note ∷ []))
    ∷ asked none none flat team (update_request (codes "mem_1") (codes "forged"))
    ∷ with_token (context_request green_tea)
    ∷ with_token (
        graph_request (codes "mem_1")
          (record { depth = none; degree_limit = none; namespace = none }))
    ∷ health_check flat
    ∷ consolidation_tick merging 3
    ∷ quiet_time 1000
    ∷ forgetting_tick
    ∷ []

-- Two memories, an edge between them, and the end of one of them.
abbrev linked : List (Event ℕ)
linked =
    with_token (write_request note)
    ∷ with_token (write_request note)
    ∷ with_token (
        relate_request (record {
          source_id = codes "mem_1";
          target_id = codes "mem_11";
          relation = none;
          weight = none;
        }))
    ∷ with_token (delete_request (codes "mem_1"))
    ∷ forgetting_tick
    ∷ []

handle_all-Refers_example : Refers (handle_all tenths ones no_match started linked empty_db)
unfolding empty_db
handle_all-Refers_example =
    handle_all-Refers tenths ones no_match started linked empty_db
      (record { anchored = tt; tagging = tt })
