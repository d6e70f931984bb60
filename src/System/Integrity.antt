-- ===== src/System/Integrity.antt =====
-- The foreign keys of the SQLite store under the routes and the background passes of
-- crates/server/src/router.rs and scheduler.rs.
use merkur_db.Base.Text.{Text}
use merkur_db.Base.{ℕ, List, refl}
use merkur_db.Core.Float.{Float}
use merkur_db.Store.Refers.Serves.{sqlite_storage-Refers}
use merkur_db.Store.Refers.Steps.{elsewhere-Refers}
use merkur_db.Store.Refers.{Refers}
use merkur_db.Store.{MemoryRow, Db}
use merkur_db.System.History.{Service, Event, handle_all, handle_all-Leaves}

module _ {F : Type 0} (f : Float F) (uuid : ℕ → Text)
    (matches : Text → List (MemoryRow F) → List (Text × F)) (c : Service F) where
  -- From a store in which every edge stands between memories that exist and every tag belongs to
  -- one, every history of requests to the routes, refused ones included, of passes of the background
  -- workers and of failing accesses leaves such a store: no deletion, purge or expiry of an archive leaves
  -- an edge or a tag behind, and no insertion makes one without its memories.
  pub handle_all-Refers :
      (es : List (Event F)) (s : Db F) → Refers s → Refers (handle_all f uuid matches c es s)
  handle_all-Refers =
      handle_all-Leaves f uuid matches c Refers (sqlite_storage-Refers f uuid matches)
        (λ now s v. elsewhere-Refers s (record s { clock = now }) refl refl refl v)
