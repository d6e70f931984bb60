-- ===== src/Store/Migration.antt =====
-- crates/storage/src/migration.rs: the ladder of schema versions, each step in its own transaction.
-- A schema is what the steps look at and change: the columns and other objects that exist, the rows
-- of `memories` and of the full-text index. Any statement may fail, as `faults` says of the next ones.
pub mod Ladder
use merkur_db.Base.Text.{Text, text_eq, codes}
use merkur_db.Base.{
  ℕ, Bool, true, false, not, ◌&&◌, List, [], ◌∷◌, ◌++◌, Option, none, some, map, any, keep, leb,
  ltb, if◌then◌else◌,
}
use merkur_db.Core.Storage.{Act, pure, raise, ◌>>=◌, ◌>>◌}
use merkur_db.Core.Types.{MerkurError, MerkurResult, ok, err}

pub record StoredRow : Type 0 where
  pub id : Text
  pub content : Text
  pub created_at : ℕ
  pub valid_at : Option ℕ

-- `version` is the row of `merkur_meta`, nothing in it where its value is no number; `columns` are
-- pairs of a table and a column, and `objects` are tables, triggers and indexes.
pub record Schema : Type 0 where
  pub version : Option (Option ℕ)
  pub columns : List (Text × Text)
  pub objects : List Text
  pub memories : List StoredRow
  pub fts : List (Text × Text)
  pub faults : List Bool

abbrev pub current_version : ℕ
current_version = 6

abbrev pub storage_error : MerkurError
storage_error = MerkurError.storage []

abbrev pub applied : Option Schema → Schema → MerkurResult (Unit {0}) × Schema
applied none d = (err storage_error, d)
applied (some d') d = (ok tt, d')

abbrev pub run_or_fail :
    (Schema → Option Schema) → List Bool → Schema → MerkurResult (Unit {0}) × Schema
run_or_fail g [] d = applied (g d) d
run_or_fail g (true ∷ faults) d = (err storage_error, record d { faults = faults })
run_or_fail g (false ∷ faults) d =
    applied (g (record d { faults = faults })) (record d { faults = faults })

-- A statement: it fails by the next fault, or where it has no result.
unfoldable pub execute : (Schema → Option Schema) → Act Schema (Unit {0})
execute g d = run_or_fail g d.faults d

abbrev pub exists_object : Text → Schema → Bool
exists_object name d = any (text_eq name) d.objects

-- `CREATE … IF NOT EXISTS`
abbrev pub create : Text → Schema → Option Schema
create name d = some (if exists_object name d then d else record d { objects = name ∷ d.objects })

abbrev pub column_in : Text → Text → Schema → Bool
column_in table column d = any (λ e. text_eq table e.0 && text_eq column e.1) d.columns

-- `ALTER TABLE … ADD COLUMN`, which fails where the column is there.
abbrev pub add_column : Text → Text → Schema → Option Schema
add_column table column d =
    if column_in table column d
    then none
    else some (record d { columns = (table, column) ∷ d.columns })

abbrev pub is_indexed : List (Text × Text) → StoredRow → Bool
is_indexed fts r = any (λ e. text_eq e.0 r.id) fts

-- `INSERT INTO memories_fts … WHERE id NOT IN …`
abbrev pub backfill_fts : Schema → Option Schema
backfill_fts d = some (record d {
  fts =
      d.fts
      ++ map (λ (r : StoredRow). (r.id, r.content))
          (keep (λ r. not (is_indexed d.fts r)) d.memories);
})

abbrev pub dated : StoredRow → StoredRow
dated r = record r { valid_at = elim r.valid_at [ none ↦ some r.created_at | some t ↦ some t ] }

-- `UPDATE memories SET valid_at = created_at WHERE valid_at IS NULL`
abbrev pub backfill_valid_at : Schema → Option Schema
backfill_valid_at d = some (record d { memories = map dated d.memories })

-- `if !has_column(conn, table, column)? { … }`, where the look is a statement too.
unfoldable pub unless_column : Text → Text → Act Schema (Unit {0}) → Act Schema (Unit {0})
unfolding execute
unless_column table column more = do
  execute some
  λ d. if column_in table column d then (ok tt, d) else more d

unfoldable pub run_v2 : Act Schema (Unit {0})
unfolding execute
run_v2 = do
  execute (create (codes "memories_fts"))
  execute (create (codes "memories_fts_ai"))
  execute (create (codes "memories_fts_ad"))
  execute (create (codes "memories_fts_au"))
  execute backfill_fts

unfoldable pub run_v3 : Act Schema (Unit {0})
unfolding execute unless_column
run_v3 = do
  unless_column (codes "memories") (codes "namespace")
      (execute (add_column (codes "memories") (codes "namespace")))
  execute (create (codes "idx_mem_namespace"))

unfoldable pub run_v4 : Act Schema (Unit {0})
unfolding execute unless_column
run_v4 = do
  unless_column (codes "memories") (codes "importance")
      (execute (add_column (codes "memories") (codes "importance")))
  execute (create (codes "idx_mem_importance"))

unfoldable pub run_v5 : Act Schema (Unit {0})
unfolding execute unless_column
run_v5 = do
  unless_column (codes "memories") (codes "valid_at")
      (do execute (add_column (codes "memories") (codes "valid_at")); execute backfill_valid_at)
  unless_column (codes "memories") (codes "invalid_at") (do
    execute (add_column (codes "memories") (codes "invalid_at"))
    execute (create (codes "idx_mem_invalid_at")))

unfoldable pub run_v6 : Act Schema (Unit {0})
unfolding execute unless_column
run_v6 = do
  unless_column (codes "consolidate_log") (codes "absorptions")
      (execute (add_column (codes "consolidate_log") (codes "absorptions")))
  unless_column (codes "consolidate_log") (codes "invalidations")
      (execute (add_column (codes "consolidate_log") (codes "invalidations")))

abbrev pub set_version : ℕ → Schema → Option Schema
set_version version d = some (record d { version = some (some version) })

-- A transaction that fails leaves everything as it was, the faults apart.
abbrev pub committed : Schema → MerkurResult (Unit {0}) × Schema → MerkurResult (Unit {0}) × Schema
committed d (ok u, d') = (ok u, d')
committed d (err e, d') = (err e, record d { faults = d'.faults })

-- The first and the last statement begin and commit the transaction.
unfoldable pub migrate_step : ℕ → Act Schema (Unit {0}) → Act Schema (Unit {0})
unfolding execute
migrate_step to step d =
    committed d ((do execute some; step; execute (set_version to); execute some) d)

abbrev pub version_read : Option (Option ℕ) → Act Schema ℕ
version_read none = pure 0
version_read (some none) = raise storage_error
version_read (some (some version)) = pure version

-- `if version < to { migrate_step(&mut conn, to, step)?; }`
unfoldable pub step_if : ℕ → ℕ → Act Schema (Unit {0}) → Act Schema (Unit {0})
unfolding migrate_step
step_if version to step = if ltb version to then migrate_step to step else pure tt

unfoldable pub ladder : ℕ → Act Schema (Unit {0})
unfolding step_if run_v2 run_v3 run_v4 run_v5 run_v6
ladder version = do
  step_if version 2 run_v2
  step_if version 3 run_v3
  step_if version 4 run_v4
  step_if version 5 run_v5
  step_if version 6 run_v6

unfoldable pub migrate : Act Schema (Unit {0})
unfolding execute ladder
migrate = do
  execute (create (codes "merkur_meta"))
  execute some
  version ← λ d. version_read d.version d
  if leb current_version version then pure tt else ladder version
