-- ===== src/Store/Migration/Ladder/Upgrade.antt =====
-- migrate of crates/storage/src/migration.rs as a whole: every outcome of its ladder.
use merkur_db.Base.{ℕ, ◌≡◌, ◌≢◌, [], ◌∷◌, Option, none, some, leb, max, if◌then◌else◌}
use merkur_db.Base.Text.{Text}
use merkur_db.Core.Storage.{Act, pure, ◌>>=◌}
use merkur_db.Core.Types.{MerkurResult, ok}
use merkur_db.Store.Migration.{Schema, exists_object, version_read, ladder}
use merkur_db.Store.Migration.Ladder.Made.{version_of, Made, Upgraded}
use merkur_db.Store.Migration.Ladder.Passes.{Outcome, Passes}

-- At the start: the version is `w`, and the schema has all that it says.
abbrev Start : Option (Option ℕ) → Schema → Type 0
Start w d = Made (version_of w) d × (d.version ≡ w)

abbrev made_object : Text → Schema → Schema
made_object name d = if exists_object name d then d else record d { objects = name ∷ d.objects }

abbrev pub IsMigrated : ℕ → Schema → Type 0
IsMigrated v d = Upgraded d × (version_of d.version ≡ max v 6)

abbrev upgrade_from : ℕ → Act Schema (Unit {0})
upgrade_from v = if leb 6 v then pure tt else ladder v

abbrev read_on : Act Schema (Unit {0})
read_on = do version ← λ d. version_read d.version d; upgrade_from version

-- The outcome of a migration of `d`, and its success where no statement fails.
abbrev pub Migrates : Schema → MerkurResult (Unit {0}) × Schema → Type 0
Migrates d out =
    Outcome (IsMigrated (version_of d.version)) d out
    × (d.version ≢ some none → d.faults ≡ [] → (d' : Schema) × (out ≡ (ok tt, d')))
