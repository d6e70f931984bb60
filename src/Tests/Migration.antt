-- ===== src/Tests/Migration.antt =====
-- Runs of the schema migrations.
use merkur_db.Base.Text.{codes, text_dec}
use merkur_db.Base.{ℕ, ◌≡◌, refl, Bool, true, false, List, [], ◌∷◌, none, some, length}
use merkur_db.Core.Types.{MerkurResult, ok, err}
use merkur_db.Store.Migration.{Schema, StoredRow, migrate}

abbrev row : StoredRow
row = record { id = codes "mem_1"; content = codes "likes tea"; created_at = 1; valid_at = none }

-- A database from before the versions, with one column of a later step and a row, whose fourth
-- statement fails.
abbrev old_schema : List Bool → Schema
old_schema faults = record {
  version = none;
  columns = (codes "memories", codes "namespace") ∷ [];
  objects = [];
  memories = row ∷ [];
  fts = [];
  faults = faults;
}

abbrev version_after : MerkurResult (Unit {0}) × Schema → List ℕ
version_after (ok u, d) = elim d.version [
  | none ↦ []
  | some o ↦ elim o [ none ↦ [] | some v ↦ v ∷ length d.fts ∷ [] ]
]
version_after (err e, d) = length d.objects ∷ []

heals : version_after (migrate (old_schema [])) ≡ 6 ∷ 1 ∷ []
unfolding migrate text_dec
heals = refl

rolls_back :
    version_after (migrate (old_schema (false ∷ false ∷ false ∷ false ∷ true ∷ []))) ≡ 1 ∷ []
unfolding migrate text_dec
rolls_back = refl
