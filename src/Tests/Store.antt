-- ===== src/Tests/Store.antt =====
-- Runs of the store.
use merkur_db.Base.Text.{codes, text_dec}
use merkur_db.Base.{ℕ, ◌≡◌, refl, List, [], ◌∷◌, none, some, arith, length}
use merkur_db.Core.Types.{ok}
use merkur_db.Store.Effects.{
  later, RecordsAccess, Hides, invalidate_memory-first_wins, record_access_lem,
  invalidate_memory-Hides,
}
use merkur_db.Store.Mirror.Keeps.{Mirrors}
use merkur_db.Store.Mirror.Steps.{
  Op, insert_op, insert_dedup_op, delete_op, wait_op, record_access_op, run_all, run_all-Mirrors,
}
use merkur_db.Store.Probe.Serving.{ServesBucket, vector_search_ns_lem}
use merkur_db.Store.Write.{invalidate_memory}
use merkur_db.Store.{Db}
use merkur_db.Tests.Numbers.{tenths, tenths_lawful}
use merkur_db.Tests.Sample.{team, note_of, ones, empty_db, empty_db-Mirrors}
use merkur_db.VectorIndex.{new, upsert}
use merkur_db.Store.Insert.{insert_memory}

abbrev history : List (Op ℕ)
history =
    insert_op (note_of (10 ∷ 20 ∷ []))
    ∷ wait_op 5
    ∷ insert_op (note_of (20 ∷ 10 ∷ []))
    ∷ record_access_op (codes "mem_1" ∷ [])
    ∷ insert_dedup_op (note_of (10 ∷ 20 ∷ [])) 200
    ∷ delete_op (codes "mem_11")
    ∷ []

abbrev two_notes : List (Op ℕ)
two_notes = insert_op (note_of (10 ∷ 20 ∷ [])) ∷ insert_op (note_of (20 ∷ 10 ∷ [])) ∷ []

unfoldable two_db : Db ℕ
two_db = run_all tenths ones two_notes empty_db

two_db-Mirrors : Mirrors tenths two_db
unfolding two_db
two_db-Mirrors = run_all-Mirrors tenths ones two_notes empty_db empty_db-Mirrors

two_db_quiet : two_db.faults ≡ []
unfolding two_db run_all empty_db ones insert_memory upsert new text_dec
two_db_quiet = refl

two_db_small : length two_db.vector_index.ids ≡ 2
unfolding two_db run_all empty_db ones insert_memory upsert new text_dec
two_db_small = refl

vector_search_ns_lem_example : ServesBucket tenths tenths_lawful (10 ∷ 0 ∷ []) team 1 two_db
vector_search_ns_lem_example =
    vector_search_ns_lem tenths tenths_lawful (10 ∷ 0 ∷ []) team 1 two_db two_db-Mirrors
      two_db_quiet (omega (arith, two_db_small))

invalidate_memory-Hides_example :
    Hides tenths tenths_lawful (codes "mem_1") none (10 ∷ 0 ∷ []) team 5 two_db
invalidate_memory-Hides_example =
    invalidate_memory-Hides tenths tenths_lawful (codes "mem_1") none (10 ∷ 0 ∷ []) team 5 two_db
      two_db-Mirrors two_db_quiet (omega (arith, two_db_small))

invalidate_memory-first_wins_example :
    invalidate_memory
      (codes "mem_1")
      none
      (later 7 (invalidate_memory (codes "mem_1") (some (codes "mem_11")) two_db).1)
    ≡ (ok tt, later 7 (invalidate_memory (codes "mem_1") (some (codes "mem_11")) two_db).1)
invalidate_memory-first_wins_example =
    invalidate_memory-first_wins (codes "mem_1") (some (codes "mem_11")) none 7 two_db two_db_quiet

record_access_lem_example : RecordsAccess (codes "mem_1") (codes "mem_404" ∷ []) two_db
record_access_lem_example =
    record_access_lem (codes "mem_1") (codes "mem_404" ∷ []) two_db two_db_quiet
