-- ===== src/Store/Migration/Ladder/Steps.antt =====
-- The steps run_v2 to run_v6 of crates/storage/src/migration.rs, and what each one makes.
use mathlib.Core.Path.{subst}
use merkur_db.Base.Text.{Text, text_eq_refl, codes}
use merkur_db.Base.{
  ℕ, zero, suc, ◌≡◌, refl, inl, inr, true, false, ◌∷◌, some, if◌then◌else◌, arith, Bool-cases,
}
use merkur_db.Core.Storage.{Act, ◌>>◌}
use merkur_db.Core.Types.{ok}
use merkur_db.Store.Migration.{
  Schema, execute, exists_object, column_in, add_column, unless_column, run_v2, run_v3, run_v4,
  run_v5, run_v6,
}
-- The id and the content of a row, which no migration touches.
use merkur_db.Store.Migration.Ladder.{
  Extends, Extends-refl, Stable, same_end, Grows, Always, execute-Grows, then-Grows, create-Grows,
  look-Grows, weaken, loosen,
}
use merkur_db.Store.Migration.Ladder.Backfill.{Covered, backfill_fts-Grows, backfill_valid_at-Grows}

column_in-cons :
    (t c table column : Text) (d : Schema)
    → column_in t c d ≡ true
    → column_in t c (record d { columns = (table, column) ∷ d.columns }) ≡ true
column_in-cons t c table column d h = ground (arith, h)

add_column-Grows :
    (table column : Text)
    → Grows
        (λ d. column_in table column d ≡ false)
        (λ d. column_in table column d ≡ true)
        (execute (add_column table column))
add_column-Grows table column =
    execute-Grows (λ d. column_in table column d ≡ false) (λ d. column_in table column d ≡ true)
      (add_column table column)
      (λ d. elim (Bool-cases (column_in table column d)) [
        | inl h ↦ rw h tt
        | inr h ↦ rw h (
          (λ t c k. column_in-cons t c table column d k, λ n k. k, refl, λ k m. m),
          ground (arith, text_eq_refl table, text_eq_refl column),
          refl,
        )
      ])
      (λ d h. (record d { columns = (table, column) ∷ d.columns }, rw h refl))

-- A column that is looked for, and whatever is done where it is absent, which adds it.
unless_column-Grows :
    (table column : Text) (more : Act Schema (Unit {0}))
    → Grows (λ d. column_in table column d ≡ false) (λ d. column_in table column d ≡ true) more
    → Grows Always (λ d. column_in table column d ≡ true) (unless_column table column more)
unfolding unless_column
unless_column-Grows table column more g =
    weaken (λ d. Unit × (column_in table column d ≡ true)) (λ d. column_in table column d ≡ true)
      (λ d q. q.1)
      (then-Grows Always Always (λ d. column_in table column d ≡ true) (execute some)
        (λ d. if column_in table column d then (ok tt, d) else more d) look-Grows
        (record {
          grows = λ d d' e. elim (Bool-cases (column_in table column d)) [
            | inl h ↦
                (subst (λ y. Extends d y × (column_in table column y ≡ true))
                  (same_end d d' (rw h at e)) (Extends-refl d, h))
            | inr h ↦ g.grows d d' (rw h at e)
          ];
          quiet = λ d p q. elim (Bool-cases (column_in table column d)) [
            | inl h ↦ (d, rw h refl, q)
            | inr h ↦ let (d', e, q') = g.quiet d h q in (d', rw h e, q')
          ];
        })
        (λ d d' x q. tt))

abbrev IsColumn : Text → Text → Schema → Type 0
IsColumn table column d = column_in table column d ≡ true

abbrev IsObject : Text → Schema → Type 0
IsObject name d = exists_object name d ≡ true

IsColumn-Stable : (table column : Text) → Stable (IsColumn table column)
IsColumn-Stable table column d d' (cs, os, ks, es) h = cs table column h

IsObject-Stable : (name : Text) → Stable (IsObject name)
IsObject-Stable name d d' (cs, os, ks, es) h = os name h

-- What the step to a version makes.
abbrev pub Has : ℕ → Schema → Type 0
Has zero d = Unit
Has (suc zero) d = Unit
Has (suc (suc zero)) d =
    IsObject (codes "memories_fts") d
    × (IsObject (codes "memories_fts_ai") d
        × (IsObject (codes "memories_fts_ad") d
            × (IsObject (codes "memories_fts_au") d × Covered d)))
Has (suc (suc (suc zero))) d =
    IsColumn (codes "memories") (codes "namespace") d × IsObject (codes "idx_mem_namespace") d
Has (suc (suc (suc (suc zero)))) d =
    IsColumn (codes "memories") (codes "importance") d × IsObject (codes "idx_mem_importance") d
Has (suc (suc (suc (suc (suc zero))))) d =
    IsColumn (codes "memories") (codes "valid_at") d
    × IsColumn (codes "memories") (codes "invalid_at") d
Has (suc (suc (suc (suc (suc (suc zero)))))) d =
    IsColumn (codes "consolidate_log") (codes "absorptions") d
    × IsColumn (codes "consolidate_log") (codes "invalidations") d
Has (suc (suc (suc (suc (suc (suc (suc k))))))) d = Unit

pub run_v2-Has : Grows Always (Has 2) run_v2
unfolding run_v2
run_v2-Has =
    let au =
      then-Grows Always (IsObject (codes "memories_fts_au")) Covered _ _
        (create-Grows (codes "memories_fts_au")) (loosen backfill_fts-Grows)
        (IsObject-Stable (codes "memories_fts_au")) in
    let ad =
      then-Grows Always (IsObject (codes "memories_fts_ad")) _ _ _
        (create-Grows (codes "memories_fts_ad")) (loosen au)
        (IsObject-Stable (codes "memories_fts_ad")) in
    let ai =
      then-Grows Always (IsObject (codes "memories_fts_ai")) _ _ _
        (create-Grows (codes "memories_fts_ai")) (loosen ad)
        (IsObject-Stable (codes "memories_fts_ai")) in
    then-Grows Always (IsObject (codes "memories_fts")) _ _ _ (create-Grows (codes "memories_fts"))
      (loosen ai) (IsObject-Stable (codes "memories_fts"))

pub run_v3-Has : Grows Always (Has 3) run_v3
unfolding run_v3
run_v3-Has =
    then-Grows Always _ _ _ _
      (unless_column-Grows (codes "memories") (codes "namespace") _
        (add_column-Grows (codes "memories") (codes "namespace")))
      (loosen (create-Grows (codes "idx_mem_namespace")))
      (IsColumn-Stable (codes "memories") (codes "namespace"))

pub run_v4-Has : Grows Always (Has 4) run_v4
unfolding run_v4
run_v4-Has =
    then-Grows Always _ _ _ _
      (unless_column-Grows (codes "memories") (codes "importance") _
        (add_column-Grows (codes "memories") (codes "importance")))
      (loosen (create-Grows (codes "idx_mem_importance")))
      (IsColumn-Stable (codes "memories") (codes "importance"))

-- A column that is added, and something more for it.
add_column_and-Grows :
    (table column : Text) (R : Schema → Type 0) (more : Act Schema (Unit {0}))
    → Grows Always R more
    → Grows
        (λ d. column_in table column d ≡ false)
        (IsColumn table column)
        (execute (add_column table column) >> more)
add_column_and-Grows table column R more g =
    weaken _ (IsColumn table column) (λ d q. q.0)
      (then-Grows (λ d. column_in table column d ≡ false) (IsColumn table column) R _ more
        (add_column-Grows table column) (loosen g) (IsColumn-Stable table column))

pub run_v5-Has : Grows Always (Has 5) run_v5
unfolding run_v5
run_v5-Has =
    then-Grows Always _ _ _ _
      (unless_column-Grows (codes "memories") (codes "valid_at") _ (
        add_column_and-Grows (codes "memories") (codes "valid_at") Always _
          backfill_valid_at-Grows))
      (loosen (
        unless_column-Grows (codes "memories") (codes "invalid_at") _ (
          add_column_and-Grows (codes "memories") (codes "invalid_at") _ _
            (create-Grows (codes "idx_mem_invalid_at")))))
      (IsColumn-Stable (codes "memories") (codes "valid_at"))

pub run_v6-Has : Grows Always (Has 6) run_v6
unfolding run_v6
run_v6-Has =
    then-Grows Always _ _ _ _
      (unless_column-Grows (codes "consolidate_log") (codes "absorptions") _
        (add_column-Grows (codes "consolidate_log") (codes "absorptions")))
      (loosen (
        unless_column-Grows (codes "consolidate_log") (codes "invalidations") _
          (add_column-Grows (codes "consolidate_log") (codes "invalidations"))))
      (IsColumn-Stable (codes "consolidate_log") (codes "absorptions"))
