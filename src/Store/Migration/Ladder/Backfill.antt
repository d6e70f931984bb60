-- ===== src/Store/Migration/Ladder/Backfill.antt =====
-- The backfills of the full-text index and of the validity dates in crates/storage/src/migration.rs.
use merkur_db.Base.Text.{Text, text_eq_refl}
use merkur_db.Base.{
  ◌≡◌, refl, ap, inl, inr, true, not, List, [], ◌∷◌, ◌++◌, map, keep, All, All-imp, arith,
  Bool-cases,
}
use merkur_db.Store.Migration.{
  StoredRow, Schema, execute, is_indexed, backfill_fts, dated, backfill_valid_at,
}
-- The id and the content of a row, which no migration touches.
use merkur_db.Store.Migration.Ladder.{row_key, has_entry, Stable, Grows, Always, execute-Grows}

-- Every row is in the full-text index.
abbrev pub Covered : Schema → Type 0
Covered d = All (λ k. has_entry d.fts k ≡ true) (map row_key d.memories)

has_entry-append :
    (a b : List (Text × Text)) (k : Text × Text)
    → has_entry a k ≡ true
    → has_entry (a ++ b) k ≡ true
has_entry-append [] b k h = absurd (ground (arith, h))
has_entry-append (e ∷ a) b k h = ground (arith, h, has_entry-append a b k)

has_entry-append_right :
    (a b : List (Text × Text)) (k : Text × Text)
    → has_entry b k ≡ true
    → has_entry (a ++ b) k ≡ true
has_entry-append_right [] b k h = h
has_entry-append_right (e ∷ a) b k h = ground (arith, has_entry-append_right a b k h)

-- The missing rows are added, so all are there.
abbrev missing : List (Text × Text) → List StoredRow → List (Text × Text)
missing fts rows =
    map (λ (r : StoredRow). (r.id, r.content)) (keep (λ r. not (is_indexed fts r)) rows)

further :
    (fts : List (Text × Text)) (e : Text × Text) (rest : List (Text × Text)) (k : Text × Text)
    → has_entry (fts ++ rest) k ≡ true
    → has_entry (fts ++ (e ∷ rest)) k ≡ true
further [] e rest k m = ground (arith, m)
further (x ∷ fts) e rest k m = ground (arith, m, further fts e rest k)

widened :
    (fts : List (Text × Text)) (r : StoredRow) (rows : List StoredRow) (k : Text × Text)
    → has_entry (fts ++ missing fts rows) k ≡ true
    → has_entry (fts ++ missing fts (r ∷ rows)) k ≡ true
widened fts r rows k m = elim (Bool-cases (is_indexed fts r)) [
  | inl h ↦ rw h m
  | inr h ↦ rw h (further fts (row_key r) (missing fts rows) k m)
]

entered :
    (fts : List (Text × Text)) (r : StoredRow) (rows : List StoredRow)
    → has_entry (fts ++ missing fts (r ∷ rows)) (row_key r) ≡ true
entered fts r rows = elim (Bool-cases (is_indexed fts r)) [
  | inl h ↦ has_entry-append fts (missing fts (r ∷ rows)) (row_key r) h
  | inr h ↦ rw h (
      has_entry-append_right fts (row_key r ∷ missing fts rows) (row_key r)
        (ground (arith, text_eq_refl r.id)))
]

backfilled :
    (fts : List (Text × Text)) (rows : List StoredRow)
    → All (λ k. has_entry (fts ++ missing fts rows) k ≡ true) (map row_key rows)
backfilled fts [] = tt
backfilled fts (r ∷ rows) =
    (entered fts r rows, All-imp (widened fts r rows) (map row_key rows) (backfilled fts rows))

pub backfill_fts-Grows : Grows Always Covered (execute backfill_fts)
backfill_fts-Grows =
    execute-Grows Always Covered backfill_fts
      (λ d. (
        (λ t c h. h, λ n h. h, refl, λ k h. has_entry-append d.fts (missing d.fts d.memories) k h),
        backfilled d.fts d.memories,
        refl,
      ))
      (λ d p. (_, refl))

pub Covered-Stable : Stable Covered
Covered-Stable d d' (cs, os, ks, es) h = rw ks (All-imp (λ k m. es k m) (map row_key d.memories) h)

map-dated : (rows : List StoredRow) → map row_key (map dated rows) ≡ map row_key rows
map-dated [] = refl
map-dated (r ∷ rows) = ap (λ l. row_key r ∷ l) (map-dated rows)

pub backfill_valid_at-Grows : Grows Always Always (execute backfill_valid_at)
backfill_valid_at-Grows =
    execute-Grows Always Always backfill_valid_at
      (λ d. ((λ t c h. h, λ n h. h, map-dated d.memories, λ k h. h), tt, refl)) (λ d p. (_, refl))
