-- ===== src/Store/Mirror.antt =====
-- The agreement of the vector index with the `memories` table, over the operations of
-- crates/storage/src/sqlite.rs that change the store.
pub mod Keeps
pub mod Removals
pub mod Writes
pub mod Updates
pub mod Steps
pub mod Serves
use merkur_db.Base.Int.{ℤ}
use merkur_db.Base.Text.{Text, text_eq, text_eq_refl, codes}
use merkur_db.Base.{
  ℕ, suc, ◌≡◌, refl, sym, ap, ◌∙◌, Bool, true, false, not, ◌&&◌, ◌||◌, List, [], ◌∷◌, ◌++◌, Option,
  none, some, arith, map, any, keep, find, if◌then◌else◌, length, Bool-cases, Option-cases, inl,
  inr, ◌⊎◌,
}
use merkur_db.Core.Float.{Float}
use merkur_db.Core.Storage.{Act, pure, raise, ◌>>=◌, ◌>>◌}
use merkur_db.Core.Types.{
  NewMemory, NewEdge, ConsolidationReport, MerkurError, MerkurResult, ok, err, memory_not_found,
}
use merkur_db.Store.Insert.{
  new_row, insert_row, set_vector, new_id, insert_memory, replace_vector, update_memory, tag_rows,
}
use merkur_db.Store.Rows.{has_id, row_of, exists_row, update_where}
use merkur_db.Store.Write.{delete_where, unindex_all, set_index, delete_and_unindex, update_rows}
use merkur_db.Store.{MemoryRow, Db, access, take_fault, or_panic}
use merkur_db.VectorIndex.Invariant.{IsValid, Stores, with_vector, without_vector, upsert-Stores}
use merkur_db.VectorIndex.Removal.{remove-Stores}
use merkur_db.VectorIndex.{Inner, vector_of, upsert, remove}

module _ {F : Type 0} where
  abbrev vector_in : Option (MemoryRow F) → Option (List F)
  vector_in none = none
  vector_in (some r) = r.embedding

  -- The embedding that the table holds for an id.
  abbrev pub embedding_at : Text → List (MemoryRow F) → Option (List F)
  embedding_at q rows = vector_in (row_of q rows)

  -- The primary key: no two rows have one id.
  abbrev pub Unique : List (MemoryRow F) → Type 0
  Unique [] = Unit
  Unique (r ∷ rows) = (exists_row r.id rows ≡ false) × Unique rows

  abbrev pub KeepsId : (MemoryRow F → MemoryRow F) → Type 0
  KeepsId g = (r : MemoryRow F) → (g r).id ≡ r.id

  abbrev pub KeepsVector : (MemoryRow F → MemoryRow F) → Type 0
  KeepsVector g = (r : MemoryRow F) → (g r).embedding ≡ r.embedding

  pub exists_row-update_where :
      (q : Text) (p : MemoryRow F → Bool) (g : MemoryRow F → MemoryRow F)
      (rows : List (MemoryRow F))
      → KeepsId g
      → exists_row q (update_where p g rows) ≡ exists_row q rows
  exists_row-update_where q p g [] i = refl
  exists_row-update_where q p g (r ∷ rows) i =
      ground (arith, exists_row-update_where q p g rows i, i r)

  pub update_where-Unique :
      (p : MemoryRow F → Bool) (g : MemoryRow F → MemoryRow F) (rows : List (MemoryRow F))
      → KeepsId g
      → Unique rows
      → Unique (update_where p g rows)
  update_where-Unique p g [] i u = tt
  update_where-Unique p g (r ∷ rows) i u = ground (
    arith,
    update_where-Unique p g rows i u.1,
    exists_row-update_where r.id p g rows i,
    exists_row-update_where (g r).id p g rows i,
    i r,
  )

  pub embedding_at-update_where :
      (q : Text) (p : MemoryRow F → Bool) (g : MemoryRow F → MemoryRow F)
      (rows : List (MemoryRow F))
      → KeepsId g
      → KeepsVector g
      → embedding_at q (update_where p g rows) ≡ embedding_at q rows
  embedding_at-update_where q p g [] i v = refl
  embedding_at-update_where q p g (r ∷ rows) i v =
      ground (arith, embedding_at-update_where q p g rows i v, i r, v r)

  -- `UPDATE … SET embedding = ? WHERE id = ?`
  pub embedding_at-replaced :
      (q id : Text) (vec : Option (List F)) (g : MemoryRow F → MemoryRow F)
      (rows : List (MemoryRow F))
      → KeepsId g
      → ((r : MemoryRow F) → (g r).embedding ≡ vec)
      → exists_row id rows ≡ true
      → embedding_at q (update_where (has_id id) g rows)
        ≡ (if text_eq q id then vec else embedding_at q rows)
  embedding_at-replaced q id vec g [] i v e = absurd (ground arith)
  embedding_at-replaced q id vec g (r ∷ rows) i v e =
      ground (
        arith,
        embedding_at-replaced q id vec g rows i v,
        embedding_at-other q id g rows i,
        i r,
        v r,
      )
    where
      embedding_at-other :
          (q id : Text) (g : MemoryRow F → MemoryRow F) (rows : List (MemoryRow F))
          → KeepsId g
          → text_eq q id ≡ false
          → embedding_at q (update_where (has_id id) g rows) ≡ embedding_at q rows
      embedding_at-other q id g [] i h = refl
      embedding_at-other q id g (r ∷ rows) i h =
          ground (arith, embedding_at-other q id g rows i h, i r)

  pub embedding_at-push :
      (q : Text) (rows : List (MemoryRow F)) (r : MemoryRow F)
      → exists_row r.id rows ≡ false
      → embedding_at q (rows ++ r ∷ [])
        ≡ (if text_eq q r.id then r.embedding else embedding_at q rows)
  embedding_at-push q [] r h = ground arith
  embedding_at-push q (r' ∷ rows) r h = ground (arith, embedding_at-push q rows r)

  pub exists_row-push :
      (q : Text) (rows : List (MemoryRow F)) (r : MemoryRow F)
      → exists_row q (rows ++ r ∷ []) ≡ (exists_row q rows || text_eq r.id q)
  exists_row-push q [] r = ground arith
  exists_row-push q (r' ∷ rows) r = ground (arith, exists_row-push q rows r)

  pub push-Unique :
      (rows : List (MemoryRow F)) (r : MemoryRow F)
      → Unique rows
      → exists_row r.id rows ≡ false
      → Unique (rows ++ r ∷ [])
  push-Unique [] r u h = (refl, tt)
  push-Unique (r' ∷ rows) r u h =
      ground (arith, push-Unique rows r u.1, exists_row-push r'.id rows r)

  -- The ids of the rows that a `WHERE` selects.
  abbrev pub selected : (MemoryRow F → Bool) → List (MemoryRow F) → List Text
  selected p rows = map (λ (r : MemoryRow F). r.id) (keep p rows)

  exists_row-keep :
      (q : Text) (p : MemoryRow F → Bool) (rows : List (MemoryRow F))
      → exists_row q rows ≡ false
      → exists_row q (keep p rows) ≡ false
  exists_row-keep q p [] h = refl
  exists_row-keep q p (r ∷ rows) h = ground (arith, exists_row-keep q p rows)

  pub keep-Unique :
      (p : MemoryRow F → Bool) (rows : List (MemoryRow F)) → Unique rows → Unique (keep p rows)
  keep-Unique p [] u = tt
  keep-Unique p (r ∷ rows) u = ground (arith, keep-Unique p rows u.1, exists_row-keep r.id p rows)

  unselected :
      (q : Text) (p : MemoryRow F → Bool) (rows : List (MemoryRow F))
      → exists_row q rows ≡ false
      → (any (text_eq q) (selected p rows) ≡ false)
        × (row_of q rows ≡ none)
        × (row_of q (keep (λ r. not (p r)) rows) ≡ none)
  unselected q p [] h = (refl, refl, refl)
  unselected q p (r ∷ rows) h = ground (arith, unselected q p rows)

  pub embedding_at-deleted :
      (q : Text) (p : MemoryRow F → Bool) (rows : List (MemoryRow F))
      → Unique rows
      → embedding_at q (keep (λ r. not (p r)) rows)
        ≡ (if any (text_eq q) (selected p rows) then none else embedding_at q rows)
  embedding_at-deleted q p [] u = refl
  embedding_at-deleted q p (r ∷ rows) u =
      ground (arith, embedding_at-deleted q p rows u.1, unselected q p rows)
