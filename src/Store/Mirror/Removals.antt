-- ===== src/Store/Mirror/Removals.antt =====
-- The deleting operations of crates/storage/src/sqlite.rs.
use merkur_db.Base.Text.{Text, text_eq}
use merkur_db.Base.{
  ℕ, ◌≡◌, refl, Bool, true, false, not, List, [], ◌∷◌, none, arith, any, keep, if◌then◌else◌,
  length, Bool-cases, inl, inr,
}
use merkur_db.Core.Float.{Float}
use merkur_db.Core.Storage.{pure, and_then}
use merkur_db.Core.Types.{MerkurResult, ok, err}
use merkur_db.Store.Mirror.{embedding_at, selected, keep-Unique, embedding_at-deleted}
use merkur_db.Store.Rows.{has_id, exists_row}
use merkur_db.Store.Write.{
  delete_where, unindex_all, set_index, delete_and_unindex, delete_memory,
  purge_invalidated_older_than, delete_archived_older_than,
}
use merkur_db.Store.{MemoryRow, Db, access}
use merkur_db.VectorIndex.Invariant.{IsValid, Stores, without_vector}
use merkur_db.VectorIndex.Removal.{remove-Stores}
use merkur_db.VectorIndex.{Inner, vector_of, remove}
use merkur_db.Store.Mirror.Keeps.{
  Mirrors, Keeps, bind-Keeps, access-Keeps, set_index-Mirrors, Stores-eq,
}

module _ {F : Type 0} (f : Float F) where
  pub unindex_all-Stores :
      (ids : List Text) (x : Inner F)
      → IsValid f x
      → Stores f (unindex_all ids x) (λ q. if any (text_eq q) ids then none else vector_of x q)
  unfolding unindex_all
  unindex_all-Stores [] x v = (x, refl, v, λ q. refl)
  unindex_all-Stores (id ∷ ids) x v =
      let (y, e, w, content) = remove-Stores f id x v in
      rw (e, unindex_all)
        (Stores-eq f (unindex_all ids y) (λ q. if any (text_eq q) ids then none else vector_of y q)
          (λ q. if any (text_eq q) (id ∷ ids) then none else vector_of x q)
          (λ q. ground (arith, content q)) (unindex_all-Stores ids y w))

  pub set_index-unindexed :
      (p : MemoryRow F → Bool) (s : Db F)
      → Mirrors f s
      → Mirrors f
          (set_index (unindex_all (selected p s.memories) s.vector_index) (delete_where p s)).1
  set_index-unindexed p s v =
      set_index-Mirrors f (unindex_all (selected p s.memories) s.vector_index) (delete_where p s)
        (Stores-eq f (unindex_all (selected p s.memories) s.vector_index)
          (λ q.
            if any (text_eq q) (selected p s.memories) then none else vector_of s.vector_index q)
          (λ q. embedding_at q (keep (λ r. not (p r)) s.memories))
          (λ q. ground (arith, v.mirrored q, embedding_at-deleted q p s.memories v.ids_unique))
          (unindex_all-Stores (selected p s.memories) s.vector_index v.index_valid))
        (keep-Unique (λ r. not (p r)) s.memories v.ids_unique)

  pub delete_and_unindex-Keeps : (p : MemoryRow F → Bool) → Keeps f (delete_and_unindex p)
  unfolding delete_and_unindex
  delete_and_unindex-Keeps p s v =
      go (set_index (unindex_all (selected p s.memories) s.vector_index) (delete_where p s))
        (set_index-unindexed p s v)
    where
      go :
          (out : MerkurResult (Unit {0}) × Db F)
          → Mirrors f out.1
          → Mirrors f (and_then out λ _. pure (length (selected p s.memories))).1
      go (ok a, t) w = w
      go (err e, t) w = w

  pub purge-Keeps : (days : ℕ) → Keeps f (purge_invalidated_older_than days)
  unfolding purge_invalidated_older_than
  purge-Keeps days = bind-Keeps f access _ (access-Keeps f) λ a s v. delete_and_unindex-Keeps _ s v

  pub delete_archived-Keeps : (days : ℕ) → Keeps f (delete_archived_older_than days)
  unfolding delete_archived_older_than
  delete_archived-Keeps days =
      bind-Keeps f access _ (access-Keeps f) λ a s v. delete_and_unindex-Keeps _ s v

  deleted_id :
      (q id : Text) (rows : List (MemoryRow F))
      → exists_row id rows ≡ true
      → any (text_eq q) (selected (has_id id) rows) ≡ text_eq q id
  deleted_id q id [] h = absurd (ground arith)
  deleted_id q id (r ∷ rows) h = ground (arith, deleted_id q id rows, none_left q id rows)
    where
      none_left :
          (q id : Text) (rows : List (MemoryRow F))
          → text_eq q id ≡ false
          → any (text_eq q) (selected (has_id id) rows) ≡ false
      none_left q id [] h = refl
      none_left q id (r ∷ rows) h = ground (arith, none_left q id rows h)

  pub delete_memory-Keeps : (id : Text) → Keeps f (delete_memory id)
  unfolding delete_memory
  delete_memory-Keeps id = bind-Keeps f access _ (access-Keeps f) λ a s v.
      elim (Bool-cases (exists_row id s.memories)) [
        | inl h ↦ rw h (
            set_index-Mirrors f (remove id s.vector_index) (delete_where (has_id id) s)
              (Stores-eq f (remove id s.vector_index) (without_vector f s.vector_index id)
                (λ q. embedding_at q (keep (λ r. not (has_id id r)) s.memories))
                (λ q. ground (
                  arith,
                  v.mirrored q,
                  deleted_id q id s.memories h,
                  embedding_at-deleted q (has_id id) s.memories v.ids_unique,
                ))
                (remove-Stores f id s.vector_index v.index_valid))
              (keep-Unique _ s.memories v.ids_unique))
        | inr h ↦ rw h v
      ]
