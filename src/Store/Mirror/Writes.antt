-- ===== src/Store/Mirror/Writes.antt =====
-- insert_memory and update_memory of crates/storage/src/sqlite.rs.
use merkur_db.Base.Text.{Text, text_eq}
use merkur_db.Base.{
  ℕ, ◌≡◌, refl, sym, true, false, List, [], ◌∷◌, ◌++◌, Option, none, some, arith, if◌then◌else◌,
  Bool-cases, inl, inr,
}
use merkur_db.Core.Float.{Float}
use merkur_db.Core.Storage.{Act, pure, ◌>>=◌, and_then}
use merkur_db.Core.Types.{NewMemory, MerkurResult, ok, err}
use merkur_db.Store.Insert.{
  new_row, insert_row, set_vector, new_id, insert_memory, replace_vector, update_memory, tag_rows,
}
use merkur_db.Store.Mirror.{
  embedding_at, Unique, update_where-Unique, embedding_at-replaced, embedding_at-push, push-Unique,
}
use merkur_db.Store.Rows.{has_id, exists_row, update_where}
use merkur_db.Store.{MemoryRow, Db, access}
use merkur_db.VectorIndex.Invariant.{IsValid, with_vector, without_vector, upsert-Stores}
use merkur_db.VectorIndex.Removal.{remove-Stores}
use merkur_db.VectorIndex.{vector_of, upsert, remove}
use merkur_db.Store.Mirror.Keeps.{
  Mirrors, Keeps, bind-Keeps, access-Keeps, set_index-Mirrors, Stores-eq,
}

module _ {F : Type 0} (f : Float F) where
  pub replace_vector-Mirrors :
      (id : Text) (vec : Option (List F)) (s : Db F)
      → IsValid f s.vector_index
      → Unique s.memories
      → ((q : Text)
          → embedding_at q s.memories ≡ (if text_eq q id then vec else vector_of s.vector_index q))
      → Mirrors f (replace_vector f id vec s).1
  unfolding replace_vector
  replace_vector-Mirrors id none s v u h =
      set_index-Mirrors f (remove id s.vector_index) s
        (Stores-eq f (remove id s.vector_index) (without_vector f s.vector_index id) _
          (λ q. sym (h q)) (remove-Stores f id s.vector_index v))
        u
  replace_vector-Mirrors id (some vec) s v u h =
      set_index-Mirrors f (upsert f id vec s.vector_index) s
        (Stores-eq f (upsert f id vec s.vector_index) (with_vector f s.vector_index id vec) _
          (λ q. sym (h q)) (upsert-Stores f id vec s.vector_index v))
        u

  pub update_memory-Keeps :
      (id content : Text) (vec : Option (List F)) → Keeps f (update_memory f id content vec)
  unfolding update_memory
  update_memory-Keeps id content vec = bind-Keeps f access _ (access-Keeps f) λ a s v.
      elim (Bool-cases (exists_row id s.memories)) [
        | inl h ↦ rw h (
            let g : MemoryRow F → MemoryRow F = λ r. record r {
              content = content;
              embedding = vec;
              pending_consolidation = true;
              updated_at = s.clock;
            } in
            replace_vector-Mirrors id vec
              (record s { memories = update_where (has_id id) g s.memories }) v.index_valid
              (update_where-Unique (has_id id) g s.memories (λ r. refl) v.ids_unique)
              (λ q. ground (
                arith,
                v.mirrored q,
                embedding_at-replaced q id vec g s.memories (λ r. refl) (λ r. refl) h,
              )))
        | inr h ↦ rw h v
      ]

  embedding_at-absent :
      (q : Text) (rows : List (MemoryRow F))
      → exists_row q rows ≡ false
      → embedding_at q rows ≡ none
  embedding_at-absent q [] h = refl
  embedding_at-absent q (r ∷ rows) h = ground (arith, embedding_at-absent q rows)

  pub set_vector-Mirrors :
      (id : Text) (vec : Option (List F)) (rows : List (MemoryRow F)) (s : Db F)
      → IsValid f s.vector_index
      → Unique s.memories
      → exists_row id rows ≡ false
      → ((q : Text) → vector_of s.vector_index q ≡ embedding_at q rows)
      → ((q : Text)
          → embedding_at q s.memories ≡ (if text_eq q id then vec else embedding_at q rows))
      → Mirrors f (set_vector f id vec s).1
  unfolding set_vector
  set_vector-Mirrors id none rows s v u fresh m h = record {
    index_valid = v;
    ids_unique = u;
    mirrored = λ q. ground (arith, m q, h q, embedding_at-absent q rows);
  }
  set_vector-Mirrors id (some vec) rows s v u fresh m h =
      set_index-Mirrors f (upsert f id vec s.vector_index) s
        (Stores-eq f (upsert f id vec s.vector_index) (with_vector f s.vector_index id vec)
          (λ q. embedding_at q s.memories) (λ q. ground (arith, m q, h q))
          (upsert-Stores f id vec s.vector_index v))
        u

  abbrev write_rows : Text → NewMemory F → Act (Db F) Text
  write_rows id mem = insert_row f id mem >>= λ _. set_vector f id mem.embedding >>= λ _. pure id

  -- Writing a row and then its vector, between which the two disagree.
  pub insert_rows-Keeps : (id : Text) (mem : NewMemory F) → Keeps f (write_rows id mem)
  unfolding insert_row new_row
  insert_rows-Keeps id mem s v = elim (Bool-cases (exists_row id s.memories)) [
    | inl h ↦ rw h v
    | inr h ↦ rw h (
        and_pure (set_vector f id mem.embedding _) (
          set_vector-Mirrors id mem.embedding s.memories
            (record s {
              memories = s.memories ++ new_row f id mem s.clock ∷ [];
              tags = s.tags ++ tag_rows id mem.context;
            })
            v.index_valid (push-Unique s.memories (new_row f id mem s.clock) v.ids_unique h) h
            v.mirrored (λ q. embedding_at-push q s.memories (new_row f id mem s.clock) h)))
  ]
    where
      and_pure :
          (out : MerkurResult (Unit {0}) × Db F)
          → Mirrors f out.1
          → Mirrors f (and_then out λ _. pure id).1
      and_pure (ok a, t) w = w
      and_pure (err e, t) w = w

  module _ (uuid : ℕ → Text) where
    pub new_id-Keeps : Keeps f (new_id f uuid)
    unfolding new_id
    new_id-Keeps s v = record {
      index_valid = v.index_valid;
      ids_unique = v.ids_unique;
      mirrored = v.mirrored;
    }

    pub insert_memory-Keeps : (mem : NewMemory F) → Keeps f (insert_memory f uuid mem)
    unfolding insert_memory
    insert_memory-Keeps mem =
        bind-Keeps f (new_id f uuid) (λ id. access >>= λ _. write_rows id mem) new_id-Keeps
          λ id.
            bind-Keeps f access (λ _. write_rows id mem) (access-Keeps f)
              λ a. insert_rows-Keeps id mem
