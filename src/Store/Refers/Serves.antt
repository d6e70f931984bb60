-- ===== src/Store/Refers/Serves.antt =====
-- `impl Storage for SqliteStorage` of crates/storage/src/sqlite.rs: each method keeps the foreign
-- keys of the tables.
use merkur_db.Base.Text.{Text, codes, text_eq_refl}
use merkur_db.Base.{
  ℕ, suc, ◌≡◌, refl, true, List, [], ◌∷◌, ◌++◌, Option, none, some, arith, any, Bool-cases, inl,
  inr, All-append,
}
use merkur_db.Core.Float.{Float}
use merkur_db.Core.Preserves.{Preserves, bind-Leaves}
use merkur_db.Core.Storage.{Act, pure, ◌>>=◌}
use merkur_db.Core.Types.{NewMemory, NewEdge}
use merkur_db.Store.Backend.{sqlite_storage}
use merkur_db.Store.Insert.{
  new_row, new_id, insert_row, set_vector, insert_memory, replace_vector, update_memory, same_edge,
  add_edge, insert_edge, tag_rows, unwrap_or,
}
use merkur_db.Store.Mirror.{exists_row-push}
use merkur_db.Store.Quiet.Serves.{WritesLeave, sqlite_storage-Leaves}
use merkur_db.Store.Refers.{
  Refers, IsAnchored, IsTagging, grown-Refers, update_where-Contains, push-Contains,
  tag_rows-IsTagging,
}
use merkur_db.Store.Rows.{has_id, exists_row, update_where}
use merkur_db.Store.{MemoryRow, Db, access}
use merkur_db.VectorIndex.{remove, upsert}
use merkur_db.Store.Refers.Steps.{
  Stays, elsewhere-Refers, access-Stays, then_access, set_index-Stays, purge-Stays,
  delete_archived-Stays, delete_memory-Stays, mark_consolidated-Stays, record_access-Stays,
  invalidate_memory-Stays, update_level-Stays, update_importance-Stays, update_abstract-Stays,
  insert_context_tag-Stays, log_consolidation-Stays,
}

module _ {F : Type 0} (f : Float F) where
  add_edge-Stays : (e : NewEdge F) → Stays (add_edge f e)
  unfolding add_edge
  add_edge-Stays e s v =
      elim (Bool-cases (any (same_edge e (unwrap_or e.relation (codes "related"))) s.edges)) [
        | inl h ↦ rw h v
        | inr h ↦ rw h (elim (Bool-cases (exists_row e.source_id s.memories)) [
          | inr k ↦ rw k v
          | inl k ↦ rw k (elim (Bool-cases (exists_row e.target_id s.memories)) [
            | inr l ↦ rw l v
            | inl l ↦ rw l (record {
              anchored = All-append (IsAnchored s.memories) s.edges _ v.anchored ((k, l), tt);
              tagging = v.tagging;
            })
          ])
        ])
      ]

  insert_edge-Stays : (e : NewEdge F) → Stays (insert_edge f e)
  unfolding insert_edge
  insert_edge-Stays e = then_access (add_edge f e) (add_edge-Stays e)

  insert_row-Stays : (id : Text) (mem : NewMemory F) → Stays (insert_row f id mem)
  unfolding insert_row new_row
  insert_row-Stays id mem s v = elim (Bool-cases (exists_row id s.memories)) [
    | inl h ↦ rw h v
    | inr h ↦ rw h (pushed s v)
  ]
    where
      pushed :
          (s : Db F)
          → Refers s
          → Refers (record s {
            memories = s.memories ++ new_row f id mem s.clock ∷ [];
            tags = s.tags ++ tag_rows id mem.context;
          })
      pushed s v =
          let row = new_row f id mem s.clock in
          let rows = s.memories ++ row ∷ [] in
          let there : exists_row id rows ≡ true =
            ground (arith, exists_row-push id s.memories row, text_eq_refl id) in
          let grown : Refers (record s { memories = rows }) =
            grown-Refers s (record s { memories = rows }) (push-Contains s.memories row) refl refl
              v in
          record {
            anchored = grown.anchored;
            tagging =
                All-append (IsTagging rows) s.tags (tag_rows id mem.context) grown.tagging
                  (tag_rows-IsTagging id mem.context rows there);
          }

  set_vector-Stays : (id : Text) (vec : Option (List F)) → Stays (set_vector f id vec)
  unfolding set_vector
  set_vector-Stays id none s v = v
  set_vector-Stays id (some vec) s v = set_index-Stays (upsert f id vec s.vector_index) s v

  replace_vector-Stays : (id : Text) (vec : Option (List F)) → Stays (replace_vector f id vec)
  unfolding replace_vector
  replace_vector-Stays id none s v = set_index-Stays (remove id s.vector_index) s v
  replace_vector-Stays id (some vec) s v = set_index-Stays (upsert f id vec s.vector_index) s v

  update_memory-Stays :
      (id content : Text) (vec : Option (List F)) → Stays (update_memory f id content vec)
  unfolding update_memory
  update_memory-Stays id content vec = then_access _ λ s v.
      elim (Bool-cases (exists_row id s.memories)) [
        | inl h ↦ rw h (
            let g : MemoryRow F → MemoryRow F = λ r. record r {
              content = content;
              embedding = vec;
              pending_consolidation = true;
              updated_at = s.clock;
            } in
            let t : Db F = record s { memories = update_where (has_id id) g s.memories } in
            replace_vector-Stays id vec t (
              grown-Refers s t (update_where-Contains (has_id id) g s.memories λ r. refl) refl refl
                v))
        | inr h ↦ rw h v
      ]

  abbrev write_rows : Text → NewMemory F → Act (Db F) Text
  write_rows id mem = insert_row f id mem >>= λ _. set_vector f id mem.embedding >>= λ _. pure id

  write_rows-Stays : (id : Text) (mem : NewMemory F) → Stays (write_rows id mem)
  write_rows-Stays id mem =
      bind-Leaves Refers (insert_row f id mem) (λ _. set_vector f id mem.embedding >>= λ _. pure id)
        (insert_row-Stays id mem)
        λ a.
          bind-Leaves Refers (set_vector f id mem.embedding) (λ _. pure id)
            (set_vector-Stays id mem.embedding) λ b s v. v

  module _ (uuid : ℕ → Text) where
    new_id-Stays : Stays (new_id f uuid)
    unfolding new_id
    new_id-Stays s v =
        elsewhere-Refers s (record s { next_uuid = suc s.next_uuid }) refl refl refl v

    insert_memory-Stays : (mem : NewMemory F) → Stays (insert_memory f uuid mem)
    unfolding insert_memory
    insert_memory-Stays mem =
        bind-Leaves Refers (new_id f uuid) (λ id. access >>= λ _. write_rows id mem) new_id-Stays
          λ id. then_access (write_rows id mem) (write_rows-Stays id mem)

    writes-Refers : WritesLeave f uuid Refers
    writes-Refers = record {
      access_leaves = access-Stays;
      insert_memory_leaves = insert_memory-Stays;
      update_memory_leaves = update_memory-Stays;
      delete_memory_leaves = delete_memory-Stays;
      invalidate_memory_leaves = invalidate_memory-Stays;
      purge_invalidated_older_than_leaves = purge-Stays;
      record_access_leaves = record_access-Stays;
      insert_edge_leaves = insert_edge-Stays;
      insert_context_tag_leaves = insert_context_tag-Stays;
      mark_consolidated_leaves = mark_consolidated-Stays;
      update_level_leaves = update_level-Stays;
      update_abstract_leaves = update_abstract-Stays;
      update_importance_leaves = update_importance-Stays;
      delete_archived_older_than_leaves = delete_archived-Stays;
      log_consolidation_leaves = log_consolidation-Stays;
    }

    pub sqlite_storage-Refers :
        (matches : Text → List (MemoryRow F) → List (Text × F))
        → Preserves (sqlite_storage f uuid matches) Refers
    sqlite_storage-Refers = sqlite_storage-Leaves f uuid Refers writes-Refers
