-- ===== src/Store/Mirror/Updates.antt =====
-- The operations of crates/storage/src/sqlite_helpers.rs that leave ids and embeddings alone.
use merkur_db.Base.Int.{ℤ}
use merkur_db.Base.Text.{Text}
use merkur_db.Base.{
  ℕ, ◌≡◌, refl, Bool, ◌&&◌, List, [], ◌∷◌, Option, none, some, arith, Bool-cases, inl, inr,
}
use merkur_db.Core.Float.{Float}
use merkur_db.Core.Storage.{◌>>=◌}
use merkur_db.Core.Types.{NewEdge, ConsolidationReport}
use merkur_db.Store.Insert.{insert_context_tag, add_tag, log_consolidation, insert_edge, add_edge}
use merkur_db.Store.Mirror.{KeepsId, KeepsVector}
use merkur_db.Store.Rows.{is_none, is_among, has_id, exists_row}
use merkur_db.Store.Write.{
  accessed, consolidated, with_level, with_importance, with_abstract, invalidated, update_rows,
  invalidate_memory, record_access, mark_consolidated, update_level, update_importance,
  update_abstract,
}
use merkur_db.Store.{MemoryRow, Db, access}
use merkur_db.Store.Mirror.Keeps.{Mirrors, Keeps, bind-Keeps, access-Keeps, update_rows-Keeps}

module _ {F : Type 0} (f : Float F) where
  pub updates-Keeps :
      (p : ℕ → MemoryRow F → Bool) (g : ℕ → MemoryRow F → MemoryRow F)
      → ((now : ℕ) → KeepsId (g now))
      → ((now : ℕ) → KeepsVector (g now))
      → Keeps f (access >>= λ _. update_rows p g)
  updates-Keeps p g i e =
      bind-Keeps f access (λ _. update_rows p g) (access-Keeps f) λ a. update_rows-Keeps f p g i e

  pub invalidate_memory-Keeps :
      (id : Text) (target : Option Text) → Keeps f (invalidate_memory id target)
  unfolding invalidate_memory
  invalidate_memory-Keeps id none =
      updates-Keeps (λ now r. has_id id r && is_none r.invalid_at) (invalidated none)
        (λ now r. refl) (λ now r. refl)
  invalidate_memory-Keeps id (some target) =
      updates-Keeps (λ now r. has_id id r && is_none r.invalid_at) (invalidated (some target))
        (λ now r. refl) (λ now r. refl)

  pub record_access-Keeps : (ids : List Text) → Keeps f (record_access ids)
  unfolding record_access
  record_access-Keeps [] s v = v
  record_access-Keeps (id ∷ ids) s v =
      updates-Keeps (λ now. is_among (id ∷ ids)) accessed (λ now r. refl) (λ now r. refl) s v

  pub mark_consolidated-Keeps : (ids : List Text) → Keeps f (mark_consolidated ids)
  unfolding mark_consolidated
  mark_consolidated-Keeps [] s v = v
  mark_consolidated-Keeps (id ∷ ids) s v =
      updates-Keeps (λ now. is_among (id ∷ ids)) consolidated (λ now r. refl) (λ now r. refl) s v

  pub update_level-Keeps : (id : Text) (level : ℤ) → Keeps f (update_level id level)
  unfolding update_level
  update_level-Keeps id level =
      updates-Keeps (λ now. has_id id) (with_level level) (λ now r. refl) (λ now r. refl)

  pub update_importance-Keeps :
      (id : Text) (importance : F) → Keeps f (update_importance id importance)
  unfolding update_importance
  update_importance-Keeps id importance =
      updates-Keeps (λ now. has_id id) (with_importance importance) (λ now r. refl) (λ now r. refl)

  pub update_abstract-Keeps : (id abstract_ : Text) → Keeps f (update_abstract id abstract_)
  unfolding update_abstract
  update_abstract-Keeps id abstract_ = bind-Keeps f access _ (access-Keeps f) λ a s v.
      elim (Bool-cases (exists_row id s.memories)) [
        | inl h ↦ rw h (
            update_rows-Keeps f (λ now. has_id id) (with_abstract abstract_) (λ now r. refl)
              (λ now r. refl) s v)
        | inr h ↦ rw h v
      ]

  -- A step that leaves the memories and the index alone.
  pub elsewhere-Mirrors :
      (s t : Db F)
      → Mirrors f s
      → t.memories ≡ s.memories
      → t.vector_index ≡ s.vector_index
      → Mirrors f t
  elsewhere-Mirrors s t v m x = record {
    index_valid = rw x v.index_valid;
    ids_unique = rw m v.ids_unique;
    mirrored = λ q. rw (x, m) (v.mirrored q);
  }

  pub insert_edge-Keeps : (e : NewEdge F) → Keeps f (insert_edge f e)
  unfolding insert_edge add_edge
  insert_edge-Keeps e =
      bind-Keeps f access _ (access-Keeps f)
        λ a s v. elsewhere-Mirrors s (add_edge f e s).1 v (ground arith) (ground arith)

  pub insert_context_tag-Keeps : (id key value : Text) → Keeps f (insert_context_tag id key value)
  unfolding insert_context_tag add_tag
  insert_context_tag-Keeps id key value = bind-Keeps f access _ (access-Keeps f) λ a s v.
      elim (Bool-cases (exists_row id s.memories)) [
        | inl h ↦
            rw h record {
              index_valid = v.index_valid;
              ids_unique = v.ids_unique;
              mirrored = v.mirrored;
            }
        | inr h ↦ rw h v
      ]

  pub log_consolidation-Keeps :
      (started finished : ℕ) (report : ConsolidationReport F)
      → Keeps f (log_consolidation started finished report)
  unfolding log_consolidation
  log_consolidation-Keeps started finished report = bind-Keeps f access _ (access-Keeps f) λ a s v.
      record { index_valid = v.index_valid; ids_unique = v.ids_unique; mirrored = v.mirrored }
