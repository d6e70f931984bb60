-- ===== src/Store/Refers/Steps.antt =====
-- The operations of crates/storage/src/sqlite.rs and sqlite_helpers.rs that keep or delete rows, and
-- the foreign keys.
use merkur_db.Base.Int.{ℤ}
use merkur_db.Base.Text.{Text}
use merkur_db.Base.{
  ℕ, ◌≡◌, refl, Bool, ◌&&◌, List, [], ◌∷◌, Option, none, some, Bool-cases, inl, inr, All-append,
  length,
}
use merkur_db.Core.Preserves.{Leaves, bind-Leaves}
use merkur_db.Core.Storage.{Act, pure, ◌>>=◌}
use merkur_db.Core.Types.{ConsolidationReport, MerkurError}
use merkur_db.Store.Insert.{add_tag, insert_context_tag, log_consolidation}
use merkur_db.Store.Mirror.{KeepsId, selected}
use merkur_db.Store.Refers.{
  Refers, IsTagging, grown-Refers, update_where-Contains, delete_where-Refers,
}
use merkur_db.Store.Rows.{is_none, is_among, has_id, exists_row}
use merkur_db.Store.Write.{
  accessed, consolidated, with_level, with_importance, with_abstract, invalidated, update_rows,
  invalidate_memory, record_access, mark_consolidated, update_level, update_importance,
  update_abstract, set_index, delete_where, delete_and_unindex, unindex_all, delete_memory,
  purge_invalidated_older_than, delete_archived_older_than,
}
use merkur_db.Store.{MemoryRow, Db, access, take_fault}
use merkur_db.VectorIndex.{Inner, remove}

module _ {F : Type 0} where
  abbrev pub Stays : {A : Type 0} → Act (Db F) A → Type 0
  Stays m = Leaves Refers m

  -- A step that changes neither the memories, the edges nor the tags.
  pub elsewhere-Refers :
      (s t : Db F)
      → t.memories ≡ s.memories
      → t.edges ≡ s.edges
      → t.tags ≡ s.tags
      → Refers s
      → Refers t
  elsewhere-Refers s t m e g v = grown-Refers s t (λ q h. rw m h) e g v

  pub access-Stays : Stays access
  unfolding access take_fault
  access-Stays s v = go s.faults
    where
      go : (faults : List (Option MerkurError)) → Refers (take_fault faults s).1
      go [] = v
      go (none ∷ faults) = elsewhere-Refers s (record s { faults = faults }) refl refl refl v
      go (some e ∷ faults) = elsewhere-Refers s (record s { faults = faults }) refl refl refl v

  pub then_access : {A : Type 0} (m : Act (Db F) A) → Stays m → Stays (access >>= λ _. m)
  then_access m h = bind-Leaves Refers access (λ _. m) access-Stays (λ a. h)

  update_rows-Stays :
      (p : ℕ → MemoryRow F → Bool) (g : ℕ → MemoryRow F → MemoryRow F)
      → ((now : ℕ) → KeepsId (g now))
      → Stays (update_rows p g)
  unfolding update_rows
  update_rows-Stays p g i s v =
      grown-Refers s (update_rows p g s).1
        (update_where-Contains (p s.clock) (g s.clock) s.memories (i s.clock)) refl refl v

  updates-Stays :
      (p : ℕ → MemoryRow F → Bool) (g : ℕ → MemoryRow F → MemoryRow F)
      → ((now : ℕ) → KeepsId (g now))
      → Stays (access >>= λ _. update_rows p g)
  updates-Stays p g i = then_access (update_rows p g) (update_rows-Stays p g i)

  pub set_index-Stays : (r : Option (Inner F)) → Stays (set_index r)
  unfolding set_index
  set_index-Stays none s v = v
  set_index-Stays (some x) s v = elsewhere-Refers s (record s { vector_index = x }) refl refl refl v

  delete_and_unindex-Stays : (p : MemoryRow F → Bool) → Stays (delete_and_unindex p)
  unfolding delete_and_unindex
  delete_and_unindex-Stays p s v =
      bind-Leaves Refers (set_index (unindex_all (selected p s.memories) s.vector_index))
        (λ _. pure (length (selected p s.memories))) (set_index-Stays _) (λ a t w. w)
        (delete_where p s) (delete_where-Refers p s v)

  pub purge-Stays : (days : ℕ) → Stays (purge_invalidated_older_than days)
  unfolding purge_invalidated_older_than
  purge-Stays days = then_access _ (λ s v. delete_and_unindex-Stays _ s v)

  pub delete_archived-Stays : (days : ℕ) → Stays (delete_archived_older_than days)
  unfolding delete_archived_older_than
  delete_archived-Stays days = then_access _ (λ s v. delete_and_unindex-Stays _ s v)

  pub delete_memory-Stays : (id : Text) → Stays (delete_memory id)
  unfolding delete_memory
  delete_memory-Stays id = then_access _ λ s v. elim (Bool-cases (exists_row id s.memories)) [
    | inl h ↦ rw h (
        set_index-Stays (remove id s.vector_index) (delete_where (has_id id) s)
          (delete_where-Refers (has_id id) s v))
    | inr h ↦ rw h v
  ]

  pub mark_consolidated-Stays : (ids : List Text) → Stays (mark_consolidated ids)
  unfolding mark_consolidated
  mark_consolidated-Stays [] s v = v
  mark_consolidated-Stays (id ∷ ids) s v =
      updates-Stays (λ now. is_among (id ∷ ids)) consolidated (λ now r. refl) s v

  pub record_access-Stays : (ids : List Text) → Stays (record_access ids)
  unfolding record_access
  record_access-Stays [] s v = v
  record_access-Stays (id ∷ ids) s v =
      updates-Stays (λ now. is_among (id ∷ ids)) accessed (λ now r. refl) s v

  pub invalidate_memory-Stays :
      (id : Text) (target : Option Text) → Stays (invalidate_memory id target)
  unfolding invalidate_memory
  invalidate_memory-Stays id none =
      updates-Stays (λ now r. has_id id r && is_none r.invalid_at) (invalidated none) λ now r. refl
  invalidate_memory-Stays id (some target) =
      updates-Stays (λ now r. has_id id r && is_none r.invalid_at) (invalidated (some target))
        λ now r. refl

  pub update_level-Stays : (id : Text) (level : ℤ) → Stays (update_level id level)
  unfolding update_level
  update_level-Stays id level = updates-Stays (λ now. has_id id) (with_level level) λ now r. refl

  pub update_importance-Stays :
      (id : Text) (importance : F) → Stays (update_importance id importance)
  unfolding update_importance
  update_importance-Stays id importance =
      updates-Stays (λ now. has_id id) (with_importance importance) λ now r. refl

  pub update_abstract-Stays : (id abstract_ : Text) → Stays (update_abstract id abstract_)
  unfolding update_abstract
  update_abstract-Stays id abstract_ = then_access _ λ s v.
      elim (Bool-cases (exists_row id s.memories)) [
        | inl h ↦
            rw h
              (update_rows-Stays (λ now. has_id id) (with_abstract abstract_) (λ now r. refl) s v)
        | inr h ↦ rw h v
      ]

  pub insert_context_tag-Stays : (id key value : Text) → Stays (insert_context_tag id key value)
  unfolding insert_context_tag add_tag
  insert_context_tag-Stays id key value = then_access _ λ s v.
      elim (Bool-cases (exists_row id s.memories)) [
        | inl h ↦ rw h (record {
          anchored = v.anchored;
          tagging =
              All-append (IsTagging s.memories) s.tags
                (record { memory_id = id; key = key; value = value } ∷ []) v.tagging (h, tt);
        })
        | inr h ↦ rw h v
      ]

  pub log_consolidation-Stays :
      (started finished : ℕ) (r : ConsolidationReport F)
      → Stays (log_consolidation started finished r)
  unfolding log_consolidation
  log_consolidation-Stays started finished r =
      then_access _ λ s v. record { anchored = v.anchored; tagging = v.tagging }
