-- ===== src/Store/Write.antt =====
-- The statements of crates/storage/src/sqlite.rs and sqlite_helpers.rs that change the store.
use merkur_db.Base.Int.{ℤ, negsuc, int_eq}
use merkur_db.Base.Text.{Text, text_eq, codes}
use merkur_db.Base.{
  ℕ, ◌+◌, ◌*◌, ◌^◌, Bool, false, not, ◌&&◌, ◌||◌, List, [], ◌∷◌, Option, none, some, map, any, keep,
  ltb, if◌then◌else◌, length,
}
use merkur_db.Core.Storage.{Act, pure, raise, ◌>>◌}
use merkur_db.Core.Types.{string, insert, memory_not_found, ok}
use merkur_db.Store.Rows.{has_id, exists_row, update_where, is_among, is_none}
use merkur_db.Store.{MemoryRow, Db, access, or_panic}
use merkur_db.VectorIndex.{Inner, remove}

-- Nanoseconds of a number of days.
abbrev pub days_ns : ℕ → ℕ
days_ns days = days * 86400 * 10 ^ 9

module _ {F : Type 0} where
  -- The two tables that refer to `memories` lose the rows of what is deleted (`ON DELETE CASCADE`).
  abbrev pub delete_where : (MemoryRow F → Bool) → Db F → Db F
  delete_where p s =
      let gone = map (λ (r : MemoryRow F). r.id) (keep p s.memories) in
      record s {
        memories = keep (λ r. not (p r)) s.memories;
        edges =
            keep (λ e. not (any (text_eq e.source_id) gone || any (text_eq e.target_id) gone))
              s.edges;
        tags = keep (λ t. not (any (text_eq t.memory_id) gone)) s.tags;
      }

  unfoldable pub unindex_all : List Text → Inner F → Option (Inner F)
  unindex_all [] x = some x
  unindex_all (id ∷ ids) x = elim (remove id x) [ none ↦ none | some y ↦ unindex_all ids y ]

  unfoldable pub set_index : Option (Inner F) → Act (Db F) (Unit {0})
  set_index none s = or_panic none s
  set_index (some x) s = (ok tt, record s { vector_index = x })

  -- `DELETE FROM memories WHERE p`, and the index without the rows that it deleted; the result is
  -- their number.
  unfoldable pub delete_and_unindex : (MemoryRow F → Bool) → Act (Db F) ℕ
  unfolding unindex_all set_index
  delete_and_unindex p s =
      let ids = map (λ (r : MemoryRow F). r.id) (keep p s.memories) in
      (do set_index (unindex_all ids s.vector_index); pure (length ids)) (delete_where p s)

  unfoldable pub delete_memory : Text → Act (Db F) (Unit {0})
  unfolding access set_index
  delete_memory id = do
    access
    λ s.
        if exists_row id s.memories
        then set_index (remove id s.vector_index) (delete_where (has_id id) s)
        else raise (memory_not_found id) s

  abbrev pub is_purgeable : ℕ → ℕ → MemoryRow F → Bool
  is_purgeable now days r = elim r.invalid_at [ none ↦ false | some t ↦ ltb (t + days_ns days) now ]

  -- `invalid_at < now - days`
  unfoldable pub purge_invalidated_older_than : ℕ → Act (Db F) ℕ
  unfolding access delete_and_unindex
  purge_invalidated_older_than days = do
    access
    λ s. delete_and_unindex (is_purgeable s.clock days) s

  abbrev pub is_expired_archive : ℕ → ℕ → MemoryRow F → Bool
  is_expired_archive now days r = int_eq r.level (negsuc 0) && ltb (r.updated_at + days_ns days) now

  -- `level = -1 AND updated_at < now - days`
  unfoldable pub delete_archived_older_than : ℕ → Act (Db F) ℕ
  unfolding access delete_and_unindex
  delete_archived_older_than days = do
    access
    λ s. delete_and_unindex (is_expired_archive s.clock days) s

  unfoldable pub update_rows :
      (ℕ → MemoryRow F → Bool) → (ℕ → MemoryRow F → MemoryRow F) → Act (Db F) (Unit {0})
  update_rows p g s =
      (ok tt, record s { memories = update_where (p s.clock) (g s.clock) s.memories })

  -- The columns that `invalidate_memory` sets.
  abbrev pub invalidated : Option Text → ℕ → MemoryRow F → MemoryRow F
  invalidated none now r = record r { invalid_at = some now; updated_at = now }
  invalidated (some target) now r = record r {
    invalid_at = some now;
    updated_at = now;
    metadata = insert (codes "absorbed_into") (string target) r.metadata;
  }

  -- The columns that the other updates set.
  abbrev pub accessed : ℕ → MemoryRow F → MemoryRow F
  accessed now r = record r { accessed_at = now; access_count = r.access_count + 1 }

  abbrev pub consolidated : ℕ → MemoryRow F → MemoryRow F
  consolidated now r = record r { pending_consolidation = false }

  abbrev pub with_level : ℤ → ℕ → MemoryRow F → MemoryRow F
  with_level level now r = record r { level = level; updated_at = now }

  abbrev pub with_importance : F → ℕ → MemoryRow F → MemoryRow F
  with_importance importance now r = record r { importance = importance; updated_at = now }

  abbrev pub with_abstract : Text → ℕ → MemoryRow F → MemoryRow F
  with_abstract abstract_ now r = record r { abstract_ = some abstract_; updated_at = now }

  unfoldable pub invalidate_memory : Text → Option Text → Act (Db F) (Unit {0})
  unfolding access update_rows
  invalidate_memory id absorbed_into = do
    access
    update_rows (λ now r. has_id id r && is_none r.invalid_at) (invalidated absorbed_into)

  unfoldable pub record_access : List Text → Act (Db F) (Unit {0})
  unfolding access update_rows
  record_access [] = pure tt
  record_access (id ∷ ids) = do access; update_rows (λ now. is_among (id ∷ ids)) accessed

  unfoldable pub mark_consolidated : List Text → Act (Db F) (Unit {0})
  unfolding access update_rows
  mark_consolidated [] = pure tt
  mark_consolidated (id ∷ ids) = do access; update_rows (λ now. is_among (id ∷ ids)) consolidated

  unfoldable pub update_level : Text → ℤ → Act (Db F) (Unit {0})
  unfolding access update_rows
  update_level id level = do access; update_rows (λ now. has_id id) (with_level level)

  unfoldable pub update_importance : Text → F → Act (Db F) (Unit {0})
  unfolding access update_rows
  update_importance id importance = do
    access
    update_rows (λ now. has_id id) (with_importance importance)

  unfoldable pub update_abstract : Text → Text → Act (Db F) (Unit {0})
  unfolding access update_rows
  update_abstract id abstract_ = do
    access
    λ s.
        (if exists_row id s.memories
            then update_rows (λ now. has_id id) (with_abstract abstract_)
            else raise (memory_not_found id))
          s
