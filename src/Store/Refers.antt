-- ===== src/Store/Refers.antt =====
-- The foreign keys of the tables of crates/storage/src/sqlite_helpers.rs: every edge and every tag
-- refers to memories that are there. The rows of the tables under the statements.
pub mod Steps
pub mod Serves
use merkur_db.Base.Text.{Text, text_eq}
use merkur_db.Base.{
  ◌≡◌, refl, sym, ◌∙◌, ap, Bool, true, false, not, ◌&&◌, ◌||◌, List, [], ◌∷◌, ◌++◌, map, any, keep,
  arith, All, All-imp, All-append, kept-All, Bool-cases, inl, inr, if◌then◌else◌,
}
use merkur_db.Core.Preserves.{Leaves}
use merkur_db.Core.Types.{Map}
use merkur_db.Store.Insert.{tag_rows}
use merkur_db.Store.Mirror.{exists_row-update_where, exists_row-push, selected, KeepsId}
use merkur_db.Store.Rows.{has_id, exists_row, update_where}
use merkur_db.Store.Write.{delete_where}
use merkur_db.Store.{MemoryRow, EdgeRow, TagRow, Db}

module _ {F : Type 0} where
  -- Both ends of an edge, and the memory of a tag, are rows.
  abbrev pub IsAnchored : List (MemoryRow F) → EdgeRow F → Type 0
  IsAnchored rows e = (exists_row e.source_id rows ≡ true) × (exists_row e.target_id rows ≡ true)

  abbrev pub IsTagging : List (MemoryRow F) → TagRow → Type 0
  IsTagging rows t = exists_row t.memory_id rows ≡ true

  pub record Refers (s : Db F) : Type 0 where
    pub anchored : All (IsAnchored s.memories) s.edges
    pub tagging : All (IsTagging s.memories) s.tags

  -- Rows among which every id of `rows` still is.
  abbrev pub Contains : List (MemoryRow F) → List (MemoryRow F) → Type 0
  Contains rows rows' = (q : Text) → exists_row q rows ≡ true → exists_row q rows' ≡ true

  -- A step that loses no id and changes no other table.
  pub grown-Refers :
      (s t : Db F)
      → Contains s.memories t.memories
      → t.edges ≡ s.edges
      → t.tags ≡ s.tags
      → Refers s
      → Refers t
  grown-Refers s t h e g v = record {
    anchored = rw e (All-imp (λ x (a, b). (h x.source_id a, h x.target_id b)) s.edges v.anchored);
    tagging = rw g (All-imp (λ x a. h x.memory_id a) s.tags v.tagging);
  }

  pub update_where-Contains :
      (p : MemoryRow F → Bool) (g : MemoryRow F → MemoryRow F) (rows : List (MemoryRow F))
      → KeepsId g
      → Contains rows (update_where p g rows)
  update_where-Contains p g rows i q h = exists_row-update_where q p g rows i ∙ h

  pub push-Contains : (rows : List (MemoryRow F)) (r : MemoryRow F) → Contains rows (rows ++ r ∷ [])
  push-Contains rows r q h = ground (arith, exists_row-push q rows r, h)

  pub tag_rows-IsTagging :
      (id : Text) (context : Map Text) (rows : List (MemoryRow F))
      → exists_row id rows ≡ true
      → All (IsTagging rows) (tag_rows id context)
  tag_rows-IsTagging id [] rows h = tt
  tag_rows-IsTagging id (e ∷ context) rows h = (h, tag_rows-IsTagging id context rows h)

  -- A row that no deletion names stays.
  stays :
      (q : Text) (p : MemoryRow F → Bool) (rows : List (MemoryRow F))
      → exists_row q rows ≡ true
      → any (text_eq q) (selected p rows) ≡ false
      → exists_row q (keep (λ r. not (p r)) rows) ≡ true
  stays q p [] h g = h
  stays q p (r ∷ rows) h g = ground (arith, stays q p rows)

  -- The deletion of rows takes with it what refers to them.
  pub delete_where-Refers :
      (p : MemoryRow F → Bool) (s : Db F) → Refers s → Refers (delete_where p s)
  delete_where-Refers p s v = record {
    anchored =
        kept-All (IsAnchored s.memories) (IsAnchored (delete_where p s).memories) _
          (λ e a k. (
            stays e.source_id p s.memories a.0 (ground (arith, k)),
            stays e.target_id p s.memories a.1 (ground (arith, k)),
          ))
          s.edges v.anchored;
    tagging =
        kept-All (IsTagging s.memories) (IsTagging (delete_where p s).memories) _
          (λ t a k. stays t.memory_id p s.memories a (ground (arith, k))) s.tags v.tagging;
  }
