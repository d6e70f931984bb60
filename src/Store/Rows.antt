-- ===== src/Store/Rows.antt =====
-- The tables under the statements: `WHERE id = ?`, `UPDATE … WHERE`, `DELETE … WHERE`.
use merkur_db.Base.Int.{nonneg}
use merkur_db.Base.Text.{Text, text_eq}
use merkur_db.Base.{
  Bool, true, false, ◌&&◌, List, [], ◌∷◌, Option, none, some, any, find, if◌then◌else◌,
}
use merkur_db.Core.Types.{Map, insert}
use merkur_db.Store.{MemoryRow, TagRow}

abbrev pub is_none {ℓ} : {A : Type ℓ} → Option A → Bool
is_none none = true
is_none (some a) = false

module _ {F : Type 0} where
  abbrev pub has_id : Text → MemoryRow F → Bool
  has_id q r = text_eq r.id q

  -- `SELECT … WHERE id = ?`
  abbrev pub row_of : Text → List (MemoryRow F) → Option (MemoryRow F)
  row_of q = find (has_id q)

  abbrev pub exists_row : Text → List (MemoryRow F) → Bool
  exists_row q = any (has_id q)

  -- `UPDATE … WHERE p`
  abbrev pub update_where :
      (MemoryRow F → Bool) → (MemoryRow F → MemoryRow F) → List (MemoryRow F) → List (MemoryRow F)
  update_where p g [] = []
  update_where p g (r ∷ rows) = (if p r then g r else r) ∷ update_where p g rows

  -- `level >= 0 AND invalid_at IS NULL`
  abbrev pub is_live : MemoryRow F → Bool
  is_live r = nonneg r.level && is_none r.invalid_at

  abbrev pub is_live_in : Text → MemoryRow F → Bool
  is_live_in namespace r = is_live r && text_eq r.namespace namespace

  -- `id IN (SELECT value FROM json_each(?))`
  abbrev pub is_among : List Text → MemoryRow F → Bool
  is_among ids r = any (text_eq r.id) ids

-- The tags of a memory, collected into a map; a later row of a key replaces an earlier one.
unfoldable pub context_from : Text → List TagRow → Map Text → Map Text
context_from id [] m = m
context_from id (t ∷ tags) m =
    context_from id tags (if text_eq t.memory_id id then insert t.key t.value m else m)

unfoldable pub get_context_tags : Text → List TagRow → Map Text
unfolding context_from
get_context_tags id tags = context_from id tags []
