-- ===== src/Store/RoundTrip.antt =====
-- insert_memory of crates/storage/src/sqlite.rs, followed by get_memory.
use merkur_db.Base.Text.{Text, codes}
use merkur_db.Base.{ℕ, suc, ◌≡◌, true, [], ◌∷◌, ◌++◌, none, some}
use merkur_db.Core.Float.{Float}
use merkur_db.Core.Types.{Memory, NewMemory, full, ok}
use merkur_db.Store.Insert.{insert_memory, new_row, effective_namespace, tag_rows}
use merkur_db.Store.Search.{get_memory}
use merkur_db.Store.{Db}

module _ {F : Type 0} (f : Float F) where
  module _ (uuid : ℕ → Text) where
    abbrev pub next_id : Db F → Text
    next_id s = codes "mem_" ++ uuid s.next_uuid

    abbrev with_row : NewMemory F → Db F → Db F
    with_row mem s = record s {
      memories = s.memories ++ new_row f (next_id s) mem s.clock ∷ [];
      tags = s.tags ++ tag_rows (next_id s) mem.context;
      next_uuid = suc s.next_uuid;
    }

    -- The id is returned and a read of it finds what was written.
    abbrev pub ReadsBack : NewMemory F → Db F → Type 0
    ReadsBack mem s =
        (t : Db F) × (insert_memory f uuid mem s ≡ (ok (next_id s), t))
        × ((m : Memory F) × (get_memory (next_id s) t ≡ (ok (some m), t))
            × (m.id ≡ next_id s)
            × (m.content ≡ mem.content)
            × (m.metadata ≡ mem.metadata)
            × (m.namespace ≡ effective_namespace mem.namespace)
            × (m.level ≡ full)
            × (m.pending_consolidation ≡ true)
            × (m.invalid_at ≡ none))
