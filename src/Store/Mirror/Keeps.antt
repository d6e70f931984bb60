-- ===== src/Store/Mirror/Keeps.antt =====
-- The agreement of the vector index with the `memories` table, and what keeps it: the pieces that
-- the operations of crates/storage/src/sqlite.rs are made of.
use merkur_db.Base.Text.{Text}
use merkur_db.Base.{ℕ, ◌≡◌, sym, ◌∙◌, Bool, List, [], ◌∷◌, Option, none, some}
use merkur_db.Core.Float.{Float}
use merkur_db.Core.Preserves.{Leaves, bind-Leaves}
use merkur_db.Core.Storage.{Act, ◌>>=◌}
use merkur_db.Core.Types.{MerkurError}
use merkur_db.Store.Mirror.{
  embedding_at, Unique, KeepsId, KeepsVector, update_where-Unique, embedding_at-update_where,
}
use merkur_db.Store.Write.{set_index, update_rows}
use merkur_db.Store.{MemoryRow, Db, access, take_fault}
use merkur_db.VectorIndex.Invariant.{IsValid, Stores}
use merkur_db.VectorIndex.{Inner, vector_of}

module _ {F : Type 0} (f : Float F) where
  -- The index is valid, the ids are unique, and the index holds for each id the embedding of its
  -- row, nothing where the row has none or there is no row.
  pub record Mirrors (s : Db F) : Type 0 where
    pub index_valid : IsValid f s.vector_index
    pub ids_unique : Unique s.memories
    pub mirrored : (q : Text) → vector_of s.vector_index q ≡ embedding_at q s.memories

  abbrev pub Keeps : {A : Type 0} → Act (Db F) A → Type 0
  Keeps m = Leaves Mirrors m

  pub bind-Keeps :
      {A B : Type 0} (m : Act (Db F) A) (k : A → Act (Db F) B)
      → Keeps m
      → ((a : A) → Keeps (k a))
      → Keeps (m >>= k)
  bind-Keeps m k h g = bind-Leaves Mirrors m k h g

  pub access-Keeps : Keeps access
  unfolding access take_fault
  access-Keeps s v = go s.faults
    where
      go : (faults : List (Option MerkurError)) → Mirrors (take_fault faults s).1
      go [] = v
      go (none ∷ faults) = record {
        index_valid = v.index_valid;
        ids_unique = v.ids_unique;
        mirrored = v.mirrored;
      }
      go (some e ∷ faults) = record {
        index_valid = v.index_valid;
        ids_unique = v.ids_unique;
        mirrored = v.mirrored;
      }

  pub update_rows-Keeps :
      (p : ℕ → MemoryRow F → Bool) (g : ℕ → MemoryRow F → MemoryRow F)
      → ((now : ℕ) → KeepsId (g now))
      → ((now : ℕ) → KeepsVector (g now))
      → Keeps (update_rows p g)
  unfolding update_rows
  update_rows-Keeps p g i e s v = record {
    index_valid = v.index_valid;
    ids_unique = update_where-Unique (p s.clock) (g s.clock) s.memories (i s.clock) v.ids_unique;
    mirrored = λ q.
        v.mirrored q
        ∙ sym (
            embedding_at-update_where q (p s.clock) (g s.clock) s.memories (i s.clock) (e s.clock));
  }

  -- A new index put in the place of the old one.
  pub set_index-Mirrors :
      (r : Option (Inner F)) (s : Db F)
      → Stores f r (λ q. embedding_at q s.memories)
      → Unique s.memories
      → Mirrors (set_index r s).1
  unfolding set_index
  set_index-Mirrors r s (t, e, valid, content) u =
      rw e (record { index_valid = valid; ids_unique = u; mirrored = content })

  pub Stores-eq :
      (r : Option (Inner F)) (c d : Text → Option (List F))
      → ((q : Text) → c q ≡ d q)
      → Stores f r c
      → Stores f r d
  Stores-eq r c d h (t, e, valid, content) = (t, e, valid, λ q. content q ∙ h q)
