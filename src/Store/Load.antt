-- ===== src/Store/Load.antt =====
-- load_vectors_from_db of crates/storage/src/sqlite.rs: the index is built anew from the table
-- when the store is opened.
use mathlib.Core.Path.{fun_ext}
use merkur_db.Base.Text.{Text, text_eq}
use merkur_db.Base.{
  ◌≡◌, refl, sym, ap, ◌∙◌, false, List, [], ◌∷◌, Option, none, some, arith, if◌then◌else◌,
}
use merkur_db.Core.Float.{Float}
use merkur_db.Core.Storage.{Act, ◌>>=◌}
use merkur_db.Core.Types.{MerkurResult, ok}
use merkur_db.Store.Mirror.Keeps.{Mirrors, Stores-eq}
use merkur_db.Store.Mirror.{Unique, embedding_at}
use merkur_db.Store.Rows.{exists_row}
use merkur_db.Store.Search.{read, read_quiet}
use merkur_db.Store.Write.{set_index}
use merkur_db.Store.{MemoryRow, Db}
use merkur_db.VectorIndex.Invariant.{IsValid, Stores, upsert-Stores, with_vector, new-IsValid}
use merkur_db.VectorIndex.{Inner, new, upsert_all, rebuild, vector_of}

module _ {F : Type 0} where
  -- `SELECT id, embedding FROM memories WHERE embedding IS NOT NULL`
  unfoldable pub stored_vectors : List (MemoryRow F) → List (Text × List F)
  stored_vectors [] = []
  stored_vectors (r ∷ rows) =
      let rest = stored_vectors rows in elim r.embedding [ none ↦ rest | some v ↦ (r.id, v) ∷ rest ]

  abbrev either : Option (List F) → Option (List F) → Option (List F)
  either none d = d
  either (some v) d = some v

  either-none : (o : Option (List F)) → either o none ≡ o
  either-none none = refl
  either-none (some v) = refl

  no_embedding :
      (q : Text) (rows : List (MemoryRow F))
      → exists_row q rows ≡ false
      → embedding_at q rows ≡ none
  no_embedding q [] h = refl
  no_embedding q (r ∷ rows) h = ground (arith, no_embedding q rows)

module _ {F : Type 0} (f : Float F) where
  unfoldable pub load_vectors_from_db : Act (Db F) (Unit {0})
  unfolding read stored_vectors set_index
  load_vectors_from_db = do
    vectors ← read λ s. stored_vectors s.memories
    λ s. set_index (rebuild f vectors s.vector_index) s

module _ {F : Type 0} (f : Float F) where
  -- What an index holds after the vectors of a list were put into it.
  abbrev written : List (Text × List F) → (Text → Option (List F)) → Text → Option (List F)
  written [] content q = content q
  written (e ∷ all) content q = written all (λ k. if text_eq k e.0 then some e.1 else content k) q

  upsert_all-Stores :
      (all : List (Text × List F)) (s : Inner F)
      → IsValid f s
      → Stores f (upsert_all f all s) (written all (vector_of s))
  unfolding upsert_all
  upsert_all-Stores [] s v = (s, refl, v, λ q. refl)
  upsert_all-Stores ((id, vec) ∷ all) s v =
      let (t, e, w, content) = upsert-Stores f id vec s v in
      rw (e, upsert_all)
        (Stores-eq f (upsert_all f all t) _ _
          (written_eq all (vector_of t) (with_vector f s id vec) content)
          (upsert_all-Stores all t w))
    where
      written_eq :
          (all : List (Text × List F)) (c d : Text → Option (List F))
          → ((q : Text) → c q ≡ d q)
          → (q : Text) → written all c q ≡ written all d q
      written_eq all c d h q = ap (λ k. written all k q) (fun_ext h)

  written_rows :
      (rows : List (MemoryRow F)) (content : Text → Option (List F)) (q : Text)
      → Unique rows
      → written (stored_vectors rows) content q ≡ either (embedding_at q rows) (content q)
  unfolding stored_vectors
  written_rows [] content q u = refl
  written_rows (r ∷ rows) content q u =
      go r.embedding (λ c. written_rows rows c q u.1) ∙ ground (arith)
    where
      go :
          (emb : Option (List F))
          → ((c : Text → Option (List F))
              → written (stored_vectors rows) c q ≡ either (embedding_at q rows) (c q))
          → written
              (elim emb as (λ x. List (Text × List F)) [
                | none ↦ stored_vectors rows
                | some v ↦ (r.id, v) ∷ stored_vectors rows
              ])
              content
              q
            ≡ either (if text_eq r.id q then emb else embedding_at q rows) (content q)
      go none ih = ih content ∙ ground (arith, no_embedding r.id rows u.0)
      go (some v) ih =
          ih (λ k. if text_eq k r.id then some v else content k)
          ∙ ground (arith, no_embedding r.id rows u.0)

  -- What loading the table's vectors puts into the index.
  rebuild-Stores :
      (rows : List (MemoryRow F)) (x : Inner F)
      → Unique rows
      → Stores f (rebuild f (stored_vectors rows) x) (λ q. embedding_at q rows)
  unfolding rebuild vector_of new
  rebuild-Stores rows x u =
      Stores-eq f (rebuild f (stored_vectors rows) x)
        (written (stored_vectors rows) (vector_of new)) (λ q. embedding_at q rows)
        (λ q. written_rows rows (vector_of new) q u ∙ either-none (embedding_at q rows))
        (upsert_all-Stores (stored_vectors rows) new (new-IsValid f))

  abbrev pub Opens : Db F → MerkurResult (Unit {0}) × Db F → Type 0
  Opens s out =
      (t : Db F) × (out ≡ (ok tt, t))
      × Mirrors f t
      × (t.memories ≡ s.memories)
      × ((q : Text) → vector_of t.vector_index q ≡ vector_of s.vector_index q)

  -- Opening a store again, without faults, recovers its index from the table alone: whatever index
  -- is there before, afterwards the index is valid, mirrors the unchanged table, and gives for each
  -- id what the index of the running store gave.
  pub load-Mirrors :
      (s : Db F) (x : Inner F)
      → Mirrors f s
      → s.faults ≡ []
      → Opens s (load_vectors_from_db f (record s { vector_index = x }))
  unfolding load_vectors_from_db set_index
  load-Mirrors s x v quiet =
      let lost : Db F = record s { vector_index = x } in
      let (y, e, valid, content) = rebuild-Stores s.memories x v.ids_unique in
      (
        record lost { vector_index = y },
        rw (read_quiet (λ t. stored_vectors t.memories) lost quiet) (rw (e, set_index) refl),
        record { index_valid = valid; ids_unique = v.ids_unique; mirrored = content },
        refl,
        λ q. content q ∙ sym (v.mirrored q),
      )
