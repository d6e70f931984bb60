-- ===== src/Store/Effects.antt =====
-- What single operations of crates/storage/src/sqlite.rs do, as later reads see it.
use mathlib.Core.Path.{subst}
use merkur_db.Base.Text.{Text, text_eq_refl}
use merkur_db.Base.{
  ℕ, ◌+◌, ◌≡◌, ◌≢◌, refl, sym, ap, ◌∙◌, Bool, true, false, ◌&&◌, List, [], ◌∷◌, Option, none, some,
  arith, if◌then◌else◌, length, ◌<◌, inl, inr, Bool-cases, All, All-imp, In,
}
use merkur_db.Core.Float.{Float, FloatLaws}
use merkur_db.Core.Storage.{◌>>=◌}
use merkur_db.Core.Types.{ScoredMemory, ok}
use merkur_db.Fusion.Recall.{usize_max}
use merkur_db.Store.Mirror.Keeps.{Mirrors}
use merkur_db.Store.Mirror.Updates.{invalidate_memory-Keeps}
use merkur_db.Store.Probe.Serving.{Serves, vector_search_ns_lem}
use merkur_db.Store.Probe.{is_searchable}
use merkur_db.Store.Rows.{has_id, row_of, update_where, is_among, is_none}
use merkur_db.Store.Search.{vector_search_ns}
use merkur_db.Store.Write.{update_rows, invalidate_memory, invalidated, record_access, accessed}
use merkur_db.Store.{MemoryRow, Db, access}

module _ {F : Type 0} where
  update_where-twice :
      (p : MemoryRow F → Bool) (g h : MemoryRow F → MemoryRow F) (rows : List (MemoryRow F))
      → ((r : MemoryRow F) → p (g r) ≡ false)
      → update_where p h (update_where p g rows) ≡ update_where p g rows
  update_where-twice p g h [] e = refl
  update_where-twice p g h (r ∷ rows) e = elim (Bool-cases (p r)) [
    | inl k ↦ rw k (rw (e r) (ap (◌∷◌ (g r)) (update_where-twice p g h rows e)))
    | inr k ↦ rw k (rw k (ap (◌∷◌ r) (update_where-twice p g h rows e)))
  ]

  abbrev pub later : ℕ → Db F → Db F
  later elapsed s = record s { clock = s.clock + elapsed }

  abbrev is_valid_row : Text → MemoryRow F → Bool
  is_valid_row id r = has_id id r && is_none r.invalid_at

  invalidated-stays :
      (id : Text) (a : Option Text) (now : ℕ) (r : MemoryRow F)
      → (has_id id (invalidated a now r) && is_none (invalidated a now r).invalid_at) ≡ false
  invalidated-stays id none now r = ground arith
  invalidated-stays id (some target) now r = ground arith

  update_quiet :
      (p : ℕ → MemoryRow F → Bool) (g : ℕ → MemoryRow F → MemoryRow F) (s : Db F)
      → s.faults ≡ []
      → (access >>= λ _. update_rows p g) s
        ≡ (ok tt, record s { memories = update_where (p s.clock) (g s.clock) s.memories })
  unfolding access update_rows
  update_quiet p g s h = rw h refl

  abbrev once_invalidated : Text → Option Text → Db F → Db F
  once_invalidated id a s = record s {
    memories = update_where (is_valid_row id) (invalidated a s.clock) s.memories;
  }

  invalidate_quiet :
      (id : Text) (a : Option Text) (s : Db F)
      → s.faults ≡ []
      → invalidate_memory id a s ≡ (ok tt, once_invalidated id a s)
  unfolding invalidate_memory
  invalidate_quiet id a s h = update_quiet (λ now. is_valid_row id) (invalidated a) s h

  -- The first invalidation wins: in a store without faults, invalidating a memory again, at any
  -- later time and with any pointer, succeeds and changes nothing.
  pub invalidate_memory-first_wins :
      (id : Text) (a b : Option Text) (elapsed : ℕ) (s : Db F)
      → s.faults ≡ []
      → let t = later elapsed (invalidate_memory id a s).1 in invalidate_memory id b t ≡ (ok tt, t)
  invalidate_memory-first_wins id a b elapsed s quiet =
      let t = later elapsed (once_invalidated id a s) in
      rw (invalidate_quiet id a s quiet) (
        invalidate_quiet id b t quiet
        ∙ ap (λ rows. (ok tt, record t { memories = rows }))
            (update_where-twice (is_valid_row id) (invalidated a s.clock) (invalidated b t.clock)
              s.memories (invalidated-stays id a s.clock)))

  row_of-update_where :
      (q : Text) (p : MemoryRow F → Bool) (g : MemoryRow F → MemoryRow F)
      (rows : List (MemoryRow F))
      → ((r : MemoryRow F) → (g r).id ≡ r.id)
      → row_of q (update_where p g rows)
        ≡ (elim (row_of q rows) [ none ↦ none | some r ↦ some (if p r then g r else r) ])
  row_of-update_where q p g [] i = refl
  row_of-update_where q p g (r ∷ rows) i = ground (arith, row_of-update_where q p g rows i, i r)

  -- The rows of a batch are accessed now, all others are as they were.
  abbrev pub RecordsAccess : Text → List Text → Db F → Type 0
  RecordsAccess id ids s =
      (t : Db F) × (record_access (id ∷ ids) s ≡ (ok tt, t))
      × ((q : Text)
          → row_of q t.memories ≡ (elim (row_of q s.memories) [
            | none ↦ none
            | some r ↦ some (
                if is_among (id ∷ ids) r
                then record r { accessed_at = s.clock; access_count = r.access_count + 1 }
                else r)
          ]))

  -- In a store without faults, `record_access` of a non-empty batch succeeds, and a row is served
  -- as accessed now, its count one higher, when its id is in the batch, and unchanged otherwise.
  pub record_access_lem :
      (id : Text) (ids : List Text) (s : Db F) → s.faults ≡ [] → RecordsAccess id ids s
  unfolding record_access
  record_access_lem id ids s quiet = (
    record s { memories = update_where (is_among (id ∷ ids)) (accessed s.clock) s.memories },
    update_quiet (λ now. is_among (id ∷ ids)) accessed s quiet,
    λ q. row_of-update_where q (is_among (id ∷ ids)) (accessed s.clock) s.memories (λ r. refl),
  )

  hidden_row :
      (id : Text) (a : Option Text) (namespace : Text) (now : ℕ) (r : MemoryRow F)
      → is_searchable namespace (if is_valid_row id r then invalidated a now r else r) ≡ true
      → (if is_valid_row id r then invalidated a now r else r).id ≢ id
  hidden_row id none namespace now r h e = absurd (ground (arith, text_eq_refl id))
  hidden_row id (some target) namespace now r h e = absurd (ground (arith, text_eq_refl id))

  hidden :
      (id : Text) (a : Option Text) (namespace : Text) (now : ℕ) (rows : List (MemoryRow F))
      (r : MemoryRow F)
      → In r (update_where (is_valid_row id) (invalidated a now) rows)
      → is_searchable namespace r ≡ true
      → r.id ≢ id
  hidden id a namespace now [] r m h = absurd m
  hidden id a namespace now (r' ∷ rows) r (inl e) h =
      let P : MemoryRow F → Type 0 = λ r. is_searchable namespace r ≡ true → r.id ≢ id in
      subst P (sym e) (hidden_row id a namespace now r') h
  hidden id a namespace now (r' ∷ rows) r (inr m) h = hidden id a namespace now rows r m h

module _ {F : Type 0} (f : Float F) (laws : FloatLaws f) where
  -- The search of a bucket after an invalidation succeeds without the invalidated memory.
  abbrev pub Hides : Text → Option Text → List F → Text → ℕ → Db F → Type 0
  Hides id a vec namespace limit s =
      (out : List (ScoredMemory F)) × (vector_search_ns f vec namespace limit
          (invalidate_memory id a s).1
        ≡ (ok out, (invalidate_memory id a s).1))
      × All (λ m. m.id ≢ id) out

  -- In a store without faults whose index mirrors its table, no search of any bucket after the
  -- invalidation of a memory fails or returns that memory.
  pub invalidate_memory-Hides :
      (id : Text) (a : Option Text) (vec : List F) (namespace : Text) (limit : ℕ) (s : Db F)
      → Mirrors f s
      → s.faults ≡ []
      → length s.vector_index.ids < usize_max
      → Hides id a vec namespace limit s
  invalidate_memory-Hides id a vec namespace limit s v quiet small =
      let e = invalidate_quiet id a s quiet in
      let t = once_invalidated id a s in
      let w : Mirrors f t = subst (λ o. Mirrors f o.1) e (invalidate_memory-Keeps f id a s v) in
      let (out, runs, n, served) =
        vector_search_ns_lem f laws vec namespace limit t w quiet small in
      let Other : ScoredMemory F → Type 0 = λ m. m.id ≢ id in
      rw e (
        out,
        runs,
        All-imp {Q = Other}
            (λ m (k : Serves t namespace m).
              λ same. hidden id a namespace s.clock s.memories k.0 k.1 k.2 (sym k.3 ∙ same))
            out served,
      )
