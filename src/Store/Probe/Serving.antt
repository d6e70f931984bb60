-- ===== src/Store/Probe/Serving.antt =====
-- What vector_search_ns of crates/storage/src/sqlite.rs serves: which rows, and how many.
use merkur_db.Base.Sort.{sort_by, All-sort_by, length-sort_by}
use merkur_db.Base.Text.{Text, text_eq}
use merkur_db.Base.{
  All-map, keep-In, ℕ, suc, ◌<◌, ◌≡◌, refl, ap, Bool, true, ◌&&◌, List, [], arith, min, map,
  any-map, keep, length, take, inl, inr, All, All-take, All-imp, In, length-take, length-map,
}
use merkur_db.Core.Float.{Float, FloatLaws}
use merkur_db.Core.Types.{Map, ScoredMemory, ok}
use merkur_db.Fusion.Recall.{usize_max}
use merkur_db.Store.Mirror.Keeps.{Mirrors}
use merkur_db.Store.Probe.{is_searchable, length-keep_mono, indexed, Found, probe-Found}
use merkur_db.Store.Rows.{is_live_in, is_among, get_context_tags}
use merkur_db.Store.Search.{
  read_quiet, probe, vector_search_ns, first_fetch, higher_first, scored_row,
}
use merkur_db.Store.{MemoryRow, Db}

module _ {F : Type 0} where
  -- A result stands for a live row of the bucket, with a vector.
  abbrev pub Serves : Db F → Text → ScoredMemory F → Type 0
  Serves s namespace m =
      (r : MemoryRow F) × In r s.memories
      × (is_searchable namespace r ≡ true)
      × (m.id ≡ r.id)
      × (m.content ≡ r.content)

module _ {F : Type 0} (f : Float F) (laws : FloatLaws f) (vec : List F) (namespace : Text)
    (limit : ℕ) (s : Db F) where
  rows_searchable :
      (found : List (MemoryRow F) × Map F)
      → Mirrors f s
      → Found f s namespace limit found
      → (r : MemoryRow F) → In r s.memories
      → (is_among (map (λ h. h.0) found.1) r && is_live_in namespace r) ≡ true
      → is_searchable namespace r ≡ true
  rows_searchable found v h r m e = ground (
    arith,
    indexed f s r v m,
    h.ids_stored r.id,
    any-map (text_eq r.id) (λ (h : Text × F). h.0) found.1,
  )

  enough_rows :
      (found : List (MemoryRow F) × Map F)
      → Mirrors f s
      → Found f s namespace limit found
      → min limit (length found.0) ≡ min limit (length (keep (is_searchable namespace) s.memories))
  enough_rows found v h =
      let p : MemoryRow F → Bool =
        λ r. is_among (map (λ h. h.0) found.1) r && is_live_in namespace r in
      let few =
        length-keep_mono p (is_searchable namespace) s.memories (rows_searchable found v h) in
      elim h.rows_enough [
        | inl enough ↦ omega (arith, few, ap length h.rows_selected)
        | inr all ↦
            let many = length-keep_mono (is_searchable namespace) p s.memories λ r m e. ground (
              arith,
              indexed f s r v m,
              all r.id,
              any-map (text_eq r.id) (λ (h : Text × F). h.0) found.1,
            ) in
            omega (arith, few, many, ap length h.rows_selected)
      ]

  abbrev contexts_of : List (MemoryRow F) → Db F → Map (Map Text)
  contexts_of rows s = map (λ (r : MemoryRow F). (r.id, get_context_tags r.id s.tags)) rows

  searched :
      (found : List (MemoryRow F) × Map F)
      → probe f (suc (length s.vector_index.ids)) vec namespace limit (first_fetch limit) s
        ≡ (ok found, s)
      → s.faults ≡ []
      → vector_search_ns f vec namespace limit s ≡ (
        ok (
            take limit (
              sort_by
                (higher_first f)
                (map (scored_row f found.1 (contexts_of found.0 s)) found.0))),
        s,
      )
  unfolding vector_search_ns
  searched found runs quiet = rw (runs, read_quiet (contexts_of found.0) s quiet) refl

  served :
      (found : List (MemoryRow F) × Map F) (contexts : Map (Map Text))
      → Mirrors f s
      → Found f s namespace limit found
      → All (Serves s namespace) (map (scored_row f found.1 contexts) found.0)
  unfolding scored_row
  served found contexts v h =
      let p : MemoryRow F → Bool =
        λ r. is_among (map (λ h. h.0) found.1) r && is_live_in namespace r in
      let Served : MemoryRow F → Type 0 =
        λ r. Serves s namespace (scored_row f found.1 contexts r) in
      let kept =
        All-imp {Q = Served}
          (λ r (k : In r s.memories × (p r ≡ true)).
            (r, k.0, rows_searchable found v h r k.0 k.1, refl, refl))
          (keep p s.memories) (keep-In p s.memories) in
      All-map (Serves s namespace) (scored_row f found.1 contexts) found.0 (rw h.rows_selected kept)

  -- The search succeeds, leaves the store, and serves as many rows of the bucket as it can.
  abbrev pub ServesBucket : Type 0
  ServesBucket =
      (out : List (ScoredMemory F)) × (vector_search_ns f vec namespace limit s ≡ (ok out, s))
      × (length out ≡ min limit (length (keep (is_searchable namespace) s.memories)))
      × All (Serves s namespace) out

  -- In a store without faults whose index mirrors its table, the search of a bucket does not
  -- fail, changes nothing, and never starves: it returns as many results as the bucket has live
  -- rows with a vector, up to the limit, and each result stands for such a row.
  pub vector_search_ns_lem :
      Mirrors f s → s.faults ≡ [] → length s.vector_index.ids < usize_max → ServesBucket
  unfolding first_fetch
  vector_search_ns_lem v quiet small =
      let n = length s.vector_index.ids in
      let (found, runs, h) =
        probe-Found f laws vec namespace limit s n (first_fetch limit) v quiet small (omega arith)
          (omega arith) in
      let scored = map (scored_row f found.1 (contexts_of found.0 s)) found.0 in
      (
        take limit (sort_by (higher_first f) scored),
        searched found runs quiet,
        omega (
          arith,
          length-take limit (sort_by (higher_first f) scored),
          length-sort_by (higher_first f) scored,
          length-map (scored_row f found.1 (contexts_of found.0 s)) found.0,
          enough_rows found v h,
        ),
        All-take (Serves s namespace) limit _ (
            All-sort_by (higher_first f) (Serves s namespace) scored
              (served found (contexts_of found.0 s) v h)),
      )
