-- ===== src/Store/Probe.antt =====
-- vector_search_ns of crates/storage/src/sqlite.rs: the probe that deepens until the bucket yields
-- enough rows or the index is exhausted.
pub mod Serving
use merkur_db.Base.Sort.{sort_by, IsSorted, sort_by-IsSorted, All-sort_by, length-sort_by}
use merkur_db.Base.Text.{Text, text_eq, text_eq_refl}
use merkur_db.Base.{
  ℕ, zero, suc, ◌+◌, ◌*◌, ◌<◌, ◌≤◌, ◌≡◌, refl, sym, ap, ◌∙◌, Bool, true, false, not, ◌&&◌, ◌||◌,
  List, [], ◌∷◌, Option, none, some, arith, leb, ltb, min, max, map, any, any-map, keep,
  if◌then◌else◌, length, take, Bool-cases, Option-cases, inl, inr, ◌⊎◌, All, All-take, In,
  length-take, length-map, get_elem?, ltb→lt, leb→le, get_elem?_lt, lt_of_get_elem?,
}
use merkur_db.Core.Float.{Float, FloatLaws}
use merkur_db.Core.Storage.{Act, pure, raise, ◌>>=◌, ◌>>◌, and_then}
use merkur_db.Core.Types.{Map, ScoredMemory, MerkurError, MerkurResult, ok, err}
use merkur_db.Fusion.Recall.{saturating_mul, usize_max}
use merkur_db.Store.Mirror.Keeps.{Mirrors}
use merkur_db.Store.Mirror.{embedding_at, Unique}
use merkur_db.Store.Rows.{
  has_id, row_of, exists_row, is_live, is_live_in, is_among, is_none, get_context_tags,
}
use merkur_db.Store.Search.{
  read, fetch_rows_in_namespace, probe, vector_search_ns, first_fetch, higher_first, scored_row,
}
use merkur_db.Store.{MemoryRow, Db, access, take_fault, or_panic}
use merkur_db.VectorIndex.Complete.{names, search_ids, any_get, get_any}
use merkur_db.VectorIndex.Invariant.{IsValid}
use merkur_db.VectorIndex.{Inner, vector_of, search}

module _ {F : Type 0} where
  -- The rows that a search of a bucket may serve: live, in the bucket, and with a vector.
  abbrev pub is_searchable : Text → MemoryRow F → Bool
  is_searchable namespace r = not (is_none r.embedding) && is_live_in namespace r

  abbrev pub selected_rows : List Text → Text → List (MemoryRow F) → List (MemoryRow F)
  selected_rows ids namespace = keep λ r. is_among ids r && is_live_in namespace r

  no_rows : (namespace : Text) (rows : List (MemoryRow F)) → selected_rows [] namespace rows ≡ []
  no_rows namespace [] = refl
  no_rows namespace (r ∷ rows) = no_rows namespace rows

  fetch_rows_lem :
      (ids : List Text) (namespace : Text) (s : Db F)
      → s.faults ≡ []
      → fetch_rows_in_namespace ids namespace s ≡ (ok (selected_rows ids namespace s.memories), s)
  unfolding fetch_rows_in_namespace read access
  fetch_rows_lem [] namespace s h = rw (no_rows namespace s.memories) refl
  fetch_rows_lem (id ∷ ids) namespace s h = rw h refl

  pub length-keep_mono :
      (p q : MemoryRow F → Bool) (rows : List (MemoryRow F))
      → ((r : MemoryRow F) → In r rows → p r ≡ true → q r ≡ true)
      → length (keep p rows) ≤ length (keep q rows)
  length-keep_mono p q [] h = omega arith
  length-keep_mono p q (r ∷ rows) h =
      ground (arith, h r (inl refl), length-keep_mono p q rows (λ r' m. h r' (inr m)))

  In-exists_row :
      (r : MemoryRow F) (rows : List (MemoryRow F)) → In r rows → exists_row r.id rows ≡ true
  In-exists_row r [] m = absurd m
  In-exists_row r (r' ∷ rows) (inl e) = rw (sym e) (rw (text_eq_refl r.id) refl)
  In-exists_row r (r' ∷ rows) (inr m) = ground (arith, In-exists_row r rows m)

  In-embedding_at :
      (r : MemoryRow F) (rows : List (MemoryRow F))
      → Unique rows
      → In r rows
      → embedding_at r.id rows ≡ r.embedding
  In-embedding_at r [] u m = absurd m
  In-embedding_at r (r' ∷ rows) u (inl e) = rw (sym e) (rw (text_eq_refl r.id) refl)
  In-embedding_at r (r' ∷ rows) u (inr m) =
      ground (arith, In-embedding_at r rows u.1 m, In-exists_row r rows m)

module _ {F : Type 0} (f : Float F) where
  -- An id is stored in the index exactly when its row has an embedding.
  pub indexed :
      (s : Db F) (r : MemoryRow F)
      → Mirrors f s
      → In r s.memories
      → any (text_eq r.id) s.vector_index.ids ≡ not (is_none r.embedding)
  unfolding vector_of
  indexed s r v m =
      let at = In-embedding_at r s.memories v.ids_unique m in
      let x = s.vector_index in
      elim (Bool-cases (any (text_eq r.id) x.ids)) [
        | inl h ↦
            let (i, (q, here, eq)) = get_any (text_eq r.id) x.ids h in
            let below = lt_of_get_elem? x.ids i q here in
            let (w, found) =
              get_elem?_lt x.vectors i (omega (arith, v.index_valid.vectors_in_step)) in
            ground (arith, at, v.mirrored r.id, v.index_valid.position_complete q i here)
        | inr h ↦ elim (Option-cases (x.index_of r.id)) [
          | inl a ↦ ground (arith, at, v.mirrored r.id)
          | inr (i, a) ↦ absurd (
              ground (
                arith,
                any_get (text_eq r.id) x.ids i r.id (v.index_valid.position_sound r.id i a),
                text_eq_refl r.id,
              ))
        ]
      ]

  -- What the probe ends with: the rows of the bucket among stored ids, and either enough of them
  -- or all that can be searched.
  pub record Found (s : Db F) (namespace : Text) (limit : ℕ) (found : List (MemoryRow F) × Map F)
      : Type 0 where
    pub rows_selected : found.0 ≡ selected_rows (map (λ h. h.0) found.1) namespace s.memories
    pub ids_stored : (q : Text) → names q found.1 ≡ true → any (text_eq q) s.vector_index.ids ≡ true
    pub rows_enough :
        (limit ≤ length found.0)
        ⊎ ((q : Text) → any (text_eq q) s.vector_index.ids ≡ true → names q found.1 ≡ true)

  abbrev stops : ℕ → ℕ → List (MemoryRow F) → Map F → Bool
  stops limit fetch rows results = leb limit (length rows) || ltb (length results) fetch

  probe_done :
      (fuel : ℕ) (vec : List F) (namespace : Text) (limit fetch : ℕ) (s : Db F) (results : Map F)
      (rows : List (MemoryRow F))
      → search f vec fetch s.vector_index ≡ some results
      → fetch_rows_in_namespace (map (λ h. h.0) results) namespace s ≡ (ok rows, s)
      → stops limit fetch rows results ≡ true
      → probe f (suc fuel) vec namespace limit fetch s ≡ (ok (rows, results), s)
  unfolding probe
  probe_done fuel vec namespace limit fetch s results rows e h stop =
      rw e (rw h (rw (stop, and_then) refl))

  probe_again :
      (fuel : ℕ) (vec : List F) (namespace : Text) (limit fetch : ℕ) (s : Db F) (results : Map F)
      (rows : List (MemoryRow F))
      → search f vec fetch s.vector_index ≡ some results
      → fetch_rows_in_namespace (map (λ h. h.0) results) namespace s ≡ (ok rows, s)
      → stops limit fetch rows results ≡ false
      → probe f (suc fuel) vec namespace limit fetch s
        ≡ probe f fuel vec namespace limit (saturating_mul fetch 2) s
  unfolding probe
  probe_again fuel vec namespace limit fetch s results rows e h stop =
      rw e (rw h (rw (stop, and_then) refl))

  module _ (laws : FloatLaws f) (vec : List F) (namespace : Text) (limit : ℕ) (s : Db F) where
    abbrev pub Succeeds : ℕ → ℕ → Type 0
    Succeeds fuel fetch =
        (found : List (MemoryRow F) × Map F) × (probe f (suc fuel) vec namespace limit fetch s
          ≡ (ok found, s))
        × Found s namespace limit found

    -- A round ends the probe, or the index has more rows than it asked for.
    probe_round :
        (fuel fetch : ℕ)
        → Mirrors f s
        → s.faults ≡ []
        → 0 < fetch
        → Succeeds fuel fetch
          ⊎ ((fetch ≤ length s.vector_index.ids)
              × (probe f (suc fuel) vec namespace limit fetch s
                  ≡ probe f fuel vec namespace limit (saturating_mul fetch 2) s))
    probe_round fuel fetch v quiet positive =
        let (results, runs, n, stored, all) =
          search_ids f laws vec fetch s.vector_index v.index_valid positive in
        let rows = selected_rows (map (λ h. h.0) results) namespace s.memories in
        let reads = fetch_rows_lem (map (λ h. h.0) results) namespace s quiet in
        elim (Bool-cases (stops limit fetch rows results)) [
          | inl stop ↦ inl (
            (rows, results),
            probe_done fuel vec namespace limit fetch s results rows runs reads stop,
            record {
              rows_selected = refl;
              ids_stored = stored;
              rows_enough = elim (Bool-cases (leb limit (length rows))) [
                | inl h ↦ inl (leb→le limit (length rows) h)
                | inr h ↦ inr (all (omega (arith, n, ltb→lt (length results) fetch (rw h at stop))))
              ];
            },
          )
          | inr go ↦ inr (
            ground (arith, n),
            probe_again fuel vec namespace limit fetch s results rows runs reads go,
          )
        ]

    -- The fuel is enough when it and the width of the first round exceed the size of the index.
    pub probe-Found :
        (fuel fetch : ℕ)
        → Mirrors f s
        → s.faults ≡ []
        → length s.vector_index.ids < usize_max
        → 0 < fetch
        → length s.vector_index.ids < fetch + fuel
        → Succeeds fuel fetch
    probe-Found zero fetch v quiet small positive enough =
        elim (probe_round zero fetch v quiet positive) [
          | inl done ↦ done
          | inr (wide, e) ↦ absurd (omega arith)
        ]
    probe-Found (suc fuel) fetch v quiet small positive enough =
        elim (probe_round (suc fuel) fetch v quiet positive) [
          | inl done ↦ done
          | inr (wide, e) ↦
              rw e (
                probe-Found fuel (saturating_mul fetch 2) v quiet small (omega arith) (omega arith))
        ]
