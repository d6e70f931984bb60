-- ===== src/VectorIndex/Invariant.antt =====
-- Inner::upsert and rebuild of crates/storage/src/vector_index.rs: the parallel vectors stay in
-- step, no operation panics, and the index is a finite map from ids to vectors.
use merkur_db.Base.Text.{Text, text_eq}
use merkur_db.Base.{
  ℕ, ◌≡◌, refl, ◌∙◌, inl, inr, List, [], ◌∷◌, ◌++◌, Option, none, some, arith, ◌==◌, if◌then◌else◌,
  length, get_elem?, lt_of_get_elem?, Option-cases,
}
use merkur_db.Core.Float.{Float}
use merkur_db.VectorIndex.Slots.{set?_lem, get_elem?-push, length-push}
use merkur_db.VectorIndex.{Inner, new, l2_norm, upsert, upsert_all, vector_of, put}

module _ {F : Type 0} (f : Float F) where
  -- The parallel vectors have one length, the map holds exactly the positions of the ids, and each
  -- norm is that of the vector beside it.
  pub record IsValid (s : Inner F) : Type 0 where
    pub vectors_in_step : length s.vectors ≡ length s.ids
    pub norms_in_step : length s.norms ≡ length s.ids
    pub position_sound : (k : Text) (i : ℕ) → s.index_of k ≡ some i → get_elem? s.ids i ≡ some k
    pub position_complete : (k : Text) (i : ℕ) → get_elem? s.ids i ≡ some k → s.index_of k ≡ some i
    pub norms_match :
        (i : ℕ) (v : List F)
        → get_elem? s.vectors i ≡ some v
        → get_elem? s.norms i ≡ some (l2_norm f v)

  pub new-IsValid : IsValid new
  unfolding new
  new-IsValid = record {
    vectors_in_step = refl;
    norms_in_step = refl;
    position_sound = λ k i h. absurd (ground arith);
    position_complete = λ k i h. absurd (ground arith);
    norms_match = λ i v h. absurd (ground arith);
  }

  -- What a successful step leaves: a valid index with a given content.
  abbrev pub Stores : Option (Inner F) → (Text → Option (List F)) → Type 0
  Stores r content =
      (t : Inner F) × (r ≡ some t) × IsValid t × ((q : Text) → vector_of t q ≡ content q)

  abbrev pub with_vector : Inner F → Text → List F → Text → Option (List F)
  with_vector s id vec q = if text_eq q id then some vec else vector_of s q

  abbrev pub without_vector : Inner F → Text → Text → Option (List F)
  without_vector s id q = if text_eq q id then none else vector_of s q

  upsert_new :
      (id : Text) (vec : List F) (s : Inner F)
      → IsValid s
      → s.index_of id ≡ none
      → Stores (upsert f id vec s) (with_vector s id vec)
  unfolding upsert vector_of
  upsert_new id vec s v fresh = (t, rw (fresh, upsert), valid, content)
    where
      t : Inner F
      t = record {
        ids = s.ids ++ id ∷ [];
        vectors = s.vectors ++ vec ∷ [];
        norms = s.norms ++ l2_norm f vec ∷ [];
        index_of = put id (length s.ids) s.index_of;
      }

      ids_read :
          (i : ℕ) → get_elem? t.ids i ≡ (if i == length s.ids then some id else get_elem? s.ids i)
      ids_read i = get_elem?-push s.ids id i

      valid : IsValid t
      valid = record {
        vectors_in_step =
            omega (arith, length-push s.vectors vec, length-push s.ids id, v.vectors_in_step);
        norms_in_step =
            omega
              (arith, length-push s.norms (l2_norm f vec), length-push s.ids id, v.norms_in_step);
        position_sound =
            λ k i h. ground (arith, ids_read i, v.position_sound k i, lt_of_get_elem? s.ids i k);
        position_complete =
            λ k i h. ground (arith, ids_read i, v.position_complete k i, lt_of_get_elem? s.ids i k);
        norms_match = λ i w h. ground (
          arith,
          get_elem?-push s.vectors vec i,
          get_elem?-push s.norms (l2_norm f vec) i,
          v.norms_match i w,
          v.vectors_in_step,
          v.norms_in_step,
        );
      }

      content : (q : Text) → vector_of t q ≡ with_vector s id vec q
      content q = elim (Option-cases (s.index_of q)) [
        | inl absent ↦
            ground (arith, get_elem?-push s.vectors vec (length s.ids), v.vectors_in_step)
        | inr (i, at) ↦ ground (
          arith,
          get_elem?-push s.vectors vec (length s.ids),
          get_elem?-push s.vectors vec i,
          v.vectors_in_step,
          v.position_sound q i,
          lt_of_get_elem? s.ids i q,
        )
      ]

  upsert_old :
      (id : Text) (vec : List F) (s : Inner F) (idx : ℕ)
      → IsValid s
      → s.index_of id ≡ some idx
      → Stores (upsert f id vec s) (with_vector s id vec)
  unfolding upsert vector_of
  upsert_old id vec s idx v at =
      let placed = v.position_sound id idx at in
      let below = lt_of_get_elem? s.ids idx id placed in
      let (vs, ev, lv, rv) = set?_lem s.vectors idx vec (omega (arith, v.vectors_in_step)) in
      let (ns, en, ln, rn) =
        set?_lem s.norms idx (l2_norm f vec) (omega (arith, v.norms_in_step)) in
      let t : Inner F = record s { vectors = vs; norms = ns } in
      (
        t,
        rw (at, upsert) (ground arith),
        record {
          vectors_in_step = lv ∙ v.vectors_in_step;
          norms_in_step = ln ∙ v.norms_in_step;
          position_sound = v.position_sound;
          position_complete = v.position_complete;
          norms_match = λ i w h. ground (arith, rv i, rn i, v.norms_match i w);
        },
        λ q. elim (Option-cases (s.index_of q)) [
          | inl absent ↦ ground arith
          | inr (i, here) ↦ ground (arith, rv i, v.position_sound q i)
        ],
      )

  -- On a valid index `upsert` does not panic, keeps the index valid, and stores the vector under
  -- the id while every other id keeps its own.
  pub upsert-Stores :
      (id : Text) (vec : List F) (s : Inner F)
      → IsValid s
      → Stores (upsert f id vec s) (with_vector s id vec)
  upsert-Stores id vec s v = elim (Option-cases (s.index_of id)) [
    | inl fresh ↦ upsert_new id vec s v fresh
    | inr (idx, at) ↦ upsert_old id vec s idx v at
  ]

  upsert_all-IsValid :
      (all : List (Text × List F)) (s : Inner F)
      → IsValid s
      → (t : Inner F) × (upsert_all f all s ≡ some t) × IsValid t
  unfolding upsert_all
  upsert_all-IsValid [] s v = (s, refl, v)
  upsert_all-IsValid ((id, vec) ∷ all) s v =
      let (t, e, w, content) = upsert-Stores id vec s v in
      rw (e, upsert_all) (upsert_all-IsValid all t w)
