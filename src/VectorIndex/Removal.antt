-- ===== src/VectorIndex/Removal.antt =====
-- Inner::remove of crates/storage/src/vector_index.rs: the swap with the last slot.
use merkur_db.Base.Text.{Text, text_eq}
use merkur_db.Base.{
  ℕ, suc, ◌-◌, ◌<◌, ◌≡◌, ap, ◌∙◌, inl, inr, List, none, some, arith, ltb, ◌==◌, if◌then◌else◌,
  length, get_elem?, lt_of_get_elem?, get_elem?_lt, dec_lt, Bool, false, sym, Option-cases,
}
use merkur_db.Core.Float.{Float}
use merkur_db.VectorIndex.Slots.{length-pop, get_elem?-pop, swap?-pop}
use merkur_db.VectorIndex.{Inner, swap_last, drop_last, swap?, remove, vector_of, put, erase, pop}
use merkur_db.VectorIndex.Invariant.{IsValid, Stores, without_vector}

module _ {F : Type 0} (f : Float F) where
  -- The state after the removal of slot `idx` out of `last + 1`: each part is given by what can be
  -- read from it.
  -- Whether the last slot holds the id.
  abbrev holds_last : Inner F → ℕ → Text → Bool
  holds_last s last q = elim (get_elem? s.ids last) [ none ↦ false | some k ↦ text_eq q k ]

  removed-IsValid :
      (id : Text) (s t : Inner F) (idx last : ℕ)
      → IsValid f s
      → s.index_of id ≡ some idx
      → suc last ≡ length s.ids
      → length t.ids ≡ last
      → length t.vectors ≡ last
      → length t.norms ≡ last
      → ((j : ℕ)
          → get_elem? t.ids j ≡ (
              if ltb j last
              then (if j == idx then get_elem? s.ids last else get_elem? s.ids j)
              else none))
      → ((j : ℕ)
          → get_elem? t.vectors j ≡ (
              if ltb j last
              then (if j == idx then get_elem? s.vectors last else get_elem? s.vectors j)
              else none))
      → ((j : ℕ)
          → get_elem? t.norms j ≡ (
              if ltb j last
              then (if j == idx then get_elem? s.norms last else get_elem? s.norms j)
              else none))
      → ((q : Text)
          → t.index_of q ≡ (
              if text_eq q id
              then none
              else if holds_last s last q
              then some idx
              else s.index_of q))
      → IsValid f t × ((q : Text) → vector_of t q ≡ without_vector f s id q)
  unfolding vector_of
  removed-IsValid id s t idx last v here e li lv ln ri rv rn rm = (
    record {
      vectors_in_step = lv ∙ sym li;
      norms_in_step = ln ∙ sym li;
      position_sound = sound;
      position_complete = complete;
      norms_match = λ i w h. ground (arith, rv i, rn i, v.norms_match i w, v.norms_match last w);
    },
    content,
  )
    where
      placed : get_elem? s.ids idx ≡ some id
      placed = v.position_sound id idx here

      sound : (k : Text) (i : ℕ) → t.index_of k ≡ some i → get_elem? t.ids i ≡ some k
      sound k i h = ground (
        arith,
        rm k,
        ri i,
        ri idx,
        v.position_sound k i,
        v.position_complete k last,
        placed,
        lt_of_get_elem? s.ids i k,
        lt_of_get_elem? s.ids idx id,
      )

      complete : (k : Text) (i : ℕ) → get_elem? t.ids i ≡ some k → t.index_of k ≡ some i
      complete k i h =
          ground (arith, rm k, ri i, v.position_complete k i, v.position_complete k last, here)

      content : (q : Text) → vector_of t q ≡ without_vector f s id q
      content q = elim (Option-cases (s.index_of q)) [
        | inl absent ↦ ground (arith, rm q, v.position_complete q last)
        | inr (i, at) ↦ ground (
          arith,
          rm q,
          rv i,
          rv idx,
          v.position_complete q last,
          v.position_sound q i,
          lt_of_get_elem? s.ids i q,
          placed,
          v.position_complete q idx,
          lt_of_get_elem? s.ids idx id,
        )
      ]

  remove_last :
      (id : Text) (s : Inner F) (last : ℕ)
      → IsValid f s
      → s.index_of id ≡ some last
      → suc last ≡ length s.ids
      → Stores f (remove id s) (without_vector f s id)
  unfolding remove drop_last
  remove_last id s last v here e =
      let placed = v.position_sound id last here in
      let t = drop_last (record s { index_of = erase id s.index_of }) in
      let (valid, content) =
        removed-IsValid id s t last last v here e (omega (arith, length-pop s.ids))
          (omega (arith, length-pop s.vectors, v.vectors_in_step))
          (omega (arith, length-pop s.norms, v.norms_in_step))
          (λ j. ground (arith, get_elem?-pop s.ids j))
          (λ j. ground (arith, get_elem?-pop s.vectors j, v.vectors_in_step))
          (λ j. ground (arith, get_elem?-pop s.norms j, v.norms_in_step)) (λ q. ground arith) in
      (t, rw (here, remove) (ground arith), valid, content)

  remove_steps :
      (id moved : Text) (s : Inner F) (idx last : ℕ) (ids : List Text) (vectors : List (List F))
      (norms : List F)
      → s.index_of id ≡ some idx
      → suc last ≡ length s.ids
      → idx < last
      → swap? s.ids idx last ≡ some ids
      → swap? s.vectors idx last ≡ some vectors
      → swap? s.norms idx last ≡ some norms
      → get_elem? ids idx ≡ some moved
      → remove id s
        ≡ some (record {
          ids = pop ids;
          vectors = pop vectors;
          norms = pop norms;
          index_of = put moved idx (erase id s.index_of);
        })
  unfolding remove swap_last drop_last
  remove_steps id moved s idx last ids vectors norms here e lt ei ev en em =
      let back : length s.ids - 1 ≡ last = omega arith in rw (here, remove) (ground arith)

  remove_inner :
      (id : Text) (s : Inner F) (idx last : ℕ)
      → IsValid f s
      → s.index_of id ≡ some idx
      → suc last ≡ length s.ids
      → idx < last
      → Stores f (remove id s) (without_vector f s id)
  unfolding remove swap_last drop_last
  remove_inner id s idx last v here e lt =
      let placed = v.position_sound id idx here in
      let (moved, em) = get_elem?_lt s.ids last (omega arith) in
      let at_last = v.position_complete moved last em in
      let (ids, ei, li, ti, ri) = swap?-pop s.ids idx last lt e in
      let (vectors, ev, lv, tv, rv) = swap?-pop s.vectors idx last lt (e ∙ sym v.vectors_in_step) in
      let (norms, en, ln, tn, rn) = swap?-pop s.norms idx last lt (e ∙ sym v.norms_in_step) in
      let t : Inner F = record {
        ids = pop ids;
        vectors = pop vectors;
        norms = pop norms;
        index_of = put moved idx (erase id s.index_of);
      } in
      let (valid, content) =
        removed-IsValid id s t idx last v here e (omega (arith, length-pop ids))
          (omega (arith, length-pop vectors, v.vectors_in_step))
          (omega (arith, length-pop norms, v.norms_in_step)) (λ j. ground (arith, ri j))
          (λ j. ground (arith, rv j)) (λ j. ground (arith, rn j)) (λ q. ground (arith, placed)) in
      (
        t,
        remove_steps id moved s idx last ids vectors norms here e lt ei ev en (ti ∙ em),
        valid,
        content,
      )

  -- On a valid index `remove` does not panic, keeps the index valid, and forgets the id's vector
  -- while every other id keeps its own.
  pub remove-Stores :
      (id : Text) (s : Inner F) → IsValid f s → Stores f (remove id s) (without_vector f s id)
  unfolding remove vector_of
  remove-Stores id s v = elim (Option-cases (s.index_of id)) [
    | inl absent ↦ (s, rw (absent, remove), v, λ q. ground arith)
    | inr (idx, here) ↦ found idx here
  ]
    where
      found : (idx : ℕ) → s.index_of id ≡ some idx → Stores f (remove id s) (without_vector f s id)
      found idx here =
          let below = lt_of_get_elem? s.ids idx id (v.position_sound id idx here) in
          let e : suc (length s.ids - 1) ≡ length s.ids = omega arith in
          elim (dec_lt idx (length s.ids - 1)) [
            | yes lt ↦ remove_inner id s idx (length s.ids - 1) v here e lt
            | no ge ↦
                let at : idx ≡ length s.ids - 1 = omega arith in
                remove_last id s (length s.ids - 1) v (here ∙ ap some at) e
          ]
