-- ===== src/VectorIndex/Complete.antt =====
-- Which ids InMemoryVectorIndex::search of crates/storage/src/vector_index.rs returns.
use mathlib.Core.List.Perm
use mathlib.Core.List.{Perm, foldr}
use merkur_db.Base.Sort.{any-perm}
use merkur_db.Base.Text.{Text, text_eq}
use merkur_db.Base.{
  ℕ, zero, suc, ◌+◌, ◌<◌, ◌≤◌, ◌≡◌, refl, sym, ap, ◌∙◌, Bool, true, List, [], ◌∷◌, some, arith,
  ◌==◌, any, length, take, get_elem?, lt_of_get_elem?, Bool-cases, inl, inr, Option-cases, min,
}
use merkur_db.Core.Float.{Float, FloatLaws}
use merkur_db.VectorIndex.Invariant.{IsValid}
use merkur_db.VectorIndex.TopK.{scored_from, scored, search-IsTopK, take_all, length-scored_from}
use merkur_db.VectorIndex.{Inner, l2_norm, name_all, search}

count_one {ℓ} : {A : Type ℓ} → A → ℕ → ℕ
count_one a n = suc n

length-foldr {ℓ} : {A : Type ℓ} (xs : List A) → foldr count_one 0 xs ≡ length xs
unfolding count_one
length-foldr [] = refl
length-foldr (x ∷ xs) = ap suc (length-foldr xs)

length-perm {ℓ} : {A : Type ℓ} {xs ys : List A} → Perm xs ys → length xs ≡ length ys
unfolding count_one
length-perm {A = A} {xs} {ys} p =
    let swap : (a b : A) (n : ℕ) → count_one a (count_one b n) ≡ count_one b (count_one a n) =
      λ a b n. refl in
    let nat : IsSet ℕ = hlevel in
    sym (length-foldr xs) ∙ Perm.foldr-eq nat count_one swap p 0 ∙ length-foldr ys

module _ {ℓ} {A : Type ℓ} (p : A → Bool) where
  pub any_get :
      (xs : List A) (i : ℕ) (x : A) → get_elem? xs i ≡ some x → p x ≡ true → any p xs ≡ true
  any_get [] i x e h = absurd (ground arith)
  any_get (y ∷ ys) zero x e h = ground arith
  any_get (y ∷ ys) (suc i) x e h = ground (arith, any_get ys i x e h)

  pub get_any :
      (xs : List A)
      → any p xs ≡ true
      → (i : ℕ) × ((x : A) × (get_elem? xs i ≡ some x) × (p x ≡ true))
  get_any [] h = absurd (ground arith)
  get_any (y ∷ ys) h = elim (Bool-cases (p y)) [
    | inl e ↦ (zero, (y, refl, e))
    | inr e ↦ let (i, found) = get_any ys (rw e at h) in (suc i, found)
  ]

module _ {F : Type 0} where
  abbrev pub names : Text → List (Text × F) → Bool
  names q = any λ h. text_eq q h.0

  named_ids :
      (q : Text) (ids : List Text) (ps : List (F × ℕ)) (named : List (Text × F))
      → name_all ids ps ≡ some named
      → names q named ≡ true
      → any (text_eq q) ids ≡ true
  unfolding name_all
  named_ids q ids [] named e h = absurd (ground arith)
  named_ids q ids ((score, i) ∷ ps) named e h = elim (Option-cases (get_elem? ids i)) [
    | inl a ↦ absurd (ground arith)
    | inr (id, a) ↦ elim (Option-cases (name_all ids ps)) [
      | inl b ↦ absurd (ground arith)
      | inr (rest, b) ↦ ground (arith, named_ids q ids ps rest b, any_get (text_eq q) ids i id a)
    ]
  ]

  ids_named :
      (q : Text) (i : ℕ) (ids : List Text) (ps : List (F × ℕ)) (named : List (Text × F)) (x : Text)
      → name_all ids ps ≡ some named
      → get_elem? ids i ≡ some x
      → text_eq q x ≡ true
      → any (λ (p : F × ℕ). p.1 == i) ps ≡ true
      → names q named ≡ true
  unfolding name_all
  ids_named q i ids [] named x e at same h = absurd (ground arith)
  ids_named q i ids ((score, j) ∷ ps) named x e at same h = elim (Option-cases (get_elem? ids j)) [
    | inl a ↦ absurd (ground arith)
    | inr (id, a) ↦ elim (Option-cases (name_all ids ps)) [
      | inl b ↦ absurd (ground arith)
      | inr (rest, b) ↦ ground (arith, ids_named q i ids ps rest x b at same)
    ]
  ]

module _ {F : Type 0} (f : Float F) where
  scored_all :
      (query : List F) (query_norm : F) (i j : ℕ) (vectors : List (List F)) (norms : List F)
      → length vectors ≡ length norms
      → i ≤ j
      → j < i + length vectors
      → any (λ (p : F × ℕ). p.1 == j) (scored_from f query query_norm i vectors norms) ≡ true
  unfolding scored_from
  scored_all query query_norm i j [] norms h k l = absurd (omega arith)
  scored_all query query_norm i j (vec ∷ vectors) [] h k l = absurd (omega arith)
  scored_all query query_norm i j (vec ∷ vectors) (norm ∷ norms) h k l =
      ground (arith, scored_all query query_norm (suc i) j vectors norms)

  module _ (laws : FloatLaws f) where
    -- On a valid index and a positive limit, `search` does not panic, returns as many ids as there
    -- are up to the limit, all of them stored, and every stored id once the limit exceeds their
    -- number.
    pub search_ids :
        (query : List F) (limit : ℕ) (s : Inner F)
        → IsValid f s
        → 0 < limit
        → (results : List (Text × F)) × (search f query limit s ≡ some results)
          × (length results ≡ min limit (length s.ids))
          × ((q : Text) → names q results ≡ true → any (text_eq q) s.ids ≡ true)
          × (length s.ids < limit
              → (q : Text) → any (text_eq q) s.ids ≡ true
              → names q results ≡ true)
    unfolding scored
    search_ids query limit s v positive =
        let (ranked, sorted, perm, found) = search-IsTopK f laws query limit s v positive in
        let (named, results, e, runs, same, best, n) = found in
        let step : length s.vectors ≡ length s.norms =
          omega (arith, v.vectors_in_step, v.norms_in_step) in
        (
          results,
          runs,
          n,
          λ q h.
              named_ids q s.ids (take limit ranked) named e
                (any-perm (λ h. text_eq q h.0) results named same h),
          λ below q h.
              let (i, (x, at, eq)) = get_any (text_eq q) s.ids h in
              any-perm (λ h. text_eq q h.0) named results (Perm.symm same)
                (ids_named q i s.ids (take limit ranked) named x e at eq (
                  rw (take_all ranked limit (omega (arith, few ranked perm))) (
                    any-perm (λ (p : F × ℕ). p.1 == i) (scored f query s) ranked (Perm.symm perm)
                      (scored_all query _ 0 i s.vectors s.norms step (omega arith)
                        (omega (arith, v.vectors_in_step, lt_of_get_elem? s.ids i x at)))))),
        )
      where
        few :
            (ranked : List (F × ℕ)) → Perm ranked (scored f query s) → length ranked ≡ length s.ids
        few ranked perm = omega (
          arith,
          length-perm perm,
          length-scored_from f query (l2_norm f query) 0 s.vectors s.norms
              (omega (arith, v.vectors_in_step, v.norms_in_step)),
          v.vectors_in_step,
        )
