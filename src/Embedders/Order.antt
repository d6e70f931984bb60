-- ===== src/Embedders/Order.antt =====
-- The order of the vectors that OpenAIEmbedder of crates/embedders/src/openai.rs answers with.
use mathlib.Core.List.Perm
use mathlib.Core.List.{Perm, mem-cons_self, eq-or-mem_of_mem-cons}
use mathlib.Core.Logic.Or
use mathlib.Core.Path.{ap₂}
use merkur_db.Base.Sort.{sort_by, IsSorted, sort_by-IsSorted, sort_by-perm, All-mem, length-sort_by}
use merkur_db.Base.Text.{Text}
use merkur_db.Base.{
  ℕ, suc, ◌≡◌, ◌≤◌, refl, sym, ap, ◌∙◌, Bool, true, false, List, [], ◌∷◌, Option, some, map, length,
  ltb, ◌==◌, arith, All,
}
use merkur_db.Core.Http.{HttpRequest, HttpResponse}
use merkur_db.Core.Types.{ok}
use merkur_db.Embedders.{many, EmbedRequest, received}
use merkur_db.Embedders.Openai.{
  EmbeddingData, OpenAiEmbedder, openai_embed, by_index, vector, in_order, openai_encode_batch,
}

-- Vectors with their positions from `i` on.
abbrev pub labelled : {F : Type 0} → ℕ → List (List F) → List (EmbeddingData F)
labelled i [] = []
labelled i (v ∷ vecs) = record { index = i; embedding = v } ∷ labelled (suc i) vecs

-- The test that a datum stands at a later position.
abbrev is_after : {F : Type 0} → EmbeddingData F → EmbeddingData F → Bool
is_after a b = ltb a.index b.index

module _ {F : Type 0} where
  labelled-after :
      (d : EmbeddingData F) (j : ℕ) (vecs : List (List F))
      → suc d.index ≤ j
      → All (λ x. is_after d x ≡ true) (labelled j vecs)
  labelled-after d j [] l = tt
  labelled-after d j (v ∷ vecs) l =
      (ground (arith, l), labelled-after d (suc j) vecs (omega (arith, l)))

  map-labelled : (i : ℕ) (vecs : List (List F)) → map vector (labelled i vecs) ≡ vecs
  map-labelled i [] = refl
  map-labelled i (v ∷ vecs) = ap (◌∷◌ v) (map-labelled (suc i) vecs)

  length-labelled : (i : ℕ) (vecs : List (List F)) → length (labelled i vecs) ≡ length vecs
  length-labelled i [] = refl
  length-labelled i (v ∷ vecs) = ap suc (length-labelled (suc i) vecs)

  module _ (st : IsSet F) where
    data-set : IsSet (EmbeddingData F)
    data-set = hlevel st

    -- The first of a sorted list is the first of the labelled one whose elements it has.
    heads_agree :
        (i : ℕ) (d : EmbeddingData F) (items : List (EmbeddingData F)) (v : List F)
        (vecs : List (List F))
        → IsSorted by_index (d ∷ items)
        → Perm (d ∷ items) (labelled i (v ∷ vecs))
        → d ≡ record { index = i; embedding = v }
    heads_agree i d items v vecs s p =
        let first : EmbeddingData F = record { index = i; embedding = v } in
        let ds : IsSet (EmbeddingData F) = data-set in
        Or.elim (ds d first) (eq-or-mem_of_mem-cons ((Perm.mem_iff p).0 mem-cons_self)) (λ e. e)
          (λ m.
            Or.elim (ds d first) (eq-or-mem_of_mem-cons ((Perm.mem_iff p).1 mem-cons_self)) sym
              (λ k.
                let later =
                  All-mem is_after first d (labelled (suc i) vecs) ds
                    (labelled-after first (suc i) vecs (omega arith)) m in
                let sooner = All-mem by_index d first items ds s.0 k in
                absurd (ground (arith, later, sooner))))

    -- A sorted list is the labelled one whose elements it has.
    sorted-labelled :
        (i : ℕ) (items : List (EmbeddingData F)) (vecs : List (List F))
        → IsSorted by_index items
        → Perm items (labelled i vecs)
        → items ≡ labelled i vecs
    sorted-labelled i [] [] s p = refl
    sorted-labelled i [] (v ∷ vecs) s p = Perm.nil-eq p
    sorted-labelled i (d ∷ items) [] s p = Perm.eq-nil p
    sorted-labelled i (d ∷ items) (v ∷ vecs) s p =
        let heads = heads_agree i d items v vecs s p in
        let tails = Perm.cons_inv (Perm.trans p (Perm.symm (Perm.cons' heads Perm.rfl))) in
        ap₂ ◌∷◌ heads (sorted-labelled (suc i) items vecs s.1 tails)

    by_index-IsSorted :
        (items : List (EmbeddingData F)) → IsSorted by_index (sort_by by_index items)
    by_index-IsSorted items =
        sort_by-IsSorted by_index (λ a b c h k. ground (arith, h, k)) (λ a b h. ground (arith, h))
          items

    sort-labelled :
        (items : List (EmbeddingData F)) (vecs : List (List F))
        → Perm items (labelled 0 vecs)
        → sort_by by_index items ≡ labelled 0 vecs
    sort-labelled items vecs p =
        sorted-labelled 0 (sort_by by_index items) vecs (by_index-IsSorted items)
          (Perm.trans (sort_by-perm by_index items) p)

    in_order-labelled :
        (texts : List Text) (items : List (EmbeddingData F)) (vecs : List (List F))
        → length vecs ≡ length texts
        → Perm items (labelled 0 vecs)
        → in_order texts items ≡ ok vecs
    unfolding in_order
    in_order-labelled texts items vecs n p =
        let same = sort-labelled items vecs p in
        let count : length items ≡ length texts =
          sym (length-sort_by by_index items) ∙ ap length same ∙ length-labelled 0 vecs ∙ n in
        let test : (length items == length texts) ≡ true = ground (arith, count) in
        rw (test, same, map-labelled 0 vecs) refl

    -- A service that answers a batch of at most 512 texts with one vector for each text, each under the
    -- position of its text, may send them in any order: the vectors are returned in the order of the
    -- texts.
    pub openai_encode_batch-ordered :
        (post : HttpRequest EmbedRequest → Option (HttpResponse (List (EmbeddingData F))))
        (e : OpenAiEmbedder) (texts : List Text) (items : List (EmbeddingData F))
        (vecs : List (List F))
        → length texts ≤ 512
        → length vecs ≡ length texts
        → Perm items (labelled 0 vecs)
        → post (openai_embed e.base_url e.api_key e.model e.requested_dim (many texts))
          ≡ some (record { is_success = true; json = some items })
        → openai_encode_batch post e texts ≡ ok vecs
    unfolding openai_encode_batch received
    openai_encode_batch-ordered post e [] items [] l n p h = refl
    openai_encode_batch-ordered post e [] items (v ∷ vecs) l n p h = absurd (ground (arith, n))
    openai_encode_batch-ordered post e (t ∷ texts) items vecs l n p h =
        let small : ltb 512 (length (t ∷ texts)) ≡ false = ground (arith, l) in
        rw (small, h) (in_order-labelled (t ∷ texts) items vecs n p)
