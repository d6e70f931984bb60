-- ===== src/Embedders/Sized.antt =====
-- How many vectors the embedders of crates/embedders/src/ answer with, and how long they are.
use merkur_db.Base.Sort.{sort_by, length-sort_by}
use merkur_db.Base.Text.{Text}
use merkur_db.Base.{
  ℕ, zero, suc, ◌≡◌, refl, ap, ◌∙◌, inl, inr, Bool-cases, List, [], ◌∷◌, Option, length, length-map,
  ◌==◌, arith, All, ltb,
}
use merkur_db.Core.Float.{Float}
use merkur_db.Core.Http.{HttpRequest, HttpResponse, then_}
use merkur_db.Core.Storage.{Embedder}
use merkur_db.Core.Types.{MerkurResult, ok, err}
use merkur_db.Embedders.{EmbedRequest, received}
use merkur_db.Embedders.Noop.{
  numbers, squares, zeros, fallback, normalized, make_vector, noop_encode_batch, noop_embedder,
}
use merkur_db.Embedders.Ollama.{
  OllamaEmbedder, embeddings_for, ollama_encode_batch, ollama_embedder,
}
use merkur_db.Embedders.Openai.{
  EmbeddingData, OpenAiEmbedder, by_index, vector, in_order, openai_encode_batch, openai_embedder,
}

-- An answer with one vector for each text, or an error.
abbrev pub OnePerText : {F : Type 0} → List Text → MerkurResult (List (List F)) → Type 0
OnePerText texts (ok vecs) = length vecs ≡ length texts
OnePerText texts (err e) = Unit

abbrev pub IsSized : {F : Type 0} → Embedder F → Type 0
IsSized e = (texts : List Text) → OnePerText texts (e.encode_batch texts)

module _ {F : Type 0} where
  then_-OnePerText :
      {A : Type 0} (texts : List Text) (k : A → MerkurResult (List (List F)))
      → ((a : A) → OnePerText texts (k a))
      → (r : MerkurResult A) → OnePerText texts (then_ r k)
  then_-OnePerText texts k h (ok a) = h a
  then_-OnePerText texts k h (err e) = tt

  embeddings_for-OnePerText :
      (texts : List Text) (vecs : List (List F)) → OnePerText texts (embeddings_for texts vecs)
  unfolding embeddings_for
  embeddings_for-OnePerText texts vecs = elim (Bool-cases (length vecs == length texts)) [
    | inl h ↦ rw h (ground (arith, h))
    | inr h ↦ rw h tt
  ]

  in_order-OnePerText :
      (texts : List Text) (items : List (EmbeddingData F)) → OnePerText texts (in_order texts items)
  unfolding in_order
  in_order-OnePerText texts items = elim (Bool-cases (length items == length texts)) [
    | inl h ↦ rw h (
        ground
          (arith, h, length-map vector (sort_by by_index items), length-sort_by by_index items))
    | inr h ↦ rw h tt
  ]

  module _ (f : Float F) (seed : Text → ℕ → F) (dim : ℕ) where
    length-numbers : (gen : ℕ → F) (i n : ℕ) → length (numbers f gen i n) ≡ n
    unfolding numbers
    length-numbers gen i zero = refl
    length-numbers gen i (suc n) = ap suc (length-numbers gen (suc i) n)

    length-fallback : (n : ℕ) → length (fallback f n) ≡ n
    unfolding fallback zeros
    length-fallback zero = refl
    length-fallback (suc n) = ap suc (length-zeros n)
      where
        length-zeros : (n : ℕ) → length (zeros f n) ≡ n
        length-zeros zero = refl
        length-zeros (suc n) = ap suc (length-zeros n)

    length-normalized : (vec : List F) → length vec ≡ dim → length (normalized f dim vec) ≡ dim
    unfolding normalized
    length-normalized vec e =
        elim (Bool-cases (f.lt (f.of_nat 0) (f.sqrt (squares f (f.of_nat 0) vec)))) [
          | inl h ↦ rw h (length-map (λ x. f.div x (f.sqrt (squares f (f.of_nat 0) vec))) vec ∙ e)
          | inr h ↦ rw h (length-fallback dim)
        ]

    -- A batch of vectors of the dimension.
    abbrev pub IsBatch : List Text → MerkurResult (List (List F)) → Type 0
    IsBatch texts (ok vecs) = (length vecs ≡ length texts) × All (λ v. length v ≡ dim) vecs
    IsBatch texts (err e) = dim ≡ 0

    noop_encode_batch-IsBatch :
        (texts : List Text) → IsBatch texts (noop_encode_batch f seed dim texts)
    unfolding noop_encode_batch make_vector
    noop_encode_batch-IsBatch [] = (refl, tt)
    noop_encode_batch-IsBatch (t ∷ texts) = elim (Bool-cases (dim == 0)) [
      | inl h ↦ rw h (ground (arith, h))
      | inr h ↦
          rw h (extended (noop_encode_batch f seed dim texts) (noop_encode_batch-IsBatch texts))
    ]
      where
        extended :
            (r : MerkurResult (List (List F)))
            → IsBatch texts r
            → IsBatch
                (t ∷ texts)
                (then_ r (λ vecs. ok (normalized f dim (numbers f (seed t) 0 dim) ∷ vecs)))
        extended (ok vecs) (n, all) = (
          ap suc n,
          (length-normalized (numbers f (seed t) 0 dim) (length-numbers (seed t) 0 dim), all),
        )
        extended (err e) z = z

    IsBatch-OnePerText :
        (texts : List Text) (r : MerkurResult (List (List F)))
        → IsBatch texts r
        → OnePerText texts r
    IsBatch-OnePerText texts (ok vecs) b = b.0
    IsBatch-OnePerText texts (err e) b = tt

-- Whatever the services answer, each of the three embedders answers a batch with one vector for
-- each text, or with an error; the vectors of NoopEmbedder have its dimension, and it fails only if
-- that is zero.
pub embedders-IsSized :
    {F : Type 0} (f : Float F) (seed : Text → ℕ → F) (dim : ℕ)
    (post : HttpRequest EmbedRequest → Option (HttpResponse (List (List F)))) (o : OllamaEmbedder)
    (call : HttpRequest EmbedRequest → Option (HttpResponse (List (EmbeddingData F))))
    (a : OpenAiEmbedder)
    → IsSized (ollama_embedder post o)
      × IsSized (openai_embedder call a)
      × IsSized (noop_embedder f seed dim)
      × ((texts : List Text) → IsBatch f seed dim texts (noop_encode_batch f seed dim texts))
unfolding ollama_embedder ollama_encode_batch openai_embedder openai_encode_batch noop_embedder
embedders-IsSized f seed dim post o call a = (
  by_ollama,
  by_openai,
  λ texts. IsBatch-OnePerText f seed dim texts _ (noop_encode_batch-IsBatch f seed dim texts),
  noop_encode_batch-IsBatch f seed dim,
)
  where
    by_ollama : IsSized (ollama_embedder post o)
    by_ollama [] = refl
    by_ollama (t ∷ texts) =
        then_-OnePerText (t ∷ texts) (embeddings_for (t ∷ texts))
          (embeddings_for-OnePerText (t ∷ texts)) (received _)

    by_openai : IsSized (openai_embedder call a)
    by_openai [] = refl
    by_openai (t ∷ texts) = elim (Bool-cases (ltb 512 (length (t ∷ texts)))) [
      | inl h ↦ rw h tt
      | inr h ↦ rw h (
          then_-OnePerText (t ∷ texts) (in_order (t ∷ texts)) (in_order-OnePerText (t ∷ texts))
            (received _))
    ]
