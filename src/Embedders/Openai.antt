-- ===== src/Embedders/Openai.antt =====
-- crates/embedders/src/openai.rs: OpenAIEmbedder.
use merkur_db.Base.Sort.{sort_by}
use merkur_db.Base.Text.{Text, codes}
use merkur_db.Base.{
  ℕ, Bool, List, [], ◌∷◌, ◌++◌, Option, some, map, length, leb, ltb, ◌==◌, if◌then◌else◌,
}
use merkur_db.Core.Http.{HttpRequest, HttpResponse, then_, trim_slashes}
use merkur_db.Core.Storage.{Embedder}
use merkur_db.Core.Types.{MerkurResult, ok, err, bad_request}
use merkur_db.Embedders.{Input, single, many, EmbedRequest, failed, received, probed_dim, first_of}

pub record EmbeddingData (F : Type 0) : Type 0 where
  pub index : ℕ
  pub embedding : List F

pub record OpenAiEmbedder : Type 0 where
  pub base_url : Text
  pub api_key : Text
  pub model : Text
  pub dim : ℕ
  pub requested_dim : Option ℕ

abbrev pub openai_embed : Text → Text → Text → Option ℕ → Input → HttpRequest EmbedRequest
openai_embed base_url api_key model dimensions input = record {
  url = base_url ++ codes "/v1/embeddings";
  body = record { model = model; input = input; dimensions = dimensions };
  bearer = some api_key;
}

-- `const MAX_BATCH`
abbrev pub max_batch : ℕ
max_batch = 512

-- The test of `sort_by_key(|d| d.index)`.
abbrev pub by_index : {F : Type 0} → EmbeddingData F → EmbeddingData F → Bool
by_index a b = leb a.index b.index

abbrev pub vector : {F : Type 0} → EmbeddingData F → List F
vector d = d.embedding

-- The answer of a batch, put back in the order of the texts.
unfoldable pub in_order :
    {F : Type 0} → List Text → List (EmbeddingData F) → MerkurResult (List (List F))
unfolding sort_by
in_order texts items =
    if length items == length texts then ok (map vector (sort_by by_index items)) else failed

module _ {F : Type 0}
    (post : HttpRequest EmbedRequest → Option (HttpResponse (List (EmbeddingData F)))) where
  unfoldable pub new_with_dimensions : Text → Text → Text → Option ℕ → MerkurResult OpenAiEmbedder
  unfolding trim_slashes received probed_dim
  new_with_dimensions base_url api_key model dimensions =
      let base = trim_slashes base_url in
      then_ (received (post (openai_embed base api_key model dimensions (single (codes "probe")))))
        (λ items. then_ (probed_dim (map vector items)) (λ dim. ok (record {
          base_url = base;
          api_key = api_key;
          model = model;
          dim = dim;
          requested_dim = dimensions;
        })))

  unfoldable pub openai_encode_batch : OpenAiEmbedder → List Text → MerkurResult (List (List F))
  unfolding received in_order
  openai_encode_batch e [] = ok []
  openai_encode_batch e (t ∷ texts) =
      if ltb max_batch (length (t ∷ texts))
      then err (bad_request [])
      else then_
          (received
            (post (openai_embed e.base_url e.api_key e.model e.requested_dim (many (t ∷ texts)))))
          (in_order (t ∷ texts))

  unfoldable pub openai_encode : OpenAiEmbedder → Text → MerkurResult (List F)
  unfolding openai_encode_batch first_of
  openai_encode e text = then_ (openai_encode_batch e (text ∷ [])) first_of

  unfoldable pub openai_embedder : OpenAiEmbedder → Embedder F
  unfolding openai_encode openai_encode_batch
  openai_embedder e = record {
    dim = e.dim;
    encode = openai_encode e;
    encode_batch = openai_encode_batch e;
  }
