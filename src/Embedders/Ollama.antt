-- ===== src/Embedders/Ollama.antt =====
-- crates/embedders/src/ollama.rs: OllamaEmbedder.
use merkur_db.Base.Text.{Text, codes}
use merkur_db.Base.{ℕ, List, [], ◌∷◌, ◌++◌, Option, none, length, ◌==◌, if◌then◌else◌}
use merkur_db.Core.Http.{HttpRequest, HttpResponse, then_, trim_slashes}
use merkur_db.Core.Storage.{Embedder}
use merkur_db.Core.Types.{MerkurResult, ok}
use merkur_db.Embedders.{Input, single, many, EmbedRequest, failed, received, probed_dim, first_of}

pub record OllamaEmbedder : Type 0 where
  pub base_url : Text
  pub model : Text
  pub dim : ℕ

abbrev pub ollama_path : Text
ollama_path = codes "/api/embed"

abbrev pub ollama_embed : Text → Text → Input → HttpRequest EmbedRequest
ollama_embed base_url model input = record {
  url = base_url ++ ollama_path;
  body = record { model = model; input = input; dimensions = none };
  bearer = none;
}

-- The answer of a batch, which has a vector for each text.
unfoldable pub embeddings_for :
    {F : Type 0} → List Text → List (List F) → MerkurResult (List (List F))
embeddings_for texts embeddings =
    if length embeddings == length texts then ok embeddings else failed

module _ {F : Type 0}
    (post : HttpRequest EmbedRequest → Option (HttpResponse (List (List F)))) where
  unfoldable pub ollama_new : Text → Text → MerkurResult OllamaEmbedder
  unfolding trim_slashes received probed_dim
  ollama_new base_url model =
      let base = trim_slashes base_url in
      then_ (received (post (ollama_embed base model (single (codes "probe"))))) (λ embeddings.
        then_ (probed_dim embeddings)
          (λ dim. ok (record { base_url = base; model = model; dim = dim })))

  unfoldable pub ollama_encode_batch : OllamaEmbedder → List Text → MerkurResult (List (List F))
  unfolding received embeddings_for
  ollama_encode_batch e [] = ok []
  ollama_encode_batch e (t ∷ texts) =
      then_ (received (post (ollama_embed e.base_url e.model (many (t ∷ texts)))))
        (embeddings_for (t ∷ texts))

  unfoldable pub ollama_encode : OllamaEmbedder → Text → MerkurResult (List F)
  unfolding ollama_encode_batch first_of
  ollama_encode e text = then_ (ollama_encode_batch e (text ∷ [])) first_of

  unfoldable pub ollama_embedder : OllamaEmbedder → Embedder F
  unfolding ollama_encode ollama_encode_batch
  ollama_embedder e = record {
    dim = e.dim;
    encode = ollama_encode e;
    encode_batch = ollama_encode_batch e;
  }
