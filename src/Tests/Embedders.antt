-- ===== src/Tests/Embedders.antt =====
-- Runs of the embedders, with a service that answers two texts in the wrong order.
use mathlib.Core.List.Perm
use merkur_db.Base.Text.{codes}
use merkur_db.Base.{ℕ, ◌+◌, ◌≡◌, refl, true, List, [], ◌∷◌, Option, none, some, arith}
use merkur_db.Core.Http.{HttpRequest, HttpResponse}
use merkur_db.Core.Types.{ok}
use merkur_db.Embedders.Noop.{noop_embedder, noop_encode_batch}
use merkur_db.Embedders.Ollama.{OllamaEmbedder, ollama_new, ollama_embedder}
use merkur_db.Embedders.Openai.{EmbeddingData, OpenAiEmbedder, openai_encode_batch, openai_embedder}
use merkur_db.Embedders.Order.{openai_encode_batch-ordered}
use merkur_db.Embedders.Sized.{IsSized, IsBatch, embedders-IsSized}
use merkur_db.Embedders.{EmbedRequest}
use merkur_db.Tests.Numbers.{tenths}

abbrev swapped : List (EmbeddingData ℕ)
swapped = record { index = 1; embedding = 7 ∷ [] } ∷ record { index = 0; embedding = 5 ∷ [] } ∷ []

abbrev service : HttpRequest EmbedRequest → Option (HttpResponse (List (EmbeddingData ℕ)))
service request = some (record { is_success = true; json = some swapped })

abbrev ollama_service : HttpRequest EmbedRequest → Option (HttpResponse (List (List ℕ)))
ollama_service request = some (record { is_success = true; json = some ((1 ∷ 2 ∷ 3 ∷ []) ∷ []) })

abbrev client : OpenAiEmbedder
client = record {
  base_url = codes "https://api.example";
  api_key = codes "key";
  model = codes "small";
  dim = 1;
  requested_dim = none;
}

abbrev local : OllamaEmbedder
local = record { base_url = codes "http://localhost:11434"; model = codes "all-minilm"; dim = 3 }

-- The probe gives the dimension, and the base loses its slashes.
probed :
    ollama_new ollama_service (codes "http://localhost:11434//") (codes "all-minilm") ≡ ok local
unfolding ollama_new
probed = refl

openai_encode_batch-ordered_example :
    openai_encode_batch service client (codes "a" ∷ codes "b" ∷ []) ≡ ok ((5 ∷ []) ∷ (7 ∷ []) ∷ [])
openai_encode_batch-ordered_example =
    openai_encode_batch-ordered (hlevel) service client (codes "a" ∷ codes "b" ∷ []) swapped
      ((5 ∷ []) ∷ (7 ∷ []) ∷ []) (omega arith) refl (Perm.swap _ _ []) refl

abbrev generator : List ℕ → ℕ → ℕ
generator t i = i + 10

embedders-IsSized_example :
    IsSized (ollama_embedder ollama_service local)
    × IsSized (openai_embedder service client)
    × IsSized (noop_embedder tenths generator 3)
    × ((texts : List (List ℕ))
        → IsBatch tenths generator 3 texts (noop_encode_batch tenths generator 3 texts))
embedders-IsSized_example = embedders-IsSized tenths generator 3 ollama_service local service client
