-- ===== src/Embedders.antt =====
-- crates/embedders/src/: what a text becomes a vector by. `post` is the HTTP client with the decoding
-- of the body, which is none where a request cannot be sent.
pub mod Ollama
pub mod Openai
pub mod Noop
pub mod Sized
pub mod Order
use merkur_db.Base.Text.{Text}
use merkur_db.Base.{ℕ, suc, zero, List, [], ◌∷◌, Option, none, some, length, if◌then◌else◌}
use merkur_db.Core.Http.{HttpResponse}
use merkur_db.Core.Types.{MerkurError, embedding, MerkurResult, ok, err}

-- The input of a request: the JSON string of the probe or the JSON array of a batch.
pub data Input : Type 0 where
  single : Text → Input
  many : List Text → Input

pub record EmbedRequest : Type 0 where
  pub model : Text
  pub input : Input
  pub dimensions : Option ℕ

-- The message of the error is not modelled.
abbrev pub failed : {A : Type 0} → MerkurResult A
failed = err (embedding [])

-- The errors of sending, of the status and of the body.
unfoldable pub received : {A : Type 0} → Option (HttpResponse A) → MerkurResult A
received none = failed
received (some resp) =
    if resp.is_success then elim resp.json [ none ↦ failed | some a ↦ ok a ] else failed

-- `.first().map(|v| v.len()).filter(|&n| n > 0).ok_or_else(..)`
unfoldable pub probed_dim : {F : Type 0} → List (List F) → MerkurResult ℕ
probed_dim [] = failed
probed_dim ([] ∷ vecs) = failed
probed_dim ((x ∷ v) ∷ vecs) = ok (suc (length v))

-- `vecs.into_iter().next().ok_or_else(..)`
unfoldable pub first_of : {A : Type 0} → List A → MerkurResult A
first_of [] = failed
first_of (a ∷ rest) = ok a
