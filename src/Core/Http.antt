-- ===== src/Core/Http.antt =====
-- What the clients of crates/consolidators/ and crates/embedders/ use of HTTP: requests with a body of
-- any type, and responses whose body may not decode.
use merkur_db.Base.Text.{Text}
use merkur_db.Base.{[], ◌∷◌, ◌==◌, Bool, Option, if◌then◌else◌}
use merkur_db.Core.Types.{MerkurResult, ok, err}

pub record HttpRequest (V : Type 0) : Type 0 where
  pub url : Text
  pub body : V
  pub bearer : Option Text

-- A response, whose body may not be JSON.
pub record HttpResponse (V : Type 0) : Type 0 where
  pub is_success : Bool
  pub json : Option V

-- `?`
abbrev pub then_ : {A B : Type 0} → MerkurResult A → (A → MerkurResult B) → MerkurResult B
then_ (ok a) k = k a
then_ (err e) k = err e

-- `trim_end_matches('/')`
unfoldable pub trim_slashes : Text → Text
trim_slashes [] = []
trim_slashes (c ∷ s) = elim (trim_slashes s) [
  | [] ↦ if c == 47 then [] else c ∷ []
  | x ∷ rest ↦ c ∷ x ∷ rest
]
