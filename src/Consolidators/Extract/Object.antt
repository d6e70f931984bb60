-- ===== src/Consolidators/Extract/Object.antt =====
-- extract_json_object of crates/consolidators/src/llm.rs finds the object in the prose around it.
use merkur_db.Base.Text.{Text}
use merkur_db.Base.{◌≡◌, false, [], ◌∷◌, ◌++◌, Option, any}
use merkur_db.Consolidators.Extract.{is_char}

abbrev object : Text → Text
object body = 123 ∷ body ++ 125 ∷ []

-- The object between the braces, in text before it without `{` and text behind it without `}`.
record IsAround (body s : Text) : Type 0 where
  before : Text
  after : Text
  split : s ≡ before ++ (123 ∷ body ++ (125 ∷ after))
  no_open : any (is_char 123) before ≡ false
  no_close : any (is_char 125) after ≡ false
