-- ===== src/Tests/Consolidators.antt =====
-- Runs of the consolidators, with a language model that gives one answer.
use merkur_db.Base.Text.{Text, codes, text_dec}
use merkur_db.Base.{ℕ, ◌≡◌, refl, true, [], ◌∷◌, Option, none, some}
use merkur_db.Consolidators.Extract.{extract_json_object}
use merkur_db.Consolidators.Llm.Calls.{adjudicate}
use merkur_db.Consolidators.Llm.Verdict.{FailsOr, IsSafe, adjudicate-IsSafe}
use merkur_db.Consolidators.Llm.{
  Values, LlmConsolidator, ollama, LlmResponse, AdjudicationJson, parse_adjudication,
}
use merkur_db.Core.Http.{HttpRequest, HttpResponse}
use merkur_db.Core.Types.{full, add, update}
use merkur_db.Tests.Numbers.{tenths}
use merkur_db.Tests.Sample.{alice, bob, memory_of, hit_of}

fenced : extract_json_object (codes "Here:\n```json {\"a\":1} ```") ≡ codes "{\"a\":1}"
unfolding extract_json_object text_dec
fenced = refl

-- A JSON value as a text.
abbrev plain : Values ℕ Text
plain = record {
  text = λ t. t;
  number = λ n. [];
  boolean = λ b. [];
  array = λ vs. [];
  object = λ fields. [];
  at_key = λ key v. v;
  at_index = λ i v. v;
  as_str = λ v. some v;
  to_string = λ v. some v;
}

abbrev answers : HttpRequest Text → Option (HttpResponse Text)
answers req = some (record { is_success = true; json = some (codes "{}") })

abbrev model : LlmConsolidator
model = record {
  base_url = codes "http://localhost";
  model = codes "m";
  backend = ollama;
  api_key = none;
}

-- An UPDATE of a memory, in capitals.
abbrev says : Text → Text → Option AdjudicationJson
says target raw =
    some (record { action = some (codes "UPDATE"); target_id = some target; reason = none })

abbrev reports : Text → Option (LlmResponse ℕ)
reports raw = some (record {
  memories =
      record { id = alice; abstract_ = codes "tea"; importance = some 7 }
      ∷ record { id = codes "mem_404"; abstract_ = []; importance = none }
      ∷ [];
  edges = record { source_id = alice; target_id = alice; relation = none; weight = none } ∷ [];
})

-- A target that is no candidate makes an ADD of an UPDATE.
hallucinated :
    parse_adjudication (says (codes "mem_404")) (codes "{}") alice (bob ∷ [])
    ≡ record { action = add; target_id = none; reason = [] }
unfolding parse_adjudication text_dec
hallucinated = refl

recognised :
    parse_adjudication (says bob) (codes "{}") alice (bob ∷ [])
    ≡ record { action = update; target_id = some bob; reason = [] }
unfolding parse_adjudication text_dec
recognised = refl

adjudicate-IsSafe_example : FailsOr (IsSafe (alice ∷ bob ∷ [])) (
    adjudicate plain
      (λ x. x)
      tenths
      answers
      reports
      (says bob)
      model
      (memory_of alice 0 full)
      (hit_of bob 9 ∷ []))
adjudicate-IsSafe_example =
    adjudicate-IsSafe plain (λ x. x) tenths answers reports (says bob) model
      (memory_of alice 0 full) (hit_of bob 9 ∷ [])
