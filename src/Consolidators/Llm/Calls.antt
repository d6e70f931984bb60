-- ===== src/Consolidators/Llm/Calls.antt =====
-- The requests that crates/consolidators/src/llm.rs sends to a language model, and the two methods
-- of the Consolidator trait. `send` is the HTTP client, which may fail; `parse_response` and
-- `parse_verdict` are the derived decoders.
use merkur_db.Base.Text.{Text, codes}
use merkur_db.Base.{false, List, [], ◌∷◌, ◌++◌, Option, none, some, map, if◌then◌else◌}
use merkur_db.Consolidators.Extract.{extract_json_object}
use merkur_db.Consolidators.Llm.{
  Values, LlmBackend, ollama, openai, LlmConsolidator, LlmResponse, AdjudicationJson, failed,
  or_failed, parse_adjudication, report_of,
}
use merkur_db.Core.Http.{HttpRequest, HttpResponse, then_}
use merkur_db.Core.Float.{Float}
use merkur_db.Core.Storage.{Consolidator}
use merkur_db.Core.Types.{
  Memory, ScoredMemory, ConsolidationReport, empty_report, Adjudication, default_adjudication,
  MerkurResult, ok,
}

module _ {F V : Type 0} (values : Values F V) where
  abbrev item : Text → Text → List (Text × V)
  item id content = (codes "id", values.text id) ∷ (codes "content", values.text content) ∷ []

  unfoldable pub ollama_request : LlmConsolidator → Text → HttpRequest V
  ollama_request c prompt = record {
    url = c.base_url ++ codes "/api/generate";
    body = values.object (
        (codes "model", values.text c.model)
        ∷ (codes "prompt", values.text prompt)
        ∷ (codes "stream", values.boolean false)
        ∷ (codes "format", values.text (codes "json"))
        ∷ []);
    bearer = none;
  }

  unfoldable pub openai_request : LlmConsolidator → Text → HttpRequest V
  openai_request c prompt = record {
    url = c.base_url ++ codes "/v1/chat/completions";
    body = values.object (
        (codes "model", values.text c.model)
        ∷ (
          codes "messages",
          values.array (
              values.object (
                (codes "role", values.text (codes "user"))
                ∷ (codes "content", values.text prompt)
                ∷ [])
              ∷ []),
        )
        ∷ (
          codes "response_format",
          values.object ((codes "type", values.text (codes "json_object")) ∷ []),
        )
        ∷ []);
    bearer = c.api_key;
  }

  -- `body["response"]` and `body["choices"][0]["message"]["content"]`
  abbrev answer_of : LlmBackend → V → Option Text
  answer_of ollama body = values.as_str (values.at_key (codes "response") body)
  answer_of openai body = values.as_str (
      values.at_key (codes "content") (
        values.at_key (codes "message") (values.at_index 0 (values.at_key (codes "choices") body))))

  unfoldable pub read_response : LlmBackend → Option (HttpResponse V) → MerkurResult Text
  read_response backend none = failed
  read_response backend (some resp) =
      if resp.is_success
      then then_ (or_failed resp.json) (λ body. or_failed (answer_of backend body))
      else failed

  unfoldable pub build_prompt : List (Memory F) → MerkurResult Text
  build_prompt memories =
      then_
        (or_failed (
          values.to_string
            (values.array (map (λ (m : Memory F). values.object (item m.id m.content)) memories))))
        λ items_json. ok (
          codes "You are a memory consolidation agent. Given a list of memories, produce:\n"
          ++ codes "1. An abstract (concise 1-2 sentence summary) for each memory.\n"
          ++ codes
              "2. Edges between semantically related memories (same entities, cause-effect, temporal sequence).\n"
          ++ codes "\n"
          ++ codes "Use ONLY the ids from the input list. Do not invent ids.\n"
          ++ codes "\n"
          ++ codes "Memories: "
          ++ items_json
          ++ codes "\n"
          ++ codes "\n"
          ++ codes
              "3. An importance score in [0, 1] for each memory: how central this fact is to the\n"
          ++ codes
              "   user's long-term goals (1 = core identity/preference, 0 = ephemeral trivia).\n"
          ++ codes "\n"
          ++ codes "Respond with JSON only:\n"
          ++ codes
              "{\"memories\":[{\"id\":\"...\",\"abstract\":\"...\",\"importance\":0.7}],\"edges\":[{\"source_id\":\"...\",\"target_id\":\"...\",\"relation\":\"...\",\"weight\":0.8}]}")

  module _ (round_thousandths : F → F) where
    abbrev candidate : ScoredMemory F → V
    candidate c = values.object (
        item c.id c.content
        ++ ((codes "similarity", values.number (round_thousandths c.score)) ∷ []))

    unfoldable pub build_adjudication_prompt : Memory F → List (ScoredMemory F) → MerkurResult Text
    build_adjudication_prompt pending candidates =
        then_ (or_failed (values.to_string (values.object (item pending.id pending.content))))
          λ pending_json.
            then_ (or_failed (values.to_string (values.array (map candidate candidates))))
              λ cands_json. ok (
                codes
                  "You are a memory governance judge. A newly written memory may relate to existing memories.\n"
                ++ codes "\n"
                ++ codes "New memory: "
                ++ pending_json
                ++ codes "\n"
                ++ codes "Existing neighbors (most similar first): "
                ++ cands_json
                ++ codes "\n"
                ++ codes "\n"
                ++ codes "Decide the relationship:\n"
                ++ codes
                    "- ADD: the new memory is a genuinely new fact (the default when unsure).\n"
                ++ codes
                    "- UPDATE: the new memory restates or refines one existing memory — name it in target_id; it will take over the new content.\n"
                ++ codes
                    "- DELETE: a contradiction — name the loser in target_id: the existing memory if the new fact supersedes it, or the new memory's own id if the new write itself is wrong.\n"
                ++ codes "- NOOP: the same fact is already recorded; nothing to do.\n"
                ++ codes "\n"
                ++ codes
                    "Use ONLY ids shown above (or the new memory's own id for DELETE). Do not invent ids.\n"
                ++ codes "\n"
                ++ codes "Respond with JSON only:\n"
                ++ codes
                    "{\"action\":\"ADD|UPDATE|DELETE|NOOP\",\"target_id\":\"...or null...\",\"reason\":\"one sentence\"}")

    module _ (f : Float F) (send : HttpRequest V → Option (HttpResponse V))
        (parse_response : Text → Option (LlmResponse F))
        (parse_verdict : Text → Option AdjudicationJson) where
      unfoldable pub call_llm : LlmConsolidator → Text → MerkurResult Text
      unfolding ollama_request openai_request read_response
      call_llm c prompt = elim c.backend [
        | ollama ↦ read_response ollama (send (ollama_request c prompt))
        | openai ↦ read_response openai (send (openai_request c prompt))
      ]

      unfoldable pub consolidate :
          LlmConsolidator → List (Memory F) → MerkurResult (ConsolidationReport F)
      unfolding call_llm build_prompt report_of extract_json_object empty_report
      consolidate c [] = ok empty_report
      consolidate c (m ∷ memories) = then_ (build_prompt (m ∷ memories)) λ prompt.
          then_ (call_llm c prompt) λ response_text.
            then_ (or_failed (parse_response (extract_json_object response_text)))
              λ parsed. ok (report_of f (map (λ (m : Memory F). m.id) (m ∷ memories)) parsed)

      unfoldable pub adjudicate :
          LlmConsolidator → Memory F → List (ScoredMemory F) → MerkurResult Adjudication
      unfolding call_llm build_adjudication_prompt parse_adjudication default_adjudication
      adjudicate c pending [] = ok default_adjudication
      adjudicate c pending (h ∷ candidates) =
          then_ (build_adjudication_prompt pending (h ∷ candidates)) λ prompt.
            then_ (call_llm c prompt) λ raw. ok (
              parse_adjudication parse_verdict raw pending.id
                (map (λ (h : ScoredMemory F). h.id) (h ∷ candidates)))

      abbrev pub llm_consolidator : LlmConsolidator → Consolidator F
      llm_consolidator c = record { consolidate = consolidate c; adjudicate = adjudicate c }
