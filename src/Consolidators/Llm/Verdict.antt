-- ===== src/Consolidators/Llm/Verdict.antt =====
-- The verdicts of crates/consolidators/src/llm.rs: what an answer may make the scheduler do.
use merkur_db.Base.Text.{Text, text_eq, text_eq-In}
use merkur_db.Base.{
  ◌≡◌, refl, inl, inr, Bool, true, false, ◌||◌, List, [], ◌∷◌, Option, none, some, map, any, In,
  arith, Bool-cases,
}
use merkur_db.Consolidators.Llm.Calls.{adjudicate, build_adjudication_prompt, call_llm}
use merkur_db.Consolidators.Llm.{
  Values, LlmConsolidator, LlmResponse, AdjudicationJson, settled, known_target, action_of,
  verdict_of, parse_adjudication,
}
use merkur_db.Core.Http.{HttpRequest, HttpResponse, then_}
use merkur_db.Core.Float.{Float}
use merkur_db.Core.Types.{
  Memory, ScoredMemory, Adjudication, AdjudicationAction, add, update, delete, noop,
  default_adjudication, MerkurResult, ok, err,
}

abbrev pub is_destructive : AdjudicationAction → Bool
is_destructive add = false
is_destructive update = true
is_destructive delete = true
is_destructive noop = false

abbrev pub IsKnown : List Text → Option Text → Type 0
IsKnown ids none = Unit
IsKnown ids (some t) = In t ids

-- A target is one of the ids, and an action that changes a memory has one.
pub record IsSafe (ids : List Text) (v : Adjudication) : Type 0 where
  pub known : IsKnown ids v.target_id
  pub targeted : is_destructive v.action ≡ true → (t : Text) × (v.target_id ≡ some t)

known_target-IsKnown :
    (p : Text) (ids : List Text) (t : Option Text) → IsKnown (p ∷ ids) (known_target p ids t)
unfolding known_target
known_target-IsKnown p ids none = tt
known_target-IsKnown p ids (some t) = elim (Bool-cases (text_eq t p || any (text_eq t) ids)) [
  | inl e ↦ rw e (text_eq-In t (p ∷ ids) (ground (arith, e)))
  | inr e ↦ rw e tt
]

settled-IsSafe :
    (ids : List Text) (a : AdjudicationAction) (t : Option Text) (reason : Text)
    → IsKnown ids t
    → IsSafe ids (record { action = (settled a t).0; target_id = (settled a t).1; reason = reason })
unfolding settled
settled-IsSafe ids add t reason h = record { known = h; targeted = λ e. absurd (ground (arith, e)) }
settled-IsSafe ids noop t reason h = record {
  known = h;
  targeted = λ e. absurd (ground (arith, e));
}
settled-IsSafe ids update none reason h = record {
  known = tt;
  targeted = λ e. absurd (ground (arith, e));
}
settled-IsSafe ids delete none reason h = record {
  known = tt;
  targeted = λ e. absurd (ground (arith, e));
}
settled-IsSafe ids update (some t) reason h = record { known = h; targeted = λ e. (t, refl) }
settled-IsSafe ids delete (some t) reason h = record { known = h; targeted = λ e. (t, refl) }

verdict_of-IsSafe :
    (p : Text) (ids : List Text) (parsed : Option AdjudicationJson)
    → IsSafe (p ∷ ids) (verdict_of p ids parsed)
unfolding verdict_of default_adjudication
verdict_of-IsSafe p ids none = record { known = tt; targeted = λ e. absurd (ground (arith, e)) }
verdict_of-IsSafe p ids (some parsed) =
    settled-IsSafe (p ∷ ids) (action_of parsed.action) (known_target p ids parsed.target_id) _
      (known_target-IsKnown p ids parsed.target_id)

-- An error, or a result that satisfies the predicate.
abbrev pub FailsOr : {A : Type 0} → (A → Type 0) → MerkurResult A → Type 0
FailsOr P (ok a) = P a
FailsOr P (err e) = Unit

pub then-FailsOr :
    {A B : Type 0} (P : B → Type 0) (m : MerkurResult A) (k : A → MerkurResult B)
    → ((a : A) → FailsOr P (k a))
    → FailsOr P (then_ m k)
then-FailsOr P (ok a) k h = h a
then-FailsOr P (err e) k h = tt

module _ {F V : Type 0} (values : Values F V) (round_thousandths : F → F) (f : Float F)
    (send : HttpRequest V → Option (HttpResponse V))
    (parse_response : Text → Option (LlmResponse F))
    (parse_verdict : Text → Option AdjudicationJson) where
  -- Whatever a language model answers, or fails to, adjudication fails or gives a verdict whose
  -- target, if it has one, is the pending memory or a candidate, and which has a target if it is an
  -- UPDATE or a DELETE.
  pub adjudicate-IsSafe :
      (c : LlmConsolidator) (pending : Memory F) (candidates : List (ScoredMemory F))
      → FailsOr (IsSafe (pending.id ∷ map (λ (h : ScoredMemory F). h.id) candidates)) (
          adjudicate values round_thousandths f send parse_response parse_verdict c pending
            candidates)
  unfolding adjudicate parse_adjudication default_adjudication
  adjudicate-IsSafe c pending [] = record { known = tt; targeted = λ e. absurd (ground (arith, e)) }
  adjudicate-IsSafe c pending (h ∷ candidates) =
      then-FailsOr _ (build_adjudication_prompt values round_thousandths pending (h ∷ candidates)) _
        λ prompt.
          then-FailsOr _
            (call_llm values round_thousandths f send parse_response parse_verdict c prompt) _
            λ raw.
              verdict_of-IsSafe pending.id (map (λ (h : ScoredMemory F). h.id) (h ∷ candidates)) _
