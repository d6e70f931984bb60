-- ===== src/Consolidators/Llm/Report.antt =====
-- The reports of crates/consolidators/src/llm.rs: what of an answer reaches the store.
use mathlib.Core.Path.{subst}
use mathlib.Core.List.{append_assoc, append-nil}
use merkur_db.Base.Text.{Text, text_eq, text_eq_refl, text_eq-In}
use merkur_db.Base.{
  ◌≡◌, ◌+◌, refl, sym, ap, ◌∙◌, inl, inr, Bool, true, not, List, [], ◌∷◌, ◌++◌, Option, none, some,
  map, any, keep, length, All, All-imp, All-map, keep_sound, false, ◌&&◌, In, arith, Bool-cases,
  if◌then◌else◌,
}
use merkur_db.Consolidators.Llm.{
  Values, LlmResponse, AbstractResult, EdgeResult, AdjudicationJson, in_unit, assess_one, assess,
  edge_from, is_proper, connect_one, connect, report_of,
}
use merkur_db.Core.Http.{HttpRequest, HttpResponse}
use merkur_db.Core.Float.{Float}
use merkur_db.Core.Types.{Map, insert, Memory, NewEdge, ConsolidationReport, empty_report}

module _ {V : Type 0} where
  All-insert :
      (P : Text × V → Type 0) (k : Text) (v : V) (m : Map V)
      → P (k, v)
      → All P m
      → All P (insert k v m)
  unfolding insert
  All-insert P k v [] h hs = (h, tt)
  All-insert P k v ((j, w) ∷ m) h hs = elim (Bool-cases (text_eq j k)) [
    | inl e ↦ rw e (h, hs.1)
    | inr e ↦ rw e (hs.0, All-insert P k v m h hs.1)
  ]

  abbrev pub has_key : Text → Map V → Bool
  has_key k m = any (λ e. text_eq e.0 k) m

  has_key-insert :
      (j k : Text) (v : V) (m : Map V) → has_key j m ≡ true → has_key j (insert k v m) ≡ true
  unfolding insert
  has_key-insert j k v [] h = absurd (ground (arith, h))
  has_key-insert j k v ((i, w) ∷ m) h = ground (arith, h, has_key-insert j k v m)

  has_key-inserted : (k : Text) (v : V) (m : Map V) → has_key k (insert k v m) ≡ true
  unfolding insert
  has_key-inserted k v [] = ground (arith, text_eq_refl k)
  has_key-inserted k v ((i, w) ∷ m) = ground (arith, text_eq_refl k, has_key-inserted k v m)

module _ {F : Type 0} (f : Float F) (ids : List Text) where
  abbrev pub is_known : AbstractResult F → Bool
  is_known m = any (text_eq m.id) ids

  -- The abstracts and importances are of input memories, and each importance is from 0 to 1.
  pub record IsGrounded (r : ConsolidationReport F) : Type 0 where
    pub of_inputs : All (λ e. In e.0 ids) r.new_abstracts
    pub in_range : All (λ e. In e.0 ids × (in_unit f e.1 ≡ true)) r.new_importance

  -- Nothing else of the report is touched, and each known memory gets its abstract.
  assess_one-IsGrounded :
      (m : AbstractResult F) (r : ConsolidationReport F)
      → IsGrounded r
      → IsGrounded (assess_one f ids m r)
  unfolding assess_one
  assess_one-IsGrounded m r g = elim (Bool-cases (is_known m)) [
    | inr e ↦ rw e (record { of_inputs = g.of_inputs; in_range = g.in_range })
    | inl e ↦ rw e (record {
      of_inputs =
          All-insert (λ e. In e.0 ids) m.id m.abstract_ r.new_abstracts (text_eq-In m.id ids e)
            g.of_inputs;
      in_range = rated m.importance (text_eq-In m.id ids e);
    })
  ]
    where
      rated :
          (o : Option F)
          → In m.id ids
          → All
              (λ e. In e.0 ids × (in_unit f e.1 ≡ true))
              (elim o as (λ x. Map F) [
                | none ↦ r.new_importance
                | some x ↦ if in_unit f x then insert m.id x r.new_importance else r.new_importance
              ])
      rated none i = g.in_range
      rated (some x) i = elim (Bool-cases (in_unit f x)) [
        | inl e ↦ rw e (
            All-insert (λ e. In e.0 ids × (in_unit f e.1 ≡ true)) m.id x r.new_importance (i, e)
              g.in_range)
        | inr e ↦ rw e g.in_range
      ]

  assess-IsGrounded :
      (ms : List (AbstractResult F)) (r : ConsolidationReport F)
      → IsGrounded r
      → IsGrounded (assess f ids ms r)
  unfolding assess
  assess-IsGrounded [] r g = g
  assess-IsGrounded (m ∷ ms) r g = assess-IsGrounded ms _ (assess_one-IsGrounded m r g)

  assess_errors :
      (ms : List (AbstractResult F)) (r : ConsolidationReport F)
      → ((assess f ids ms r).errors ≡ r.errors + length (keep (λ m. not (is_known m)) ms))
        × ((assess f ids ms r).new_edges ≡ r.new_edges)
        × ((assess f ids ms r).memories_processed ≡ r.memories_processed)
  unfolding assess assess_one
  assess_errors [] r = (omega arith, refl, refl)
  assess_errors (m ∷ ms) r = ground (arith, assess_errors ms (assess_one f ids m r))

  assess_keys :
      (k : Text) (ms : List (AbstractResult F)) (r : ConsolidationReport F)
      → has_key k r.new_abstracts ≡ true
      → has_key k (assess f ids ms r).new_abstracts ≡ true
  unfolding assess assess_one
  assess_keys k [] r h = h
  assess_keys k (m ∷ ms) r h =
      assess_keys k ms (assess_one f ids m r)
        (ground (arith, h, has_key-insert k m.id m.abstract_ r.new_abstracts h))

  assess_all :
      (ms : List (AbstractResult F)) (r : ConsolidationReport F)
      → All (λ m. has_key m.id (assess f ids ms r).new_abstracts ≡ true) (keep is_known ms)
  unfolding assess
  assess_all [] r = tt
  assess_all (m ∷ ms) r = elim (Bool-cases (is_known m)) [
    | inl e ↦ rw e (assess_keys m.id ms _ (added e), assess_all ms _)
    | inr e ↦ rw e (assess_all ms _)
  ]
    where
      added : is_known m ≡ true → has_key m.id (assess_one f ids m r).new_abstracts ≡ true
      added e = rw (e, assess_one) (has_key-inserted m.id m.abstract_ r.new_abstracts)

  connect_lem :
      (es : List (EdgeResult F)) (r : ConsolidationReport F)
      → ((connect f ids es r).new_edges
          ≡ r.new_edges ++ map (edge_from f) (keep (is_proper f ids) es))
        × ((connect f ids es r).errors ≡ r.errors + length (keep (λ e. not (is_proper f ids e)) es))
  unfolding connect connect_one
  connect_lem [] r = (sym (append-nil r.new_edges), omega arith)
  connect_lem (e ∷ es) r =
      let (edges, errors) = connect_lem es (connect_one f ids e r) in
      let one = connect_one_lem e r in
      (
        edges
            ∙ ap (λ l. l ++ map (edge_from f) (keep (is_proper f ids) es)) one.0
            ∙ append_assoc r.new_edges (map (edge_from f) (keep (is_proper f ids) (e ∷ [])))
                (map (edge_from f) (keep (is_proper f ids) es))
            ∙ ap (λ l. r.new_edges ++ l) (one_more e es),
        ground (arith, errors, one.1),
      )
    where
      connect_one_lem :
          (e : EdgeResult F) (r : ConsolidationReport F)
          → ((connect_one f ids e r).new_edges
              ≡ r.new_edges ++ map (edge_from f) (keep (is_proper f ids) (e ∷ [])))
            × ((connect_one f ids e r).errors
                ≡ r.errors + length (keep (λ e. not (is_proper f ids e)) (e ∷ [])))
      connect_one_lem e r = elim (Bool-cases (is_proper f ids e)) [
        | inl h ↦ rw (h, connect_one) (refl, omega arith)
        | inr h ↦ rw (h, connect_one) (sym (append-nil r.new_edges), omega arith)
      ]

      one_more :
          (e : EdgeResult F) (es : List (EdgeResult F))
          → map (edge_from f) (keep (is_proper f ids) (e ∷ []))
              ++ map (edge_from f) (keep (is_proper f ids) es)
            ≡ map (edge_from f) (keep (is_proper f ids) (e ∷ es))
      one_more e es = elim (Bool-cases (is_proper f ids e)) [
        | inl h ↦ rw h refl
        | inr h ↦ rw h refl
      ]

  connect_rest :
      (es : List (EdgeResult F)) (r : ConsolidationReport F)
      → ((connect f ids es r).new_abstracts ≡ r.new_abstracts)
        × ((connect f ids es r).new_importance ≡ r.new_importance)
        × ((connect f ids es r).memories_processed ≡ r.memories_processed)
  unfolding connect connect_one
  connect_rest [] r = (refl, refl, refl)
  connect_rest (e ∷ es) r = ground (arith, connect_rest es (connect_one f ids e r))

  -- An edge between two different input memories.
  abbrev pub IsBetween : NewEdge F → Type 0
  IsBetween e = In e.source_id ids × In e.target_id ids × ¬ (e.source_id ≡ e.target_id)

  proper_parts : (a b c : Bool) → (a && b && not c) ≡ true → (a ≡ true) × (b ≡ true) × (c ≡ false)
  proper_parts a b c h = ground (arith, h)

  proper-IsBetween : (e : EdgeResult F) → is_proper f ids e ≡ true → IsBetween (edge_from f e)
  proper-IsBetween e h =
      let (x, y, z) =
        proper_parts (any (text_eq e.source_id) ids) (any (text_eq e.target_id) ids)
          (text_eq e.source_id e.target_id) h in
      (
        text_eq-In e.source_id ids x,
        text_eq-In e.target_id ids y,
        λ q. absurd (ground (arith, q, z, text_eq_refl e.source_id)),
      )

  -- What the report takes from an answer.
  pub record Reports (parsed : LlmResponse F) (r : ConsolidationReport F) : Type 0 where
    pub processed : r.memories_processed ≡ length ids
    pub grounded : IsGrounded r
    pub all_known : All (λ m. has_key m.id r.new_abstracts ≡ true) (keep is_known parsed.memories)
    pub between : All IsBetween r.new_edges
    pub proper : r.new_edges ≡ map (edge_from f) (keep (is_proper f ids) parsed.edges)
    pub none_created : r.edges_created ≡ 0
    pub errors :
        r.errors
        ≡ length (keep (λ m. not (is_known m)) parsed.memories)
          + length (keep (λ e. not (is_proper f ids e)) parsed.edges)

  pub report_of-Reports : (parsed : LlmResponse F) → Reports parsed (report_of f ids parsed)
  unfolding report_of empty_report
  report_of-Reports parsed =
      let start = record (empty_report {F = F}) { memories_processed = length ids } in
      let assessed = assess f ids parsed.memories start in
      let g = assess-IsGrounded parsed.memories start (record { of_inputs = tt; in_range = tt }) in
      let (bad, same, count) = assess_errors parsed.memories start in
      let (edges, errs) = connect_lem parsed.edges assessed in
      let taken : (connect f ids parsed.edges assessed).new_edges
          ≡ map (edge_from f) (keep (is_proper f ids) parsed.edges) =
        rw same at edges in
      let (abs, imp, kept) = connect_rest parsed.edges assessed in
      record {
        processed = kept ∙ count;
        grounded = record { of_inputs = rw abs g.of_inputs; in_range = rw imp g.in_range };
        all_known = rw abs (assess_all parsed.memories start);
        between = subst (All IsBetween) (sym taken) (
            All-map IsBetween (edge_from f) (keep (is_proper f ids) parsed.edges) (
              All-imp proper-IsBetween (keep (is_proper f ids) parsed.edges)
                (keep_sound (is_proper f ids) parsed.edges)));
        proper = taken;
        none_created = refl;
        errors = omega (arith, errs, bad);
      }

module _ {F V : Type 0} (values : Values F V) (round_thousandths : F → F) (f : Float F)
    (send : HttpRequest V → Option (HttpResponse V))
    (parse_response : Text → Option (LlmResponse F))
    (parse_verdict : Text → Option AdjudicationJson) where
  abbrev ids_of : List (Memory F) → List Text
  ids_of = map λ (m : Memory F). m.id
