-- ===== src/Tests/Server.antt =====
-- Runs of the request handlers.
use merkur_db.Base.Text.{Text, codes, trim, text_dec, strip_prefix}
use merkur_db.Base.{
  ap, zero, suc, map, length, length-map, true, false, ◌∙◌, ℕ, ◌≡◌, refl, List, [], ◌∷◌, none, some,
}
use merkur_db.Core.Storage.{Storage, Embedder}
use merkur_db.Core.Types.{ok, err, bad_request, WriteItem}
use merkur_db.Fusion.Recall.{default_fusion}
use merkur_db.Server.Context.Budget.{Answers, assemble_context-Answers}
use merkur_db.Server.Context.{ContextRequest, is_blank}
use merkur_db.Config.{AuthConfig}
use merkur_db.Server.Errors.{Handler, done}
use merkur_db.Server.Gate.Guard.{IsGuarded, protected-IsGuarded}
use merkur_db.Server.Gate.{authorizes, protected}
use merkur_db.Server.Namespace.Bucket.{effective_namespace-from_request_parts}
use merkur_db.Server.Namespace.{from_request_parts}
use merkur_db.Store.Insert.{effective_namespace}
use merkur_db.Server.Relate.Batch.{Relates, relate_batch-Relates}
use merkur_db.Server.Relate.{RelateRequest, relate_batch}
use merkur_db.Server.Search.{SearchQuery, SearchConfig}
use merkur_db.Server.Write.Batch.{AnswersEach, Accounts, write_batch-Accounts, write_batch_rejects}
use merkur_db.Server.Write.{WriteConfig, write_batch}
use merkur_db.Tests.Fusion.{counting-FetchesById}
use merkur_db.Tests.Numbers.{tenths, tenths_lawful}
use merkur_db.Tests.Sample.{alice, bob, team, counting}

abbrev constant : Embedder ℕ
constant = record { dim = 1; encode = λ t. ok (10 ∷ []); encode_batch = λ ts. ok [] }

abbrev pub green_tea : ContextRequest
green_tea = record { q = codes "green tea"; token_budget = 4; limit = none }

abbrev blank : ContextRequest
blank = record { q = codes "  "; token_budget = 4; limit = none }

assemble_context-Answers_example :
    Answers tenths counting constant (default_fusion tenths) team green_tea (10 ∷ []) 0
unfolding is_blank trim
assemble_context-Answers_example =
    assemble_context-Answers tenths counting constant (default_fusion tenths) team
      counting-FetchesById tenths_lawful green_tea (10 ∷ []) 0 refl refl refl

abbrev pub settings : SearchConfig ℕ
settings = record {
  fast_limit = 10;
  default_depth = 2;
  default_degree_limit = 20;
  score_threshold = 3;
  fusion_params = default_fusion tenths;
}

abbrev query_in : Text → SearchQuery ℕ
query_in mode = record {
  q = codes "tea";
  mode = mode;
  limit = some 1;
  score_threshold = none;
  context = none;
  offset = some 1;
  depth = none;
  degree_limit = none;
  level = none;
  category = none;
  from = none;
  to = none;
  include_graph = none;
}

-- An embedder that answers a batch with one vector per text.
abbrev answering : Embedder ℕ
answering = record {
  dim = 1;
  encode = λ t. ok (10 ∷ []);
  encode_batch = λ ts. ok (map (λ t. 10 ∷ []) ts);
}

abbrev no_dedup : WriteConfig ℕ
no_dedup = record { dedup_threshold = 9; dedup_enabled = false; adjudication = codes "async" }

answering-AnswersEach : AnswersEach counting answering no_dedup team
answering-AnswersEach texts vecs e = ap length (vectors e) ∙ length-map (λ t. 10 ∷ []) texts
  where
    vectors : {a b : List (List ℕ)} → ok a ≡ ok b → b ≡ a
    vectors e = cc e

abbrev item_with : Text → WriteItem
item_with text = record { content = text; context = none; metadata = none }

abbrev three_items : List WriteItem
three_items = item_with (codes "tea") ∷ item_with [] ∷ item_with (codes "milk") ∷ []

write_batch-Accounts_example :
    Accounts counting answering no_dedup team 3
      (write_batch counting answering no_dedup team three_items 0)
write_batch-Accounts_example =
    write_batch-Accounts counting answering no_dedup team answering-AnswersEach three_items 0 refl

abbrev copies : ℕ → List WriteItem
copies zero = []
copies (suc n) = item_with (codes "tea") ∷ copies n

write_batch_rejects_example :
    write_batch counting answering no_dedup team (copies 501) 0 ≡ (err (bad_request []), 0)
write_batch_rejects_example =
    write_batch_rejects counting answering no_dedup team (copies 501) 0 refl

abbrev link : Text → Text → RelateRequest ℕ
link a b = record { source_id = a; target_id = b; weight = none; relation = none }

abbrev three_links : List (RelateRequest ℕ)
three_links = link alice bob ∷ link alice alice ∷ link bob team ∷ []

-- A store that knows two memories.
abbrev knowing_two : Storage ℕ ℕ
knowing_two = record counting { memory_exists_batch = λ ids s. (ok (alice ∷ bob ∷ []), s) }

relate_batch-Relates_example :
    Relates knowing_two three_links (alice ∷ bob ∷ []) 0 (relate_batch knowing_two three_links 0)
relate_batch-Relates_example =
    relate_batch-Relates knowing_two three_links (alice ∷ bob ∷ []) 0 0 refl refl

knowing_two_created : (relate_batch knowing_two three_links 0).1 ≡ 1
unfolding relate_batch counting text_dec
knowing_two_created = refl

effective_namespace-from_request_parts_example :
    effective_namespace (from_request_parts (some (codes " team  ")))
    ≡ from_request_parts (some (codes " team  "))
effective_namespace-from_request_parts_example =
    effective_namespace-from_request_parts (some (codes " team  "))

trimmed_bucket : from_request_parts (some (codes " team  ")) ≡ codes "team"
unfolding from_request_parts
trimmed_bucket = refl

abbrev doors : AuthConfig
doors = record { tokens = codes "sesame" ∷ []; disabled = false }

let_in : authorizes doors (some (codes "Bearer sesame")) ≡ true
unfolding authorizes strip_prefix text_dec
let_in = refl

kept_out : authorizes doors (some (codes "Bearer ")) ≡ false
unfolding authorizes strip_prefix
kept_out = refl

abbrev counts_up : Handler ℕ ℕ
counts_up s = (done s, suc s)

protected-IsGuarded_example :
    IsGuarded none doors
      (some (codes "Bearer sesame"))
      counts_up
      7
      (protected none doors (some (codes "Bearer sesame")) counts_up 7)
protected-IsGuarded_example =
    protected-IsGuarded none doors (some (codes "Bearer sesame")) counts_up 7
