-- ===== src/Core/Types.antt =====
-- crates/core/src/types.rs and error.rs: the data that the components exchange. Times are
-- nanoseconds since the epoch; a `serde_json::Value` is kept as its text.
use merkur_db.Base.Int.{ℤ, pos, negsuc}
use merkur_db.Base.Text.{Text, codes, text_eq}
use merkur_db.Base.{ℕ, suc, ◌*◌, Bool, List, [], ◌∷◌, Option, none, some, if◌then◌else◌}

pub data MemoryLevel : Type 0 where
  full summary title archived : MemoryLevel

unfoldable pub to_i32 : MemoryLevel → ℤ
to_i32 full = pos 2
to_i32 summary = pos 1
to_i32 title = pos 0
to_i32 archived = negsuc 0

-- Unknown values become `archived`.
unfoldable pub from_i32 : ℤ → MemoryLevel
from_i32 (pos (suc (suc (suc n)))) = archived
from_i32 (pos (suc (suc n))) = full
from_i32 (pos (suc n)) = summary
from_i32 (pos n) = title
from_i32 (negsuc (suc n)) = archived
from_i32 (negsuc n) = archived

pub data EdgeType : Type 0 where
  auto manual : EdgeType

unfoldable pub as_db_str : EdgeType → Text
as_db_str auto = codes "auto"
as_db_str manual = codes "manual"

unfoldable pub from_db_str : Text → EdgeType
from_db_str s = if text_eq s (codes "manual") then manual else auto

-- A map with text keys, as the list of its entries.
abbrev pub Map {ℓ} : Type ℓ → Type ℓ
Map V = List (Text × V)

module _ {ℓ} {V : Type ℓ} where
  unfoldable pub get : Text → Map V → Option V
  get k [] = none
  get k ((j, v) ∷ m) = if text_eq j k then some v else get k m

  unfoldable pub insert : Text → V → Map V → Map V
  insert k v [] = (k, v) ∷ []
  insert k v ((j, w) ∷ m) = if text_eq j k then (k, v) ∷ m else (j, w) ∷ insert k v m

pub data Json : Type 0 where
  string : Text → Json
  other : Text → Json

pub record Memory (F : Type 0) : Type 0 where
  pub id : Text
  pub content : Text
  pub abstract_ : Option Text
  pub category : Text
  pub weight : F
  pub level : MemoryLevel
  pub pending_consolidation : Bool
  pub embedding : Option (List F)
  pub metadata : Map Json
  pub context : Map Text
  pub created_at : ℕ
  pub updated_at : ℕ
  pub accessed_at : ℕ
  pub access_count : ℕ
  pub namespace : Text
  pub importance : F
  pub valid_at : ℕ
  pub invalid_at : Option ℕ

pub record Edge (F : Type 0) : Type 0 where
  pub id : ℕ
  pub source_id : Text
  pub target_id : Text
  pub weight : F
  pub relation : Text
  pub edge_type : EdgeType

pub record NewMemory (F : Type 0) : Type 0 where
  pub content : Text
  pub category : Option Text
  pub context : Map Text
  pub metadata : Map Json
  pub embedding : Option (List F)
  pub namespace : Text

abbrev pub default_namespace : Text
default_namespace = codes "default"

pub record NewEdge (F : Type 0) : Type 0 where
  pub source_id : Text
  pub target_id : Text
  pub weight : Option F
  pub relation : Option Text
  pub edge_type : EdgeType

pub record ScoredMemory (F : Type 0) : Type 0 where
  pub id : Text
  pub content : Text
  pub abstract_ : Option Text
  pub score : F
  pub weight : F
  pub level : MemoryLevel
  pub category : Text
  pub context : Map Text
  pub created_at : ℕ
  pub namespace : Text
  pub importance : F

pub record ConsolidationReport (F : Type 0) : Type 0 where
  pub memories_processed : ℕ
  pub edges_created : ℕ
  pub errors : ℕ
  pub new_abstracts : Map Text
  pub new_edges : List (NewEdge F)
  pub new_importance : Map F
  pub absorptions : ℕ
  pub invalidations : ℕ

unfoldable pub empty_report : {F : Type 0} → ConsolidationReport F
empty_report = record {
  memories_processed = 0;
  edges_created = 0;
  errors = 0;
  new_abstracts = [];
  new_edges = [];
  new_importance = [];
  absorptions = 0;
  invalidations = 0;
}

pub data AdjudicationAction : Type 0 where
  add update delete noop : AdjudicationAction

pub record Adjudication : Type 0 where
  pub action : AdjudicationAction
  pub target_id : Option Text
  pub reason : Text

-- `Adjudication::default()`.
unfoldable pub default_adjudication : Adjudication
default_adjudication = record { action = add; target_id = none; reason = [] }

pub record ConsolidationLogEntry : Type 0 where
  pub id : ℕ
  pub started_at : ℕ
  pub finished_at : ℕ
  pub memories_processed : ℕ
  pub edges_created : ℕ
  pub errors : ℕ
  pub absorptions : ℕ
  pub invalidations : ℕ

pub record StorageStats : Type 0 where
  pub total_memories : ℕ
  pub total_edges : ℕ
  pub pending_consolidation : ℕ
  pub by_level : List (ℤ × ℕ)
  pub by_namespace : Map ℕ

pub data LevelAction : Type 0 where
  downgrade : MemoryLevel → LevelAction
  upgrade : MemoryLevel → LevelAction
  archive : LevelAction
  keep_level : LevelAction

pub data SearchMode : Type 0 where
  hybrid fast deep : SearchMode

pub record WriteItem : Type 0 where
  pub content : Text
  pub context : Option (Map Text)
  pub metadata : Option (Map Json)

pub record MemoryListFilter : Type 0 where
  pub namespace : Option Text
  pub levels : Option (List MemoryLevel)
  pub category : Option Text
  pub offset : ℕ
  pub limit : ℕ

abbrev pub max_search_limit : ℕ
max_search_limit = 1000

abbrev pub max_bfs_depth : ℕ
max_bfs_depth = 5

abbrev pub max_bfs_degree : ℕ
max_bfs_degree = 100

abbrev pub max_batch_items : ℕ
max_batch_items = 500

abbrev pub max_content_bytes : ℕ
max_content_bytes = 64 * 1024

pub data MerkurError : Type 0 where
  storage : Text → MerkurError
  embedding : Text → MerkurError
  consolidation : Text → MerkurError
  memory_not_found : Text → MerkurError
  config : Text → MerkurError
  bad_request : Text → MerkurError
  internal : Text → MerkurError

pub data MerkurResult {ℓ} (A : Type ℓ) : Type ℓ where
  ok : A → MerkurResult A
  err : MerkurError → MerkurResult A
