-- ===== src/Server/Namespace.antt =====
-- crates/server/src/handlers/namespace.rs: the bucket of a request, from its header. A header that
-- is missing or not a text is absent here.
pub mod Bucket
use merkur_db.Base.Text.{Text, trim}
use merkur_db.Base.{List, [], ◌∷◌, Option, none, some}
use merkur_db.Core.Types.{default_namespace}
use merkur_db.Store.Insert.{unwrap_or}

-- `.filter(|s| !s.is_empty())`
abbrev pub non_empty : Text → Option Text
non_empty [] = none
non_empty (c ∷ s) = some (c ∷ s)

unfoldable pub from_request_parts : Option Text → Text
unfolding trim
from_request_parts none = default_namespace
from_request_parts (some v) = unwrap_or (non_empty (trim v)) default_namespace
