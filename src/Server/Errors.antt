-- ===== src/Server/Errors.antt =====
-- crates/server/src/error.rs: what a client sees of an error.
use merkur_db.Base.Text.{Text, codes}
use merkur_db.Base.{ℕ, ◌++◌}
use merkur_db.Core.Types.{MerkurError, MerkurResult, ok, err}

-- `status` is the number of the StatusCode.
pub record ApiError : Type 0 where
  pub status : ℕ
  pub code : Text
  pub message : Text

pub data ApiResult (A : Type 0) : Type 0 where
  done : A → ApiResult A
  failed : ApiError → ApiResult A

abbrev pub bad_request_error : Text → ApiError
bad_request_error msg = record { status = 400; code = codes "BAD_REQUEST"; message = msg }

abbrev pub unauthorized : ApiError
unauthorized = record {
  status = 401;
  code = codes "UNAUTHORIZED";
  message = codes "Authentication required";
}

abbrev pub not_found : Text → ApiError
not_found msg = record { status = 404; code = codes "NOT_FOUND"; message = msg }

abbrev pub internal_error : Text → ApiError
internal_error msg = record { status = 500; code = codes "INTERNAL_ERROR"; message = msg }

-- `impl From<MerkurError> for ApiError`
unfoldable pub from_merkur : MerkurError → ApiError
from_merkur (MerkurError.memory_not_found id) = record {
  status = 404;
  code = codes "MEMORY_NOT_FOUND";
  message = codes "Memory " ++ id ++ codes " not found";
}
from_merkur (MerkurError.bad_request msg) = bad_request_error msg
from_merkur (MerkurError.config msg) = internal_error (codes "Server configuration error")
from_merkur (MerkurError.storage msg) = internal_error (codes "Storage backend error")
from_merkur (MerkurError.embedding msg) = record {
  status = 502;
  code = codes "EMBED_FAILED";
  message = codes "Embedding backend error";
}
from_merkur (MerkurError.consolidation msg) = internal_error (codes "Consolidator error")
from_merkur (MerkurError.internal msg) = internal_error (codes "Internal server error")

-- A handler: a response, or an error, beside the state that it leaves.
abbrev pub Handler : Type 0 → Type 0 → Type 0
Handler S A = S → ApiResult A × S

abbrev pub responded : {S A : Type 0} → MerkurResult A × S → ApiResult A × S
responded (ok a, s) = (done a, s)
responded (err e, s) = (failed (from_merkur e), s)
