-- ===== src/Server/Gate.antt =====
-- What stands before the handlers: crates/server/src/rate_limit.rs and auth.rs, in the order of
-- crates/server/src/router.rs. `limit` is what the rate limiter answers, nothing where there is none.
pub mod Guard
use merkur_db.Base.Text.{Text, text_eq, codes, strip_prefix}
use merkur_db.Base.{Bool, true, false, not, List, [], ◌∷◌, Option, none, some, any, if◌then◌else◌}
use merkur_db.Config.{AuthConfig}
use merkur_db.Server.Errors.{ApiError, Handler, failed, unauthorized}
use merkur_db.Store.Insert.{unwrap_or}

abbrev pub rate_limited : ApiError
rate_limited = record {
  status = 429;
  code = codes "RATE_LIMITED";
  message = codes "Too many requests";
}

-- `header` is the Authorization header, if there is one that is text.
unfoldable pub bearer_token : Option Text → Text
bearer_token header = unwrap_or (strip_prefix (codes "Bearer ") (unwrap_or header [])) []

-- The comparison in constant time gives whether the tokens are equal.
unfoldable pub is_valid_token : List Text → Text → Bool
is_valid_token tokens [] = false
is_valid_token tokens (c ∷ token) = any (text_eq (c ∷ token)) tokens

unfoldable pub authorizes : AuthConfig → Option Text → Bool
unfolding is_valid_token bearer_token
authorizes auth header = if auth.disabled then true else elim auth.tokens [
  | [] ↦ false
  | t ∷ tokens ↦ is_valid_token (t ∷ tokens) (bearer_token header)
]

module _ {S A : Type 0} where
  unfoldable pub require_auth : AuthConfig → Option Text → Handler S A → Handler S A
  unfolding authorizes
  require_auth auth header next s =
      if authorizes auth header then next s else (failed unauthorized, s)

  unfoldable pub check_rate_limit : Option Bool → Handler S A → Handler S A
  check_rate_limit none next s = next s
  check_rate_limit (some admitted) next s = if admitted then next s else (failed rate_limited, s)

  -- A route of `protected`.
  unfoldable pub protected : Option Bool → AuthConfig → Option Text → Handler S A → Handler S A
  unfolding require_auth check_rate_limit
  protected limit auth header next = check_rate_limit limit (require_auth auth header next)
