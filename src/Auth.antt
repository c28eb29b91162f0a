-- ===== src/Auth.antt =====
-- src/middleware/auth.rs: layer 0, the check of the gateway's key. The state is what the extension
-- holds of it, the configured key; `header` looks a header up that is valid text.
pub mod Keys
mod Tests
use isartor.Common.{
  Text, codes, text_eq, is_empty, strip_prefix, Bool, if◌then◌else◌, Option, none, some,
}

-- What the middleware does with a request: status 500, the next layer, or status 401.
pub data Decision : Type 0 where
  internal_server_error run_next unauthorized : Decision

unfoldable pub bearer_token : (Text → Option Text) → Option Text
bearer_token header = elim (header (codes "authorization")) [
  | none ↦ none
  | some s ↦ strip_prefix (codes "Bearer ") s
]

unfoldable pub api_key : (Text → Option Text) → Option Text
api_key header = elim (header (codes "X-API-Key")) [
  | some key ↦ some key
  | none ↦ bearer_token header
]

unfoldable pub auth_middleware : Option Text → (Text → Option Text) → Decision
auth_middleware none header = internal_server_error
auth_middleware (some gateway_api_key) header =
    let checked : Decision = elim (api_key header) [
      | none ↦ unauthorized
      | some key ↦ if text_eq key gateway_api_key then run_next else unauthorized
    ] in
    if is_empty gateway_api_key then run_next else checked
