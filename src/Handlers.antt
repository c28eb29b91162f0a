-- ===== src/Handlers.antt =====
-- src/handler.rs: layer 3, the handlers that call the cloud provider, with retries. The extension with
-- the application's state is there; metrics and spans are left out.
pub mod Native
pub mod Compat
pub mod Fallback
pub mod Spending
mod Tests
use isartor.Common.{
  ℕ, Text, codes, Bool, true, false, if◌then◌else◌, Option, none, some, List, [], ◌∷◌, ◌++◌, ◌⊎◌,
  inl, inr,
}
use isartor.Errors.{GatewayError, from_llm_error, display}
use isartor.Retry.{Outcome, ok, err, Returned, Event, cloud_llm_config, execute_with_retry}
use isartor.Health.{ProviderHealthState, record_success, record_failure}
use isartor.Http.{Response, Payload, value, cloud, json_response}
use isartor.AppState.{AppState, Outside, Call, log}
use isartor.AppState

module _ {V C E F : Type 0} (out : Outside V C E F) where
  open out use {host, provider_name}
  open host use {to_lowercase}
  open host.json use {object, string}

  -- `json!({"error": {"message": message}})`
  abbrev pub error_value : Text → Payload V
  error_value message =
      value (object ((codes "error", object ((codes "message", string message) ∷ [])) ∷ []))

  -- The message of an error after the retries: `format!("[{provider_name}] {gw_err}")`.
  abbrev pub failure_message : GatewayError → Text
  failure_message e = codes "[" ++ (provider_name ++ (codes "] " ++ display e))

  -- `.map_err(|e| GatewayError::from_llm_error(&provider, &e))`
  abbrev pub outcome : Text ⊎ List Text → Outcome Text
  outcome (inl text) = ok text
  outcome (inr causes) = err (from_llm_error to_lowercase provider_name causes)

  -- The calls of the provider, with retries; `attempt` gives what each attempt returns.
  unfoldable pub call_provider :
      (ℕ → Text ⊎ List Text) → AppState C E F → Returned Text × AppState C E F
  call_provider attempt state =
      let (returned, events) =
        execute_with_retry cloud_llm_config (λ n. outcome (attempt n)) (out.nanos state.calls) in
      (returned, log (AppState.cloud events) state)

  unfoldable pub record_provider_success : AppState C E F → AppState C E F
  record_provider_success state = record state {
    provider_health = record_success (out.rfc3339 state.calls) state.provider_health;
  }

  -- `false` is a panic.
  unfoldable pub record_provider_failure : GatewayError → AppState C E F → Bool × AppState C E F
  record_provider_failure e state =
      let (noted, health) =
        record_failure (out.rfc3339 state.calls) (display e) state.provider_health in
      (noted, record state { provider_health = health })

  abbrev pub from_cloud : Response → Response
  from_cloud response = record response { final_layer = some cloud }

  -- What a handler does after the failure has been recorded, unless that panicked.
  abbrev pub after_failure :
      (AppState C E F → Response × AppState C E F)
      → Bool × AppState C E F
      → Option Response × AppState C E F
  after_failure respond (false, state) = (none, state)
  after_failure respond (true, state) =
      let (response, state) = respond state in (some response, state)

  -- A handler's end, at what the calls of the provider returned: a response to a text, or one to an error.
  abbrev pub resolve :
      (Text → Payload V)
      → (GatewayError → AppState C E F → Response × AppState C E F)
      → Returned Text × AppState C E F
      → Option Response × AppState C E F
  resolve answer failure (Returned.panicked, state) = (none, state)
  resolve answer failure (Returned.result (ok text), state) =
      (some (from_cloud (json_response host 200 (answer text))), record_provider_success state)
  resolve answer failure (Returned.result (err e), state) =
      after_failure (failure e) (record_provider_failure e state)
