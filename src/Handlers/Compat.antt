-- ===== src/Handlers/Compat.antt =====
-- The handlers of the OpenAI and the Anthropic route (src/handler.rs).
use isartor.Common.{
  ℕ, Text, codes, if◌then◌else◌, Option, none, some, List, [], ◌∷◌, ◌++◌, ◌⊎◌, inl, inr,
}
use isartor.Prompt.{extract_prompt, has_tooling}
use isartor.Config.{AppConfig, as_str}
use isartor.Errors.{GatewayError}
use isartor.Http.{Request, Response, Payload, openai_chat, value, json_response, json_text_response}
use isartor.AppState.{AppState, Outside, Call}
use isartor.Providers.{provider_chat_completions_url}
use isartor.Sse.Anthropic.{build_json_response}
use isartor.CacheKeys.{canonicalize_request_body_model}
use isartor.Handlers.{
  error_value, failure_message, call_provider, from_cloud, resolve, after_failure,
  record_provider_success, record_provider_failure,
}
use isartor.Retry.{Returned, ok, err}

module _ {V C E F : Type 0} (out : Outside V C E F) (config : AppConfig) where
  open out use {host}
  open host use {json, from_slice, from_utf8_lossy, openai_request_from_slice}
  open host.json use {object, string, is_object, set_field}

  -- The payload is the request as a value, under its own model.
  abbrev pub passthrough_payload : Text → V → V
  passthrough_payload model payload =
      if is_object payload then set_field payload (codes "model") (string model) else payload

  abbrev pub send_to : List Call → Text → V → Option Text → ℕ → Text ⊎ List Text
  send_to calls model payload none attempt = inr (
      (codes "provider "
        ++ (as_str config.llm_provider ++ codes " does not support OpenAI tool passthrough"))
      ∷ [])
  send_to calls model payload (some url) attempt =
      out.post calls url (passthrough_payload model payload) attempt

  unfoldable pub send_openai_passthrough_request : List Call → Text → V → ℕ → Text ⊎ List Text
  send_openai_passthrough_request calls model payload attempt =
      send_to calls model payload (provider_chat_completions_url config) attempt

  -- The end of the handlers of this file at an error, with the state as the failure has left it.
  abbrev pub failed : (Text → Payload V) → GatewayError → AppState C E F → Response × AppState C E F
  failed payload e state =
      (from_cloud out (json_response host 502 (payload (failure_message out e))), state)

  -- The end of a passthrough, whose answer is sent as it is.
  abbrev pub passed_through : Returned Text × AppState C E F → Option Response × AppState C E F
  passed_through (Returned.panicked, state) = (none, state)
  passed_through (Returned.result (ok body), state) =
      (some (from_cloud out (json_text_response host 200 body)), record_provider_success out state)
  passed_through (Returned.result (err e), state) =
      after_failure out (failed (error_value out) e) (record_provider_failure out e state)

  abbrev pub tool_request : AppState C E F → Text ⊎ (Text × V) → Option Response × AppState C E F
  tool_request state (inl message) = (
    some (
        from_cloud out (
          json_response host 400
            (error_value out (codes "invalid OpenAI request body: " ++ message)))),
    state,
  )
  tool_request state (inr (model, payload)) =
      passed_through
        (call_provider out (send_openai_passthrough_request state.calls model payload) state)

  abbrev pub missing : Text → Response
  missing what = json_response host 500 (error_value out what)

  abbrev pub offline : Response
  offline = json_response host 503 (error_value out (codes "offline mode active"))

  abbrev pub prompt_request :
      (Text → Text → Payload V)
      → (Text → Payload V)
      → List ℕ
      → Text
      → AppState C E F
      → Option Response × AppState C E F
  prompt_request answer error canonical_body resolved_model state =
      let prompt = extract_prompt json from_slice from_utf8_lossy canonical_body in
      resolve out (λ text. answer text resolved_model) (failed error)
        (call_provider out (out.chat state.calls prompt resolved_model) state)

  abbrev pub openai_body : AppState C E F → Option (List ℕ) → Option Response × AppState C E F
  openai_body state none = (some (missing (codes "missing buffered body")), state)
  openai_body state (some body) =
      let (canonical_body, resolved_model) = canonicalize_request_body_model host config body in
      let tools = tool_request state (openai_request_from_slice canonical_body) in
      let plain =
        prompt_request openai_chat (error_value out) canonical_body resolved_model state in
      if has_tooling json from_slice canonical_body then tools else plain

  unfoldable pub openai_chat_completions_handler :
      Request → AppState C E F → Option Response × AppState C E F
  unfolding send_openai_passthrough_request
  openai_chat_completions_handler request state =
      if config.offline_mode then (some offline, state) else openai_body state request.buffered_body

  abbrev pub anthropic_error : Text → Payload V
  anthropic_error message = value (
      object (
        (codes "type", string (codes "error"))
        ∷ (
          codes "error",
          object
              ((codes "type", string (codes "api_error")) ∷ (codes "message", string message) ∷ []),
        )
        ∷ []))

  abbrev pub anthropic_answer : List Call → Text → Text → Payload V
  anthropic_answer calls text model = value (build_json_response host (out.uuid calls) text model)

  abbrev pub anthropic_body : AppState C E F → Option (List ℕ) → Option Response × AppState C E F
  anthropic_body state none = (some (missing (codes "missing buffered body")), state)
  anthropic_body state (some body) =
      let (canonical_body, resolved_model) = canonicalize_request_body_model host config body in
      prompt_request (anthropic_answer state.calls) anthropic_error canonical_body resolved_model
        state

  unfoldable pub anthropic_messages_handler :
      Request → AppState C E F → Option Response × AppState C E F
  anthropic_messages_handler request state =
      if config.offline_mode
      then (some offline, state)
      else anthropic_body state request.buffered_body
