-- ===== src/Handlers/Spending.antt =====
-- What the handlers spend (src/handler.rs): nothing in offline mode; and an answer that the provider was
-- called for is labelled as the cloud's.
use isartor.Common.{
  ℕ, Text, Bool, true, false, Option, none, some, List, ◌≡◌, ◌⊎◌, inl, inr, refl, if◌then◌else◌,
  if_both,
}
use isartor.Prompt.{has_tooling}
use isartor.Config.{AppConfig}
use isartor.Errors.{GatewayError}
use isartor.Retry.{Returned, ok, err}
use isartor.Http.{Request, Response, Payload, openai_chat, cloud}
use isartor.AppState.{AppState, Outside}
use isartor.AppState.Spending.{Spent}
use isartor.Handlers.{error_value, resolve, after_failure, record_provider_failure}
use isartor.Handlers.Native.{chat_handler, stale_response, stale_fallback}
use isartor.Handlers.Native
use isartor.Handlers.Compat.{
  passed_through, tool_request, prompt_request, openai_body, anthropic_body, anthropic_answer,
  anthropic_error, openai_chat_completions_handler, anthropic_messages_handler,
}
use isartor.CacheKeys.{canonicalize_request_body_model}

-- A panic, or a response labelled as the cloud's.
abbrev pub Cloudy : Option Response → Type 0
Cloudy none = Unit
Cloudy (some r) = r.final_layer ≡ some cloud

module _ {V C E F : Type 0} (out : Outside V C E F) where
  after_failure-Cloudy :
      (respond : AppState C E F → Response × AppState C E F) (o : Bool × AppState C E F)
      → ((state : AppState C E F) → (respond state).0.final_layer ≡ some cloud)
      → Cloudy (after_failure out respond o).0
  after_failure-Cloudy respond (false, state) h = tt
  after_failure-Cloudy respond (true, state) h = h state

  resolve-Cloudy :
      (answer : Text → Payload V)
      (failure : GatewayError → AppState C E F → Response × AppState C E F)
      (o : Returned Text × AppState C E F)
      → ((e : GatewayError) (state : AppState C E F) → (failure e state).0.final_layer ≡ some cloud)
      → Cloudy (resolve out answer failure o).0
  resolve-Cloudy answer failure (Returned.panicked, state) h = tt
  resolve-Cloudy answer failure (Returned.result (ok text), state) h = refl
  resolve-Cloudy answer failure (Returned.result (err e), state) h =
      after_failure-Cloudy (failure e) (record_provider_failure out e state) (h e)

  stale_response-Cloudy :
      (e : GatewayError) (found : Option Text)
      → (stale_response out e found).final_layer ≡ some cloud
  stale_response-Cloudy e none = refl
  stale_response-Cloudy e (some cached) = refl

  module _ (config : AppConfig) (request : Request) (state : AppState C E F) where
    chat_body-Spent :
        (body : Option (List ℕ))
        → Spent Cloudy state (Native.with_body out config request state body)
    unfolding stale_fallback
    chat_body-Spent none = inl refl
    chat_body-Spent (some body) = inr (resolve-Cloudy _ _ _ (λ e s. stale_response-Cloudy e _))

    prompt_request-Cloudy :
        (answer : Text → Text → Payload V) (error : Text → Payload V) (canonical_body : List ℕ)
        (resolved_model : Text)
        → Cloudy (prompt_request out config answer error canonical_body resolved_model state).0
    prompt_request-Cloudy answer error canonical_body resolved_model =
        resolve-Cloudy _ _ _ (λ e s. refl)

    passed_through-Cloudy :
        (o : Returned Text × AppState C E F) → Cloudy (passed_through out config o).0
    passed_through-Cloudy (Returned.panicked, s) = tt
    passed_through-Cloudy (Returned.result (ok body), s) = refl
    passed_through-Cloudy (Returned.result (err e), s) =
        after_failure-Cloudy _ (record_provider_failure out e s) (λ s'. refl)

    tool_request-Cloudy :
        (parsed : Text ⊎ (Text × V)) → Cloudy (tool_request out config state parsed).0
    tool_request-Cloudy (inl message) = refl
    tool_request-Cloudy (inr (model, payload)) = passed_through-Cloudy _

    openai_body-Cloudy :
        (canonical_body : List ℕ) (resolved_model : Text)
        → Cloudy
            (if has_tooling out.host.json out.host.from_slice canonical_body
              then tool_request out config state (out.host.openai_request_from_slice canonical_body)
              else prompt_request out config openai_chat
                  (error_value out)
                  canonical_body
                  resolved_model
                  state).0
    openai_body-Cloudy canonical_body resolved_model =
        if_both (λ (o : Option Response × AppState C E F). Cloudy o.0)
          (has_tooling out.host.json out.host.from_slice canonical_body) _ _
          (tool_request-Cloudy (out.host.openai_request_from_slice canonical_body))
          (prompt_request-Cloudy openai_chat (error_value out) canonical_body resolved_model)

    openai_body-Spent :
        (body : Option (List ℕ)) → Spent Cloudy state (openai_body out config state body)
    openai_body-Spent none = inl refl
    openai_body-Spent (some body) =
        let (canonical_body, resolved_model) =
          canonicalize_request_body_model out.host config body in
        inr (openai_body-Cloudy canonical_body resolved_model)

    anthropic_body-Spent :
        (body : Option (List ℕ)) → Spent Cloudy state (anthropic_body out config state body)
    anthropic_body-Spent none = inl refl
    anthropic_body-Spent (some body) =
        let (canonical_body, resolved_model) =
          canonicalize_request_body_model out.host config body in
        inr (
          prompt_request-Cloudy (anthropic_answer out config state.calls)
            (anthropic_error out config) canonical_body resolved_model)

    pub chat_handler-Spent : Spent Cloudy state (chat_handler out config request state)
    unfolding chat_handler
    chat_handler-Spent =
        if_both (Spent Cloudy state) config.offline_mode _ _ (inl refl)
          (chat_body-Spent request.buffered_body)

    pub openai_handler-Spent :
        Spent Cloudy state (openai_chat_completions_handler out config request state)
    unfolding openai_chat_completions_handler
    openai_handler-Spent =
        if_both (Spent Cloudy state) config.offline_mode _ _ (inl refl)
          (openai_body-Spent request.buffered_body)

    pub anthropic_handler-Spent :
        Spent Cloudy state (anthropic_messages_handler out config request state)
    unfolding anthropic_messages_handler
    anthropic_handler-Spent =
        if_both (Spent Cloudy state) config.offline_mode _ _ (inl refl)
          (anthropic_body-Spent request.buffered_body)

    -- In offline mode the handlers leave the state as it is.
    pub chat_handler-offline :
        config.offline_mode ≡ true → (chat_handler out config request state).1 ≡ state
    unfolding chat_handler
    chat_handler-offline h = rw (h, chat_handler) refl

    pub openai_handler-offline :
        config.offline_mode ≡ true
        → (openai_chat_completions_handler out config request state).1 ≡ state
    unfolding openai_chat_completions_handler
    openai_handler-offline h = rw (h, openai_chat_completions_handler) refl

    pub anthropic_handler-offline :
        config.offline_mode ≡ true → (anthropic_messages_handler out config request state).1 ≡ state
    unfolding anthropic_messages_handler
    anthropic_handler-offline h = rw (h, anthropic_messages_handler) refl
