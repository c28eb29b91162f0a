-- ===== src/Triage.antt =====
-- src/middleware/slm_triage.rs: layer 2, which lets a local model classify a prompt and answer the simple
-- ones. The local model is a sidecar, called over HTTP, or the classifier of the feature
-- `embedded-inference`. The extension with the application's state is there; metrics are left out.
pub mod Answers
pub mod Spending
mod Tests
use isartor.Common.{
  ℕ, Text, codes, text_eq, trim, reverse, byte_len, starts_with, contains, any, Bool, true, false,
  not, ◌||◌, ◌&&◌, ◌==◌, ltb, if◌then◌else◌, Option, none, some, List, [], ◌∷◌, ◌++◌, map_or,
  unwrap_or,
}
use isartor.Json.{Json}
use isartor.Prompt.{extract_semantic_key}
use isartor.Config.{AppConfig, ClassifierMode, tiered, binary, embedded, sidecar}
use isartor.Http.{
  Host, Request, Response, Payload, chat, openai_chat, value, slm, json_response, misconfigured,
}
use isartor.Providers.{trim_end_slashes}
use isartor.AppState.{
  AppState, Outside, Classifier, Call, Next, ChatCompletionRequest, ChatMessage, sidecar_chat,
  embedded_classify, embedded_execute, log,
}

abbrev pub classify_system_prompt : Text
classify_system_prompt =
    codes
      "You are a request classifier. Decide whether the following user prompt is SIMPLE (can be answered with a short factual response, a greeting, or basic knowledge) or COMPLEX (requires deep reasoning, code generation, creative writing, or multi-step analysis).\n\nReply with EXACTLY one word: SIMPLE or COMPLEX."

abbrev pub classify_tiered_system_prompt : Text
classify_tiered_system_prompt =
    codes
      "You are a coding task classifier for a local small language model.\nClassify the prompt into exactly one category:\n\n"
    ++ (codes
          "TEMPLATE — The task produces a configuration file (tsconfig, package.json, Dockerfile, docker-compose, jest.config, .gitignore, .env, ESLint config), a TypeScript/JavaScript type or interface definition, or documentation (README, JSDoc, code comments). Output is predictable and template-like.\n\n"
        ++ (codes
              "SNIPPET — The task produces a single short code file or function (under 50 lines), such as a server entry point, a simple validation function, a basic middleware, or a data type with minimal logic. Does NOT reference or import multiple project-specific modules.\n\n"
            ++ (codes
                  "COMPLEX — The task requires generating substantial code (over 50 lines), implements full CRUD endpoints, writes test suites, builds frontend pages, imports from multiple project files, or requires understanding project-wide architecture.\n\n"
                ++ codes "Reply with EXACTLY one word: TEMPLATE, SNIPPET, or COMPLEX.")))

abbrev pub uncertainty : List Text
uncertainty =
    codes "i don't know"
    ∷ codes "i'm not sure"
    ∷ codes "i cannot"
    ∷ codes "i can't"
    ∷ codes "as an ai"
    ∷ codes "i am unable"
    ∷ []

abbrev pub is_tiered : ClassifierMode → Bool
is_tiered tiered = true
is_tiered binary = false

unfoldable pub deflects_label : ClassifierMode → Text → Bool
deflects_label tiered label =
    text_eq label (codes "TEMPLATE")
    || text_eq label (codes "SNIPPET")
    || text_eq label (codes "SIMPLE")
deflects_label binary label = text_eq label (codes "SIMPLE")

unfoldable pub deflects_answer : ClassifierMode → Text → Bool
deflects_answer tiered answer =
    contains (codes "TEMPLATE") answer || contains (codes "SNIPPET") answer
deflects_answer binary answer = contains (codes "SIMPLE") answer

-- `choices.into_iter().next().map(|c| c.message.content).unwrap_or_default()`
abbrev pub first_content : List Text → Text
first_content [] = []
first_content (content ∷ contents) = content

module _ {V C E F : Type 0} (out : Outside V C E F) where
  open out use {host, embedded_classifier}
  open host use {json, from_slice, from_utf8_lossy, to_lowercase, to_uppercase}
  open host.json use {object, array, string}

  unfoldable pub answer_quality_ok : Text → Bool
  answer_quality_ok answer =
      let trimmed = trim answer in
      if ltb (byte_len trimmed) 10
      then false
      else not (any (λ u. starts_with u (to_lowercase trimmed)) uncertainty)

  unfoldable pub slm_response_for_path : Text → ℕ → Text → Text → Response
  slm_response_for_path path status answer model =
      if text_eq path (codes "/v1/chat/completions")
      then json_response host status (openai_chat answer model)
      else if text_eq path (codes "/v1/messages")
      then json_response host status (
          value (
            object (
              (
                codes "content",
                array (
                    object
                      ((codes "type", string (codes "text")) ∷ (codes "text", string answer) ∷ [])
                    ∷ []),
              )
              ∷ (codes "model", string model)
              ∷ [])))
      else json_response host status
          (chat (record { layer = 2; message = answer; model = some model }))

  module _ (config : AppConfig) where
    abbrev pub chat_completions_url : Text
    chat_completions_url = trim_end_slashes config.sidecar_url ++ codes "/v1/chat/completions"

    unfoldable pub classify_request : Text → ChatCompletionRequest
    classify_request prompt =
        let system_prompt =
          if is_tiered config.classifier_mode
          then classify_tiered_system_prompt
          else classify_system_prompt in
        record {
          model = config.sidecar_model_name;
          messages =
              record { role = codes "system"; content = system_prompt }
              ∷ record { role = codes "user"; content = prompt }
              ∷ [];
          stream = false;
          deterministic = true;
          max_tokens = 10;
        }

    unfoldable pub answer_request : Text → ChatCompletionRequest
    answer_request prompt = record {
      model = config.sidecar_model_name;
      messages = record { role = codes "user"; content = prompt } ∷ [];
      stream = false;
      deterministic = false;
      max_tokens = config.max_answer_tokens;
    }

    -- Whether the local model can answer, by the engine; a failure is a no.
    unfoldable pub is_deflectable : Text → AppState C E F → Bool × AppState C E F
    unfolding classify_request deflects_label deflects_answer
    is_deflectable prompt state = elim config.inference_engine [
      | embedded ↦ elim embedded_classifier [
        | none ↦ (false, state)
        | some classifier ↦ (
          map_or false (deflects_label config.classifier_mode)
              (classifier.classify state.calls prompt),
          log (embedded_classify prompt) state,
        )
      ]
      | sidecar ↦ (
        map_or false
            (λ contents.
              deflects_answer config.classifier_mode (to_uppercase (trim (first_content contents))))
            (out.sidecar state.calls chat_completions_url (classify_request prompt)),
        log (sidecar_chat chat_completions_url (classify_request prompt)) state,
      )
    ]

    -- The answer of the local model, and the name of the model.
    unfoldable pub local_answer : Text → AppState C E F → Option (Text × Text) × AppState C E F
    unfolding answer_request
    local_answer prompt state = elim config.inference_engine [
      | embedded ↦ elim embedded_classifier [
        | none ↦ (none, state)
        | some classifier ↦ (
          map_or none (λ answer. some (answer, codes "embedded(gemma-2)"))
              (classifier.execute state.calls prompt),
          log (embedded_execute prompt) state,
        )
      ]
      | sidecar ↦ (
        map_or none (λ contents. some (first_content contents, config.sidecar_model_name))
            (out.sidecar state.calls chat_completions_url (answer_request prompt)),
        log (sidecar_chat chat_completions_url (answer_request prompt)) state,
      )
    ]

    module _ (next : Next C E F) (request : Request) where
      abbrev pub answered : Text → Text → Response
      answered answer model = record (slm_response_for_path request.path 200 answer model) {
        final_layer = some slm;
      }

      -- At the answer, and whether it passes the quality guard.
      abbrev pub guarded : Text → Text → AppState C E F → Bool → Option Response × AppState C E F
      guarded answer model state true = (some (answered answer model), state)
      guarded answer model state false = next request state

      abbrev pub deflected :
          Option (Text × Text) × AppState C E F → Option Response × AppState C E F
      deflected (none, state) = next request state
      deflected (some (answer, model), state) =
          guarded answer model state (answer_quality_ok answer)

      abbrev pub triaged : Text → Bool × AppState C E F → Option Response × AppState C E F
      triaged prompt (false, state) = next request state
      triaged prompt (true, state) = deflected (local_answer prompt state)

      abbrev pub with_body : AppState C E F → Option (List ℕ) → Option Response × AppState C E F
      with_body state none = (
        some (misconfigured host 2 (codes "Firewall misconfiguration: missing buffered body")),
        state,
      )
      with_body state (some body) =
          let prompt = extract_semantic_key json from_slice from_utf8_lossy body in
          triaged prompt (is_deflectable prompt state)

      unfoldable pub slm_triage_middleware : AppState C E F → Option Response × AppState C E F
      slm_triage_middleware state =
          if config.enable_slm_router
          then with_body state request.buffered_body
          else next request state
