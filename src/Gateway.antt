-- ===== src/Gateway.antt =====
-- src/main.rs: the authenticated routes behind their layers, from the body buffer to the handler; with
-- what src/middleware/body_buffer.rs and src/middleware/monitoring.rs do to a request and its response.
-- The extension with the application's state is there; metrics and the request log are left out.
pub mod Blocked
pub mod Spending
pub mod Offline
pub mod Deflected
mod Tests
use isartor.Common.{
  ℕ, Text, codes, leb, ltb, ◌&&◌, Bool, true, false, if◌then◌else◌, Option, none, some, List, [],
  ◌∷◌, map_or, unwrap_or,
}
use isartor.Auth.{Decision, internal_server_error, run_next, unauthorized, auth_middleware}
use isartor.Config.{AppConfig}
use isartor.Http.{
  Request, Response, Payload, value, FinalLayer, auth_blocked, exact_cache, semantic_cache, slm,
  cloud, content_type, json_response,
}
use isartor.AppState.{AppState, Outside, Next}
use isartor.CacheLayer.{cache_middleware}
use isartor.Triage.{slm_triage_middleware}
use isartor.ContextLayer.{context_optimizer_middleware}
use isartor.Handlers.Native.{chat_handler}
use isartor.Handlers.Compat.{openai_chat_completions_handler, anthropic_messages_handler}

pub data Route : Type 0 where
  api_chat api_v1_chat chat_completions messages : Route

abbrev pub path_of : Route → Text
path_of api_chat = codes "/api/chat"
path_of api_v1_chat = codes "/api/v1/chat"
path_of chat_completions = codes "/v1/chat/completions"
path_of messages = codes "/v1/messages"

-- A request as it comes in: its body is `none` if it cannot be read.
pub record Incoming : Type 0 where
  pub route : Route
  pub header : Text → Option Text
  pub body : Option (List ℕ)

unfoldable pub as_header_value : FinalLayer → Text
as_header_value auth_blocked = codes "l0"
as_header_value exact_cache = codes "l1a"
as_header_value semantic_cache = codes "l1b"
as_header_value slm = codes "l2"
as_header_value cloud = codes "l3"

unfoldable pub is_deflected : FinalLayer → Bool
is_deflected cloud = false
is_deflected _ = true

abbrev pub is_client_error : ℕ → Bool
is_client_error status = leb 400 status && ltb status 500

unfoldable pub final_layer_of : Response → FinalLayer
final_layer_of response =
    unwrap_or (if is_client_error response.status then auth_blocked else cloud) response.final_layer

-- `root_monitoring_middleware` after the rest of the stack.
unfoldable pub monitored : Response → Response
unfolding final_layer_of as_header_value is_deflected
monitored response =
    let layer = final_layer_of response in
    let deflected = if is_deflected layer then codes "true" else codes "false" in
    record response {
      headers =
          (codes "X-Isartor-Layer", as_header_value layer)
          ∷ (codes "X-Isartor-Deflected", deflected)
          ∷ response.headers;
    }

module _ {V C E F : Type 0} (out : Outside V C E F) (config : AppConfig)
    (gateway_api_key : Text) where
  open out use {host}
  open host use {as_bytes}
  open host.json use {object, string}

  unfoldable pub handler : Route → Next C E F
  handler api_chat request state = chat_handler out config request state
  handler api_v1_chat request state = chat_handler out config request state
  handler chat_completions request state = openai_chat_completions_handler out config request state
  handler messages request state = anthropic_messages_handler out config request state

  abbrev pub behind_triage : Route → Next C E F
  behind_triage route request state =
      context_optimizer_middleware out config (handler route) request state

  abbrev pub behind_cache : Route → Next C E F
  behind_cache route request state =
      slm_triage_middleware out config (behind_triage route) request state

  abbrev pub behind_auth : Route → Next C E F
  behind_auth route request state = cache_middleware out (behind_cache route) config request state

  unfoldable pub unauthorized_response : Response
  unauthorized_response =
      record (json_response host 401 (
        value (
          object (
            (codes "error", string (codes "Unauthorized"))
            ∷ (
              codes "message",
              string (codes "Missing or invalid X-API-Key header (or Authorization: Bearer)"),
            )
            ∷ [])))) { final_layer = some auth_blocked }

  abbrev pub misconfigured_response : Response
  misconfigured_response = json_response host 500 (
      value (
        object (
          (codes "error", string (codes "Internal Server Error"))
          ∷ (codes "message", string (codes "Firewall misconfiguration: missing application state"))
          ∷ [])))

  abbrev pub decided :
      Decision → Route → Request → AppState C E F → Option Response × AppState C E F
  decided internal_server_error route request state = (some misconfigured_response, state)
  decided unauthorized route request state = (some unauthorized_response, state)
  decided run_next route request state = behind_auth route request state

  abbrev pub monitoring : Option Response × AppState C E F → Option Response × AppState C E F
  monitoring (none, state) = (none, state)
  monitoring (some response, state) = (some (monitored response), state)

  abbrev pub unreadable_response : Response
  unreadable_response = record {
    status = 400;
    headers = (content_type, codes "text/plain; charset=utf-8") ∷ [];
    body = some (as_bytes (codes "Failed to read request body"));
    final_layer = none;
  }

  -- `buffer_body_middleware`, at the body.
  abbrev pub buffered :
      Incoming → AppState C E F → Option (List ℕ) → Option Response × AppState C E F
  buffered incoming state none = (some unreadable_response, state)
  buffered incoming state (some body) =
      let request : Request = record {
        path = path_of incoming.route;
        header = incoming.header;
        buffered_body = some body;
      } in
      monitoring (
        decided (auth_middleware (some gateway_api_key) incoming.header) incoming.route request
          state)

  unfoldable pub serve : Incoming → AppState C E F → Option Response × AppState C E F
  unfolding monitored handler unauthorized_response
  serve incoming state = buffered incoming state incoming.body
