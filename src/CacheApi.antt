-- ===== src/CacheApi.antt =====
-- src/handler.rs: the endpoints that look up and store in the caches for MCP clients. The parser of a
-- `CacheStoreRequest` is an argument. The prompt statistics are left out.
pub mod RoundTrip
mod Tests
use isartor.Common.{
  ℕ, ◌*◌, Text, codes, is_empty, Bool, true, false, leb, if◌then◌else◌, Option, none, some, List,
  [], ◌∷◌, length, and_then, unwrap_or, map_or,
}
use isartor.CacheScope.{
  build_exact_cache_key, extract_session_cache_scope, namespaced_semantic_cache_input,
}
use isartor.Prompt.{str_field}
use isartor.Http.{Response, Payload, value, json_response, content_type}
use isartor.ExactCache.{get, put}
use isartor.VectorCache.{search, insert}
use isartor.AppState.{AppState, Outside, generate_embedding, log}

pub record CacheStoreRequest : Type 0 where
  pub prompt : Text
  pub response : Text
  pub model : Text

-- The body is `none` if it cannot be read.
pub record ApiRequest : Type 0 where
  pub header : Text → Option Text
  pub body : Option (List ℕ)

-- `axum::body::to_bytes(body, limit)`
abbrev pub to_bytes : Option (List ℕ) → ℕ → Option (List ℕ)
to_bytes none limit = none
to_bytes (some bytes) limit = if leb (length bytes) limit then some bytes else none

module _ {V C E F : Type 0} (out : Outside V C E F) where
  open out use {host, lru, floats}
  open host use {json, as_object, from_slice, as_bytes, sha256, hex_encode, chat_response_to_string}
  open host.json use {object, string, boolean}

  abbrev pub error_response : ℕ → Text → Response
  error_response status message =
      json_response host status (value (object ((codes "error", string message) ∷ [])))

  abbrev pub hit_response : Text → Text → Response
  hit_response layer cached = record {
    status = 200;
    headers =
        (codes "X-Isartor-Layer", layer)
        ∷ (codes "X-Isartor-Deflected", codes "true")
        ∷ (content_type, codes "application/json")
        ∷ [];
    body = some (as_bytes cached);
    final_layer = none;
  }

  abbrev pub no_content : Response
  no_content = record { status = 204; headers = []; body = some []; final_layer = none }

  abbrev pub scope_of : ApiRequest → List ℕ → Option Text
  scope_of request body =
      extract_session_cache_scope sha256 hex_encode json as_object from_slice request.header body

  abbrev pub api_key : Text → Option Text → Text
  api_key prompt scope = build_exact_cache_key sha256 hex_encode (codes "native") prompt scope

  abbrev pub prompt_of : List ℕ → Text
  prompt_of body =
      unwrap_or [] (and_then (from_slice body) (λ v. str_field json v (codes "prompt")))

  abbrev pub semantic_found : Option Text → Response
  semantic_found none = no_content
  semantic_found (some cached) = hit_response (codes "l1b") cached

  -- The semantic lookup, at the embedding.
  abbrev pub semantic_lookup : Option Text → AppState C E F → Option (List E) → Response
  semantic_lookup scope state none = no_content
  semantic_lookup scope state (some embedding) =
      semantic_found
        (search floats state.vector_cache (out.searched_at state.calls) embedding scope)

  -- At what the exact cache has.
  abbrev pub exact_found :
      Text → Option Text → AppState C E F → Option Text → Response × AppState C E F
  exact_found prompt scope state (some cached) = (hit_response (codes "l1a") cached, state)
  exact_found prompt scope state none =
      let input = namespaced_semantic_cache_input (codes "native") prompt in
      let logged = log (generate_embedding input) state in
      (semantic_lookup scope logged (out.embedding state.calls input), logged)

  abbrev pub lookup_prompt : Text → Option Text → AppState C E F → Bool → Response × AppState C E F
  lookup_prompt prompt scope state true = (error_response 400 (codes "prompt is required"), state)
  lookup_prompt prompt scope state false =
      let (found, cache) = get lru state.exact_cache (api_key prompt scope) in
      exact_found prompt scope (record state { exact_cache = cache }) found

  abbrev pub lookup_body : ApiRequest → AppState C E F → Option (List ℕ) → Response × AppState C E F
  lookup_body request state none = (error_response 400 (codes "invalid body"), state)
  lookup_body request state (some body) =
      lookup_prompt (prompt_of body) (scope_of request body) state (is_empty (prompt_of body))

  unfoldable pub cache_lookup_handler : ApiRequest → AppState C E F → Response × AppState C E F
  cache_lookup_handler request state = lookup_body request state (to_bytes request.body (1024 * 64))

  module _ (cache_store_request_from_slice : List ℕ → Option CacheStoreRequest) where
    unfoldable pub cached_json : CacheStoreRequest → Text
    cached_json req = unwrap_or [] (
        chat_response_to_string (record {
          layer = 1;
          message = req.response;
          model = some (if is_empty req.model then codes "cached" else req.model);
        }))

    -- The insertion of an embedded prompt; `none` is its panic.
    abbrev pub store_semantic :
        Text → Option Text → AppState C E F → Option (List E) → Option (AppState C E F)
    store_semantic text scope state none = some state
    store_semantic text scope state (some embedding) =
        map_or none (λ cache. some (record state { vector_cache = cache }))
          (insert state.vector_cache (out.inserted_at state.calls) embedding text scope)

    abbrev pub stored : Response
    stored = json_response host 200 (value (object ((codes "stored", boolean true) ∷ [])))

    -- `none` is a panic, which ends the process and its caches with it: the release profile aborts.
    abbrev pub finished : Option (AppState C E F) → Option (Response × AppState C E F)
    finished none = none
    finished (some state) = some (stored, state)

    abbrev pub store_request :
        Option Text → AppState C E F → Option CacheStoreRequest → Option (Response × AppState C E F)
    store_request scope state none =
        some (error_response 400 (codes "prompt and response are required"), state)
    store_request scope state (some req) =
        let input = namespaced_semantic_cache_input (codes "native") req.prompt in
        let kept : AppState C E F = record state {
          exact_cache = put lru state.exact_cache (api_key req.prompt scope) (cached_json req);
        } in
        let logged = log (generate_embedding input) kept in
        finished (store_semantic (cached_json req) scope logged (out.embedding state.calls input))

    abbrev pub store_body :
        ApiRequest → AppState C E F → Option (List ℕ) → Option (Response × AppState C E F)
    store_body request state none = some (error_response 400 (codes "invalid body"), state)
    store_body request state (some body) =
        store_request (scope_of request body) state (cache_store_request_from_slice body)

    unfoldable pub cache_store_handler :
        ApiRequest → AppState C E F → Option (Response × AppState C E F)
    unfolding cached_json
    cache_store_handler request state =
        store_body request state (to_bytes request.body (1024 * 256))
