-- ===== src/CacheLayer.antt =====
-- src/middleware/cache.rs: layer 1, the exact and the semantic cache in front of the rest of the stack.
-- The extension with the application's state, which the first layer inserts, is there. Metrics are left
-- out.
pub mod Repeat
pub mod Failures
pub mod Spending
mod Tests
use isartor.Common.{
  ℕ, Text, codes, text_eq, Bool, true, false, not, ◌&&◌, if◌then◌else◌, Option, none, some, List,
  [], ◌∷◌, ◌++◌, unwrap_or, map_or,
}
use isartor.CacheScope.{
  build_exact_cache_key, extract_session_cache_scope, namespaced_semantic_cache_input,
}
use isartor.Prompt.{
  extract_cache_key, extract_request_model, extract_semantic_key, has_tooling,
  override_request_model,
}
use isartor.Config.{
  AppConfig, CacheMode, exact, semantic, both, configured_model_id, resolve_model_alias,
}
use isartor.Http.{
  Host, Request, Response, ChatResponse, FinalLayer, exact_cache, semantic_cache, chat, Payload,
  json_response, json_text_response, misconfigured, is_success,
}
use isartor.Sse.{is_streaming_request}
use isartor.Sse.OpenAi
use isartor.Sse.Anthropic
use isartor.ExactCache.{get, put}
use isartor.VectorCache.{search, insert}
use isartor.CacheKeys.{Lookup, lookup_of}
use isartor.AppState.{AppState, Outside, Call, Next, generate_embedding, log}

module _ {V : Type 0} (host : Host V) where
  open host use {from_utf8_lossy, chat_response_from_slice, chat_response_to_string}

  -- What is stored for a response body: native answers count as answers of layer 1.
  abbrev pub relabelled : Text → Option ChatResponse → Text
  relabelled resp_string none = resp_string
  relabelled resp_string (some parsed) =
      unwrap_or resp_string (chat_response_to_string (record parsed { layer = 1 }))

  unfoldable pub cache_value : List ℕ → Text
  cache_value resp_bytes =
      relabelled (from_utf8_lossy resp_bytes) (chat_response_from_slice resp_bytes)

module _ {V C E F : Type 0} (out : Outside V C E F) where
  open out use {host, lru, floats, unix_secs, uuid, searched_at, inserted_at}

  module _ (calls : List Call) where
    unfoldable pub streaming_cache_response : Text → Text → Text → Option Response
    streaming_cache_response cache_ns cached_json model_fallback =
        if text_eq cache_ns (codes "anthropic")
        then some (Anthropic.cached_to_sse_response host (uuid calls) cached_json model_fallback)
        else if text_eq cache_ns (codes "openai")
        then some (
            OpenAi.cached_to_sse_response host (uuid calls) (unix_secs calls) cached_json
              model_fallback)
        else none

    unfoldable pub hit_response : Lookup → FinalLayer → Text → Response
    unfolding streaming_cache_response
    hit_response lookup layer cached =
        let plain = json_text_response host 200 cached in
        let response =
          if lookup.is_streaming
          then unwrap_or plain
              (streaming_cache_response lookup.cache_ns cached lookup.resolved_model)
          else plain in
        record response { final_layer = some layer }

    -- The response of the rest of the stack, as events if the client reads a stream.
    abbrev pub converted : Response → Option Response → Response
    converted response none = response
    converted response (some sse) = record sse { final_layer = response.final_layer }

    unfoldable pub downstream_response : Lookup → Response → List ℕ → Response
    unfolding streaming_cache_response
    downstream_response lookup response resp_bytes =
        if lookup.is_streaming && is_success response.status
        then converted response (
            streaming_cache_response lookup.cache_ns (host.from_utf8_lossy resp_bytes)
              lookup.resolved_model)
        else response

  module _ (next : Next C E F) where
    abbrev pub store_exact : Option Text → Text → AppState C E F → AppState C E F
    store_exact none value state = state
    store_exact (some key) value state = record state {
      exact_cache = put lru state.exact_cache key value;
    }

    -- No state is the panic of an insertion.
    abbrev pub store_semantic :
        Option (List E) → Option Text → Text → AppState C E F → Option (AppState C E F)
    store_semantic none scope value state = some state
    store_semantic (some emb) scope value state =
        map_or none (λ cache. some (record state { vector_cache = cache }))
          (insert state.vector_cache (inserted_at state.calls) emb value scope)

    abbrev pub answered :
        Response → AppState C E F → Option (AppState C E F) → Option Response × AppState C E F
    answered response before none = (none, before)
    answered response before (some state) = (some response, state)

    abbrev pub unreadable : Payload V
    unreadable =
        chat
          (record { layer = 1; message = codes "Failed to read downstream response"; model = none })

    -- Step 5, at the body of the response and whether it is a success.
    abbrev pub capture :
        Lookup
        → Option (List E)
        → Response
        → AppState C E F
        → Option (List ℕ)
        → Bool
        → Option Response × AppState C E F
    capture lookup embedding response state none success =
        (some (json_response host 502 unreadable), state)
    capture lookup embedding response state (some resp_bytes) false =
        (some (downstream_response state.calls lookup response resp_bytes), state)
    capture lookup embedding response state (some resp_bytes) true =
        let value = cache_value host resp_bytes in
        let stored = store_exact lookup.exact_key value state in
        answered (downstream_response state.calls lookup response resp_bytes) stored
          (store_semantic embedding lookup.session_cache_scope value stored)

    -- Step 4.
    abbrev pub forwarded :
        Lookup
        → Option (List E)
        → Option Response × AppState C E F
        → Option Response × AppState C E F
    forwarded lookup embedding (none, state) = (none, state)
    forwarded lookup embedding (some response, state) =
        capture lookup embedding response state response.body (is_success response.status)

    -- Step 3, at the embedding and at what the search finds.
    abbrev pub semantic_found :
        Lookup
        → Request
        → Option (List E)
        → AppState C E F
        → Option Text
        → Option Response × AppState C E F
    semantic_found lookup request embedding state (some cached) =
        (some (hit_response state.calls lookup semantic_cache cached), state)
    semantic_found lookup request embedding state none =
        forwarded lookup embedding (next request state)

    abbrev pub semantic_search : Lookup → Option (List E) → AppState C E F → Option Text
    semantic_search lookup none state = none
    semantic_search lookup (some emb) state =
        search floats state.vector_cache (searched_at state.calls) emb lookup.session_cache_scope

    abbrev pub semantic_lookup :
        Lookup → Request → AppState C E F → Option Text → Option Response × AppState C E F
    semantic_lookup lookup request state none = semantic_found lookup request none state none
    semantic_lookup lookup request state (some prompt) =
        let embedding = out.embedding state.calls prompt in
        let state = log (generate_embedding prompt) state in
        semantic_found lookup request embedding state (semantic_search lookup embedding state)

    -- Step 2, at what the exact cache has.
    abbrev pub exact_found :
        Lookup → Request → AppState C E F → Option Text → Option Response × AppState C E F
    exact_found lookup request state (some cached) =
        (some (hit_response state.calls lookup exact_cache cached), state)
    exact_found lookup request state none =
        semantic_lookup lookup request state lookup.semantic_prompt

    abbrev pub exact_lookup :
        Lookup → Request → AppState C E F → Option Text → Option Response × AppState C E F
    exact_lookup lookup request state none = exact_found lookup request state none
    exact_lookup lookup request state (some key) =
        let (found, cache) = get lru state.exact_cache key in
        exact_found lookup request (record state { exact_cache = cache }) found

    -- At the extension `BufferedBody`.
    abbrev pub with_body :
        AppConfig → Request → AppState C E F → Option (List ℕ) → Option Response × AppState C E F
    with_body config request state none = (
      some (misconfigured host 1 (codes "Firewall misconfiguration: missing buffered body")),
      state,
    )
    with_body config request state (some body) =
        let lookup = lookup_of host config request body in
        exact_lookup lookup request state lookup.exact_key

    unfoldable pub cache_middleware :
        AppConfig → Request → AppState C E F → Option Response × AppState C E F
    cache_middleware config request state = with_body config request state request.buffered_body
