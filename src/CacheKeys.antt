-- ===== src/CacheKeys.antt =====
-- What layers 1 and 3 compute of a request (src/middleware/cache.rs, src/handler.rs): its model, its
-- canonical body, its keys, and the prompt to embed.
use isartor.Common.{
  ℕ, Text, codes, text_eq, Bool, true, false, not, ◌&&◌, if◌then◌else◌, Option, none, some, List,
  ◌++◌, map_or,
}
use isartor.CacheScope.{
  build_exact_cache_key, extract_session_cache_scope, namespaced_semantic_cache_input,
}
use isartor.Prompt.{
  extract_cache_key, extract_request_model, extract_semantic_key, has_tooling,
  override_request_model,
}
use isartor.Config.{
  AppConfig, CacheMode, exact, semantic, both, configured_model_id, resolve_model_alias,
}
use isartor.Http.{Host, Request}
use isartor.Sse.{is_streaming_request}

abbrev pub uses_exact : CacheMode → Bool
uses_exact exact = true
uses_exact both = true
uses_exact semantic = false

abbrev pub uses_semantic : CacheMode → Bool
uses_semantic semantic = true
uses_semantic both = true
uses_semantic exact = false

unfoldable pub cache_namespace : Text → Text
cache_namespace path =
    if text_eq path (codes "/v1/chat/completions")
    then codes "openai"
    else if text_eq path (codes "/v1/messages")
    then codes "anthropic"
    else codes "native"

-- The variables that the middleware computes from a request.
pub record Lookup : Type 0 where
  pub cache_ns : Text
  pub resolved_model : Text
  pub exact_key : Option Text
  pub session_cache_scope : Option Text
  pub semantic_prompt : Option Text
  pub is_streaming : Bool

module _ {V : Type 0} (host : Host V) where
  open host use {json, as_object, from_slice, to_vec, from_utf8_lossy, sha256, hex_encode}

  unfoldable pub resolved_request_model : AppConfig → List ℕ → Text
  resolved_request_model config body =
      map_or (configured_model_id config) (resolve_model_alias config)
        (extract_request_model json from_slice body)

  unfoldable pub canonicalize_request_body_model : AppConfig → List ℕ → List ℕ × Text
  unfolding resolved_request_model
  canonicalize_request_body_model config body =
      let resolved_model = resolved_request_model config body in
      (override_request_model json from_slice to_vec body resolved_model, resolved_model)

  unfoldable pub lookup_of : AppConfig → Request → List ℕ → Lookup
  unfolding canonicalize_request_body_model cache_namespace
  lookup_of config request body =
      let resolved_model = resolved_request_model config body in
      let canonical_body = override_request_model json from_slice to_vec body resolved_model in
      let cache_ns = cache_namespace request.path in
      let scope =
        extract_session_cache_scope sha256 hex_encode json as_object from_slice request.header
          canonical_body in
      let material = extract_cache_key json from_slice from_utf8_lossy canonical_body in
      let prompt =
        codes "model: "
        ++ (resolved_model
            ++ (codes "\n"
                ++ extract_semantic_key json from_slice from_utf8_lossy canonical_body)) in
      let semantic_cache_enabled =
        not (text_eq request.path (codes "/v1/messages"))
        && not (has_tooling json from_slice canonical_body) in
      record {
        cache_ns = cache_ns;
        resolved_model = resolved_model;
        exact_key =
            if uses_exact config.cache_mode
            then some (build_exact_cache_key sha256 hex_encode cache_ns material scope)
            else none;
        session_cache_scope = scope;
        semantic_prompt =
            if semantic_cache_enabled && uses_semantic config.cache_mode
            then some (namespaced_semantic_cache_input cache_ns prompt)
            else none;
        is_streaming =
            if text_eq cache_ns (codes "native")
            then false
            else is_streaming_request host canonical_body;
      }
