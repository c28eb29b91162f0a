-- ===== src/Handlers/Native.antt =====
-- `chat_handler` of src/handler.rs, the fallback handler of the native routes.
use isartor.Common.{ℕ, Text, codes, if◌then◌else◌, Option, none, some, List, [], ◌∷◌}
use isartor.CacheScope.{build_exact_cache_key, extract_session_cache_scope}
use isartor.Prompt.{extract_prompt, extract_cache_key}
use isartor.Config.{AppConfig}
use isartor.Errors.{GatewayError}
use isartor.Http.{
  Request, Response, Payload, chat, value, json_response, json_text_response, misconfigured,
}
use isartor.ExactCache.{get}
use isartor.AppState.{AppState, Outside}
use isartor.CacheKeys.{canonicalize_request_body_model}
use isartor.Handlers.{failure_message, call_provider, from_cloud, resolve}

module _ {V C E F : Type 0} (out : Outside V C E F) where
  open out use {host, lru}
  open host use {json, as_object, from_slice, from_utf8_lossy, sha256, hex_encode}
  open host.json use {object, string}

  abbrev pub offline_value : Payload V
  offline_value = value (
      object (
        (codes "error", string (codes "offline_mode_active"))
        ∷ (
          codes "message",
          string (
              codes
                "This request could not be resolved locally. Cloud routing is disabled in offline mode."),
        )
        ∷ (codes "layer_reached", string (codes "L3"))
        ∷ (
          codes "suggestion",
          string (
              codes
                "Lower your semantic similarity threshold (ISARTOR__SIMILARITY_THRESHOLD) to increase local deflection rate."),
        )
        ∷ []))

  -- The keys under which a stale answer may stand: with a session its own, else the key of the cache
  -- layer and the legacy key.
  unfoldable pub stale_keys : Text → Text → Option Text → List Text
  stale_keys prompt material (some scope) =
      build_exact_cache_key sha256 hex_encode (codes "native") material (some scope) ∷ []
  stale_keys prompt material none =
      build_exact_cache_key sha256 hex_encode (codes "native") material none
      ∷ hex_encode (sha256 prompt)
      ∷ []

  abbrev pub first_found : Option Text × C → Option Text × C → Option Text × C
  first_found (some cached, cache) rest = (some cached, cache)
  first_found (none, cache) rest = rest

  -- The loop over the keys, which ends at the first entry.
  unfoldable pub stale_answer : List Text → C → Option Text × C
  stale_answer [] cache = (none, cache)
  stale_answer (key ∷ keys) cache =
      let rest = stale_answer keys (get lru cache key).1 in first_found (get lru cache key) rest

  abbrev pub failed : GatewayError → Response
  failed e =
      json_response host 502
        (chat (record { layer = 3; message = failure_message out e; model = none }))

  -- The response to an error: a stale answer, or the error.
  abbrev pub stale_response : GatewayError → Option Text → Response
  stale_response e none = from_cloud out (failed e)
  stale_response e (some cached) = from_cloud out (json_text_response host 200 cached)

  unfoldable pub stale_fallback :
      List Text → GatewayError → AppState C E F → Response × AppState C E F
  unfolding stale_answer
  stale_fallback keys e state =
      let (found, cache) = stale_answer keys state.exact_cache in
      (stale_response e found, record state { exact_cache = cache })

  abbrev pub with_body :
      AppConfig → Request → AppState C E F → Option (List ℕ) → Option Response × AppState C E F
  with_body config request state none = (
    some (misconfigured host 3 (codes "Firewall misconfiguration: missing buffered body")),
    state,
  )
  with_body config request state (some body) =
      let (canonical_body, resolved_model) = canonicalize_request_body_model host config body in
      let scope =
        extract_session_cache_scope sha256 hex_encode json as_object from_slice request.header
          canonical_body in
      let prompt = extract_prompt json from_slice from_utf8_lossy canonical_body in
      let material = extract_cache_key json from_slice from_utf8_lossy canonical_body in
      resolve out (λ text. chat (record { layer = 3; message = text; model = some resolved_model }))
        (stale_fallback (stale_keys prompt material scope))
        (call_provider out (out.chat state.calls prompt resolved_model) state)

  unfoldable pub chat_handler :
      AppConfig → Request → AppState C E F → Option Response × AppState C E F
  unfolding stale_keys stale_fallback
  chat_handler config request state =
      if config.offline_mode
      then (some (json_response host 503 offline_value), state)
      else with_body config request state request.buffered_body
