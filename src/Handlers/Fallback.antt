-- ===== src/Handlers/Fallback.antt =====
-- The stale answer of `chat_handler` stands where the cache layer has put it (src/handler.rs,
-- src/middleware/cache.rs).
use isartor.Common.{
  ℕ, Text, codes, Bool, true, false, Option, none, some, List, ◌≡◌, ap, ◌∙◌, sym, if◌then◌else◌,
}
use isartor.CacheScope.{build_exact_cache_key}
use isartor.Config.{AppConfig}
use isartor.Errors.{GatewayError}
use isartor.Retry.{Returned, err}
use isartor.Prompt.{extract_prompt, extract_cache_key}
use isartor.CacheScope.{extract_session_cache_scope}
use isartor.Http.{Request, chat, json_response, json_text_response}
use isartor.ExactCache.{get}
use isartor.AppState.{AppState, Outside}
use isartor.CacheKeys.{uses_exact, cache_namespace, lookup_of, canonicalize_request_body_model}
use isartor.Handlers.{call_provider, record_provider_failure, from_cloud, resolve, after_failure}
use isartor.Handlers.Native.{
  stale_keys, stale_answer, first_found, stale_response, stale_fallback, with_body, chat_handler,
  offline_value,
}

module _ {V C E F : Type 0} (out : Outside V C E F) where
  open out use {host, lru}
  open host use {json, as_object, from_slice, from_utf8_lossy, sha256, hex_encode}

  first_found-some :
      (o rest : Option Text × C) (v : Text) → o.0 ≡ some v → (first_found out o rest).0 ≡ some v
  first_found-some (some w, c) rest v h = h
  first_found-some (none, c) rest v h = absurd cc

  stale_answer-first :
      (prompt material : Text) (scope : Option Text) (cache : C) (v : Text)
      → (get lru cache (build_exact_cache_key sha256 hex_encode (codes "native") material scope)).0
        ≡ some v
      → (stale_answer out (stale_keys out prompt material scope) cache).0 ≡ some v
  unfolding stale_answer stale_keys
  stale_answer-first prompt material (some scope) cache v h = first_found-some _ _ v h
  stale_answer-first prompt material none cache v h = first_found-some _ _ v h

  exact_key-material :
      (config : AppConfig) (request : Request) (body : List ℕ) (key : Text)
      → (lookup_of host config request body).exact_key ≡ some key
      → build_exact_cache_key sha256 hex_encode
          (cache_namespace request.path)
          (extract_cache_key json from_slice from_utf8_lossy
            (canonicalize_request_body_model host config body).0)
          (extract_session_cache_scope sha256 hex_encode json as_object from_slice request.header
            (canonicalize_request_body_model host config body).0)
        ≡ key
  unfolding lookup_of canonicalize_request_body_model
  exact_key-material config request body key = go (uses_exact config.cache_mode)
    where
      go : (b : Bool) {x : Text} → (if b then some x else none) ≡ some key → x ≡ key
      go true h = cc
      go false h = absurd cc

  module _ (config : AppConfig) (request : Request) (state : AppState C E F) (body : List ℕ) where
    abbrev pub canonical : List ℕ × Text
    canonical = canonicalize_request_body_model host config body

    abbrev pub prompt : Text
    prompt = extract_prompt json from_slice from_utf8_lossy canonical.0

    abbrev pub material : Text
    material = extract_cache_key json from_slice from_utf8_lossy canonical.0

    abbrev pub scope : Option Text
    scope =
        extract_session_cache_scope sha256 hex_encode json as_object from_slice request.header
          canonical.0

    -- The exact cache has an answer under the key that the cache layer uses for a native request, and all
    -- attempts to call the provider fail, which is recorded. Then the handler responds with this answer, and
    -- with status 200.
    pub chat_handler_falls_back :
        (e : GatewayError) (key v : Text) (failed recorded : AppState C E F)
        → config.offline_mode ≡ false
        → request.buffered_body ≡ some body
        → cache_namespace request.path ≡ codes "native"
        → (lookup_of host config request body).exact_key ≡ some key
        → call_provider out (out.chat state.calls prompt canonical.1) state
          ≡ (Returned.result (err e), failed)
        → record_provider_failure out e failed ≡ (true, recorded)
        → (get lru recorded.exact_cache key).0 ≡ some v
        → (chat_handler out config request state).0
          ≡ some (from_cloud out (json_text_response host 200 v))
    unfolding chat_handler stale_fallback
    chat_handler_falls_back e key v failed recorded online b native k called noted found =
        let respond = stale_fallback out (stale_keys out prompt material scope) in
        let answer =
          λ (text : Text). chat (record { layer = 3; message = text; model = some canonical.1 }) in
        let same : build_exact_cache_key sha256 hex_encode (codes "native") material scope ≡ key =
          ap (λ ns. build_exact_cache_key sha256 hex_encode ns material scope) (sym native)
          ∙ exact_key-material config request body key k in
        let stale =
          stale_answer-first prompt material scope recorded.exact_cache v
            (ap (λ x. (get lru recorded.exact_cache x).0) same ∙ found) in
        let ran : chat_handler out config request state
            ≡ after_failure out (respond e) (true, recorded) =
          ap
            (λ (x : Bool).
              if x
              then (some (json_response host 503 (offline_value out)), state)
              else with_body out config request state request.buffered_body)
            online
          ∙ ap (with_body out config request state) b
          ∙ ap (resolve out answer respond) called
          ∙ ap (after_failure out (respond e)) noted in
        ap (λ x. x.0) ran ∙ ap (λ x. some (stale_response out e x)) stale
