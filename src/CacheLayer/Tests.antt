-- ===== src/CacheLayer/Tests.antt =====
-- Runs of the cache layer, and instances of what is proved of it.
use isartor.Common.{ℕ, Text, codes, false, some, [], ◌∷◌, ◌≡◌, inl, refl}
use isartor.Json.Tree.{
  Value, set_field, assign, get, lookup, is_object, is_null, as_str, as_bool, elements, to_list,
  to_string,
}
use isartor.Sample.{
  parse, from_slice, print, encode, host, outside, config_of, fresh, native_request, native_doc,
  response_of, always,
}
use isartor.Prompt.{
  extract_message_content, find_question, extract_request_model, override_request_model,
  has_tooling, message_has_tooling, extract_prompt_parts, extract_prompt, extract_cache_key,
  extract_semantic_key, model_extra, chat_parts, chat_extras, message_parts, message_part,
  push_blocks, push_block,
}
use isartor.CacheScope.{
  build_exact_cache_key, build_exact_cache_input, namespaced_semantic_cache_input,
  extract_session_cache_scope, extract_session_identifier_from_headers,
  extract_session_identifier_from_body, derive_session_cache_scope, normalize_session_identifier,
}
use isartor.Config.{exact, resolve_model_alias, configured_model_id}
use isartor.Http.{exact_cache}
use isartor.ExactCache
use isartor.ExactCache.Bounded.{Entries, bounded-LruCacheLaws, find}
use isartor.VectorCache.{search, insert, scan, consider, better, cosine_similarity, sums}
use isartor.AppState.{AppState, Outside}
use isartor.CacheKeys.{
  cache_namespace, resolved_request_model, canonicalize_request_body_model, lookup_of,
}
use isartor.CacheLayer.{
  cache_value, streaming_cache_response, hit_response, downstream_response, cache_middleware,
}
use isartor.CacheLayer.Repeat.{cache_middleware_repeats}

program : Unit {0}
unfolding from_slice print parse encode to_string set_field assign get lookup is_object is_null
    as_str as_bool elements to_list extract_message_content find_question extract_request_model
    override_request_model has_tooling message_has_tooling extract_prompt_parts extract_prompt
    extract_cache_key extract_semantic_key model_extra chat_parts chat_extras message_parts
    message_part push_blocks push_block build_exact_cache_key build_exact_cache_input
    namespaced_semantic_cache_input extract_session_cache_scope
    extract_session_identifier_from_headers extract_session_identifier_from_body
    derive_session_cache_scope normalize_session_identifier resolve_model_alias configured_model_id
    cache_namespace resolved_request_model canonicalize_request_body_model lookup_of cache_value
    streaming_cache_response hit_response downstream_response cache_middleware ExactCache.get
    ExactCache.put find search insert scan consider better cosine_similarity sums
program = tt

abbrev gateway : Outside Value Entries ℕ ℕ
gateway = outside (codes "SIMPLE") (inl (codes "yes"))

abbrev key : Text
key = codes "native|hi\nmodel: m"

abbrev stored : AppState Entries ℕ ℕ
stored = record fresh { exact_cache = (key, codes "yes") ∷ [] }

miss_runs :
    cache_middleware gateway
      (always (response_of 200 (codes "yes")))
      (config_of exact false false)
      native_request
      fresh
    ≡ (some (response_of 200 (codes "yes")), stored)
unfolding program
miss_runs = refl

error_runs :
    cache_middleware gateway
      (always (response_of 502 (codes "no")))
      (config_of exact false false)
      native_request
      fresh
    ≡ (some (response_of 502 (codes "no")), fresh)
unfolding program
error_runs = refl

-- The second request is not answered by the rest of the stack, which would say "no".
cache_middleware_repeats_example :
    ((cache_middleware gateway
        (always (response_of 200 (codes "no")))
        (config_of exact false false)
        native_request
        (cache_middleware gateway
          (always (response_of 200 (codes "yes")))
          (config_of exact false false)
          native_request
          fresh).1).0
      ≡ some (
          hit_response gateway []
            (lookup_of host (config_of exact false false) native_request (print native_doc))
            exact_cache
            (cache_value host (codes "yes"))))
    × ((cache_middleware gateway
          (always (response_of 200 (codes "no")))
          (config_of exact false false)
          native_request
          (cache_middleware gateway
            (always (response_of 200 (codes "yes")))
            (config_of exact false false)
            native_request
            fresh).1).1.calls
        ≡ [])
unfolding program
cache_middleware_repeats_example =
    cache_middleware_repeats gateway (config_of exact false false) native_request (print native_doc)
      (bounded-LruCacheLaws 9) (always (response_of 200 (codes "yes")))
      (always (response_of 200 (codes "no"))) fresh key (response_of 200 (codes "yes")) fresh
      (codes "yes") refl refl refl refl refl refl refl
