-- ===== src/Gateway/Tests.antt =====
-- Instances of what is proved of the whole stack.
use isartor.Common.{ℕ, codes, true, false, some, [], ◌≡◌, inl, refl}
use isartor.Json.Tree.{
  Value, set_field, assign, get, lookup, is_object, is_null, as_str, as_bool, elements, to_list,
  to_string,
}
use isartor.Sample.{
  parse, from_slice, print, encode, outside, config_of, fresh, native_doc, no_header,
}
use isartor.Prompt.{
  extract_message_content, find_question, extract_request_model, override_request_model,
  has_tooling, message_has_tooling, extract_prompt_parts, extract_prompt, extract_cache_key,
  extract_semantic_key, model_extra, chat_parts, chat_extras, message_parts, message_part,
  push_blocks, push_block,
}
use isartor.CacheScope.{
  build_exact_cache_key, build_exact_cache_input, namespaced_semantic_cache_input,
  extract_session_cache_scope, extract_session_identifier_from_headers,
  extract_session_identifier_from_body, derive_session_cache_scope, normalize_session_identifier,
}
use isartor.Auth.{api_key, bearer_token, auth_middleware}
use isartor.Config.{exact, resolve_model_alias, configured_model_id}
use isartor.ExactCache
use isartor.ExactCache.Bounded.{Entries, find}
use isartor.AppState.{Outside}
use isartor.AppState.Spending.{clouds}
use isartor.CacheKeys.{
  cache_namespace, resolved_request_model, canonicalize_request_body_model, lookup_of,
}
use isartor.CacheLayer.{
  cache_value, streaming_cache_response, hit_response, downstream_response, cache_middleware,
}
use isartor.Triage.{
  deflects_label, deflects_answer, answer_quality_ok, slm_response_for_path, classify_request,
  answer_request, is_deflectable, local_answer, slm_triage_middleware,
}
use isartor.Gateway.{
  Incoming, api_chat, as_header_value, is_deflected, final_layer_of, monitored, serve,
}
use isartor.Gateway.Offline.{serve-offline}
use isartor.Gateway.Deflected.{serve-deflected}

program : Unit {0}
unfolding from_slice print parse encode to_string set_field assign get lookup is_object is_null
    as_str as_bool elements to_list extract_message_content find_question extract_request_model
    override_request_model has_tooling message_has_tooling extract_prompt_parts extract_prompt
    extract_cache_key extract_semantic_key model_extra chat_parts chat_extras message_parts
    message_part push_blocks push_block build_exact_cache_key build_exact_cache_input
    namespaced_semantic_cache_input extract_session_cache_scope
    extract_session_identifier_from_headers extract_session_identifier_from_body
    derive_session_cache_scope normalize_session_identifier api_key bearer_token auth_middleware
    resolve_model_alias configured_model_id cache_namespace resolved_request_model
    canonicalize_request_body_model lookup_of cache_value streaming_cache_response hit_response
    downstream_response cache_middleware ExactCache.get ExactCache.put find deflects_label
    deflects_answer answer_quality_ok slm_response_for_path classify_request answer_request
    is_deflectable local_answer slm_triage_middleware as_header_value is_deflected final_layer_of
    monitored serve
program = tt

abbrev gateway : Outside Value Entries ℕ ℕ
gateway = outside (codes "SIMPLE enough") (inl (codes "yes"))

abbrev incoming : Incoming
incoming = record { route = api_chat; header = no_header; body = some (print native_doc) }

-- No key is configured, and layer 2 answers.
serve-deflected_example :
    clouds (serve gateway (config_of exact true false) [] incoming fresh).1.calls
    ≡ clouds fresh.calls
unfolding program
serve-deflected_example =
    serve-deflected gateway (config_of exact true false) [] incoming fresh refl

serve-offline_example :
    clouds (serve gateway (config_of exact false true) [] incoming fresh).1.calls
    ≡ clouds fresh.calls
serve-offline_example = serve-offline gateway (config_of exact false true) [] incoming fresh refl
