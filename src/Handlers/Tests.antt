-- ===== src/Handlers/Tests.antt =====
-- An instance of what is proved of the stale answer.
use isartor.Common.{ℕ, codes, false, some, [], ◌∷◌, ◌≡◌, inr, refl}
use isartor.Json.Tree.{
  Value, set_field, assign, get, lookup, is_object, is_null, as_str, as_bool, elements, to_list,
  to_string,
}
use isartor.Sample.{
  parse, from_slice, print, host, outside, config_of, fresh, native_request, native_doc,
}
use isartor.Prompt.{
  extract_message_content, find_question, extract_request_model, override_request_model,
  has_tooling, message_has_tooling, extract_prompt_parts, extract_prompt, extract_cache_key,
  extract_semantic_key, model_extra, chat_parts, chat_extras, message_parts, message_part,
  push_blocks, push_block,
}
use isartor.CacheScope.{
  build_exact_cache_key, build_exact_cache_input, extract_session_cache_scope,
  extract_session_identifier_from_headers, extract_session_identifier_from_body,
  derive_session_cache_scope, normalize_session_identifier,
}
use isartor.Config.{exact, resolve_model_alias, configured_model_id}
use isartor.Errors.{
  GatewayError, cloud_llm, fatal, from_llm_error, classify_error_message, format_error_chain,
  chain_parts, push_cause, class, display,
}
use isartor.Retry.{execute_with_retry}
use isartor.Health.{
  words_from, slice_to, single_line, compact_line, compact_provider_error, record_failure,
}
use isartor.Http.{json_text_response}
use isartor.ExactCache
use isartor.ExactCache.Bounded.{Entries, find}
use isartor.AppState.{AppState, Outside}
use isartor.CacheKeys.{
  cache_namespace, resolved_request_model, canonicalize_request_body_model, lookup_of,
}
use isartor.Handlers.{call_provider, record_provider_failure, from_cloud}
use isartor.Handlers.Native.{chat_handler}
use isartor.Handlers.Fallback.{chat_handler_falls_back}

program : Unit {0}
unfolding from_slice print parse to_string set_field assign get lookup is_object is_null as_str
    as_bool elements to_list extract_message_content find_question extract_request_model
    override_request_model has_tooling message_has_tooling extract_prompt_parts extract_prompt
    extract_cache_key extract_semantic_key model_extra chat_parts chat_extras message_parts
    message_part push_blocks push_block build_exact_cache_key build_exact_cache_input
    extract_session_cache_scope extract_session_identifier_from_headers
    extract_session_identifier_from_body derive_session_cache_scope normalize_session_identifier
    resolve_model_alias configured_model_id from_llm_error classify_error_message format_error_chain
    chain_parts push_cause class display execute_with_retry words_from slice_to single_line
    compact_line compact_provider_error record_failure cache_namespace resolved_request_model
    canonicalize_request_body_model lookup_of ExactCache.get find call_provider
    record_provider_failure
program = tt

abbrev gateway : Outside Value Entries ℕ ℕ
gateway = outside (codes "SIMPLE") (inr (codes "401" ∷ []))

abbrev refused : GatewayError
refused = cloud_llm (codes "openai") (codes "401") fatal

abbrev state : AppState Entries ℕ ℕ
state = record fresh { exact_cache = (codes "native|hi\nmodel: m", codes "old") ∷ [] }

abbrev failed : AppState Entries ℕ ℕ
failed = (call_provider gateway (gateway.chat [] (codes "hi") (codes "m")) state).1

chat_handler_falls_back_example :
    (chat_handler gateway (config_of exact false false) native_request state).0
    ≡ some (from_cloud gateway (json_text_response host 200 (codes "old")))
unfolding program
chat_handler_falls_back_example =
    chat_handler_falls_back gateway (config_of exact false false) native_request state
      (print native_doc) refused (codes "native|hi\nmodel: m") (codes "old") failed
      (record_provider_failure gateway refused failed).1 refl refl refl refl refl refl refl
