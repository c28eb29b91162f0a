-- ===== src/Triage/Tests.antt =====
-- Runs of layer 2, and an instance of what is proved of it.
use isartor.Common.{ℕ, codes, true, false, some, ◌≡◌, inl, refl}
use isartor.Json.Tree.{Value, get, lookup, as_str, elements, to_list, to_string}
use isartor.Sample.{
  parse, from_slice, print, encode, outside, config_of, fresh, native_request, native_doc,
  response_of, always,
}
use isartor.Prompt.{extract_message_content, find_question, extract_prompt, extract_semantic_key}
use isartor.Config.{exact}
use isartor.Http.{slm, json_headers}
use isartor.ExactCache.Bounded.{Entries}
use isartor.AppState.{Outside}
use isartor.Triage.{
  deflects_label, deflects_answer, answer_quality_ok, slm_response_for_path, classify_request,
  answer_request, is_deflectable, local_answer, slm_triage_middleware,
}
use isartor.Triage.Answers.{Triaged, slm_triage_middleware-Triaged}

program : Unit {0}
unfolding from_slice print parse encode get lookup as_str elements to_list to_string
    extract_message_content find_question extract_prompt extract_semantic_key deflects_label
    deflects_answer answer_quality_ok slm_response_for_path classify_request answer_request
    is_deflectable local_answer slm_triage_middleware
program = tt

-- The sidecar says this to both requests, so it finds the prompt simple and answers with the same text.
abbrev gateway : Outside Value Entries ℕ ℕ
gateway = outside (codes "SIMPLE enough") (inl (codes "yes"))

answer_runs :
    (slm_triage_middleware gateway
      (config_of exact true false)
      (always (response_of 200 (codes "yes")))
      native_request
      fresh).0
    ≡ some (record {
      status = 200;
      headers = json_headers;
      body = some (codes "SIMPLE enough");
      final_layer = some slm;
    })
unfolding program
answer_runs = refl

-- An answer of fewer than ten bytes is rejected.
short_runs :
    (slm_triage_middleware
      (outside (codes "SIMPLE") (inl (codes "yes")))
      (config_of exact true false)
      (always (response_of 200 (codes "yes")))
      native_request
      fresh).0
    ≡ some (response_of 200 (codes "yes"))
unfolding program
short_runs = refl

slm_triage_middleware-Triaged_example :
    Triaged gateway
      (config_of exact true false)
      (always (response_of 200 (codes "yes")))
      native_request
      (extract_semantic_key gateway.host.json gateway.host.from_slice gateway.host.from_utf8_lossy
        (print native_doc))
      fresh
      (slm_triage_middleware gateway
        (config_of exact true false)
        (always (response_of 200 (codes "yes")))
        native_request
        fresh)
slm_triage_middleware-Triaged_example =
    slm_triage_middleware-Triaged gateway (config_of exact true false)
      (always (response_of 200 (codes "yes"))) native_request fresh (print native_doc) refl refl
