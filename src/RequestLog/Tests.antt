-- ===== src/RequestLog/Tests.antt =====
-- Runs of the request log, and instances of what is proved of it.
use isartor.Common.{
  ℕ, Text, codes, Bool, true, ltb, Option, none, some, List, [], ◌∷◌, length, take, ◌≡◌, refl,
}
use isartor.Json.Tree.{Value, string, array, object, nil, cons, end, field}
use isartor.Sample.{from_slice, print}
use isartor.RequestLog.{
  ResponseLog, redacted, redact_json_value, should_redact_body_key, should_redact_header,
  redact_headers, request_log_max_body_bytes, new, entry_of, polled,
}
use isartor.RequestLog.Prefix.{streamed, logged, polled-streamed}
use isartor.RequestLog.Redaction.{Clean, redact_json_value-Clean}

abbrev lossy : List ℕ → Text
lossy bytes = bytes

abbrev printer : Value → Option Text
printer v = some (print v)

-- A file system that takes every entry.
abbrev accepts : ResponseLog → Bool
accepts entry = true

-- {"config": [{"Token": "s"}], "q": "hi"}
abbrev secret_doc : Value
secret_doc = object (
    field (codes "config")
      (array (cons (object (field (codes "Token") (string (codes "s")) end)) nil))
      (field (codes "q") (string (codes "hi")) end))

redaction_runs :
    redact_json_value secret_doc
    ≡ object (
        field
          (codes "config")
          (array (cons (object (field (codes "Token") (string redacted) end)) nil))
          (field (codes "q") (string (codes "hi")) end))
unfolding redact_json_value should_redact_body_key
redaction_runs = refl

headers_run :
    redact_headers ((codes "Cookie", some (codes "c")) ∷ (codes "accept", none) ∷ [])
    ≡ (codes "Cookie", redacted) ∷ (codes "accept", codes "<non-utf8>") ∷ []
unfolding redact_headers should_redact_header
headers_run = refl

redact_json_value-Clean_example : Clean (redact_json_value secret_doc)
redact_json_value-Clean_example = redact_json_value-Clean secret_doc

polled-streamed_example :
    (polled from_slice printer lossy accepts
      (streamed (codes "hel" ∷ [] ∷ codes "lo" ∷ []))
      new).log
    ≡ logged from_slice printer lossy accepts (
        entry_of from_slice printer lossy
          (take request_log_max_body_bytes (codes "hello"))
          (ltb request_log_max_body_bytes (length (codes "hello")))
          none)
polled-streamed_example =
    polled-streamed from_slice printer lossy accepts (codes "hel" ∷ [] ∷ codes "lo" ∷ [])
