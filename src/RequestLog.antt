-- ===== src/RequestLog.antt =====
-- src/core/request_logger.rs: the request log. A response body is captured frame by frame as it streams to
-- the client, and an entry is written when it ends, fails or is dropped. JSON values are trees; their
-- parser and printer and the lossy decoding are arguments. The file of the log is the list of its
-- entries; whether it takes an entry is an argument, and what it refuses stands in the warnings.
pub mod Capture
pub mod Prefix
pub mod Redaction
mod Tests
use isartor.Common.{
  ℕ, zero, suc, ◌-◌, Text, codes, text_eq, any, byte_len, to_ascii_lowercase, Bool, true, false,
  not, ◌||◌, ltb, leb, ◌==◌, if◌then◌else◌, Option, none, some, List, [], ◌∷◌, ◌++◌, length, take,
  min, is_empty, map_or, unwrap_or, or_else,
}
use isartor.Json.Tree.{
  Value, Values, Fields, null, boolean, number, string, array, object, nil, cons, end, field, tree,
}
use isartor.Prompt.{extract_request_model}
use isartor.Config.{AppConfig, configured_model_id, resolve_model_alias}
use isartor.Health.{slice_to}

abbrev pub redacted : Text
redacted = codes "[REDACTED]"

abbrev pub request_log_max_body_bytes : ℕ
request_log_max_body_bytes = 16384

abbrev pub secret_headers : List Text
secret_headers =
    codes "authorization"
    ∷ codes "proxy-authorization"
    ∷ codes "api-key"
    ∷ codes "x-api-key"
    ∷ codes "cookie"
    ∷ codes "set-cookie"
    ∷ []

unfoldable pub should_redact_header : Text → Bool
should_redact_header header_name =
    any (λ n. text_eq n (to_ascii_lowercase header_name)) secret_headers

-- A header value is its text, or none if it is not valid text. `collect` into the map of the record is
-- left to the reader of the list: a later entry of a name replaces an earlier one.
unfoldable pub redact_headers : List (Text × Option Text) → List (Text × Text)
unfolding should_redact_header
redact_headers [] = []
redact_headers ((name, value) ∷ headers) =
    (name, if should_redact_header name then redacted else unwrap_or (codes "<non-utf8>") value)
    ∷ redact_headers headers

abbrev pub secret_keys : List Text
secret_keys =
    codes "authorization"
    ∷ codes "api-key"
    ∷ codes "x-api-key"
    ∷ codes "api_key"
    ∷ codes "apikey"
    ∷ codes "external_llm_api_key"
    ∷ codes "token"
    ∷ codes "access_token"
    ∷ []

unfoldable pub should_redact_body_key : Text → Bool
should_redact_body_key key = any (λ n. text_eq n (to_ascii_lowercase key)) secret_keys

unfoldable mutual
  pub redact_json_value : Value → Value
  redact_json_value null = null
  redact_json_value (boolean b) = boolean b
  redact_json_value (number t) = number t
  redact_json_value (string s) = string s
  redact_json_value (array items) = array (redact_values items)
  redact_json_value (object map) = object (redact_fields map)

  pub redact_values : Values → Values
  redact_values nil = nil
  redact_values (cons item items) = cons (redact_json_value item) (redact_values items)

  pub redact_fields : Fields → Fields
  redact_fields end = end
  redact_fields (field key nested map) =
      field key (if should_redact_body_key key then string redacted else redact_json_value nested)
        (redact_fields map)

-- The loop over `is_char_boundary` and the truncation, from the byte `n` downwards.
unfoldable pub truncate_at : ℕ → Text → Text
unfolding slice_to
truncate_at zero s = []
truncate_at (suc n) s = elim (slice_to (suc n) s) [ some t ↦ t | none ↦ truncate_at n s ]

unfoldable pub bounded_text : Text → Text × Bool
unfolding truncate_at
bounded_text text =
    if leb (byte_len text) request_log_max_body_bytes
    then (text, false)
    else (truncate_at request_log_max_body_bytes text ++ codes "… [truncated]", true)

-- An entry's part that the response's stream fills in.
pub record ResponseLog : Type 0 where
  pub response_body : Text
  pub response_body_truncated : Bool
  pub response_body_note : Option Text

-- `log` is what has been appended to the log for this response, `refused` what could not be and is only
-- warned of.
pub record LoggingBody : Type 0 where
  pub captured : List ℕ
  pub truncated : Bool
  pub emitted : Bool
  pub log : List ResponseLog
  pub refused : List ResponseLog

abbrev pub new : LoggingBody
new = record { captured = []; truncated = false; emitted = false; log = []; refused = [] }

unfoldable pub capture : List ℕ → LoggingBody → LoggingBody
capture bytes body =
    let remaining = request_log_max_body_bytes - length body.captured in
    let taken = min remaining (length bytes) in
    if body.truncated || is_empty bytes
    then body
    else if remaining == 0
    then record body { truncated = true }
    else record body {
      captured = body.captured ++ take taken bytes;
      truncated = if ltb taken (length bytes) then true else body.truncated;
    }

-- What polling the inner body gives: a frame, with its data if it has any; an error; the end; or pending.
pub data Poll : Type 0 where
  frame : Option (List ℕ) → Poll
  failed : Text → Poll
  ended : Poll
  pending : Poll

module _ (from_slice : List ℕ → Option Value) (to_string : Value → Option Text)
    (from_utf8_lossy : List ℕ → Text) where
  abbrev pub printed : List ℕ → Option Value → Text
  printed bytes none = from_utf8_lossy bytes
  printed bytes (some json) = unwrap_or (from_utf8_lossy bytes) (to_string (redact_json_value json))

  unfoldable pub sanitize_body : List ℕ → Text × Bool
  unfolding redact_json_value bounded_text
  sanitize_body bytes =
      if is_empty bytes then ([], false) else bounded_text (printed bytes (from_slice bytes))

  -- The entry for what has been captured.
  abbrev pub entry_of : List ℕ → Bool → Option Text → ResponseLog
  entry_of captured truncated note = record {
    response_body = (sanitize_body captured).0;
    response_body_truncated = truncated || (sanitize_body captured).1;
    response_body_note = note;
  }

  -- `written` says whether `append_request_log` succeeds.
  module _ (written : ResponseLog → Bool) where
    unfoldable pub finish : Option Text → LoggingBody → LoggingBody
    unfolding sanitize_body
    finish note body =
        let entry = entry_of body.captured body.truncated note in
        if body.emitted then body else record body {
          emitted = true;
          log = if written entry then body.log ++ entry ∷ [] else body.log;
          refused = if written entry then body.refused else body.refused ++ entry ∷ [];
        }

    unfoldable pub poll_frame : Poll → LoggingBody → LoggingBody
    unfolding capture finish
    poll_frame (frame data') body = map_or body (λ bytes. capture bytes body) data'
    poll_frame (failed err) body = finish (some (codes "response stream error: " ++ err)) body
    poll_frame ended body = finish none body
    poll_frame pending body = body

    unfoldable pub drop : LoggingBody → LoggingBody
    unfolding finish
    drop body =
        if body.emitted
        then body
        else finish (some (codes "response body logging ended before stream completion")) body

    -- The body under the polls of its reader, in order.
    unfoldable pub polled : List Poll → LoggingBody → LoggingBody
    unfolding poll_frame
    polled [] body = body
    polled (p ∷ polls) body = polled polls (poll_frame p body)

abbrev pub is_family : Text → Bool
is_family endpoint_family =
    text_eq endpoint_family (codes "native")
    || text_eq endpoint_family (codes "openai")
    || text_eq endpoint_family (codes "anthropic")

unfoldable pub logged_model : (List ℕ → Option Value) → AppConfig → Text → List ℕ → Option Text
logged_model from_slice config endpoint_family request_body =
    or_else
      (map_or none (λ requested. some (resolve_model_alias config requested))
        (extract_request_model tree from_slice request_body))
      (if is_family endpoint_family then some (configured_model_id config) else none)
