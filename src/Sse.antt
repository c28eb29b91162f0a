-- ===== src/Sse.antt =====
-- The conversion of JSON answers to server-sent events (src/openai_sse.rs, src/anthropic_sse.rs).
pub mod OpenAi
pub mod Anthropic
pub mod Client
mod Tests
use isartor.Common.{
  Text, codes, Bool, false, Option, none, List, [], ◌∷◌, ℕ, some, and_then, unwrap_or, ◌++◌,
}
use isartor.Json.{Json}
use isartor.Http.{Host, Response, json_headers}

abbrev pub event_headers : List (Text × Text)
event_headers =
    (codes "content-type", codes "text/event-stream")
    ∷ (codes "cache-control", codes "no-cache")
    ∷ []

module _ {V : Type 0} (host : Host V) where
  open host use {from_slice, as_bytes}
  open host.json use {get, as_bool}

  unfoldable pub is_streaming_request : List ℕ → Bool
  is_streaming_request body =
      unwrap_or false (and_then (from_slice body) (λ v. and_then (get v (codes "stream")) as_bool))

  -- `Response::builder()` with status 200, which the builder accepts.
  abbrev pub sse_response : Text → Response
  sse_response events = record {
    status = 200;
    headers = event_headers;
    body = some (as_bytes events);
    final_layer = none;
  }

  abbrev pub raw_response : Text → Response
  raw_response cached_json = record {
    status = 200;
    headers = json_headers;
    body = some (as_bytes cached_json);
    final_layer = none;
  }
