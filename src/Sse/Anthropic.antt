-- ===== src/Sse/Anthropic.antt =====
-- src/anthropic_sse.rs. `id` is the 32 digits of the new UUID.
use isartor.Common.{
  ℕ, ◌/◌, max, Text, codes, byte_len, decimal, Option, none, some, List, [], ◌∷◌, ◌++◌, and_then,
  or_else, unwrap_or,
}
use isartor.Http.{Host, Response}
use isartor.Sse.{sse_response, raw_response}

unfoldable pub estimate_tokens : Text → ℕ
estimate_tokens text = max (byte_len text / 4) 1

module _ {V : Type 0} (host : Host V) (id : Text) where
  open host use {from_str}
  open host.json use {get, as_str, as_array, object, array, string, number, null, to_string}

  abbrev pub msg_id : V
  msg_id = string (codes "msg_isartor_" ++ id)

  abbrev pub usage : ℕ → V
  usage output_tokens =
      object ((codes "input_tokens", number 0) ∷ (codes "output_tokens", number output_tokens) ∷ [])

  unfoldable pub message_start : Text → V
  message_start model = object (
      (codes "type", string (codes "message_start"))
      ∷ (
        codes "message",
        object (
            (codes "id", msg_id)
            ∷ (codes "type", string (codes "message"))
            ∷ (codes "role", string (codes "assistant"))
            ∷ (codes "content", array [])
            ∷ (codes "model", string model)
            ∷ (codes "stop_reason", null)
            ∷ (codes "stop_sequence", null)
            ∷ (codes "usage", usage 0)
            ∷ []),
      )
      ∷ [])

  unfoldable pub content_block_delta : Text → V
  content_block_delta text = object (
      (codes "type", string (codes "content_block_delta"))
      ∷ (codes "index", number 0)
      ∷ (
        codes "delta",
        object ((codes "type", string (codes "text_delta")) ∷ (codes "text", string text) ∷ []),
      )
      ∷ [])

  abbrev pub event : Text → Text → Text
  event name payload = codes "event: " ++ (name ++ (codes "\ndata: " ++ (payload ++ codes "\n\n")))

  unfoldable pub events : Text → Text → Text
  unfolding message_start content_block_delta estimate_tokens
  events text model =
      event (codes "message_start") (to_string (message_start model))
      ++ (event (codes "content_block_start") (
            codes
              "{\"type\":\"content_block_start\",\"index\":0,\"content_block\":{\"type\":\"text\",\"text\":\"\"}}")
          ++ (event (codes "ping") (codes "{\"type\":\"ping\"}")
              ++ (event (codes "content_block_delta") (to_string (content_block_delta text))
                  ++ (event (codes "content_block_stop")
                        (codes "{\"type\":\"content_block_stop\",\"index\":0}")
                      ++ (event (codes "message_delta") (
                            codes
                              "{\"type\":\"message_delta\",\"delta\":{\"stop_reason\":\"end_turn\",\"stop_sequence\":null},\"usage\":{\"output_tokens\":"
                            ++ (decimal (estimate_tokens text) ++ codes "}}"))
                          ++ event (codes "message_stop") (codes "{\"type\":\"message_stop\"}"))))))

  unfoldable pub build_sse_response : Text → Text → Response
  unfolding events
  build_sse_response text model = sse_response host (events text model)

  unfoldable pub build_json_response : Text → Text → V
  unfolding estimate_tokens
  build_json_response text model = object (
      (codes "id", msg_id)
      ∷ (codes "type", string (codes "message"))
      ∷ (codes "role", string (codes "assistant"))
      ∷ (codes "model", string model)
      ∷ (
        codes "content",
        array (
            object ((codes "type", string (codes "text")) ∷ (codes "text", string text) ∷ []) ∷ []),
      )
      ∷ (codes "stop_reason", string (codes "end_turn"))
      ∷ (codes "stop_sequence", null)
      ∷ (codes "usage", usage (estimate_tokens text))
      ∷ [])

  abbrev pub first_text : List V → Option Text
  first_text [] = none
  first_text (block ∷ blocks) = and_then (get block (codes "text")) as_str

  abbrev pub answer_text : V → Option Text
  answer_text val =
      or_else (and_then (and_then (get val (codes "content")) as_array) first_text)
        (and_then (get val (codes "message")) as_str)

  abbrev pub answer_response : Text → Text → Option Text → Response
  answer_response cached_json model none = raw_response host cached_json
  answer_response cached_json model (some text) = build_sse_response text model

  abbrev pub value_response : Text → Text → Option V → Response
  value_response cached_json model_fallback none = raw_response host cached_json
  value_response cached_json model_fallback (some val) =
      answer_response cached_json
        (unwrap_or model_fallback (and_then (get val (codes "model")) as_str)) (answer_text val)

  unfoldable pub cached_to_sse_response : Text → Text → Response
  unfolding build_sse_response
  cached_to_sse_response cached_json model_fallback =
      value_response cached_json model_fallback (from_str cached_json)
