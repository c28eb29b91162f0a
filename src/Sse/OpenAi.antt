-- ===== src/Sse/OpenAi.antt =====
-- src/openai_sse.rs. `id` is the 32 digits of the new UUID and `created` the seconds of the clock.
use isartor.Common.{
  ℕ, Text, codes, Option, none, some, List, [], ◌∷◌, ◌++◌, and_then, or_else, unwrap_or,
}
use isartor.Http.{Host, Response}
use isartor.Sse.{sse_response, raw_response}

module _ {V : Type 0} (host : Host V) (id : Text) (created : ℕ) where
  open host use {from_str}
  open host.json use {get, as_str, as_array, object, array, string, number, null, to_string}

  -- One chunk of the completion: what it adds, and why it ends.
  unfoldable pub chunk : Text → V → V → V
  chunk model delta finish_reason = object (
      (codes "id", string (codes "chatcmpl-isartor-" ++ id))
      ∷ (codes "object", string (codes "chat.completion.chunk"))
      ∷ (codes "created", number created)
      ∷ (codes "model", string model)
      ∷ (
        codes "choices",
        array (
            object (
              (codes "index", number 0)
              ∷ (codes "delta", delta)
              ∷ (codes "finish_reason", finish_reason)
              ∷ [])
            ∷ []),
      )
      ∷ [])

  abbrev pub data_line : V → Text
  data_line v = codes "data: " ++ (to_string v ++ codes "\n\n")

  -- The events of an answer whose one field is the second chunk's.
  unfoldable pub events : Text → V → Text → Text
  unfolding chunk
  events model delta finish_reason =
      data_line (chunk model (object ((codes "role", string (codes "assistant")) ∷ [])) null)
      ++ (data_line (chunk model delta null)
          ++ (data_line (chunk model (object []) (string finish_reason))
              ++ codes "data: [DONE]\n\n"))

  unfoldable pub build_sse_response : Text → Text → Response
  unfolding events
  build_sse_response text model =
      sse_response host (events model (object ((codes "content", string text) ∷ [])) (codes "stop"))

  unfoldable pub build_tool_call_sse_response : V → Text → Text → Response
  unfolding events
  build_tool_call_sse_response tool_calls finish_reason model =
      sse_response host
        (events model (object ((codes "tool_calls", tool_calls) ∷ [])) finish_reason)

  abbrev pub first : List V → Option V
  first [] = none
  first (v ∷ vs) = some v

  -- The response, at the text, the tool calls and the function call of the answer.
  abbrev pub answer_response : Text → Text → Option V → Option Text → Option V → Option V → Response
  answer_response cached_json model choice (some text) tool_calls function_call =
      build_sse_response text model
  answer_response cached_json model choice none (some tool_calls) function_call =
      build_tool_call_sse_response tool_calls
        (unwrap_or (codes "tool_calls")
          (and_then choice (λ c. and_then (get c (codes "finish_reason")) as_str)))
        model
  answer_response cached_json model choice none none (some function_call) =
      build_tool_call_sse_response (array (function_call ∷ []))
        (unwrap_or (codes "function_call")
          (and_then choice (λ c. and_then (get c (codes "finish_reason")) as_str)))
        model
  answer_response cached_json model choice none none none = raw_response host cached_json

  abbrev pub first_choice : V → Option V
  first_choice val = and_then (and_then (get val (codes "choices")) as_array) first

  -- `choice.and_then(|choice| choice.get("message")).and_then(|message| message.get(name))`
  abbrev pub message_field : Option V → Text → Option V
  message_field choice name =
      and_then choice (λ c. and_then (get c (codes "message")) (λ message. get message name))

  abbrev pub answer_text : V → Option Text
  answer_text val =
      or_else (and_then (message_field (first_choice val) (codes "content")) as_str)
        (and_then (get val (codes "message")) as_str)

  abbrev pub value_response : Text → Text → Option V → Response
  value_response cached_json model_fallback none = raw_response host cached_json
  value_response cached_json model_fallback (some val) =
      answer_response cached_json
        (unwrap_or model_fallback (and_then (get val (codes "model")) as_str)) (first_choice val)
        (answer_text val) (message_field (first_choice val) (codes "tool_calls"))
        (message_field (first_choice val) (codes "function_call"))

  unfoldable pub cached_to_sse_response : Text → Text → Response
  unfolding build_sse_response build_tool_call_sse_response
  cached_to_sse_response cached_json model_fallback =
      value_response cached_json model_fallback (from_str cached_json)
