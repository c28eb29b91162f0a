-- ===== src/Prompt.antt =====
-- src/core/prompt.rs: the prompt, the material of the cache key, the model and the semantic key of a
-- request body. A body is its bytes. `from_slice` and `to_vec` are serde_json's, and
-- `from_utf8_lossy` is the standard library's decoding.
pub mod Model
pub mod Keys
pub mod Question
mod Tests
use isartor.Common.{
  ℕ, Text, codes, text_eq, trim, is_empty, join, Bool, true, false, not, ◌&&◌, ◌||◌, if◌then◌else◌,
  Option, none, some, List, [], ◌∷◌, ◌++◌, reverse, any, and_then, unwrap_or, is_some, map_or,
}
use isartor.Json.{Json}

abbrev pub line_feed : Text
line_feed = codes "\n"

abbrev pub is_blank : Text → Bool
is_blank t = is_empty (trim t)

abbrev pub option_eq : Option Text → Text → Bool
option_eq none t = false
option_eq (some s) t = text_eq s t

module _ {V : Type 0} (json : Json V) where
  open json use {is_null, is_object, as_str, as_array, get, set_field, string, to_string}

  -- `v.get(name).and_then(|f| f.as_str())`
  abbrev pub str_field : V → Text → Option Text
  str_field v name = and_then (get v name) as_str

  abbrev pub array_field : V → Text → Option (List V)
  array_field v name = and_then (get v name) as_array

  unfoldable pub message_has_tooling : V → Bool
  message_has_tooling msg =
      option_eq (str_field msg (codes "role")) (codes "tool")
      || is_some (get msg (codes "tool_call_id"))
      || is_some (get msg (codes "tool_calls"))
      || is_some (get msg (codes "function_call"))

  -- The loop over the blocks of a content, on the buffer.
  unfoldable pub push_block : Text → Option Text → Text
  push_block buf none = buf
  push_block buf (some text) = if is_empty buf then text else buf ++ (line_feed ++ text)

  unfoldable pub push_blocks : Text → List V → Text
  unfolding push_block
  push_blocks buf [] = buf
  push_blocks buf (block ∷ blocks) =
      push_blocks (push_block buf (str_field block (codes "text"))) blocks

  abbrev pub content_other : V → Option (List V) → Text
  content_other v (some blocks) = push_blocks [] blocks
  content_other v none = to_string v

  abbrev pub content_text : V → Option Text → Text
  content_text v (some s) = s
  content_text v none = if is_null v then [] else content_other v (as_array v)

  unfoldable pub extract_message_content : V → Text
  unfolding push_blocks
  extract_message_content msg =
      map_or [] (λ v. content_text v (as_str v)) (get msg (codes "content"))

  abbrev pub labelled_text : Text → Option Text → Text
  labelled_text label none = []
  labelled_text label (some t) = codes " [" ++ (label ++ (codes "=" ++ (t ++ codes "]")))

  -- `label` is the name of a field that is shown as JSON.
  abbrev pub labelled_json : V → Text → Text
  labelled_json msg label =
      labelled_text label (map_or none (λ j. some (to_string j)) (get msg label))

  abbrev pub message_role : V → Text
  message_role msg = unwrap_or (codes "unknown") (str_field msg (codes "role"))

  unfoldable pub message_part : V → Text
  unfolding extract_message_content
  message_part msg =
      message_role msg
      ++ (codes ": "
          ++ (extract_message_content msg
              ++ (labelled_text (codes "name") (str_field msg (codes "name"))
                  ++ (labelled_text (codes "tool_call_id") (str_field msg (codes "tool_call_id"))
                      ++ (labelled_json msg (codes "tool_calls")
                          ++ labelled_json msg (codes "function_call"))))))

  abbrev pub is_skipped : V → Bool
  is_skipped msg =
      is_blank (extract_message_content msg)
      && not (text_eq (message_role msg) (codes "tool"))
      && not (message_has_tooling msg)

  unfoldable pub message_parts : List V → List Text
  unfolding message_part
  message_parts [] = []
  message_parts (msg ∷ messages) =
      let rest = message_parts messages in if is_skipped msg then rest else message_part msg ∷ rest

  abbrev pub nonblank_line : Text → Option Text → List Text
  nonblank_line label none = []
  nonblank_line label (some t) = if is_blank t then [] else (label ++ (codes ": " ++ t)) ∷ []

  unfoldable pub model_extra : V → List Text
  model_extra v = nonblank_line (codes "model") (str_field v (codes "model"))

  abbrev pub json_line : V → Text → List Text
  json_line v label = map_or [] (λ j. (label ++ (codes ": " ++ to_string j)) ∷ []) (get v label)

  unfoldable pub chat_parts : V → List V → List Text
  unfolding message_parts
  chat_parts v messages =
      nonblank_line (codes "system") (str_field v (codes "system")) ++ message_parts messages

  unfoldable pub chat_extras : V → List Text
  unfolding model_extra
  chat_extras v =
      model_extra v
      ++ (json_line v (codes "tools")
          ++ (json_line v (codes "tool_choice")
              ++ (json_line v (codes "functions") ++ json_line v (codes "function_call"))))

  abbrev pub chat_prompt : V → List V → Text × List Text
  chat_prompt v messages =
      let parts = chat_parts v messages in
      if is_empty parts then (to_string v, []) else (join line_feed parts, chat_extras v)

  -- `extract_prompt_parts` after the parser, at the fields "prompt" and "messages".
  abbrev pub value_parts : V → Option Text → Option (List V) → Text × List Text
  value_parts v (some p) messages = (p, model_extra v)
  value_parts v none (some messages) = chat_prompt v messages
  value_parts v none none = (to_string v, [])

  abbrev pub is_question : V → Bool
  is_question msg =
      option_eq (str_field msg (codes "role")) (codes "user")
      && not (is_blank (extract_message_content msg))

  -- The loop over the messages, the last one first.
  unfoldable pub find_question : List V → Option Text
  find_question [] = none
  find_question (msg ∷ messages) =
      let rest = find_question messages in
      if is_question msg then some (extract_message_content msg) else rest

  abbrev pub value_has_tooling : V → Bool
  value_has_tooling v =
      is_some (get v (codes "tools"))
      || is_some (get v (codes "tool_choice"))
      || is_some (get v (codes "functions"))
      || is_some (get v (codes "function_call"))
      || map_or false (any message_has_tooling) (array_field v (codes "messages"))

  -- `to_vec(&value).unwrap_or_else(|_| body.to_vec())`
  abbrev pub with_model : (V → Option (List ℕ)) → List ℕ → Text → V → List ℕ
  with_model to_vec body model v =
      if is_object v
      then unwrap_or body (to_vec (set_field v (codes "model") (string model)))
      else body

  module _ (from_slice : List ℕ → Option V) where
    unfoldable pub extract_request_model : List ℕ → Option Text
    extract_request_model body = and_then (from_slice body) (λ v. str_field v (codes "model"))

    unfoldable pub override_request_model : (V → Option (List ℕ)) → List ℕ → Text → List ℕ
    override_request_model to_vec body model =
        map_or body (with_model to_vec body model) (from_slice body)

    unfoldable pub has_tooling : List ℕ → Bool
    unfolding message_has_tooling
    has_tooling body = map_or false value_has_tooling (from_slice body)

    module _ (from_utf8_lossy : List ℕ → Text) where
      unfoldable pub extract_prompt_parts : List ℕ → Text × List Text
      unfolding chat_parts chat_extras
      extract_prompt_parts body =
          map_or (from_utf8_lossy body, [])
            (λ v. value_parts v (str_field v (codes "prompt")) (array_field v (codes "messages")))
            (from_slice body)

      unfoldable pub extract_prompt : List ℕ → Text
      unfolding extract_prompt_parts
      extract_prompt body = (extract_prompt_parts body).0

      abbrev pub key_of_parts : Text × List Text → Text
      key_of_parts (prompt, extras) =
          if is_empty extras
          then prompt
          else if is_empty prompt
          then join line_feed extras
          else prompt ++ (line_feed ++ join line_feed extras)

      unfoldable pub extract_cache_key : List ℕ → Text
      unfolding extract_prompt_parts
      extract_cache_key body = key_of_parts (extract_prompt_parts body)

      -- `extract_semantic_key` after the parser, at the field "prompt".
      abbrev pub value_question : List ℕ → V → Option Text → Text
      value_question body v (some p) = p
      value_question body v none =
          unwrap_or (extract_prompt body)
            (and_then (array_field v (codes "messages")) (λ ms. find_question (reverse ms)))

      unfoldable pub extract_semantic_key : List ℕ → Text
      unfolding extract_prompt find_question
      extract_semantic_key body =
          map_or (from_utf8_lossy body) (λ v. value_question body v (str_field v (codes "prompt")))
            (from_slice body)
