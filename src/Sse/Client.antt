-- ===== src/Sse/Client.antt =====
-- What a client reads from the stream of a stored answer (src/openai_sse.rs).
use mathlib.Core.List.{append-nil, append_assoc}
use isartor.Common.{
  ℕ, Text, codes, text_eq, is_empty, lines, strip_prefix, if◌then◌else◌, Option, none, some, List,
  [], ◌∷◌, ◌++◌, and_then, or_else, unwrap_or, ◌≡◌, refl, ap, ◌∙◌,
}
use isartor.TextLines.{Plain, lines_from-newline}
use isartor.Http.{Host}
use isartor.Sse.{sse_response}
use isartor.Sse.OpenAi.{
  chunk, data_line, events, first_choice, message_field, answer_text, answer_response,
  value_response, build_sse_response, cached_to_sse_response,
}

module _ {V : Type 0} (host : Host V) where
  open host use {from_str}
  open host.json use {get, as_str, as_array, object, array, string, null, to_string}

  abbrev pub lookup : List (Text × V) → Text → Option V
  lookup [] key = none
  lookup ((k, v) ∷ fields) key = if text_eq k key then some v else lookup fields key

  -- What the client relies on: the fields of an object, the elements of an array and the text of a string are
  -- those that it was made of, `null` is no string, and the mark of the end of a stream is no JSON.
  pub record ReadLaws : Type 0 where
    pub get-object :
        (fields : List (Text × V)) (key : Text) → get (object fields) key ≡ lookup fields key
    pub as_array-array : (vs : List V) → as_array (array vs) ≡ some vs
    pub as_str-string : (t : Text) → as_str (string t) ≡ some t
    pub as_str-null : as_str null ≡ none
    pub done : from_str (codes "[DONE]") ≡ none

  -- The print of a value has no line feed and no carriage return, and parses to the value.
  abbrev pub ReadsBack : V → Type 0
  ReadsBack v = (from_str (to_string v) ≡ some v) × Plain (to_string v)

  abbrev first_of : List V → Option V
  first_of [] = none
  first_of (c ∷ cs) = some c

  -- The first choice of a chunk, the text that it adds, and why it ends.
  abbrev choice_of : V → Option V
  choice_of v = and_then (and_then (get v (codes "choices")) as_array) first_of

  abbrev text_of : V → Option Text
  text_of delta = and_then (get delta (codes "content")) as_str

  abbrev added : V → Text
  added v = unwrap_or [] (and_then (choice_of v) (λ c. and_then (get c (codes "delta")) text_of))

  abbrev ends : V → Option Text
  ends v = and_then (choice_of v) (λ c. and_then (get c (codes "finish_reason")) as_str)

  -- A chunk before what follows it.
  abbrev before : V → Option (Text × Option Text) → Option (Text × Option Text)
  before v none = none
  before v (some (text, reason)) = some (added v ++ text, or_else (ends v) reason)

  -- The payload of a line, at its parse.
  abbrev payload_read : Text → Option V → Option (Text × Option Text) → Option (Text × Option Text)
  payload_read payload none later =
      if text_eq payload (codes "[DONE]") then some ([], none) else none
  payload_read payload (some v) later = before v later

  abbrev line_read : Option Text → Option (Text × Option Text) → Option (Text × Option Text)
  line_read none later = none
  line_read (some payload) later = payload_read payload (from_str payload) later

  -- A client: it reads the lines of the stream, joins the texts of the chunks up to the mark of the end, and
  -- keeps the reason why they end. It fails on a line that is not data, on data that is no JSON, and on a
  -- stream without the mark.
  unfoldable pub read : List Text → Option (Text × Option Text)
  read [] = none
  read (line ∷ rest) =
      let later = read rest in
      if is_empty line then later else line_read (strip_prefix (codes "data: ") line) later

module _ {V : Type 0} (host : Host V) (id : Text) (created : ℕ) (laws : ReadLaws host) where
  open host use {from_str}
  open host.json use {get, as_str, as_array, object, array, string, number, null, to_string}

  choice-chunk :
      (model : Text) (delta reason : V)
      → choice_of host (chunk host id created model delta reason)
        ≡ some (
            object (
              (codes "index", number 0)
              ∷ (codes "delta", delta)
              ∷ (codes "finish_reason", reason)
              ∷ []))
  unfolding chunk
  choice-chunk model delta reason =
      ap (λ o. and_then (and_then o as_array) (first_of host)) (laws.get-object _ (codes "choices"))
      ∙ ap (λ o. and_then o (first_of host)) (laws.as_array-array _)

  added-chunk :
      (model : Text) (fields : List (Text × V)) (reason : V)
      → added host (chunk host id created model (object fields) reason)
        ≡ unwrap_or [] (and_then (lookup host fields (codes "content")) as_str)
  added-chunk model fields reason =
      ap (λ o. unwrap_or [] (and_then o (λ c. and_then (get c (codes "delta")) (text_of host))))
        (choice-chunk model (object fields) reason)
      ∙ ap (λ o. unwrap_or [] (and_then o (text_of host))) (laws.get-object _ (codes "delta"))
      ∙ ap (λ o. unwrap_or [] (and_then o as_str)) (laws.get-object fields (codes "content"))

  ends-chunk :
      (model : Text) (delta reason : V)
      → ends host (chunk host id created model delta reason) ≡ as_str reason
  ends-chunk model delta reason =
      ap (λ o. and_then o (λ c. and_then (get c (codes "finish_reason")) as_str))
        (choice-chunk model delta reason)
      ∙ ap (λ o. and_then o as_str) (laws.get-object _ (codes "finish_reason"))

  lines-data :
      (v : V) (rest : Text)
      → ReadsBack host v
      → lines (data_line host id created v ++ rest)
        ≡ (codes "data: " ++ to_string v) ∷ [] ∷ lines rest
  lines-data v rest (parses, plain) =
      ap (λ (t : Text). lines (codes "data: " ++ t))
        (append_assoc (to_string v) (codes "\n\n") rest)
      ∙ lines_from-newline [] (codes "data: " ++ to_string v) (10 ∷ rest) tt (
        (refl, refl),
        ((refl, refl), ((refl, refl), ((refl, refl), ((refl, refl), ((refl, refl), plain))))),
      )

  read-data :
      (v : V) (rest : Text)
      → ReadsBack host v
      → read host (lines (data_line host id created v ++ rest))
        ≡ before host v (read host (lines rest))
  unfolding read
  read-data v rest reads =
      ap (read host) (lines-data v rest reads)
      ∙ ap (λ o. payload_read host (to_string v) o (read host (lines rest))) reads.0

  abbrev pub model_of : Text → V → Text
  model_of model_fallback val = unwrap_or model_fallback (and_then (get val (codes "model")) as_str)

  -- The three chunks of a streamed text.
  abbrev pub opening : Text → V
  opening model =
      chunk host id created model (object ((codes "role", string (codes "assistant")) ∷ [])) null

  abbrev pub content : Text → Text → V
  content model text =
      chunk host id created model (object ((codes "content", string text) ∷ [])) null

  abbrev pub closing : Text → V
  closing model = chunk host id created model (object []) (string (codes "stop"))

  abbrev stream : Text → Text → Text
  stream model text =
      events host id created model (object ((codes "content", string text) ∷ [])) (codes "stop")

  read-done : read host (lines (codes "data: [DONE]\n\n")) ≡ some ([], none)
  unfolding read
  read-done = ap (λ o. payload_read host (codes "[DONE]") o none) laws.done

  before-eq :
      (v : V) (added' text : Text) (ends' reason : Option Text)
      → added host v ≡ added'
      → ends host v ≡ ends'
      → before host v (some (text, reason)) ≡ some (added' ++ text, or_else ends' reason)
  before-eq v added' text ends' reason e f =
      ap (λ (t : Text). some (t ++ text, or_else (ends host v) reason)) e
      ∙ ap (λ (r : Option Text). some (added' ++ text, or_else r reason)) f

  read-stream :
      (model text : Text)
      → ReadsBack host (opening model)
      → ReadsBack host (content model text)
      → ReadsBack host (closing model)
      → read host (lines (stream model text)) ≡ some (text, some (codes "stop"))
  unfolding events
  read-stream model text a b c =
      read-data (opening model) _ a
      ∙ ap (before host (opening model)) (
          read-data (content model text) _ b
          ∙ ap (before host (content model text)) (
              read-data (closing model) _ c
              ∙ ap (before host (closing model)) read-done
              ∙ before-eq (closing model) [] [] (some (codes "stop")) none
                  (added-chunk model [] (string (codes "stop")))
                  (ends-chunk model (object []) (string (codes "stop"))
                    ∙ laws.as_str-string (codes "stop")))
          ∙ before-eq (content model text) text [] none (some (codes "stop"))
              (added-chunk model _ null ∙ ap (unwrap_or []) (laws.as_str-string text))
              (ends-chunk model _ null ∙ laws.as_str-null)
          ∙ ap (λ (t : Text). some (t, some (codes "stop"))) (append-nil text))
      ∙ before-eq (opening model) [] text none (some (codes "stop")) (added-chunk model _ null)
          (ends-chunk model _ null ∙ laws.as_str-null)

  -- A stored answer that has a text is streamed as events from which a client reads exactly that text, however
  -- empty, and the reason `stop`, whatever tools the answer calls. The client reads the data lines up to the
  -- mark of the end and joins what the chunks add. Beside its laws on JSON, the print of each of the three
  -- chunks must have no line break and parse to the chunk.
  pub read-cached_to_sse_response :
      (cached_json model_fallback text : Text) (val : V)
      → from_str cached_json ≡ some val
      → answer_text host id created val ≡ some text
      → ReadsBack host (opening (model_of model_fallback val))
      → ReadsBack host (content (model_of model_fallback val) text)
      → ReadsBack host (closing (model_of model_fallback val))
      → (body : Text) × (cached_to_sse_response host id created cached_json model_fallback
          ≡ sse_response host body)
        × (read host (lines body) ≡ some (text, some (codes "stop")))
  unfolding cached_to_sse_response build_sse_response
  read-cached_to_sse_response cached_json model_fallback text val parsed found a b c = (
    stream (model_of model_fallback val) text,
    ap (value_response host id created cached_json model_fallback) parsed
        ∙ ap
            (λ t.
              answer_response host id created cached_json (model_of model_fallback val)
                (first_choice host id created val) t
                (message_field host id created (first_choice host id created val)
                  (codes "tool_calls"))
                (message_field host id created (first_choice host id created val)
                  (codes "function_call")))
            found,
    read-stream (model_of model_fallback val) text a b c,
  )
