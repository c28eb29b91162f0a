-- ===== src/Sse/Tests.antt =====
-- A run of the conversion of stored answers, and an instance of what is proved of it.
use isartor.Common.{
  Text, text_eq, codes, decimal, decimal_from, lines, any, false, ◌==◌, ◌||◌, if◌then◌else◌, Option,
  some, List, [], ◌∷◌, ◌≡◌, refl, ap, arith,
}
use isartor.Json.Tree.{
  Value, string, array, object, nil, cons, end, field, get, lookup, as_str, elements, to_list,
  to_string, print_values, print_fields, null, tree, fields, from_list, tree-JsonLaws,
}
use isartor.Sample.{host, parse}
use isartor.TextLines.{Plain}
use isartor.Http.{Host}
use isartor.Sse.OpenAi.{chunk, cached_to_sse_response}
use isartor.Sse.{sse_response}
use isartor.Sse.Client
use isartor.Sse.Client.{ReadLaws, read, read-cached_to_sse_response}

abbrev message_doc : Value → Value
message_doc msg =
    object
      (field (codes "choices") (array (cons (object (field (codes "message") msg end)) nil)) end)

-- An empty text, with and without a call of a tool.
abbrev plain_doc : Value
plain_doc = message_doc (object (field (codes "content") (string []) end))

abbrev tool_doc : Value
tool_doc = message_doc (
    object (
      field (codes "content") (string [])
        (field (codes "tool_calls") (array (cons (string (codes "weather")) nil)) end)))

abbrev parsing : Host Value
parsing = record host {
  from_str = λ t. if text_eq t (codes "plain") then some plain_doc else some tool_doc;
}

-- The call is left out.
tool_call_runs :
    cached_to_sse_response parsing (codes "0") 0 (codes "plain") (codes "m")
    ≡ cached_to_sse_response parsing (codes "0") 0 (codes "tool") (codes "m")
unfolding cached_to_sse_response get lookup as_str elements to_list
tool_call_runs = refl

program : Unit {0}
unfolding get lookup as_str elements to_list to_string chunk parse fields from_list decimal
    decimal_from print_values print_fields
program = tt

-- An answer with a text and a call of a tool.
abbrev called_doc : Value
called_doc = message_doc (
    object (
      field (codes "content") (string (codes "hi"))
        (field (codes "tool_calls") (array (cons (string (codes "weather")) nil)) end)))

abbrev delta_chunk : List (Text × Value) → Value → Value
delta_chunk delta reason = chunk host (codes "0") 0 (codes "m") (tree.object delta) reason

abbrev opening_chunk : Value
opening_chunk = delta_chunk ((codes "role", string (codes "assistant")) ∷ []) null

abbrev content_chunk : Value
content_chunk = delta_chunk ((codes "content", string (codes "hi")) ∷ []) null

abbrev closing_chunk : Value
closing_chunk = delta_chunk [] (string (codes "stop"))

-- A host that parses the prints of this answer and of its chunks.
abbrev reading : Host Value
reading = record host {
  from_str = parse (called_doc ∷ opening_chunk ∷ content_chunk ∷ closing_chunk ∷ []);
}

get-object :
    (fs : List (Text × Value)) (key : Text)
    → get (tree.object fs) key ≡ Client.lookup reading fs key
unfolding get lookup fields
get-object [] key = refl
get-object ((k, v) ∷ fs) key =
    ap (λ (o : Option Value). if text_eq k key then some v else o) (get-object fs key)

elements-array : (vs : List Value) → tree.as_array (tree.array vs) ≡ some vs
elements-array vs = tree-JsonLaws.as_array-array vs

reading-ReadLaws : ReadLaws reading
unfolding program
reading-ReadLaws = record {
  get-object = get-object;
  as_array-array = elements-array;
  as_str-string = λ t. refl;
  as_str-null = refl;
  done = refl;
}

any-Plain : (s : Text) → any (λ c. c == 10 || c == 13) s ≡ false → Plain s
any-Plain [] h = tt
any-Plain (c ∷ s) h = ((ground arith, ground arith), any-Plain s (ground arith))

read-cached_to_sse_response_example :
    (body : Text) × (cached_to_sse_response reading (codes "0") 0 (to_string called_doc) (codes "m")
      ≡ sse_response reading body)
    × (read reading (lines body) ≡ some (codes "hi", some (codes "stop")))
unfolding program
read-cached_to_sse_response_example =
    read-cached_to_sse_response reading (codes "0") 0 reading-ReadLaws (to_string called_doc)
      (codes "m") (codes "hi") called_doc refl refl (refl, any-Plain (to_string opening_chunk) refl)
      (refl, any-Plain (to_string content_chunk) refl)
      (refl, any-Plain (to_string closing_chunk) refl)
