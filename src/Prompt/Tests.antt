-- ===== src/Prompt/Tests.antt =====
-- Runs of the extraction functions, and instances of what is proved of them.
use isartor.Common.{ℕ, Text, codes, some, List, [], ◌∷◌, ◌≡◌, refl}
use isartor.Json.Tree.{
  set_field, assign, get, lookup, is_object, is_null, as_str, elements, to_list, to_string, tree,
  tree-JsonLaws,
}
use isartor.Sample.{parse, from_slice, print, native_doc, renamed_doc, named_doc, chat_doc, message}
use isartor.Prompt.{
  extract_message_content, find_question, extract_request_model, override_request_model,
  has_tooling, message_has_tooling, extract_prompt_parts, extract_prompt, extract_cache_key,
  extract_semantic_key, model_extra, chat_parts, chat_extras, message_parts, message_part,
  push_blocks, push_block,
}
use isartor.Prompt.Model.{extract_request_model-override_request_model}
use isartor.Prompt.Question.{extract_semantic_key-last}
use isartor.Prompt.Keys.{extract_cache_key_separates}

abbrev lossy : List ℕ → Text
lossy bytes = bytes

program : Unit {0}
unfolding from_slice print parse to_string set_field assign get lookup is_object is_null as_str
    elements to_list extract_message_content find_question extract_request_model
    override_request_model has_tooling message_has_tooling extract_prompt_parts extract_prompt
    extract_cache_key extract_semantic_key model_extra chat_parts chat_extras message_parts
    message_part push_blocks push_block
program = tt

native_key_runs : extract_cache_key tree from_slice lossy (print native_doc) ≡ codes "hi\nmodel: m"
unfolding program
native_key_runs = refl

chat_prompt_runs :
    extract_prompt tree from_slice lossy (print chat_doc)
    ≡ codes "user: one\nuser: two\nassistant: three"
unfolding program
chat_prompt_runs = refl

invalid_runs : extract_cache_key tree from_slice lossy (codes "?") ≡ codes "?"
unfolding program
invalid_runs = refl

-- The model of {"prompt": "hi", "model": "m"} is set.
extract_request_model-override_request_model_example :
    (extract_request_model tree from_slice (
        override_request_model tree from_slice (λ v. some (print v)) (print native_doc) (codes "n"))
      ≡ some (codes "n"))
    × (has_tooling tree from_slice (
          override_request_model tree from_slice
            (λ v. some (print v))
            (print native_doc)
            (codes "n"))
        ≡ has_tooling tree from_slice (print native_doc))
unfolding program
extract_request_model-override_request_model_example =
    extract_request_model-override_request_model tree tree-JsonLaws from_slice (λ v. some (print v))
      (print native_doc) (print renamed_doc) native_doc (codes "n") refl refl refl refl

extract_semantic_key-last_example :
    extract_semantic_key tree from_slice lossy (print chat_doc)
    ≡ extract_message_content tree (message (codes "user") (codes "two"))
unfolding program
extract_semantic_key-last_example =
    extract_semantic_key-last tree from_slice lossy (print chat_doc) chat_doc
      (message (codes "user") (codes "one") ∷ []) (message (codes "assistant") (codes "three") ∷ [])
      (message (codes "user") (codes "two")) refl refl refl refl (refl, tt)

-- Two bodies that differ in a field that the key leaves out.
extract_cache_key_separates_example : (codes "hi" ≡ codes "hi") × (codes "m" ≡ codes "m")
unfolding program
extract_cache_key_separates_example =
    extract_cache_key_separates tree from_slice lossy (print native_doc) (print named_doc)
      (codes "hi") (codes "hi") (codes "m") (codes "m")
      (record {
        value = native_doc;
        parsed = refl;
        prompt_field = refl;
        model_field = refl;
        visible = refl;
        one_line = refl;
      })
      (record {
        value = named_doc;
        parsed = refl;
        prompt_field = refl;
        model_field = refl;
        visible = refl;
        one_line = refl;
      })
      refl
