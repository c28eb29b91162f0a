-- ===== src/Prompt/Question.antt =====
-- Which message the semantic key is taken from (src/core/prompt.rs).
use isartor.Common.{
  ℕ, Text, codes, true, false, Option, none, some, List, [], ◌∷◌, ◌++◌, reverse, All, All-append,
  ◌≡◌, refl, ap, ◌∙◌, sym,
}
use mathlib.Core.List.{reverse-append, reverse-cons, append_assoc, append-nil}
use isartor.Json.{Json}
use isartor.Prompt.{
  str_field, array_field, is_question, find_question, extract_message_content, extract_prompt,
  extract_semantic_key,
}

module _ {V : Type 0} (json : Json V) where
  abbrev pub NoQuestion : V → Type 0
  NoQuestion msg = is_question json msg ≡ false

  find_question-after :
      (skipped rest : List V)
      → All NoQuestion skipped
      → find_question json (skipped ++ rest) ≡ find_question json rest
  unfolding find_question
  find_question-after [] rest h = refl
  find_question-after (msg ∷ skipped) rest h =
      rw (find_question, h.0) (find_question-after skipped rest h.1)

  All-reverse : (ms : List V) → All NoQuestion ms → All NoQuestion (reverse ms)
  All-reverse [] h = tt
  All-reverse (msg ∷ ms) h =
      let tail = All-append NoQuestion (reverse ms) (msg ∷ []) (All-reverse ms h.1) (h.0, tt) in
      rw (reverse-cons msg ms) tail

  reverse-middle :
      (before after : List V) (msg : V)
      → reverse (before ++ msg ∷ after) ≡ reverse after ++ (msg ∷ reverse before)
  reverse-middle before after msg =
      reverse-append before (msg ∷ after)
      ∙ ap (λ (s : List V). s ++ reverse before) (reverse-cons msg after)
      ∙ append_assoc (reverse after) (msg ∷ []) (reverse before)

  find_question-last :
      (before after : List V) (msg : V)
      → is_question json msg ≡ true
      → All NoQuestion after
      → find_question json (reverse (before ++ msg ∷ after))
        ≡ some (extract_message_content json msg)
  unfolding find_question
  find_question-last before after msg q h =
      let skip = find_question-after (reverse after) (msg ∷ reverse before) (All-reverse after h) in
      let here : find_question json (msg ∷ reverse before)
          ≡ some (extract_message_content json msg) =
        rw (find_question, q) refl in
      ap (find_question json) (reverse-middle before after msg) ∙ skip ∙ here

  find_question-none : (ms : List V) → All NoQuestion ms → find_question json (reverse ms) ≡ none
  unfolding find_question
  find_question-none ms h =
      let skip = find_question-after (reverse ms) [] (All-reverse ms h) in
      ap (find_question json) (sym (append-nil (reverse ms))) ∙ skip

  module _ (from_slice : List ℕ → Option V) (from_utf8_lossy : List ℕ → Text) where
    -- The semantic key of a body with messages and without a prompt is the content of the last user
    -- message whose content is not blank, whatever stands before it, if such a message follows no more.
    pub extract_semantic_key-last :
        (body : List ℕ) (v : V) (before after : List V) (msg : V)
        → from_slice body ≡ some v
        → str_field json v (codes "prompt") ≡ none
        → array_field json v (codes "messages") ≡ some (before ++ msg ∷ after)
        → is_question json msg ≡ true
        → All NoQuestion after
        → extract_semantic_key json from_slice from_utf8_lossy body
          ≡ extract_message_content json msg
    unfolding extract_semantic_key
    extract_semantic_key-last body v before after msg parsed native messages q h =
        let found = find_question-last before after msg q h in
        rw (parsed, extract_semantic_key, native, messages, found) refl

    -- Without such a message the semantic key is the whole prompt.
    pub extract_semantic_key-none :
        (body : List ℕ) (v : V) (messages : List V)
        → from_slice body ≡ some v
        → str_field json v (codes "prompt") ≡ none
        → array_field json v (codes "messages") ≡ some messages
        → All NoQuestion messages
        → extract_semantic_key json from_slice from_utf8_lossy body
          ≡ extract_prompt json from_slice from_utf8_lossy body
    unfolding extract_semantic_key
    extract_semantic_key-none body v messages parsed native found h =
        let missing = find_question-none messages h in
        rw (parsed, extract_semantic_key, native, found, missing) refl
