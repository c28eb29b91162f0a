-- ===== src/Compression/Optimize/Tests.antt =====
-- A request body through src/compression/optimize.rs.
use isartor.Common.{
  ℕ, Text, codes, length, to_ascii_lowercase, true, false, Option, none, some, List, [], ◌∷◌, ◌++◌,
  ◌≡◌, refl,
}
use isartor.Json.Tree.{
  Value, string, array, object, nil, cons, end, field, get, lookup, assign, set_field, as_str,
  elements, to_list, from_list, fields, tree,
}
use isartor.Compression.Classifier
use isartor.Compression.Classifier.{classify}
use isartor.Compression.Pipeline.{execute}
use isartor.Compression.Dedup
use isartor.Compression.LogCrunch
use isartor.Compression.LogCrunch.{minify}
use isartor.Compression.Stages.{Externals, build_pipeline}
use isartor.Compression.Optimize.{
  str_field, block_texts, extract_text_from_value, is_array, system_step, role_of, content_of,
  rewrite_message, message_step, messages_loop, messages_step, rewrite, optimize_request_body,
}

abbrev externals : Externals
externals = record {
  to_lowercase = to_ascii_lowercase;
  sha256 = λ text. length text ∷ [];
  hex_encode = λ bytes. bytes;
}

-- An instruction of more than 200 bytes, with a rule in it.
abbrev instructions : Text
instructions =
    codes
      "You are a helpful assistant for this repository.\n-----\nNever edit generated files. Keep each change small and say why it is made."
    ++ codes
        "\nRun the tests before you commit, and quote the failing test when there is one. Answer in English."

abbrev message : Text → Text → Value
message role content =
    object (field (codes "role") (string role) (field (codes "content") (string content) end))

abbrev doc : Value
doc = object (
    field (codes "model") (string (codes "m")) (
      field (codes "messages")
        (array (
          cons (message (codes "system") instructions)
            (cons (message (codes "user") instructions) nil)))
        end))

abbrev from_slice : List ℕ → Option Value
from_slice [] = none
from_slice (b ∷ bytes) = some doc

abbrev to_vec : Value → Option (List ℕ)
to_vec (object (field k v fields)) = some (7 ∷ [])
to_vec _ = none

program : Unit {0}
unfolding optimize_request_body rewrite messages_step messages_loop message_step rewrite_message
    content_of role_of system_step is_array extract_text_from_value block_texts str_field as_str
    elements to_list from_list fields set_field assign get lookup execute build_pipeline classify
    Classifier.process minify LogCrunch.process LogCrunch.crunch_line LogCrunch.crunch_tests
    Dedup.process
program = tt

-- The rule goes: 6 bytes are saved, and the user's message is as it was.
optimize_runs :
    (optimize_request_body tree externals from_slice to_vec (1 ∷ []) none [] true true).0
    ≡ record { body = 7 ∷ []; modified = true; bytes_saved = 6; strategy = codes "log_crunch" }
unfolding program
optimize_runs = refl

invalid_runs :
    (optimize_request_body tree externals from_slice to_vec [] none [] true true).0
    ≡ record { body = []; modified = false; bytes_saved = 0; strategy = codes "none" }
unfolding program
invalid_runs = refl
