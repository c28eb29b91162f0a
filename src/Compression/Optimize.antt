-- ===== src/Compression/Optimize.antt =====
-- `optimize_request_body` of src/compression/optimize.rs: the system prompts of a request, in the
-- three formats, go through the pipeline. Bodies are bytes; serde_json's values, parser and printer
-- are arguments.
pub mod Untouched
mod Tests
use isartor.Common.{
  ℕ, ◌+◌, Text, codes, text_eq, join, is_empty, Bool, true, false, if◌then◌else◌, Option, none,
  some, List, [], ◌∷◌,
}
use isartor.Json.{Json}
use isartor.Compression.Cache.{InstructionCache}
use isartor.Compression.Pipeline.{CompressionPipeline, CompressionOutput, execute}
use isartor.Compression.Stages.{Externals, build_pipeline}

pub record OptimizeResult : Type 0 where
  pub body : List ℕ
  pub modified : Bool
  pub bytes_saved : ℕ
  pub strategy : Text

-- The variables of the function.
pub record Rewriting : Type 0 where
  pub total_saved : ℕ
  pub any_modified : Bool
  pub strategy : Text
  pub instruction_cache : InstructionCache

module _ {V : Type 0} (json : Json V) where
  open json use {null, string, array, object, as_str, as_array, get, set_field}

  -- `b.get("text").and_then(|t| t.as_str())`
  unfoldable pub str_field : V → Text → Option Text
  str_field v key = elim (get v key) [ none ↦ none | some w ↦ as_str w ]

  unfoldable pub block_texts : List V → List Text
  block_texts [] = []
  block_texts (b ∷ blocks) =
      let rest = block_texts blocks in
      elim (str_field b (codes "text")) [ none ↦ rest | some t ↦ t ∷ rest ]

  unfoldable pub extract_text_from_value : V → Option Text
  extract_text_from_value val = elim (as_str val) [
    | some s ↦ some s
    | none ↦ elim (as_array val) [
      | none ↦ none
      | some blocks ↦
          let texts = block_texts blocks in
          if is_empty texts then none else some (join (codes "\n") texts)
    ]
  ]

  unfoldable pub is_array : V → Bool
  is_array v = elim (as_array v) [ none ↦ false | some vs ↦ true ]

  -- `json!([{"type": "text", "text": text}])`
  unfoldable pub text_block : Text → V
  text_block text =
      array (object ((codes "type", string (codes "text")) ∷ (codes "text", string text) ∷ []) ∷ [])

  module _ (pipeline : CompressionPipeline) (session_scope : Option Text) where
    unfoldable pub system_step : V → Rewriting → V × Rewriting
    system_step doc r = elim (get doc (codes "system")) [
      | none ↦ (doc, r)
      | some system ↦ elim (extract_text_from_value system) [
        | none ↦ (doc, r)
        | some system_text ↦
            let (output, cache) = execute pipeline session_scope system_text r.instruction_cache in
            let text = if is_array system then text_block output.text else string output.text in
            if output.modified
            then (
              set_field doc (codes "system") text,
              record {
                total_saved = r.total_saved + output.total_bytes_saved;
                any_modified = true;
                strategy = output.strategy;
                instruction_cache = cache;
              },
            )
            else (doc, record r { instruction_cache = cache })
      ]
    ]

    unfoldable pub role_of : V → Text
    role_of msg = elim (str_field msg (codes "role")) [ none ↦ [] | some role ↦ role ]

    unfoldable pub content_of : V → V
    content_of msg = elim (get msg (codes "content")) [ none ↦ null | some content ↦ content ]

    unfoldable pub rewrite_message : V → Text → Rewriting → V × Rewriting
    rewrite_message msg text r =
        let (output, cache) = execute pipeline session_scope text r.instruction_cache in
        if output.modified
        then (
          set_field msg (codes "content") (string output.text),
          record {
            total_saved = r.total_saved + output.total_bytes_saved;
            any_modified = true;
            strategy = if text_eq r.strategy (codes "none") then output.strategy else r.strategy;
            instruction_cache = cache;
          },
        )
        else (msg, record r { instruction_cache = cache })

    unfoldable pub message_step : V → Rewriting → V × Rewriting
    message_step msg r =
        let rewritten : V × Rewriting = elim (extract_text_from_value (content_of msg)) [
          | none ↦ (msg, r)
          | some text ↦ rewrite_message msg text r
        ] in
        if text_eq (role_of msg) (codes "system") then rewritten else (msg, r)

    unfoldable pub messages_loop : List V → Rewriting → List V × Rewriting
    messages_loop [] r = ([], r)
    messages_loop (msg ∷ messages) r =
        let (msg', r') = message_step msg r in
        let (rest, r'') = messages_loop messages r' in (msg' ∷ rest, r'')

    unfoldable pub messages_step : V → Rewriting → V × Rewriting
    messages_step doc r = elim (get doc (codes "messages")) [
      | none ↦ (doc, r)
      | some found ↦ elim (as_array found) [
        | none ↦ (doc, r)
        | some messages ↦
            let (messages', r') = messages_loop messages r in
            (set_field doc (codes "messages") (array messages'), r')
      ]
    ]

    unfoldable pub rewrite : V → InstructionCache → V × Rewriting
    rewrite doc cache =
        let start : Rewriting = record {
          total_saved = 0;
          any_modified = false;
          strategy = codes "none";
          instruction_cache = cache;
        } in
        let (doc', r) = system_step doc start in messages_step doc' r

module _ {V : Type 0} (json : Json V) (x : Externals) (from_slice : List ℕ → Option V)
    (to_vec : V → Option (List ℕ)) where
  unfoldable pub optimize_request_body :
      List ℕ → Option Text → InstructionCache → Bool → Bool → OptimizeResult × InstructionCache
  optimize_request_body body session_scope instruction_cache enable_dedup enable_minify =
      let untouched : OptimizeResult = record {
        body = body;
        modified = false;
        bytes_saved = 0;
        strategy = codes "none";
      } in
      elim (from_slice body) [
        | none ↦ (untouched, instruction_cache)
        | some doc ↦
            let (doc', r) =
              rewrite json (build_pipeline x enable_dedup enable_minify) session_scope doc
                instruction_cache in
            let new_body : List ℕ = elim (to_vec doc') [ none ↦ body | some bytes ↦ bytes ] in
            if r.any_modified
            then (
              record {
                body = new_body;
                modified = true;
                bytes_saved = r.total_saved;
                strategy = r.strategy;
              },
              r.instruction_cache,
            )
            else (untouched, r.instruction_cache)
      ]
