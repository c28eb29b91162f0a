-- ===== src/Compression/Classifier.antt =====
-- src/compression/stages/content_classifier.rs: the gate that lets only instructions through.
-- `str::to_lowercase` is an argument.
use isartor.Common.{
  ℕ, Text, codes, byte_len, contains, retain, length, true, if◌then◌else◌, List, [], ◌∷◌, ltb, leb,
  Option,
}
use isartor.Compression.Cache.{InstructionCache}
use isartor.Compression.Pipeline.{StageOutput, unchanged, CompressionStage}

abbrev pub min_instruction_len : ℕ
min_instruction_len = 200

abbrev pub instruction_markers : List Text
instruction_markers =
    codes "custom_instruction"
    ∷ codes "copilot_instruction"
    ∷ codes "claude.md"
    ∷ codes "copilot-instructions"
    ∷ codes "<custom_instructions>"
    ∷ codes "</custom_instructions>"
    ∷ codes "<available_skills>"
    ∷ codes "# copilot instructions"
    ∷ codes "you are an ai"
    ∷ codes "you are a helpful"
    ∷ codes "code_change_instructions"
    ∷ codes "rules_for_code_changes"
    ∷ codes "<environment_context>"
    ∷ codes "version_information"
    ∷ codes "<session_context>"
    ∷ codes "<tool_calling>"
    ∷ codes "<thinking"
    ∷ codes "model_information"
    ∷ codes "<tips_and_tricks>"
    ∷ []

pub data ContentKind : Type 0 where
  instruction conversational : ContentKind

module _ (to_lowercase : Text → Text) where
  unfoldable pub classify : Text → ContentKind
  classify text =
      if ltb (byte_len text) min_instruction_len
      then conversational
      else (let lower = to_lowercase text in
          let hits = length (retain (λ m. contains m lower) instruction_markers) in
          if leb 1 hits then instruction else conversational)

  unfoldable pub process : Option Text → Text → InstructionCache → StageOutput × InstructionCache
  process scope text cache = elim (classify text) [
    | instruction ↦ (unchanged text, cache)
    | conversational ↦ (record (unchanged text) { short_circuit = true }, cache)
  ]

  abbrev pub content_classifier : CompressionStage
  content_classifier = record { name = codes "classifier"; process = process }
