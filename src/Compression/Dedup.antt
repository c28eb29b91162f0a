-- ===== src/Compression/Dedup.antt =====
-- src/compression/stages/dedup.rs: instructions that the session sent in its last turn are replaced by
-- a reference to their hash. SHA-256 and the hexadecimal encoding are arguments.
use isartor.Common.{ℕ, ◌-◌, Text, codes, byte_len, decimal, true, Option, none, some, List, ◌++◌}
use isartor.Compression.Cache.{InstructionCache, hash_instructions, check_and_update}
use isartor.Compression.Pipeline.{StageOutput, unchanged, CompressionStage}

unfoldable pub reference : Text → ℕ → Text
reference hash turn =
    codes "[Context instructions unchanged since turn 1 (hash="
    ++ (hash
        ++ (codes ", turn="
            ++ (decimal turn ++ codes "). Follow the same instructions as before.]")))

abbrev pub replaced : Text → Text → StageOutput
replaced text ref = record {
  text = ref;
  modified = true;
  bytes_saved = byte_len text - byte_len ref;
  short_circuit = true;
}

module _ (sha256 : Text → List ℕ) (hex_encode : List ℕ → Text) where
  unfoldable pub process : Option Text → Text → InstructionCache → StageOutput × InstructionCache
  process none text cache = (unchanged text, cache)
  process (some scope) text cache =
      let hash = hash_instructions sha256 hex_encode text in
      let (cache', seen) = check_and_update cache scope hash in
      elim seen [
        | some turn ↦ (replaced text (reference hash turn), cache')
        | none ↦ (unchanged text, cache')
      ]

  abbrev pub dedup_stage : CompressionStage
  dedup_stage = record { name = codes "dedup"; process = process }
