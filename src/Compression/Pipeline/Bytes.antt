-- ===== src/Compression/Pipeline/Bytes.antt =====
-- The bytes that a pipeline reports as saved (src/compression/pipeline.rs).
use isartor.Common.{
  ℕ, ◌+◌, Text, byte_len, Bool, true, false, if◌then◌else◌, Option, ◌∷◌, ◌≡◌, arith,
}
use isartor.Compression.Cache.{InstructionCache}
use isartor.Compression.Pipeline.{
  StageOutput, CompressionStage, CompressionPipeline, Progress, absorb, run_stages,
}

-- The output of a stage on a text reports the bytes by which the text shrank.
abbrev pub IsHonest : Text → StageOutput → Type 0
IsHonest text o = o.modified ≡ true → byte_len o.text + o.bytes_saved ≡ byte_len text

-- The bytes left and the bytes saved add up to `size`.
abbrev pub IsBalanced : ℕ → Progress → Type 0
IsBalanced size p = byte_len p.current_text + p.total_saved ≡ size

pub absorb-IsBalanced :
    (size : ℕ) (stage : CompressionStage) (o : StageOutput) (p : Progress)
    → IsHonest p.current_text o
    → IsBalanced size p
    → IsBalanced size (absorb stage o p)
unfolding absorb
absorb-IsBalanced size stage o p honest b = ground (arith, honest)

IsBalanced-if :
    (size : ℕ) (b : Bool) (x y : Progress × InstructionCache)
    → IsBalanced size x.0
    → IsBalanced size y.0
    → IsBalanced size (if b then x else y).0
IsBalanced-if size true x y h k = h
IsBalanced-if size false x y h k = k

-- One stage, and whatever keeps the balance after it.
pub run_stages-IsBalanced :
    (size : ℕ) (stage : CompressionStage) (rest : CompressionPipeline) (scope : Option Text)
    (p : Progress) (cache : InstructionCache)
    → IsHonest p.current_text (stage.process scope p.current_text cache).0
    → ((p' : Progress) (cache' : InstructionCache)
        → IsBalanced size p'
        → IsBalanced size (run_stages rest scope p' cache').0)
    → IsBalanced size p
    → IsBalanced size (run_stages (stage ∷ rest) scope p cache).0
unfolding run_stages
run_stages-IsBalanced size stage rest scope p cache honest later b =
    let (o, cache') = stage.process scope p.current_text cache in
    let b' = absorb-IsBalanced size stage o p honest b in
    IsBalanced-if size o.short_circuit (absorb stage o p, cache')
      (run_stages rest scope (absorb stage o p) cache') b' (later (absorb stage o p) cache' b')
