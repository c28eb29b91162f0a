-- ===== src/Compression/Pipeline.antt =====
-- src/compression/pipeline.rs: the stages and the executor that runs them in order.
-- A stage is its name and its `process`, which takes the session scope, the text and the shared cache
-- of instruction hashes, and returns its output beside the new cache. Durations are left out of the
-- reports.
pub mod Order
pub mod Bytes
use isartor.Common.{
  ℕ, zero, ◌+◌, Text, codes, join, is_empty, Bool, true, false, if◌then◌else◌, Option, List, [],
  ◌∷◌, ◌++◌, length,
}
use isartor.Compression.Cache.{InstructionCache}

pub record StageOutput : Type 0 where
  pub text : Text
  pub modified : Bool
  pub bytes_saved : ℕ
  pub short_circuit : Bool

abbrev pub unchanged : Text → StageOutput
unchanged text = record { text = text; modified = false; bytes_saved = 0; short_circuit = false }

pub record CompressionStage : Type 0 where
  pub name : Text
  pub process : Option Text → Text → InstructionCache → StageOutput × InstructionCache

pub record StageReport : Type 0 where
  pub name : Text
  pub modified : Bool
  pub bytes_saved : ℕ
  pub short_circuited : Bool

pub record CompressionOutput : Type 0 where
  pub text : Text
  pub modified : Bool
  pub total_bytes_saved : ℕ
  pub strategy : Text
  pub stages : List StageReport

-- The variables of the loop in `execute`.
pub record Progress : Type 0 where
  pub current_text : Text
  pub reports : List StageReport
  pub total_saved : ℕ
  pub any_modified : Bool
  pub strategy_parts : List Text

abbrev pub CompressionPipeline : Type 0
CompressionPipeline = List CompressionStage

abbrev pub add_stage : CompressionPipeline → CompressionStage → CompressionPipeline
add_stage pipeline stage = pipeline ++ stage ∷ []

abbrev pub report : CompressionStage → StageOutput → StageReport
report stage output = record {
  name = stage.name;
  modified = output.modified;
  bytes_saved = output.bytes_saved;
  short_circuited = output.short_circuit;
}

-- One round of the loop, up to the test of `short_circuit`.
unfoldable pub absorb : CompressionStage → StageOutput → Progress → Progress
absorb stage output p =
    let reported = record p { reports = p.reports ++ report stage output ∷ [] } in
    if output.modified
    then record reported {
      total_saved = p.total_saved + output.bytes_saved;
      any_modified = true;
      strategy_parts = p.strategy_parts ++ stage.name ∷ [];
      current_text = output.text;
    }
    else reported

unfoldable pub run_stages :
    CompressionPipeline → Option Text → Progress → InstructionCache → Progress × InstructionCache
run_stages [] scope p cache = (p, cache)
run_stages (stage ∷ rest) scope p cache =
    let (output, cache') = stage.process scope p.current_text cache in
    let p' = absorb stage output p in
    let continued = run_stages rest scope p' cache' in
    if output.short_circuit then (p', cache') else continued

abbrev pub start : Text → Progress
start text = record {
  current_text = text;
  reports = [];
  total_saved = 0;
  any_modified = false;
  strategy_parts = [];
}

abbrev pub finish : Progress → CompressionOutput
finish p = record {
  text = p.current_text;
  modified = p.any_modified;
  total_bytes_saved = p.total_saved;
  strategy = if is_empty p.strategy_parts then codes "none" else join (codes "+") p.strategy_parts;
  stages = p.reports;
}

unfoldable pub execute :
    CompressionPipeline
    → Option Text
    → Text
    → InstructionCache
    → CompressionOutput × InstructionCache
unfolding run_stages absorb
execute pipeline scope original_text cache =
    let (p, cache') = run_stages pipeline scope (start original_text) cache in (finish p, cache')
