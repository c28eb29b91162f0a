-- ===== src/Compression/Stages/Gate.antt =====
-- The classifier as the gate of the pipeline (src/compression/stages/content_classifier.rs).
use isartor.Common.{
  ◌≤◌, Text, codes, byte_len, Bool, true, false, Option, [], ◌∷◌, ◌≡◌, refl, arith, ◌⊎◌, inl, inr,
  if◌then◌else◌, ap, ◌∙◌,
}
use isartor.Compression.Cache.{InstructionCache}
use isartor.Compression.Pipeline.{
  unchanged, CompressionPipeline, Progress, absorb, run_stages, execute, start, finish,
}
use isartor.Compression.Classifier
use isartor.Compression.Classifier.{
  ContentKind, instruction, conversational, classify, content_classifier,
}
use isartor.Compression.Dedup.{dedup_stage}
use isartor.Compression.LogCrunch.{log_crunch_stage}
use isartor.Compression.Stages.{Externals, build_pipeline}

pub ContentKind-cases : (k : ContentKind) → (k ≡ instruction) ⊎ (k ≡ conversational)
ContentKind-cases instruction = inl refl
ContentKind-cases conversational = inr refl

module _ (x : Externals) where
  open x use {to_lowercase, sha256, hex_encode}

  unfoldable pub crunch_rest : Bool → CompressionPipeline
  crunch_rest enable_minify = if enable_minify then log_crunch_stage ∷ [] else []

  unfoldable pub rest_stages : Bool → Bool → CompressionPipeline
  rest_stages enable_dedup enable_minify =
      if enable_dedup
      then dedup_stage sha256 hex_encode ∷ crunch_rest enable_minify
      else crunch_rest enable_minify

  pub build_pipeline-rest :
      (d m : Bool) → build_pipeline x d m ≡ content_classifier to_lowercase ∷ rest_stages d m
  unfolding build_pipeline rest_stages crunch_rest
  build_pipeline-rest true true = refl
  build_pipeline-rest true false = refl
  build_pipeline-rest false true = refl
  build_pipeline-rest false false = refl

  pub instruction-long :
      (text : Text) → classify to_lowercase text ≡ instruction → 200 ≤ byte_len text
  unfolding classify
  instruction-long text h = ground arith

  pub run_stages_instruction :
      (stages : CompressionPipeline) (scope : Option Text) (p : Progress) (cache : InstructionCache)
      → classify to_lowercase p.current_text ≡ instruction
      → run_stages (content_classifier to_lowercase ∷ stages) scope p cache
        ≡ run_stages stages scope
            (absorb (content_classifier to_lowercase) (unchanged p.current_text) p)
            cache
  unfolding run_stages Classifier.process
  run_stages_instruction stages scope p cache h = rw (h, Classifier.process)

  pub run_stages_conversational :
      (stages : CompressionPipeline) (scope : Option Text) (p : Progress) (cache : InstructionCache)
      → classify to_lowercase p.current_text ≡ conversational
      → run_stages (content_classifier to_lowercase ∷ stages) scope p cache ≡ (
        absorb
            (content_classifier to_lowercase)
            (record (unchanged p.current_text) { short_circuit = true })
            p,
        cache,
      )
  unfolding run_stages Classifier.process
  run_stages_conversational stages scope p cache h = rw (h, Classifier.process)

  -- Whatever stages are enabled, a conversational text comes out as it went in, reported by the
  -- classifier alone and by nothing saved, and the cache of instruction hashes is not touched.
  pub execute_conversational :
      (d m : Bool) (scope : Option Text) (text : Text) (cache : InstructionCache)
      → classify to_lowercase text ≡ conversational
      → execute (build_pipeline x d m) scope text cache ≡ (
        record {
          text = text;
          modified = false;
          total_bytes_saved = 0;
          strategy = codes "none";
          stages =
              record {
                name = codes "classifier";
                modified = false;
                bytes_saved = 0;
                short_circuited = true;
              }
              ∷ [];
        },
        cache,
      )
  unfolding execute absorb
  execute_conversational d m scope text cache h =
      ap (λ (r : Progress × InstructionCache). (finish r.0, r.1))
        (ap (λ pipeline. run_stages pipeline scope (start text) cache) (build_pipeline-rest d m)
          ∙ run_stages_conversational (rest_stages d m) scope (start text) cache h)
