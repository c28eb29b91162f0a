-- ===== src/Compression/Stages.antt =====
-- `build_pipeline` of src/compression/optimize.rs: the classifier, then the stages that are enabled.
pub mod Gate
pub mod Totals
pub mod Repeats
use isartor.Common.{ℕ, Text, Bool, if◌then◌else◌, List, [], ◌∷◌}
use isartor.Compression.Pipeline.{CompressionPipeline, add_stage}
use isartor.Compression.Classifier.{content_classifier}
use isartor.Compression.Dedup.{dedup_stage}
use isartor.Compression.LogCrunch.{log_crunch_stage}

-- What the stages take from outside: `str::to_lowercase`, SHA-256 and the hexadecimal encoding.
pub record Externals : Type 0 where
  pub to_lowercase : Text → Text
  pub sha256 : Text → List ℕ
  pub hex_encode : List ℕ → Text

unfoldable pub build_pipeline : Externals → Bool → Bool → CompressionPipeline
build_pipeline x enable_dedup enable_minify =
    let classified = add_stage [] (content_classifier x.to_lowercase) in
    let deduped =
      if enable_dedup
      then add_stage classified (dedup_stage x.sha256 x.hex_encode)
      else classified in
    if enable_minify then add_stage deduped log_crunch_stage else deduped
