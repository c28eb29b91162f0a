-- ===== src/Compression.antt =====
-- src/compression/: the instructions in a request are classified, replaced by a reference when the
-- session has sent them before, and stripped of decoration.
mod Tests
pub mod Cache
pub mod Pipeline
pub mod Classifier
pub mod Dedup
pub mod LogCrunch
pub mod Stages
pub mod Optimize
