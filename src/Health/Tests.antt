-- ===== src/Health/Tests.antt =====
-- Runs of the health tracker.
use isartor.Common.{ℕ, zero, suc, Text, codes, false, none, some, [], ◌∷◌, ◌≡◌, refl}
use isartor.Health.Message.{Compact, compact_provider_error-Compact}
use isartor.Health.{
  default_state, words_from, slice_to, single_line, compact_line, compact_provider_error,
  record_success, record_failure, counted,
}

program : Unit {0}
unfolding words_from slice_to single_line compact_line compact_provider_error record_success
    record_failure
program = tt

words_run : compact_provider_error (codes "  bad\n gateway ") ≡ some (codes "bad gateway")
unfolding program
words_run = refl

-- `n` times the character 错, which takes three bytes.
abbrev repeated : ℕ → Text
repeated zero = []
repeated (suc n) = 0x9519 ∷ repeated n

slice_panics_run : slice_to 4 (repeated 2) ≡ none
unfolding program
slice_panics_run = refl

-- One letter and 80 such characters: 241 bytes, and byte 237 is inside a character.
long_panics_run :
    record_failure (codes "now") (97 ∷ repeated 80) default_state
    ≡ (false, counted (codes "now") default_state)
unfolding program
long_panics_run = refl

compact_provider_error-Compact_example :
    Compact (single_line (97 ∷ repeated 80)) (compact_provider_error (97 ∷ repeated 80))
compact_provider_error-Compact_example = compact_provider_error-Compact (97 ∷ repeated 80)
