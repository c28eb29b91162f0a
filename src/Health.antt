-- ===== src/Health.antt =====
-- The tracker of the provider's health (src/state.rs), whose state is behind a lock. The counters are
-- `u64`. `now` is the clock's RFC 3339 text.
pub mod Message
mod Tests
use isartor.Common.{
  ℕ, zero, suc, ◌+◌, ◌-◌, ◌%◌, ◌^◌, Text, codes, byte_len, char_len, is_empty, is_whitespace, join,
  leb, Bool, true, false, if◌then◌else◌, Option, none, some, List, [], ◌∷◌, ◌++◌, reverse, map_or,
}

pub data LastProviderOutcome : Type 0 where
  healthy failing unknown : LastProviderOutcome

pub record ProviderHealthState : Type 0 where
  pub requests_total : ℕ
  pub errors_total : ℕ
  pub last_success : Option Text
  pub last_error : Option Text
  pub last_error_message : Option Text
  pub last_outcome : LastProviderOutcome

abbrev pub default_state : ProviderHealthState
default_state = record {
  requests_total = 0;
  errors_total = 0;
  last_success = none;
  last_error = none;
  last_error_message = none;
  last_outcome = unknown;
}

abbrev pub u64_mod : ℕ
u64_mod = 2 ^ 64

abbrev pub add_word : Text → List Text → List Text
add_word [] words = words
add_word (c ∷ cur) words = reverse (c ∷ cur) ∷ words

-- `str::split_whitespace`: the current word is held in reverse.
unfoldable pub words_from : Text → Text → List Text
words_from cur [] = add_word cur []
words_from cur (c ∷ s) =
    let skipped = words_from [] s in
    let longer = words_from (c ∷ cur) s in if is_whitespace c then add_word cur skipped else longer

-- `&s[..n]` on bytes: `none` is the panic where `n` is inside a character or past the end.
unfoldable pub slice_to : ℕ → Text → Option Text
slice_to zero s = some []
slice_to (suc n) [] = none
slice_to (suc n) (c ∷ s) =
    let rest = slice_to (suc n - char_len c) s in
    if leb (char_len c) (suc n) then map_or none (λ t. some (c ∷ t)) rest else none

abbrev pub max_len : ℕ
max_len = 240

abbrev pub with_dots : Option Text → Option Text
with_dots none = none
with_dots (some t) = some (t ++ codes "...")

-- The message on one line.
unfoldable pub single_line : Text → Text
unfolding words_from
single_line error = join (codes " ") (words_from [] error)

unfoldable pub compact_line : Text → Option Text
unfolding slice_to
compact_line line =
    if leb (byte_len line) max_len then some line else with_dots (slice_to (max_len - 3) line)

unfoldable pub compact_provider_error : Text → Option Text
unfolding single_line compact_line
compact_provider_error error = compact_line (single_line error)

unfoldable pub record_success : Text → ProviderHealthState → ProviderHealthState
record_success now state = record state {
  requests_total = (state.requests_total + 1) % u64_mod;
  last_success = some now;
  last_outcome = healthy;
}

-- What the assignments have done when the message is computed.
abbrev pub counted : Text → ProviderHealthState → ProviderHealthState
counted now state = record state {
  requests_total = (state.requests_total + 1) % u64_mod;
  errors_total = (state.errors_total + 1) % u64_mod;
  last_error = some now;
}

-- The last two assignments, unless the message panics. `false` is the panic.
abbrev pub noted : Option Text → ProviderHealthState → Bool × ProviderHealthState
noted none state = (false, state)
noted (some message) state =
    (true, record state { last_error_message = some message; last_outcome = failing })

unfoldable pub record_failure : Text → Text → ProviderHealthState → Bool × ProviderHealthState
unfolding compact_provider_error
record_failure now error state = noted (compact_provider_error error) (counted now state)
