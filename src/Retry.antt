-- ===== src/Retry.antt =====
-- src/core/retry.rs: retries with exponential back-off.
-- A `Duration` is its number of nanoseconds. The wrapped operation is the sequence of its outcomes,
-- one for each call, and `subsec_nanos` of the clock at each back-off is an argument. What the loop
-- does to the outside (calls, metrics, visibility records, sleeps) is a list of events, in order.
pub mod Backoff
pub mod Execute
mod Tests
use isartor.Common.{
  ℕ, zero, suc, ◌+◌, ◌-◌, ◌*◌, ◌/◌, ◌%◌, ◌^◌, min, max, Text, codes, Bool, true, false, ltb, leb,
  ◌&&◌, if◌then◌else◌, Option, none, some, List, [], ◌∷◌, ◌++◌,
}
use isartor.Errors.{ErrorClass, retryable, fatal, GatewayError, class, layer_label}

abbrev pub millisecond : ℕ
millisecond = 1_000_000

abbrev pub second : ℕ
second = 1000 * millisecond

-- `Duration::MAX`.
abbrev pub duration_max : ℕ
duration_max = 2 ^ 64 * second - 1

pub record RetryConfig : Type 0 where
  pub max_attempts : ℕ
  pub base_delay : ℕ
  pub max_delay : ℕ

abbrev pub default_config : RetryConfig
default_config = record { max_attempts = 3; base_delay = 250 * millisecond; max_delay = 5 * second }

abbrev pub cloud_llm_config : RetryConfig
cloud_llm_config = record { max_attempts = 5; base_delay = 1 * second; max_delay = 8 * second }

-- `2_u64.saturating_pow(attempt.saturating_sub(1)) as u32`.
unfoldable pub exponent : ℕ → ℕ
exponent attempt = min (2 ^ (attempt - 1)) (2 ^ 64 - 1) % 2 ^ 32

unfoldable pub capped_delay : ℕ → ℕ → ℕ → ℕ
capped_delay attempt base max_delay = min (min (base * exponent attempt) duration_max) max_delay

-- The `i64` arithmetic on milliseconds: `none` where a value leaves the type. `pct` is
-- `nanos % 50`, and the jitter `pct - 25` percent; the quotient is rounded towards zero.
unfoldable pub positive_jitter : ℕ → ℕ → Option ℕ
positive_jitter ms pct =
    if ltb pct 25
    then if leb (ms * (25 - pct)) (2 ^ 63) then some (max (ms - ms * (25 - pct) / 100) 1) else none
    else if ltb (ms * (pct - 25)) (2 ^ 63) && ltb (ms + ms * (pct - 25) / 100) (2 ^ 63)
    then some (max (ms + ms * (pct - 25) / 100) 1)
    else none

-- The same for the milliseconds `- ms`: the sum is not positive, so its maximum with 1 is 1.
unfoldable pub negative_jitter : ℕ → ℕ → Option ℕ
negative_jitter ms pct =
    if ltb pct 25
    then if ltb (ms * (25 - pct)) (2 ^ 63) then some 1 else none
    else if leb (ms * (pct - 25)) (2 ^ 63) && leb (ms + ms * (pct - 25) / 100) (2 ^ 63)
    then some 1
    else none

-- `as_millis() as i64` keeps the low 64 bits, which stand for a negative number from 2 ^ 63 on.
unfoldable pub with_jitter : ℕ → ℕ → Option ℕ
with_jitter ms pct =
    let bits = ms % 2 ^ 64 in
    if ltb bits (2 ^ 63) then positive_jitter bits pct else negative_jitter (2 ^ 64 - bits) pct

-- The delay in milliseconds.
unfoldable pub backoff_delay : ℕ → ℕ → ℕ → ℕ → Option ℕ
backoff_delay attempt base max_delay nanos =
    with_jitter (capped_delay attempt base max_delay / millisecond) (nanos % 50)

pub data Outcome (T : Type 0) : Type 0 where
  ok : T → Outcome T
  err : GatewayError → Outcome T

pub data Event : Type 0 where
  call : ℕ → Event
  record_retry : ℕ → Bool → Event
  agent_retry : ℕ → Event
  record_error : Text → ErrorClass → Event
  agent_error : Event
  sleep : ℕ → Event

-- What the caller gets: a result, or the panic of `expect` (no attempt was allowed) or of an
-- overflow in the delay, in a build that checks for overflow.
pub data Returned (T : Type 0) : Type 0 where
  result : Outcome T → Returned T
  panicked : Returned T

abbrev pub error_events : GatewayError → List Event
error_events e = record_error (layer_label e) (class e) ∷ agent_error ∷ []

abbrev pub success_events : ℕ → List Event
success_events attempt =
    if ltb 1 attempt then record_retry attempt true ∷ agent_retry attempt ∷ [] else []

module _ {T : Type 0} where
  abbrev pub prepend : List Event → Returned T × List Event → Returned T × List Event
  prepend events (r, log) = (r, events ++ log)

  -- After the loop.
  abbrev pub exhausted : RetryConfig → Option GatewayError → Returned T × List Event
  exhausted config none = (panicked, [])
  exhausted config (some e) = (
    result (err e),
    record_retry config.max_attempts false ∷ agent_retry config.max_attempts ∷ [],
  )

  -- The sleep before the next attempt, unless this was the last one.
  abbrev pub back_off : RetryConfig → ℕ → ℕ → Returned T × List Event → Returned T × List Event
  back_off config attempt nanos next =
      if ltb attempt config.max_attempts
      then (elim (backoff_delay attempt config.base_delay config.max_delay nanos) [
        | none ↦ (panicked, [])
        | some d ↦ prepend (sleep d ∷ []) next
      ])
      else next

  -- One round of the loop at an outcome, where `next` is the rest of the loop.
  abbrev pub attempt_once :
      RetryConfig
      → ℕ
      → ℕ
      → Outcome T
      → (GatewayError → Returned T × List Event)
      → Returned T × List Event
  attempt_once config attempt nanos (ok v) next = (result (ok v), success_events attempt)
  attempt_once config attempt nanos (err e) next = elim (class e) [
    | fatal ↦ (result (err e), error_events e)
    | retryable ↦ prepend (error_events e) (back_off config attempt nanos (next e))
  ]

  -- `for attempt in 1..=max_attempts`, on the rounds left.
  pub attempts :
      RetryConfig
      → (ℕ → Outcome T)
      → (ℕ → ℕ)
      → ℕ
      → ℕ
      → Option GatewayError
      → Returned T × List Event
  attempts config f nanos zero attempt last_error = exhausted config last_error
  attempts config f nanos (suc left) attempt last_error = prepend (call attempt ∷ []) (
      attempt_once config attempt (nanos attempt) (f attempt)
        (λ e. attempts config f nanos left (suc attempt) (some e)))

  unfoldable pub execute_with_retry :
      RetryConfig → (ℕ → Outcome T) → (ℕ → ℕ) → Returned T × List Event
  unfolding attempts
  execute_with_retry config f nanos = attempts config f nanos config.max_attempts 1 none
