-- ===== src/Retry/Tests.antt =====
-- Runs and instances of the retry loop.
use isartor.Common.{
  ℕ, zero, suc, ◌+◌, ◌*◌, ◌/◌, ◌^◌, ◌≤◌, min, max, codes, ◌≡◌, refl, [], ◌∷◌, some, arith, true,
}
use isartor.Errors.{GatewayError, cloud_llm, retryable, class, layer_label}
use isartor.Retry.{
  default_config, Outcome, ok, err, call, record_retry, agent_retry, record_error, agent_error,
  sleep, result, exponent, capped_delay, positive_jitter, with_jitter, backoff_delay, attempts,
  execute_with_retry, millisecond, second,
}
use isartor.Retry.Backoff.{backoff_delay_bounds, backoff_delay_total}
use isartor.Retry.Execute.{Run, execute_with_retry-Run}

program : Unit {0}
unfolding execute_with_retry attempts backoff_delay with_jitter positive_jitter capped_delay
    exponent class layer_label
program = tt

abbrev busy : GatewayError
busy = cloud_llm (codes "openai") (codes "429") retryable

-- The first call is refused, the second one succeeds.
abbrev second_time : ℕ → Outcome ℕ
second_time (suc zero) = err busy
second_time n = ok n

second_time_runs : execute_with_retry default_config second_time (λ a. 10) ≡ (
  result (ok 2),
  call 1
      ∷ record_error (codes "L3_Cloud") retryable
      ∷ agent_error
      ∷ sleep 213
      ∷ call 2
      ∷ record_retry 2 true
      ∷ agent_retry 2
      ∷ [],
)
unfolding program
second_time_runs = refl

delay_runs : backoff_delay 2 (250 * millisecond) (5 * second) 40 ≡ some 575
unfolding program
delay_runs = refl

execute_with_retry-Run_example :
    (n : ℕ) × Run second_time 1 2 (execute_with_retry default_config second_time (λ a. 10)) n
execute_with_retry-Run_example =
    execute_with_retry-Run default_config second_time (λ a. 10) 2 refl (omega arith)

-- The second attempt.
backoff_delay_bounds_example :
    (min (250 * millisecond * 2 ^ 1) (5 * second) / millisecond * 3 / 4 ≤ 575)
    × (1 ≤ 575)
    × (575
        ≤ max
            (min (250 * millisecond * 2 ^ 1) (5 * second) / millisecond
              + min (250 * millisecond * 2 ^ 1) (5 * second) / millisecond * 24 / 100)
            1)
backoff_delay_bounds_example =
    backoff_delay_bounds 1 (250 * millisecond) (5 * second) 40 (omega arith) (omega arith)
      delay_runs

backoff_delay_total_example :
    (d : ℕ) × (backoff_delay 3 (250 * millisecond) (5 * second) 7 ≡ some d)
backoff_delay_total_example = backoff_delay_total 3 (250 * millisecond) (5 * second) 7 (omega arith)
