-- ===== src/Retry/Backoff.antt =====
-- The delays between attempts (src/core/retry.rs).
use native.Mathlib.Nat.{mul-le-mul_left}
use isartor.Common.{
  ℕ, zero, suc, ◌+◌, ◌-◌, ◌*◌, ◌/◌, ◌%◌, ◌^◌, ◌≤◌, ◌<◌, max, ◌≡◌, refl, Bool, true, ◌==◌, ==_iff,
  false, if◌then◌else◌, some, arith, ◌≢◌, Option, none, min, ltb, sym, ap, ◌∙◌,
}
use isartor.Retry.{
  millisecond, exponent, capped_delay, positive_jitter, with_jitter, backoff_delay, duration_max,
}

-- Two functions agree below a bound if their tables do, which evaluation decides.
agrees : (f g : ℕ → ℕ) → ℕ → Bool
agrees f g zero = true
agrees f g (suc bound) = if f bound == g bound then agrees f g bound else false

agrees-eq : (f g : ℕ → ℕ) (k bound : ℕ) → agrees f g bound ≡ true → k < bound → f k ≡ g k
unfolding agrees
agrees-eq f g k zero table less = absurd (omega arith)
agrees-eq f g k (suc bound) table less =
    ground (arith, ==_iff (f bound) (g bound), agrees-eq f g k bound)

-- Up to attempt 32 the factor doubles with each attempt.
pub exponent_doubles : (k : ℕ) → k < 32 → exponent (k + 1) ≡ 2 ^ k
exponent_doubles k h = agrees-eq (λ k. exponent (k + 1)) (λ k. 2 ^ k) k 32 doubles h
  where
    doubles : agrees (λ k. exponent (k + 1)) (λ k. 2 ^ k) 32 ≡ true
    doubles = unfold agrees exponent in refl

pub exponent_truncated : (k : ℕ) → k < 32 → exponent (k + 33) ≡ 0
exponent_truncated k h = agrees-eq (λ k. exponent (k + 33)) (λ k. 0) k 32 vanishes h
  where
    vanishes : agrees (λ k. exponent (k + 33)) (λ k. 0) 32 ≡ true
    vanishes = unfold agrees exponent in refl

capped-le : (attempt base m : ℕ) → capped_delay attempt base m ≤ m
unfolding capped_delay
capped-le attempt base m = omega arith

-- The two branches of the jitter, over the percentage `k` that is taken off or put on.
less_bounds :
    (ms k d : ℕ)
    → k ≤ 25
    → d ≡ max (ms - ms * k / 100) 1
    → (ms * 3 / 4 ≤ d) × (1 ≤ d) × (d ≤ max (ms + ms * 24 / 100) 1)
less_bounds ms k d h e = let scaled = mul-le-mul_left ms h in omega arith

more_bounds :
    (ms k d : ℕ)
    → k ≤ 24
    → d ≡ max (ms + ms * k / 100) 1
    → (ms * 3 / 4 ≤ d) × (1 ≤ d) × (d ≤ max (ms + ms * 24 / 100) 1)
more_bounds ms k d h e = let scaled = mul-le-mul_left ms h in omega arith

with_jitter_small : (ms pct : ℕ) → ms < 2 ^ 63 → with_jitter ms pct ≡ positive_jitter ms pct
unfolding with_jitter
with_jitter_small ms pct h =
    let bits : ms % 2 ^ 64 ≡ ms = omega arith in
    let positive : ltb ms (2 ^ 63) ≡ true = ground arith in rw (bits, positive)

positive_jitter_bounds :
    (ms pct : ℕ) {d : ℕ}
    → pct < 50
    → positive_jitter ms pct ≡ some d
    → (ms * 3 / 4 ≤ d) × (1 ≤ d) × (d ≤ max (ms + ms * 24 / 100) 1)
unfolding positive_jitter
positive_jitter_bounds ms pct {d} lt h =
    let down = less_bounds ms (25 - pct) d in
    let up = more_bounds ms (pct - 25) d in ground (arith, down, up)

positive_jitter-ne-none : (ms pct : ℕ) → ms < 2 ^ 56 → pct < 50 → positive_jitter ms pct ≢ none
unfolding positive_jitter
positive_jitter-ne-none ms pct small lt =
    let less : ms * (25 - pct) ≤ ms * 25 = mul-le-mul_left ms (omega arith) in
    let more : ms * (pct - 25) ≤ ms * 24 = mul-le-mul_left ms (omega arith) in ground arith

with_jitter-ne-none : (ms pct : ℕ) → ms < 2 ^ 56 → pct < 50 → with_jitter ms pct ≢ none
with_jitter-ne-none ms pct small lt =
    rw (with_jitter_small ms pct (omega arith)) (positive_jitter-ne-none ms pct small lt)

some_of_ne-none {ℓ} : {A : Type ℓ} (o : Option A) → o ≢ none → (a : A) × (o ≡ some a)
some_of_ne-none none h = absurd (h refl)
some_of_ne-none (some a) h = (a, refl)

div-lt-pow : (m : ℕ) → m < 2 ^ 56 * millisecond → m / millisecond < 2 ^ 56
div-lt-pow m h = omega arith

min_above : (x limit m : ℕ) → m ≤ limit → min (min x limit) m ≡ min x m
min_above x limit m h = omega arith

-- Up to attempt 32 the capped delay is the base delay, doubled with each attempt, or the cap.
capped_delay_doubles :
    (k base m : ℕ) → k < 32 → m ≤ duration_max → capped_delay (k + 1) base m ≡ min (base * 2 ^ k) m
unfolding capped_delay
capped_delay_doubles k base m h fits =
    rw (exponent_doubles k h) (min_above (base * 2 ^ k) duration_max m fits)

-- Let `c` be the milliseconds of the base delay times 2 ^ k, or those of the cap if it is less. At
-- attempt `k + 1`, for `k` below 32 and a cap below 2 ^ 63 milliseconds, the delay in milliseconds,
-- where the arithmetic does not overflow, is at least three quarters of `c` and at least 1, and at most
-- the larger of 1 and of `c` with 24 percent put on, rounded down.
pub backoff_delay_bounds :
    (k base m nanos : ℕ) {d : ℕ}
    → k < 32
    → m < 2 ^ 63 * millisecond
    → backoff_delay (k + 1) base m nanos ≡ some d
    → (min (base * 2 ^ k) m / millisecond * 3 / 4 ≤ d)
      × (1 ≤ d)
      × (d
          ≤ max
              (min (base * 2 ^ k) m / millisecond + min (base * 2 ^ k) m / millisecond * 24 / 100)
              1)
unfolding backoff_delay
backoff_delay_bounds k base m nanos small cap h =
    let c = min (base * 2 ^ k) m in
    let capped : capped_delay (k + 1) base m ≡ c =
      capped_delay_doubles k base m small (omega arith) in
    let fits : c / millisecond < 2 ^ 63 = omega arith in
    positive_jitter_bounds (c / millisecond) (nanos % 50) (omega arith) (
      sym (with_jitter_small (c / millisecond) (nanos % 50) fits)
      ∙ ap (λ x. with_jitter (x / millisecond) (nanos % 50)) (sym capped)
      ∙ h)

-- With a cap below 2 ^ 56 milliseconds no value leaves `i64`: there is a delay at every attempt.
pub backoff_delay_total :
    (attempt base m nanos : ℕ)
    → m < 2 ^ 56 * millisecond
    → (d : ℕ) × (backoff_delay attempt base m nanos ≡ some d)
unfolding backoff_delay
backoff_delay_total attempt base m nanos h =
    let small =
      div-lt-pow (capped_delay attempt base m) (omega (arith, capped-le attempt base m)) in
    some_of_ne-none _ (
      with_jitter-ne-none (capped_delay attempt base m / millisecond) (nanos % 50) small
        (omega arith))

zero_ms : (pct : ℕ) → with_jitter 0 pct ≡ some 1
unfolding with_jitter positive_jitter
zero_ms pct = ground arith

capped_zero : (k base m : ℕ) → k < 32 → capped_delay (k + 33) base m / millisecond ≡ 0
unfolding capped_delay
capped_zero k base m h = rw (exponent_truncated k h) (omega arith)

-- From attempt 33 to attempt 64 the factor is zero, and the delay is one millisecond whatever the
-- base delay and the cap are.
pub backoff_delay_collapses :
    (k base m nanos : ℕ) → k < 32 → backoff_delay (k + 33) base m nanos ≡ some 1
unfolding backoff_delay
backoff_delay_collapses k base m nanos h = rw (capped_zero k base m h) (zero_ms (nanos % 50))
