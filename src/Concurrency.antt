-- ===== src/Concurrency.antt =====
-- src/pipeline/concurrency.rs: the adaptive concurrency limiter.
-- The counters are `AtomicU64`: they wrap at 2 ^ 64. A duration is a number, and the time a permit was
-- held is an argument of `release`. Each function is one call that runs alone; `Threads` has the
-- interleavings of the atomic steps.
pub mod Sort
pub mod Limit
pub mod Percentile
pub mod Threads
pub mod Cancel
mod Tests
use isartor.Common.{
  ℕ, zero, suc, ◌+◌, ◌-◌, ◌*◌, ◌/◌, ◌%◌, ◌^◌, min, max, Bool, true, false, ltb, leb, if◌then◌else◌,
  Option, none, some, List, [], ◌∷◌, ◌++◌, length, get_elem?,
}
use isartor.Concurrency.Sort.{sort}

abbrev pub u64_mod : ℕ
u64_mod = 2 ^ 64

pub record ConcurrencyConfig : Type 0 where
  pub min_concurrency : ℕ
  pub max_concurrency : ℕ
  pub target_latency : ℕ
  pub window_size : ℕ

-- The latency in milliseconds.
abbrev pub default_config : ConcurrencyConfig
default_config = record {
  min_concurrency = 4;
  max_concurrency = 256;
  target_latency = 500;
  window_size = 100;
}

pub record Limiter : Type 0 where
  pub config : ConcurrencyConfig
  pub in_flight : ℕ
  pub concurrency_limit : ℕ
  pub latency_window : List ℕ

unfoldable pub new : ConcurrencyConfig → Limiter
new config = record {
  config = config;
  in_flight = 0;
  concurrency_limit = config.max_concurrency;
  latency_window = [];
}

abbrev pub fetch_add : Limiter → Limiter
fetch_add l = record l { in_flight = (l.in_flight + 1) % u64_mod }

abbrev pub fetch_sub : Limiter → Limiter
fetch_sub l = record l { in_flight = (l.in_flight + u64_mod - 1) % u64_mod }

-- `true` is `Ok(permit)`.
unfoldable pub try_acquire : Limiter → Limiter × Bool
try_acquire l =
    let current = l.in_flight in
    let added = fetch_add l in
    if leb added.concurrency_limit current then (fetch_sub added, false) else (added, true)

abbrev pub current_in_flight : Limiter → ℕ
current_in_flight l = l.in_flight

abbrev pub current_limit : Limiter → ℕ
current_limit l = l.concurrency_limit

-- The loop that pops the front of the window while it is longer than `size`.
unfoldable pub trim_window : ℕ → List ℕ → List ℕ
trim_window size [] = []
trim_window size (d ∷ window) =
    let rest = trim_window size window in
    if ltb size (length (d ∷ window)) then rest else d ∷ window

-- `none` is the panic of an index out of range.
unfoldable pub percentile : List ℕ → ℕ → Option ℕ
percentile window pct =
    let sorted = sort window in
    get_elem? sorted (min (length sorted * pct / 100 - 1) (length sorted - 1))

unfoldable pub next_limit : ConcurrencyConfig → ℕ → ℕ → ℕ
next_limit config p95 current =
    if ltb config.target_latency p95
    then max (current * 9 % u64_mod / 10) config.min_concurrency
    else min ((current + 1) % u64_mod) config.max_concurrency

unfoldable pub record_latency : Limiter → ℕ → Option Limiter
record_latency l duration =
    let window = trim_window l.config.window_size (l.latency_window ++ duration ∷ []) in
    let l' = record l { latency_window = window } in
    if leb 10 (length window)
    then (elim (percentile window 95) [
      | none ↦ none
      | some p95 ↦
          some (record l' { concurrency_limit = next_limit l.config p95 l.concurrency_limit })
    ])
    else some l'

-- `ConcurrencyPermit::release`: the decrement, the record, and `forget` of the permit.
unfoldable pub release : Limiter → ℕ → Option Limiter
release l duration = record_latency (fetch_sub l) duration

-- `Drop` of a permit.
unfoldable pub drop_permit : Limiter → Limiter
drop_permit l = fetch_sub l

-- The future of `release` dropped while it waits for the lock of the window: the decrement has been
-- made, and the permit that the future owns is dropped, since `forget` was not reached.
unfoldable pub release_cancelled : Limiter → Limiter
release_cancelled l = drop_permit (fetch_sub l)
