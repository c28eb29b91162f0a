-- ===== src/Concurrency/Limit.antt =====
-- The concurrency limit and the window of latencies (src/pipeline/concurrency.rs).
use native.Mathlib.Nat.{le_refl}
use isartor.Common.{
  ℕ, zero, suc, ◌+◌, ◌-◌, ◌≤◌, ◌<◌, List, [], ◌∷◌, ◌++◌, length, drop, ◌≡◌, refl, some, arith, ltb,
  Bool-cases, leb, inl, inr,
}
use isartor.Concurrency.{
  ConcurrencyConfig, Limiter, u64_mod, new, trim_window, next_limit, record_latency,
}
use isartor.Concurrency.Percentile.{percentile_total}

drop-nil : (n : ℕ) → drop {A = ℕ} n [] ≡ []
drop-nil zero = refl
drop-nil (suc n) = refl

length-trim_window : (size : ℕ) (window : List ℕ) → length (trim_window size window) ≤ size
unfolding trim_window
length-trim_window size [] = omega arith
length-trim_window size (d ∷ window) = ground (arith, length-trim_window size window)

-- The loop keeps the newest `size` samples.
pub trim_window-eq-drop :
    (size : ℕ) (window : List ℕ) → trim_window size window ≡ drop (length window - size) window
unfolding trim_window
trim_window-eq-drop size [] = rw (drop-nil (0 - size))
trim_window-eq-drop size (d ∷ window) = elim (Bool-cases (ltb size (length (d ∷ window)))) [
  | inl longer ↦
      let step : length (d ∷ window) - size ≡ suc (length window - size) = ground arith in
      rw (longer, step) (trim_window-eq-drop size window)
  | inr fits ↦ let stop : length (d ∷ window) - size ≡ 0 = ground arith in rw (fits, stop)
]

pub record IsValid (l : Limiter) : Type 0 where
  pub ordered : l.config.min_concurrency ≤ l.config.max_concurrency
  pub representable : l.config.max_concurrency + 1 < u64_mod
  pub above : l.config.min_concurrency ≤ l.concurrency_limit
  pub below : l.concurrency_limit ≤ l.config.max_concurrency
  pub window : length l.latency_window ≤ l.config.window_size

next_limit_bounds :
    (c : ConcurrencyConfig) (p95 current : ℕ)
    → c.min_concurrency ≤ c.max_concurrency
    → c.max_concurrency + 1 < u64_mod
    → c.min_concurrency ≤ current
    → current ≤ c.max_concurrency
    → (c.min_concurrency ≤ next_limit c p95 current)
      × (next_limit c p95 current ≤ c.max_concurrency)
unfolding next_limit
next_limit_bounds c p95 current o r a b = ground arith

pub new-IsValid :
    (config : ConcurrencyConfig)
    → config.min_concurrency ≤ config.max_concurrency
    → config.max_concurrency + 1 < u64_mod
    → IsValid (new config)
unfolding new
new-IsValid config o r = record {
  ordered = o;
  representable = r;
  above = o;
  below = le_refl config.max_concurrency;
  window = omega arith;
}

recalculated :
    (l : Limiter) (window : List ℕ) (p95 : ℕ)
    → IsValid l
    → length window ≤ l.config.window_size
    → IsValid (record l {
      latency_window = window;
      concurrency_limit = next_limit l.config p95 l.concurrency_limit;
    })
recalculated l window p95 v h =
    let (a, b) =
      next_limit_bounds l.config p95 l.concurrency_limit v.ordered v.representable v.above
        v.below in
    record {
      ordered = v.ordered;
      representable = v.representable;
      above = a;
      below = b;
      window = h;
    }

shortened :
    (l : Limiter) (window : List ℕ)
    → IsValid l
    → length window ≤ l.config.window_size
    → IsValid (record l { latency_window = window })
shortened l window v h = record {
  ordered = v.ordered;
  representable = v.representable;
  above = v.above;
  below = v.below;
  window = h;
}

-- On a well-formed limiter, recording a latency never fails, and keeps the limit between the floor and
-- the ceiling and the window within its size. The configuration and the counter of requests in flight
-- are left as they were. Of the samples and the new one behind them, the window keeps the last ones, as
-- many as its size allows.
pub record_latency-IsValid :
    (l : Limiter) (duration : ℕ)
    → IsValid l
    → (l' : Limiter) × (record_latency l duration ≡ some l')
      × IsValid l'
      × (l'.config ≡ l.config)
      × (l'.in_flight ≡ l.in_flight)
      × (l'.latency_window
          ≡ drop
              (length (l.latency_window ++ duration ∷ []) - l.config.window_size)
              (l.latency_window ++ duration ∷ []))
unfolding record_latency
record_latency-IsValid l duration v =
    let w = trim_window l.config.window_size (l.latency_window ++ duration ∷ []) in
    let fits = length-trim_window l.config.window_size (l.latency_window ++ duration ∷ []) in
    let newest = trim_window-eq-drop l.config.window_size (l.latency_window ++ duration ∷ []) in
    elim (Bool-cases (leb 10 (length w))) [
      | inl long ↦
          let (p95, e) = percentile_total w 95 (ground arith) in
          (
            record l {
              latency_window = w;
              concurrency_limit = next_limit l.config p95 l.concurrency_limit;
            },
            rw (long, e),
            recalculated l w p95 v fits,
            refl,
            refl,
            newest,
          )
      | inr short ↦
          (record l { latency_window = w }, rw short, shortened l w v fits, refl, refl, newest)
    ]
