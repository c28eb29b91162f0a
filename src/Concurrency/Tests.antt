-- ===== src/Concurrency/Tests.antt =====
-- Runs and instances of the concurrency limiter.
use isartor.Common.{
  ℕ, ◌*◌, ◌/◌, ◌≤◌, ◌<◌, ◌-◌, ◌++◌, drop, List, [], ◌∷◌, length, ◌≡◌, refl, false, some, arith,
}
use isartor.Concurrency.{
  ConcurrencyConfig, Limiter, new, try_acquire, trim_window, percentile, next_limit, record_latency,
  release, drop_permit,
}
use isartor.Concurrency.Sort.{sort, insert, count_le, count_lt}
use isartor.Concurrency.Percentile.{percentile_total, percentile_rank}
use isartor.Concurrency.Limit.{IsValid, new-IsValid, record_latency-IsValid}
use isartor.Concurrency.Threads.{
  System, Thread, Phase, arrive, admit, begin_release, cancel, Reach, here, next, held,
  IsConsistent, deciding, holding, held-le-max_concurrency,
}

program : Unit {0}
unfolding new try_acquire trim_window percentile next_limit record_latency release sort insert
program = tt

abbrev config : ConcurrencyConfig
config = record { min_concurrency = 1; max_concurrency = 2; target_latency = 100; window_size = 20 }

abbrev fresh : Limiter
fresh = record { config = config; in_flight = 0; concurrency_limit = 2; latency_window = [] }

abbrev samples : List ℕ
samples = 5 ∷ 10 ∷ 300 ∷ 20 ∷ 30 ∷ 40 ∷ 250 ∷ 60 ∷ 70 ∷ []

-- The third request is shed, and the counter is as before it.
shedding_runs :
    try_acquire (try_acquire (try_acquire fresh).0).0 ≡ (record fresh { in_flight = 2 }, false)
unfolding program
shedding_runs = refl

-- The tenth sample makes the limit fall by a tenth.
record_runs :
    record_latency (record fresh { latency_window = samples }) 80
    ≡ some (record fresh { latency_window = samples ++ 80 ∷ []; concurrency_limit = 1 })
unfolding program
record_runs = refl

percentile_runs : percentile samples 95 ≡ some 250
unfolding program
percentile_runs = refl

percentile_total_example : (p : ℕ) × (percentile samples 95 ≡ some p)
percentile_total_example = percentile_total samples 95 (omega arith)

percentile_rank_example :
    (count_lt 250 samples ≤ length samples * 95 / 100 - 1)
    × (length samples * 95 / 100 - 1 < count_le 250 samples)
percentile_rank_example = percentile_rank samples 95 250 (omega arith) (omega arith) percentile_runs

new-IsValid_example : IsValid (new config)
new-IsValid_example = new-IsValid config (omega arith) (omega arith)

fresh-IsValid : IsValid fresh
fresh-IsValid = omega arith

record_latency-IsValid_example :
    (l' : Limiter) × (record_latency fresh 80 ≡ some l')
    × IsValid l'
    × (l'.config ≡ config)
    × (l'.in_flight ≡ 0)
    × (l'.latency_window ≡ drop (length {A = ℕ} ([] ++ 80 ∷ []) - 20) ([] ++ 80 ∷ []))
record_latency-IsValid_example = record_latency-IsValid fresh 80 fresh-IsValid

-- A limiter with this many requests counted, these threads and this many releases that wait.
abbrev at : ℕ → List Thread → ℕ → System
at n threads waiting = record {
  limiter = record fresh { in_flight = n };
  threads = threads;
  releasing = waiting;
}

abbrev thread : ℕ → Phase → Thread
thread c p = record { current = c; phase = p }

abbrev idle : System
idle = at 0 [] 0

idle-IsConsistent : IsConsistent idle
idle-IsConsistent = record { valid = fresh-IsValid; counted = refl; few = omega arith; ranked = tt }

abbrev one_thread : System
one_thread = at 1 (thread 0 holding ∷ []) 0

abbrev one_thread-Reach : Reach idle one_thread
one_thread-Reach =
    next (next here (arrive idle (omega arith)))
      (admit (at 1 (thread 0 deciding ∷ []) 0) [] [] 0 refl (omega arith))

abbrev two_threads : System
two_threads = at 2 (thread 1 holding ∷ thread 0 holding ∷ []) 0

abbrev two_threads-Reach : Reach idle two_threads
two_threads-Reach = next (next one_thread-Reach (arrive one_thread (omega arith))) (
    admit (at 2 (thread 1 deciding ∷ thread 0 holding ∷ []) 0) [] (thread 0 holding ∷ []) 1 refl
      (omega arith))

-- Both permits of a limiter of two are held.
held-le-max_concurrency_example : held two_threads.threads ≤ 2
held-le-max_concurrency_example =
    held-le-max_concurrency {s = idle} {t = two_threads} idle-IsConsistent two_threads-Reach
      ((((tt, tt), tt), tt), tt)

-- Then the older one is released and its release is cancelled: the counter is zero.
abbrev cancelled : System
cancelled = at 0 (thread 1 holding ∷ []) 0

cancelled-Reach : Reach idle cancelled
unfolding drop_permit
cancelled-Reach =
    next
      (next two_threads-Reach
        (begin_release two_threads (thread 1 holding ∷ []) [] (thread 0 holding) refl refl))
      (cancel (at 1 (thread 1 holding ∷ []) 1) 0 refl)

abbrev crowd : List Thread
crowd = thread 1 holding ∷ thread 0 holding ∷ thread 1 holding ∷ []

-- Two more are admitted, and three permits of a limiter of two are held.
three_held : Reach idle (at 2 crowd 0) × (held crowd ≡ 3)
three_held = (
  next
      (next
        (next (next cancelled-Reach (arrive cancelled (omega arith))) (
          admit (at 1 (thread 0 deciding ∷ thread 1 holding ∷ []) 0) [] (thread 1 holding ∷ []) 0
            refl (omega arith)))
        (arrive (at 1 (thread 0 holding ∷ thread 1 holding ∷ []) 0) (omega arith)))
      (admit (at 2 (thread 1 deciding ∷ thread 0 holding ∷ thread 1 holding ∷ []) 0) []
        (thread 0 holding ∷ thread 1 holding ∷ []) 1 refl (omega arith)),
  refl,
)
