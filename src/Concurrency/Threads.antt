-- ===== src/Concurrency/Threads.antt =====
-- The limiter of src/pipeline/concurrency.rs under concurrent requests: each atomic access is a step,
-- and the steps of the requests interleave in any order. A release may be cancelled while it waits for the
-- lock of the window.
use isartor.Common.{
  ℕ, suc, ◌≤◌, ◌<◌, List, [], ◌∷◌, ◌++◌, length, length-append, ◌≡◌, ◌≢◌, some, arith, ap, sym, ◌∙◌,
  subst,
}
use isartor.Concurrency.{Limiter, u64_mod, fetch_add, fetch_sub, drop_permit, record_latency}
use isartor.Concurrency.Limit.{IsValid, record_latency-IsValid}

-- A request between its `fetch_add` and its `fetch_sub`: before the test against the limit, with a
-- permit, or refused and before it undoes its increment.
pub data Phase : Type 0 where
  deciding holding leaving : Phase

-- `current` is what `fetch_add` returned.
pub record Thread : Type 0 where
  pub current : ℕ
  pub phase : Phase

-- The newest thread stands first. `releasing` is the number of calls of `release` that have decremented the
-- counter and wait for the lock of the window.
pub record System : Type 0 where
  pub limiter : Limiter
  pub threads : List Thread
  pub releasing : ℕ

pub data Step : System → System → Type 0 where
  arrive :
      (s : System)
      → suc (length s.threads) < u64_mod
      → Step s (record s {
        limiter = fetch_add s.limiter;
        threads = record { current = s.limiter.in_flight; phase = deciding } ∷ s.threads;
      })
  admit :
      (s : System) (newer older : List Thread) (c : ℕ)
      → s.threads ≡ newer ++ (record { current = c; phase = deciding } ∷ older)
      → c < s.limiter.concurrency_limit
      → Step s (record s { threads = newer ++ (record { current = c; phase = holding } ∷ older) })
  refuse :
      (s : System) (newer older : List Thread) (c : ℕ)
      → s.threads ≡ newer ++ (record { current = c; phase = deciding } ∷ older)
      → s.limiter.concurrency_limit ≤ c
      → Step s (record s { threads = newer ++ (record { current = c; phase = leaving } ∷ older) })
  -- A refused request undoes its increment, or a permit is dropped.
  leave :
      (s : System) (newer older : List Thread) (t : Thread)
      → s.threads ≡ newer ++ (t ∷ older)
      → t.phase ≢ deciding
      → Step s (record s { limiter = fetch_sub s.limiter; threads = newer ++ older })
  begin_release :
      (s : System) (newer older : List Thread) (t : Thread)
      → s.threads ≡ newer ++ (t ∷ older)
      → t.phase ≡ holding
      → Step s (record s {
        limiter = fetch_sub s.limiter;
        threads = newer ++ older;
        releasing = suc s.releasing;
      })
  end_release :
      (s : System) (duration waiting : ℕ) (l : Limiter)
      → s.releasing ≡ suc waiting
      → record_latency s.limiter duration ≡ some l
      → Step s (record s { limiter = l; releasing = waiting })
  -- The future of `release` is dropped at its await, and with it the permit.
  cancel :
      (s : System) (waiting : ℕ)
      → s.releasing ≡ suc waiting
      → Step s (record s { limiter = drop_permit s.limiter; releasing = waiting })

pub data Reach (s : System) : System → Type 0 where
  here : Reach s s
  next : {t u : System} → Reach s t → Step t u → Reach s u

-- The step does not cancel a release.
abbrev pub Completes : {s t : System} → Step s t → Type 0
Completes (arrive s few) = Unit
Completes (admit s newer older c e lt) = Unit
Completes (refuse s newer older c e le) = Unit
Completes (leave s newer older t e p) = Unit
Completes (begin_release s newer older t e p) = Unit
Completes (end_release s duration waiting l w e) = Unit
Completes (cancel s waiting w) = ⊥

-- No step of the run cancels a release.
abbrev pub Uncancelled : {s t : System} → Reach s t → Type 0
Uncancelled here = Unit
Uncancelled (next r step) = Uncancelled r × Completes step

abbrev pub held : List Thread → ℕ
held [] = 0
held (t ∷ ts) = elim t.phase [ holding ↦ suc (held ts) | _ ↦ held ts ]

abbrev Admitted : ℕ → ℕ → Phase → Type 0
Admitted m c deciding = Unit
Admitted m c holding = c < m
Admitted m c leaving = Unit

-- What a thread's `fetch_add` returned counts every thread older than it that is still there.
abbrev Ranked : ℕ → List Thread → Type 0
Ranked m [] = Unit
Ranked m (t ∷ older) = (length older ≤ t.current) × Admitted m t.current t.phase × Ranked m older

held-le-length : (ts : List Thread) → held ts ≤ length ts
held-le-length [] = omega arith
held-le-length (t ∷ ts) = ground (arith, held-le-length ts)

held-step :
    (m c : ℕ) (ts : List Thread) (p : Phase)
    → Admitted m c p
    → length ts ≤ c
    → held ts ≤ m
    → held (record { current = c; phase = p } ∷ ts) ≤ m
held-step m c ts deciding a l h = h
held-step m c ts holding a l h = omega (arith, held-le-length ts)
held-step m c ts leaving a l h = h

Ranked-held : (m : ℕ) (ts : List Thread) → Ranked m ts → held ts ≤ m
Ranked-held m [] r = omega arith
Ranked-held m (t ∷ ts) r = held-step m t.current ts t.phase r.1 r.0 (Ranked-held m ts r.2)

Ranked-replace :
    (m : ℕ) (newer older : List Thread) (c : ℕ) (p q : Phase)
    → Ranked m (newer ++ (record { current = c; phase = p } ∷ older))
    → Admitted m c q
    → Ranked m (newer ++ (record { current = c; phase = q } ∷ older))
Ranked-replace m [] older c p q r a = (r.0, a, r.2)
Ranked-replace m (t ∷ newer) older c p q r a = (
  omega (
    arith,
    r.0,
    length-append newer (record { current = c; phase = p } ∷ older),
    length-append newer (record { current = c; phase = q } ∷ older),
  ),
  r.1,
  Ranked-replace m newer older c p q r.2 a,
)

Ranked-remove :
    (m : ℕ) (newer older : List Thread) (t : Thread)
    → Ranked m (newer ++ (t ∷ older))
    → Ranked m (newer ++ older)
Ranked-remove m [] older t r = r.2
Ranked-remove m (u ∷ newer) older t r = (
  omega (arith, r.0, length-append newer (t ∷ older), length-append newer older),
  r.1,
  Ranked-remove m newer older t r.2,
)

pub record IsConsistent (s : System) : Type 0 where
  pub valid : IsValid s.limiter
  pub counted : s.limiter.in_flight ≡ length s.threads
  pub few : length s.threads < u64_mod
  pub ranked : Ranked s.limiter.config.max_concurrency s.threads

length-replace :
    (ts newer older : List Thread) (t u : Thread)
    → ts ≡ newer ++ (t ∷ older)
    → length (newer ++ (u ∷ older)) ≡ length ts
length-replace ts newer older t u e =
    let a = length-append newer (t ∷ older) in
    let b = length-append newer (u ∷ older) in omega (arith, ap length e)

length-remove :
    (ts newer older : List Thread) (t : Thread)
    → ts ≡ newer ++ (t ∷ older)
    → suc (length (newer ++ older)) ≡ length ts
length-remove ts newer older t e =
    let a = length-append newer (t ∷ older) in
    let b = length-append newer older in omega (arith, ap length e)

replace-IsConsistent :
    (s : System) (newer older : List Thread) (c : ℕ) (p q : Phase)
    → s.threads ≡ newer ++ (record { current = c; phase = p } ∷ older)
    → Admitted s.limiter.config.max_concurrency c q
    → IsConsistent s
    → IsConsistent (record s { threads = newer ++ (record { current = c; phase = q } ∷ older) })
replace-IsConsistent s newer older c p q e a v =
    let size =
      length-replace s.threads newer older (record { current = c; phase = p })
        (record { current = c; phase = q }) e in
    record {
      valid = v.valid;
      counted = v.counted ∙ sym size;
      few = omega (arith, v.few);
      ranked =
          Ranked-replace _ newer older c p q
            (subst (Ranked s.limiter.config.max_concurrency) e v.ranked) a;
    }

-- A request that is done with the counter.
remove-IsConsistent :
    (s : System) (newer older : List Thread) (t : Thread) (waiting : ℕ)
    → s.threads ≡ newer ++ (t ∷ older)
    → IsConsistent s
    → IsConsistent
        (record s { limiter = fetch_sub s.limiter; threads = newer ++ older; releasing = waiting })
remove-IsConsistent s newer older t waiting e v =
    let size = length-remove s.threads newer older t e in
    record {
      valid = record {
        ordered = v.valid.ordered;
        representable = v.valid.representable;
        above = v.valid.above;
        below = v.valid.below;
        window = v.valid.window;
      };
      counted = omega (arith, v.counted, v.few);
      few = omega (arith, v.few);
      ranked =
          Ranked-remove _ newer older t
            (subst (Ranked s.limiter.config.max_concurrency) e v.ranked);
    }

-- Every step but a cancellation keeps the counter equal to the number of requests between their two
-- accesses to it.
Step-IsConsistent :
    {s t : System} (step : Step s t) → Completes step → IsConsistent s → IsConsistent t
Step-IsConsistent (arrive s few) k v = record {
  valid = record {
    ordered = v.valid.ordered;
    representable = v.valid.representable;
    above = v.valid.above;
    below = v.valid.below;
    window = v.valid.window;
  };
  counted = omega (arith, v.counted);
  few = few;
  ranked = (omega (arith, v.counted), tt, v.ranked);
}
Step-IsConsistent (admit s newer older c e lt) k v =
    replace-IsConsistent s newer older c deciding holding e (omega (arith, v.valid.below)) v
Step-IsConsistent (refuse s newer older c e le) k v =
    replace-IsConsistent s newer older c deciding leaving e tt v
Step-IsConsistent (leave s newer older t e p) k v =
    remove-IsConsistent s newer older t s.releasing e v
Step-IsConsistent (begin_release s newer older t e p) k v =
    remove-IsConsistent s newer older t (suc s.releasing) e v
Step-IsConsistent (cancel s waiting w) k v = absurd k
Step-IsConsistent (end_release s duration waiting l w e) k v =
    let (l', e', valid, config, flight, w) = record_latency-IsValid s.limiter duration v.valid in
    let same : l' ≡ l = cc in
    record {
      valid = subst IsValid same valid;
      counted = subst (λ k. k.in_flight ≡ length s.threads) same (flight ∙ v.counted);
      few = v.few;
      ranked =
          subst (λ k. Ranked k.config.max_concurrency s.threads) same
            (subst (λ k. Ranked k.max_concurrency s.threads) (sym config) v.ranked);
    }

Reach-IsConsistent :
    {s t : System} → IsConsistent s → (r : Reach s t) → Uncancelled r → IsConsistent t
Reach-IsConsistent v here u = v
Reach-IsConsistent v (next r step) u = Step-IsConsistent step u.1 (Reach-IsConsistent v r u.0)

-- However the requests interleave from a consistent state on, at most `max_concurrency` permits are
-- held at a time, as long as no call of `release` is cancelled while it waits for the lock of the
-- window. There are never 2 ^ 64 requests or more at a time.
pub held-le-max_concurrency :
    {s t : System}
    → IsConsistent s
    → (r : Reach s t) → Uncancelled r
    → held t.threads ≤ t.limiter.config.max_concurrency
held-le-max_concurrency {s} {t} v r u =
    let c = Reach-IsConsistent v r u in
    Ranked-held t.limiter.config.max_concurrency t.threads c.ranked

-- In such a run the counter never drifts: it is the number of requests that have incremented it and not
-- yet decremented it, so with no such request it is back at zero.
pub in_flight-eq-threads :
    {s t : System}
    → IsConsistent s
    → (r : Reach s t) → Uncancelled r
    → t.limiter.in_flight ≡ length t.threads
in_flight-eq-threads v r u = let c = Reach-IsConsistent v r u in c.counted
