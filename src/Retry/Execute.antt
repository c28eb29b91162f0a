-- ===== src/Retry/Execute.antt =====
-- What `execute_with_retry` calls, and what it returns (src/core/retry.rs).
use isartor.Common.{
  ℕ, zero, suc, ◌+◌, ◌^◌, ◌*◌, ◌≤◌, ◌<◌, ◌≡◌, refl, Bool, true, false, ltb, Option, none, some,
  List, [], ◌∷◌, arith, ap, ◌⊎◌, inl, inr, sym, ◌∙◌, subst,
}
use native.Mathlib.Nat.{add-zero}
use isartor.Errors.{ErrorClass, retryable, fatal, GatewayError, class}
use isartor.Retry.{
  RetryConfig, Outcome, ok, err, Event, call, record_retry, agent_retry, record_error, agent_error,
  sleep, Returned, result, millisecond, prepend, error_events, success_events, exhausted, back_off,
  attempt_once, attempts, execute_with_retry,
}
use isartor.Retry.Backoff.{backoff_delay_total}

-- The attempts that the log has a call for, and the number of sleeps in it.
abbrev pub called : List Event → List ℕ
called [] = []
called (call n ∷ log) = n ∷ called log
called (record_retry n b ∷ log) = called log
called (agent_retry n ∷ log) = called log
called (record_error l c ∷ log) = called log
called (agent_error ∷ log) = called log
called (sleep d ∷ log) = called log

abbrev pub sleeps : List Event → ℕ
sleeps [] = 0
sleeps (sleep d ∷ log) = suc (sleeps log)
sleeps (call n ∷ log) = sleeps log
sleeps (record_retry n b ∷ log) = sleeps log
sleeps (agent_retry n ∷ log) = sleeps log
sleeps (record_error l c ∷ log) = sleeps log
sleeps (agent_error ∷ log) = sleeps log

-- `count` numbers from `a` on.
abbrev pub from : ℕ → ℕ → List ℕ
from a zero = []
from a (suc count) = a ∷ from (suc a) count

-- An outcome after which the loop goes on.
class-cases : (x : GatewayError) → (class x ≡ retryable) ⊎ (class x ≡ fatal)
class-cases x = go (class x)
  where
    go : (c : ErrorClass) → (c ≡ retryable) ⊎ (c ≡ fatal)
    go retryable = inl refl
    go fatal = inr refl

module _ {T : Type 0} where
  abbrev pub retries : Outcome T → Bool
  retries (ok v) = false
  retries (err e) = elim (class e) [ retryable ↦ true | fatal ↦ false ]

  -- The run from attempt `a` with `l` more rounds after it made `suc n` calls: all but the last
  -- ended in a retryable error, and the last is the last round or did not. Its outcome is returned.
  pub record Run (f : ℕ → Outcome T) (a l : ℕ) (r : Returned T × List Event) (n : ℕ) : Type 0 where
    pub within : n ≤ l
    pub returned : r.0 ≡ result (f (a + n))
    pub calls : called r.1 ≡ from a (suc n)
    pub pauses : sleeps r.1 ≡ n
    pub earlier : (i : ℕ) → i < n → retries (f (a + i)) ≡ true
    pub last : (n ≡ l) ⊎ (retries (f (a + n)) ≡ false)

  Run-here :
      (f : ℕ → Outcome T) (a l : ℕ) (r : Returned T × List Event) (o : Outcome T)
      → f a ≡ o
      → r.0 ≡ result o
      → called r.1 ≡ from a 1
      → sleeps r.1 ≡ 0
      → (0 ≡ l) ⊎ (retries o ≡ false)
      → Run f a l r 0
  Run-here f a l r o e res c p stop =
      let at : f (a + 0) ≡ o = ap f (add-zero a) ∙ e in
      record {
        within = omega arith;
        returned = res ∙ ap (λ x. result x) (sym at);
        calls = c;
        pauses = p;
        earlier = λ i h. absurd (omega arith);
        last = rw at stop;
      }

  -- A retryable failure at attempt `a`, a sleep, and the run from the next attempt.
  Run-next :
      (f : ℕ → Outcome T) (a l n d : ℕ) (e : GatewayError) (r : Returned T × List Event)
      → retries (f a) ≡ true
      → Run f (suc a) l r n
      → Run f a
          (suc l)
          (prepend (call a ∷ []) (prepend (error_events e) (prepend (sleep d ∷ []) r)))
          (suc n)
  Run-next f a l n d e r h run =
      let at : a + suc n ≡ suc a + n = omega arith in
      record {
        within = omega (arith, run.within);
        returned = run.returned ∙ ap (λ x. result (f x)) (sym at);
        calls = ap (◌∷◌ a) run.calls;
        pauses = ap suc run.pauses;
        earlier = λ i lt. earlier i lt;
        last = rw at (step_last run.last);
      }
    where
      earlier : (i : ℕ) → i < suc n → retries (f (a + i)) ≡ true
      earlier zero lt = rw (add-zero a) h
      earlier (suc i) lt =
          let at : a + suc i ≡ suc a + i = omega arith in rw at (run.earlier i (omega arith))

      step_last :
          (n ≡ l) ⊎ (retries (f (suc a + n)) ≡ false)
          → (suc n ≡ suc l) ⊎ (retries (f (suc a + n)) ≡ false)
      step_last (inl p) = inl (ap suc p)
      step_last (inr p) = inr p

  module _ (config : RetryConfig) (f : ℕ → Outcome T) (nanos : ℕ → ℕ) where
    Run-success :
        (l a : ℕ) (v : T)
        → f a ≡ ok v
        → Run f a l (prepend (call a ∷ []) (result (ok v), success_events a)) 0
    Run-success l a v e =
        Run-here f a l (prepend (call a ∷ []) (result (ok v), success_events a)) (ok v) e refl
          (ground arith) (ground arith) (inr refl)

    Run-fatal :
        (l a : ℕ) (x : GatewayError)
        → f a ≡ err x
        → class x ≡ fatal
        → Run f a l (prepend (call a ∷ []) (result (err x), error_events x)) 0
    Run-fatal l a x e c =
        Run-here f a l (prepend (call a ∷ []) (result (err x), error_events x)) (err x) e refl refl
          refl (inr (rw (c, retries)))

    Run-exhausted :
        (a : ℕ) (x : GatewayError)
        → f a ≡ err x
        → Run f a 0 (prepend (call a ∷ []) (prepend (error_events x) (exhausted config (some x)))) 0
    Run-exhausted a x e =
        Run-here f a 0
          (prepend (call a ∷ []) (prepend (error_events x) (exhausted config (some x)))) (err x) e
          refl refl refl (inl refl)

    retryable_round :
        (l a : ℕ) (x : GatewayError)
        → f a ≡ err x
        → class x ≡ retryable
        → config.max_delay < 2 ^ 56 * millisecond
        → a + l ≡ config.max_attempts
        → (next : Returned T × List Event) → (l ≡ 0 → next ≡ exhausted config (some x))
        → ((l' : ℕ) → l ≡ suc l' → (n : ℕ) × Run f (suc a) l' next n)
        → (n : ℕ) × Run f a l
            (prepend (call a ∷ []) (prepend (error_events x) (back_off config a (nanos a) next)))
            n
    retryable_round zero a x e c small rounds next stop go =
        let last : ltb a config.max_attempts ≡ false = ground arith in
        (0, rw (last, stop refl) (Run-exhausted a x e))
    retryable_round (suc l) a x e c small rounds next stop go =
        let more : ltb a config.max_attempts ≡ true = ground arith in
        let (d, delay) = backoff_delay_total a config.base_delay config.max_delay (nanos a) small in
        let (n, run) = go l refl in
        (suc n, rw (more, delay) (Run-next f a l n d x next (rw (e, retries, c)) run))

    round :
        (l a : ℕ) (next : GatewayError → Returned T × List Event) (o : Outcome T)
        → f a ≡ o
        → config.max_delay < 2 ^ 56 * millisecond
        → a + l ≡ config.max_attempts
        → ((x : GatewayError) → l ≡ 0 → next x ≡ exhausted config (some x))
        → ((x : GatewayError) (l' : ℕ) → l ≡ suc l' → (n : ℕ) × Run f (suc a) l' (next x) n)
        → (n : ℕ) × Run f a l (prepend (call a ∷ []) (attempt_once config a (nanos a) o next)) n
    round l a next (ok v) e small rounds stop go = (0, Run-success l a v e)
    round l a next (err x) e small rounds stop go = elim (class-cases x) [
      | inl c ↦
          let (n, run) = retryable_round l a x e c small rounds (next x) (stop x) (go x) in
          (n, rw (c, attempt_once) run)
      | inr c ↦ (0, rw (c, attempt_once) (Run-fatal l a x e c))
    ]

    attempts-Run :
        (l a : ℕ) (last_error : Option GatewayError)
        → config.max_delay < 2 ^ 56 * millisecond
        → a + l ≡ config.max_attempts
        → (n : ℕ) × Run f a l (attempts config f nanos (suc l) a last_error) n
    unfolding attempts
    attempts-Run zero a last_error small rounds =
        round zero a (λ x. exhausted config (some x)) (f a) refl small rounds (λ x h. refl)
          (λ x l' h. absurd (omega arith))
    attempts-Run (suc l) a last_error small rounds =
        round (suc l) a (λ x. attempts config f nanos (suc l) (suc a) (some x)) (f a) refl small
          rounds (λ x h. absurd (omega arith))
          (λ x l' h.
            run_at (attempts config f nanos (suc l) (suc a) (some x)) l' (omega arith)
              (attempts-Run l (suc a) (some x) small (omega arith)))
      where
        run_at :
            (r : Returned T × List Event) (l' : ℕ)
            → l ≡ l'
            → (n : ℕ) × Run f (suc a) l r n
            → (n : ℕ) × Run f (suc a) l' r n
        run_at r l' h (n, run) = (n, subst (λ k. Run f (suc a) k r n) h run)

    -- With at least one attempt allowed, and a cap on the delay below 2 ^ 56 milliseconds, the
    -- operation is called at attempts 1 to `1 + n`, in order and no further, with a sleep between any
    -- two, for some `n` below `max_attempts`. The outcome of the last call is returned, every call
    -- before it failed with a retryable error, and it did not, unless it was the last one allowed.
    pub execute_with_retry-Run :
        (m : ℕ)
        → config.max_attempts ≡ suc m
        → config.max_delay < 2 ^ 56 * millisecond
        → (n : ℕ) × Run f 1 m (execute_with_retry config f nanos) n
    unfolding execute_with_retry
    execute_with_retry-Run m e small =
        rw (ap (λ k. attempts config f nanos k 1 none) e)
          (attempts-Run m 1 none small (omega arith))
