-- ===== src/Orchestrator/Requests.antt =====
-- Whole requests through src/pipeline/orchestrator.rs.
use isartor.Common.{
  ℕ, ◌+◌, ◌-◌, ◌%◌, ◌≤◌, ◌<◌, Text, codes, true, false, Option, none, some, [], ◌∷◌, ◌≡◌, refl, ap,
  arith, ◌∙◌, leb,
}
use isartor.Concurrency.{Limiter, try_acquire, fetch_add, fetch_sub, release, u64_mod}
use isartor.Concurrency.Limit.{IsValid, record_latency-IsValid}
use isartor.Orchestrator.Context.{PipelineResponse, AlgorithmSuite, PipelineConfig, new, log_step}
use isartor.Orchestrator.{finish, respond, execute_pipeline}
use isartor.Orchestrator.Answers.{one_answer, Answers}
use isartor.Orchestrator.Routes.{run_layers_end}

try_acquire-admits :
    (l : Limiter) → l.in_flight < l.concurrency_limit → try_acquire l ≡ (fetch_add l, true)
unfolding try_acquire
try_acquire-admits l h =
    let fits : leb l.concurrency_limit l.in_flight ≡ false = ground arith in rw fits

try_acquire-sheds :
    (l : Limiter)
    → l.concurrency_limit ≤ l.in_flight
    → l.in_flight < u64_mod
    → try_acquire l ≡ (l, false)
unfolding try_acquire
try_acquire-sheds l h r =
    let over : leb l.concurrency_limit l.in_flight ≡ true = ground arith in
    let back : ((l.in_flight + 1) % u64_mod + u64_mod - 1) % u64_mod ≡ l.in_flight = omega arith in
    rw over (ap (λ k. (record l { in_flight = k }, false)) back)

release-admitted :
    (l : Limiter) (held : ℕ)
    → IsValid l
    → l.in_flight < l.concurrency_limit
    → (l' : Limiter) × (release (fetch_add l) held ≡ some l')
      × IsValid l'
      × (l'.in_flight ≡ l.in_flight)
unfolding release
release-admitted l held v h =
    let before : IsValid (fetch_sub (fetch_add l)) = record {
      ordered = v.ordered;
      representable = v.representable;
      above = v.above;
      below = v.below;
      window = v.window;
    } in
    let (l', e, v', c, n, w) = record_latency-IsValid (fetch_sub (fetch_add l)) held before in
    let bound = v.below in
    let small = v.representable in
    let back : ((l.in_flight + 1) % u64_mod + u64_mod - 1) % u64_mod ≡ l.in_flight = omega arith in
    (l', e, v', n ∙ back)

module _ {F S : Type 0} (zero_score : F) (fixed : ℕ → F → Text) (a : AlgorithmSuite F S)
    (cfg : PipelineConfig F) where
  -- The response to a request, the limiter and the store after it.
  pub record Handled (limiter : Limiter) (store : S) (prompt : Text)
      (o : Option (PipelineResponse × Limiter × S)) : Type 0 where
    pub response : PipelineResponse
    pub limiter' : Limiter
    pub store' : S
    pub returned : o ≡ some (response, limiter', store')
    pub answered :
        Answers zero_score fixed a cfg store prompt response.resolved_by_layer response.message
          store'
    pub logged : one_answer response.processing_log ≡ true
    pub valid : IsValid limiter'
    pub released : limiter'.in_flight ≡ limiter.in_flight

  -- A request that finds the limiter well-formed and below its limit always gets a response, whatever
  -- the models, the vector store and the cloud model do. The message is that of the cache, or that of the
  -- local model if the cache has none, or that of the cloud model if neither has, or, if the cloud model
  -- fails too, a text with its error. In all cases but the first the message, be it the error, is
  -- inserted into the store under the prompt's vector, unless the prompt could not be embedded; nothing
  -- else is inserted. The last entry of the log, and no other, is the one that answered, and the permit
  -- is back.
  pub execute_pipeline-Handled :
      (limiter : Limiter) (held : ℕ) (store : S) (request_id prompt : Text)
      → IsValid limiter
      → limiter.in_flight < limiter.concurrency_limit
      → Handled limiter store prompt
          (execute_pipeline zero_score fixed a cfg limiter held store request_id prompt)
  unfolding execute_pipeline finish
  execute_pipeline-Handled limiter held store request_id prompt v h =
      let ctx =
        log_step (new zero_score request_id prompt) (codes "Layer0_AdaptiveConcurrency")
          (codes "Permit acquired") false in
      let end =
        run_layers_end zero_score fixed a cfg store (fetch_add limiter) held ctx refl refl in
      let (l', e, v', n) = release-admitted limiter held v h in
      record {
        response = end.response;
        limiter' = l';
        store' = end.after;
        returned = rw (try_acquire-admits limiter h) (end.ends ∙ rw (e, finish));
        answered = end.answered;
        logged = end.logged;
        valid = v';
        released = n;
      }

  -- A request that finds the limiter at its limit is answered by layer 0 at once: no model is asked,
  -- and the store and the limiter are as they were.
  pub execute_pipeline-shed :
      (limiter : Limiter) (held : ℕ) (store : S) (request_id prompt : Text)
      → limiter.concurrency_limit ≤ limiter.in_flight
      → limiter.in_flight < u64_mod
      → execute_pipeline zero_score fixed a cfg limiter held store request_id prompt
        ≡ some (
          record {
            resolved_by_layer = 0;
            message = codes "Service overloaded. Please retry later.";
            model = none;
            processing_log =
                record {
                  stage = codes "Layer0_AdaptiveConcurrency";
                  action = codes "REJECTED — system overloaded";
                  short_circuited = true;
                }
                ∷ [];
          },
          limiter,
          store,
        )
  unfolding execute_pipeline respond
  execute_pipeline-shed limiter held store request_id prompt h r =
      rw (try_acquire-sheds limiter h r)
