-- ===== src/Orchestrator/Answers.antt =====
-- Which layer answers a request, and what the request leaves behind (src/pipeline/orchestrator.rs).
use isartor.Common.{
  ℕ, Text, codes, Bool, true, false, not, ◌&&◌, Option, none, some, List, [], ◌∷◌, ◌++◌, map, take,
  ◌≡◌, ◌≢◌, arith,
}
use isartor.Concurrency.{Limiter}
use isartor.Orchestrator.Context.{
  ok, err, IntentClassification, simple, ProcessingLogEntry, PipelineResponse, AlgorithmSuite,
  PipelineConfig,
}
use isartor.Orchestrator.{generate_mock_documents, Served, finish}

-- The last entry of the log, and no other, short-circuits.
abbrev pub one_answer : List ProcessingLogEntry → Bool
one_answer [] = false
one_answer (e ∷ []) = e.short_circuited
one_answer (e ∷ f ∷ log) = not e.short_circuited && one_answer (f ∷ log)

abbrev pub no_answer : List ProcessingLogEntry → Bool
no_answer [] = true
no_answer (e ∷ log) = not e.short_circuited && no_answer log

pub no_answer-snoc :
    (log : List ProcessingLogEntry) (e : ProcessingLogEntry)
    → no_answer log ≡ true
    → e.short_circuited ≡ false
    → no_answer (log ++ e ∷ []) ≡ true
no_answer-snoc [] e h k = rw k
no_answer-snoc (f ∷ log) e h k = ground (arith, no_answer-snoc log e)

pub one_answer-snoc :
    (log : List ProcessingLogEntry) (e : ProcessingLogEntry)
    → no_answer log ≡ true
    → e.short_circuited ≡ true
    → one_answer (log ++ e ∷ []) ≡ true
one_answer-snoc [] e h k = k
one_answer-snoc (f ∷ []) e h k = ground arith
one_answer-snoc (f ∷ g ∷ log) e h k = ground (arith, one_answer-snoc (g ∷ log) e)

module _ {F S : Type 0} (zero_score : F) (fixed : ℕ → F → Text) (a : AlgorithmSuite F S)
    (cfg : PipelineConfig F) where
  -- The documents that go with the prompt to the cloud model.
  pub data Documents (prompt : Text) : List Text → Type 0 where
    ranked :
        {docs : List (Text × F)}
        → a.rerank prompt (generate_mock_documents 20) cfg.rerank_top_k ≡ ok docs
        → Documents prompt (map (λ (d : Text × F). d.0) docs)
    unranked :
        {e : Text}
        → a.rerank prompt (generate_mock_documents 20) cfg.rerank_top_k ≡ err e
        → Documents prompt (take cfg.rerank_top_k (generate_mock_documents 20))

  -- The cache has no answer; the vector is that of the prompt, if it has one.
  pub data Misses (store : S) (prompt : Text) : Option (List F) → Type 0 where
    not_embedded : {e : Text} → a.embed prompt ≡ err e → Misses store prompt none
    not_found :
        {v : List F}
        → a.embed prompt ≡ ok v
        → a.search store v cfg.similarity_threshold ≡ ok none
        → Misses store prompt (some v)
    not_searched :
        {v : List F} {e : Text}
        → a.embed prompt ≡ ok v
        → a.search store v cfg.similarity_threshold ≡ err e
        → Misses store prompt (some v)

  -- The local model has no answer.
  pub data Passes (prompt : Text) : Type 0 where
    not_classified : {e : Text} → a.classify prompt ≡ err e → Passes prompt
    not_simple :
        {intent : IntentClassification} {confidence : F}
        → a.classify prompt ≡ ok (intent, confidence)
        → intent ≢ simple
        → Passes prompt
    not_executed :
        {confidence : F} {e : Text}
        → a.classify prompt ≡ ok (simple, confidence)
        → a.execute_simple prompt ≡ err e
        → Passes prompt

  abbrev pub remember : S → Option (List F) → Text → S
  remember store none message = store
  remember store (some v) message = (a.insert store v message).0

  -- The layer that answers, the message, and the store afterwards.
  pub data Answers (store : S) (prompt : Text) : ℕ → Text → S → Type 0 where
    from_cache :
        {v : List F} {message : Text} {similarity : F}
        → a.embed prompt ≡ ok v
        → a.search store v cfg.similarity_threshold ≡ ok (some (message, similarity))
        → Answers store prompt 1 message store
    locally :
        {v : Option (List F)} {message : Text} {confidence : F}
        → Misses store prompt v
        → a.classify prompt ≡ ok (simple, confidence)
        → a.execute_simple prompt ≡ ok message
        → Answers store prompt 2 message (remember store v message)
    by_llm :
        {v : Option (List F)} {docs : List Text} {message : Text}
        → Misses store prompt v
        → Passes prompt
        → Documents prompt docs
        → a.complete prompt docs ≡ ok message
        → Answers store prompt 3 message (remember store v message)
    llm_failed :
        {v : Option (List F)} {docs : List Text} {e : Text}
        → Misses store prompt v
        → Passes prompt
        → Documents prompt docs
        → a.complete prompt docs ≡ err e
        → Answers store prompt 3
            (codes "Error: External LLM unavailable — " ++ e)
            (remember store v (codes "Error: External LLM unavailable — " ++ e))

  -- A run that ends in the release of the permit, with a response and a store that answer the prompt.
  pub record Ends (store : S) (prompt : Text) (limiter : Limiter) (held : ℕ)
      (o : Served zero_score fixed a) : Type 0 where
    pub response : PipelineResponse
    pub after : S
    pub ends : o ≡ finish zero_score fixed a limiter held after response
    pub answered : Answers store prompt response.resolved_by_layer response.message after
    pub logged : one_answer response.processing_log ≡ true
