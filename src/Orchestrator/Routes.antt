-- ===== src/Orchestrator/Routes.antt =====
-- The steps of src/pipeline/orchestrator.rs, each up to the response that it leads to.
use isartor.Common.{
  ◌⊎◌, inl, inr, ℕ, Text, true, Option, none, some, List, take, ◌≡◌, ◌≢◌, refl, ap,
}
use isartor.Concurrency.{Limiter}
use isartor.Orchestrator.Context.{
  Result, ok, err, IntentClassification, unknown, simple, complex, rag, code_gen, unclassifiable,
  PipelineResponse, PipelineContext, AlgorithmSuite, PipelineConfig,
}
use isartor.Orchestrator.{
  generate_mock_documents, respond, cache_response, embedded, searched, search_step, classified,
  executed, local_step, reranked, completed, Served, finish, fall_back, route_locally, route_cached,
  run_layers,
}
use isartor.Orchestrator.Answers.{
  one_answer, no_answer, no_answer-snoc, one_answer-snoc, Documents, ranked, unranked, Misses,
  not_embedded, not_found, not_searched, Passes, not_classified, not_simple, not_executed, remember,
  Answers, from_cache, locally, by_llm, llm_failed, Ends,
}

intent-cases : (i : IntentClassification) → (i ≡ simple) ⊎ (i ≢ simple)
intent-cases simple = inl refl
intent-cases unknown = inr (λ e. cc)
intent-cases complex = inr (λ e. cc)
intent-cases rag = inr (λ e. cc)
intent-cases code_gen = inr (λ e. cc)
intent-cases unclassifiable = inr (λ e. cc)

module _ {F S : Type 0} (zero_score : F) (fixed : ℕ → F → Text) (a : AlgorithmSuite F S)
    (cfg : PipelineConfig F) (store : S) (limiter : Limiter) (held : ℕ) where
  cache_response-vector :
      (ctx : PipelineContext F) (v : Option (List F)) (message : Text)
      → cache_response zero_score fixed a store (record ctx { request_vector = v }) message
        ≡ remember zero_score fixed a cfg store v message
  unfolding cache_response
  cache_response-vector ctx none message = refl
  cache_response-vector ctx (some v) message = refl

  cache_response-remember :
      (ctx : PipelineContext F) (message : Text)
      → cache_response zero_score fixed a store ctx message
        ≡ remember zero_score fixed a cfg store ctx.request_vector message
  cache_response-remember ctx message = cache_response-vector ctx ctx.request_vector message

  abbrev EndsIn : Text → Served zero_score fixed a → Type 0
  EndsIn prompt o = Ends zero_score fixed a cfg store prompt limiter held o

  ended :
      (prompt : Text) {s : S} (s' : S) (r : PipelineResponse)
      → s ≡ s'
      → Answers zero_score fixed a cfg store prompt r.resolved_by_layer r.message s'
      → one_answer r.processing_log ≡ true
      → EndsIn prompt (finish zero_score fixed a limiter held s r)
  ended prompt s' r e answered logged = record {
    response = r;
    after = s';
    ends = ap (λ s. finish zero_score fixed a limiter held s r) e;
    answered = answered;
    logged = logged;
  }

  completed_end :
      (ctx : PipelineContext F) {docs : List Text} (o : Result Text)
      → Misses zero_score fixed a cfg store ctx.original_prompt ctx.request_vector
      → Passes zero_score fixed a cfg ctx.original_prompt
      → Documents zero_score fixed a cfg ctx.original_prompt docs
      → a.complete ctx.original_prompt docs ≡ o
      → no_answer ctx.processing_log ≡ true
      → let (ctx', message) = completed zero_score fixed a ctx o in
        EndsIn ctx.original_prompt (
          finish zero_score fixed a limiter held
            (cache_response zero_score fixed a store ctx' message)
            (respond zero_score fixed a 3 message (some a.llm_model) ctx'))
  unfolding completed respond
  completed_end ctx (ok message) m p d e quiet =
      ended ctx.original_prompt _ _ (cache_response-remember _ message) (by_llm m p d e)
        (one_answer-snoc ctx.processing_log _ quiet refl)
  completed_end ctx (err e) m p d e' quiet =
      ended ctx.original_prompt _ _ (cache_response-remember _ _) (llm_failed m p d e')
        (one_answer-snoc ctx.processing_log _ quiet refl)

  reranked_end :
      (ctx : PipelineContext F) (o : Result (List (Text × F)))
      → Misses zero_score fixed a cfg store ctx.original_prompt ctx.request_vector
      → Passes zero_score fixed a cfg ctx.original_prompt
      → a.rerank ctx.original_prompt (generate_mock_documents 20) cfg.rerank_top_k ≡ o
      → ctx.retrieved_context_documents ≡ generate_mock_documents 20
      → no_answer ctx.processing_log ≡ true
      → let optimised = reranked zero_score fixed a cfg.rerank_top_k ctx o in
        let (ctx', message) =
          completed zero_score fixed a optimised
            (a.complete ctx.original_prompt optimised.optimised_context_documents) in
        EndsIn ctx.original_prompt (
          finish zero_score fixed a limiter held
            (cache_response zero_score fixed a store ctx' message)
            (respond zero_score fixed a 3 message (some a.llm_model) ctx'))
  unfolding reranked
  reranked_end ctx (ok docs) m p e r quiet =
      completed_end _ _ m p (ranked e) refl (no_answer-snoc ctx.processing_log _ quiet refl)
  reranked_end ctx (err e) m p e' r quiet =
      let sent : Documents zero_score fixed a cfg ctx.original_prompt
          (take cfg.rerank_top_k ctx.retrieved_context_documents) =
        rw r (unranked e') in
      completed_end _ _ m p sent refl (no_answer-snoc ctx.processing_log _ quiet refl)

  fall_back_end :
      (ctx : PipelineContext F)
      → Misses zero_score fixed a cfg store ctx.original_prompt ctx.request_vector
      → Passes zero_score fixed a cfg ctx.original_prompt
      → no_answer ctx.processing_log ≡ true
      → EndsIn ctx.original_prompt (fall_back zero_score fixed a cfg limiter held store ctx)
  unfolding fall_back
  fall_back_end ctx m p quiet =
      reranked_end (record ctx { retrieved_context_documents = generate_mock_documents 20 }) _ m p
        refl refl quiet

  executed_end :
      (ctx : PipelineContext F) (confidence : F) (o : Result Text)
      → Misses zero_score fixed a cfg store ctx.original_prompt ctx.request_vector
      → a.classify ctx.original_prompt ≡ ok (simple, confidence)
      → a.execute_simple ctx.original_prompt ≡ o
      → no_answer ctx.processing_log ≡ true
      → EndsIn ctx.original_prompt (
          route_locally zero_score fixed a cfg limiter held store
            (executed zero_score fixed a ctx o))
  unfolding executed route_locally respond
  executed_end ctx c (ok response) m k e quiet =
      ended ctx.original_prompt _ _ (cache_response-remember _ response) (locally m k e)
        (one_answer-snoc ctx.processing_log _ quiet refl)
  executed_end ctx c (err e) m k e' quiet =
      fall_back_end _ m (not_executed k e') (no_answer-snoc ctx.processing_log _ quiet refl)

  local_step-other :
      (ctx : PipelineContext F) (i : IntentClassification)
      → i ≢ simple
      → local_step zero_score fixed a ctx i ≡ (ctx, none)
  unfolding local_step
  local_step-other ctx simple n = absurd (n refl)
  local_step-other ctx unknown n = refl
  local_step-other ctx complex n = refl
  local_step-other ctx rag n = refl
  local_step-other ctx code_gen n = refl
  local_step-other ctx unclassifiable n = refl

  passed_end :
      (ctx : PipelineContext F) (i : IntentClassification)
      → i ≢ simple
      → Misses zero_score fixed a cfg store ctx.original_prompt ctx.request_vector
      → Passes zero_score fixed a cfg ctx.original_prompt
      → no_answer ctx.processing_log ≡ true
      → EndsIn ctx.original_prompt (
          route_locally zero_score fixed a cfg limiter held store
            (local_step zero_score fixed a ctx i))
  unfolding route_locally
  passed_end ctx i n m p quiet = rw (local_step-other ctx i n) (fall_back_end ctx m p quiet)

  simple_end :
      (ctx : PipelineContext F) (i : IntentClassification) (confidence : F)
      → i ≡ simple
      → Misses zero_score fixed a cfg store ctx.original_prompt ctx.request_vector
      → a.classify ctx.original_prompt ≡ ok (i, confidence)
      → no_answer ctx.processing_log ≡ true
      → EndsIn ctx.original_prompt (
          route_locally zero_score fixed a cfg limiter held store
            (local_step zero_score fixed a ctx i))
  unfolding local_step
  simple_end ctx i c s m k quiet =
      rw s (executed_end ctx c (a.execute_simple ctx.original_prompt) m (rw s at k) refl quiet)

  classified_end :
      (ctx : PipelineContext F) (o : Result (IntentClassification × F))
      → Misses zero_score fixed a cfg store ctx.original_prompt ctx.request_vector
      → a.classify ctx.original_prompt ≡ o
      → no_answer ctx.processing_log ≡ true
      → let ctx' = classified zero_score fixed a ctx o in
        EndsIn ctx.original_prompt (
          route_locally zero_score fixed a cfg limiter held store
            (local_step zero_score fixed a ctx' ctx'.intent_classification))
  unfolding classified
  classified_end ctx (err e) m k quiet =
      passed_end _ unclassifiable (λ e. cc) m (not_classified k)
        (no_answer-snoc ctx.processing_log _ quiet refl)
  classified_end ctx (ok (i, c)) m k quiet =
      let quiet' = no_answer-snoc ctx.processing_log _ quiet refl in
      elim (intent-cases i) [
        | inr n ↦ passed_end _ i n m (not_simple k n) quiet'
        | inl s ↦ simple_end _ i c s m k quiet'
      ]

  searched_end :
      (ctx : PipelineContext F) (v : List F) (o : Result (Option (Text × F)))
      → ctx.request_vector ≡ some v
      → a.embed ctx.original_prompt ≡ ok v
      → a.search store v cfg.similarity_threshold ≡ o
      → no_answer ctx.processing_log ≡ true
      → EndsIn ctx.original_prompt (
          route_cached zero_score fixed a cfg limiter held store
            (searched zero_score fixed a ctx o))
  unfolding searched route_cached respond
  searched_end ctx v (ok (some (response, similarity))) w e f quiet =
      ended ctx.original_prompt _ _ refl (from_cache e f)
        (one_answer-snoc ctx.processing_log _ quiet refl)
  searched_end ctx v (ok none) w e f quiet =
      classified_end _ _ (rw w (not_found e f)) refl
        (no_answer-snoc ctx.processing_log _ quiet refl)
  searched_end ctx v (err e') w e f quiet =
      classified_end _ _ (rw w (not_searched e f)) refl
        (no_answer-snoc ctx.processing_log _ quiet refl)

  embedded_end :
      (ctx : PipelineContext F) (o : Result (List F))
      → ctx.request_vector ≡ none
      → a.embed ctx.original_prompt ≡ o
      → no_answer ctx.processing_log ≡ true
      → let ctx' = embedded zero_score fixed a ctx o in
        EndsIn ctx.original_prompt (
          route_cached zero_score fixed a cfg limiter held store (
            search_step zero_score fixed a store cfg.similarity_threshold ctx' ctx'.request_vector))
  unfolding embedded search_step route_cached
  embedded_end ctx (ok v) w e quiet = searched_end _ v _ refl e refl quiet
  embedded_end ctx (err e') w e quiet =
      rw w
        (classified_end _ _ (not_embedded e) refl (no_answer-snoc ctx.processing_log _ quiet refl))

  -- Once a permit is held, the layers end in its release.
  pub run_layers_end :
      (ctx : PipelineContext F)
      → ctx.request_vector ≡ none
      → no_answer ctx.processing_log ≡ true
      → EndsIn ctx.original_prompt (run_layers zero_score fixed a cfg limiter held store ctx)
  unfolding run_layers
  run_layers_end ctx w quiet = embedded_end ctx _ w refl quiet
