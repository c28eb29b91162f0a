-- ===== src/Orchestrator.antt =====
-- src/pipeline/orchestrator.rs: the layers of a request in order, each of which may answer it.
-- A request runs alone here, on the limiter and the vector store. The result of a call that can fail
-- is an argument of the function that handles it. `none` is a panic, which only the release of the
-- permit can raise.
pub mod Context
pub mod Answers
pub mod Routes
pub mod Requests
pub mod Replay
mod Tests
use isartor.Common.{
  ℕ, zero, suc, ◌+◌, Text, codes, decimal, Bool, true, false, if◌then◌else◌, Option, none, some,
  List, [], ◌∷◌, ◌++◌, map, length, take, byte_len, ltb,
}
use isartor.Concurrency.{Limiter, try_acquire, release}
use isartor.Orchestrator.Context.{
  Result, ok, err, IntentClassification, simple, unclassifiable, display, PipelineResponse,
  PipelineContext, new, log_step, AlgorithmSuite, PipelineConfig,
}

-- `{:02}`
abbrev pub two_digits : ℕ → Text
two_digits n = if ltb n 10 then codes "0" ++ decimal n else decimal n

abbrev pub mock_document : ℕ → Text
mock_document n =
    codes "[Doc-"
    ++ (two_digits n
        ++ (codes "] This is a simulated knowledge base document (#"
            ++ (decimal n
                ++ codes
                    ") containing information relevant to the user's query. In production, these would be retrieved from a vector DB or search engine.")))

abbrev documents_from : ℕ → ℕ → List Text
documents_from i zero = []
documents_from i (suc count) = mock_document (i + 1) ∷ documents_from (i + 1) count

unfoldable pub generate_mock_documents : ℕ → List Text
generate_mock_documents count = documents_from 0 count

abbrev pub mock_retrieved_document_count : ℕ
mock_retrieved_document_count = 20

-- `fixed n x` is `x` printed with `n` digits behind the point.
module _ {F S : Type 0} (zero_score : F) (fixed : ℕ → F → Text) (a : AlgorithmSuite F S) where
  abbrev Context : Type 0
  Context = PipelineContext F

  unfoldable pub respond : ℕ → Text → Option Text → Context → PipelineResponse
  respond layer message model ctx = record {
    resolved_by_layer = layer;
    message = message;
    model = model;
    processing_log = ctx.processing_log;
  }

  unfoldable pub cache_response : S → Context → Text → S
  cache_response store ctx response = elim ctx.request_vector [
    | none ↦ store
    | some vector ↦ (a.insert store vector response).0
  ]

  -- Step 1a
  unfoldable pub embedded : Context → Result (List F) → Context
  embedded ctx (ok vector) = record ctx { request_vector = some vector }
  embedded ctx (err e) = log_step ctx (codes "Layer1_Embed") (codes "Embedding failed: " ++ e) false

  -- Step 1b
  unfoldable pub searched : Context → Result (Option (Text × F)) → Context × Option Text
  searched ctx (ok (some (cached_response, similarity))) = (
    log_step ctx (codes "Layer1_SemanticCache")
        (codes "Cache HIT (similarity=" ++ (fixed 4 similarity ++ codes ")")) true,
    some cached_response,
  )
  searched ctx (ok none) =
      (log_step ctx (codes "Layer1_SemanticCache") (codes "Cache MISS") false, none)
  searched ctx (err e) =
      (log_step ctx (codes "Layer1_SemanticCache") (codes "Search failed: " ++ e) false, none)

  unfoldable pub search_step : S → F → Context → Option (List F) → Context × Option Text
  search_step store threshold ctx none = (ctx, none)
  search_step store threshold ctx (some vector) = searched ctx (a.search store vector threshold)

  -- Step 2
  unfoldable pub classified : Context → Result (IntentClassification × F) → Context
  classified ctx outcome =
      let labelled : Context = elim outcome [
        | ok (intent, confidence) ↦ record ctx {
          intent_classification = intent;
          complexity_score = confidence;
        }
        | err e ↦ record ctx {
          intent_classification = unclassifiable;
          complexity_score = zero_score;
        }
      ] in
      log_step labelled (codes "Layer2_IntentClassifier")
        (codes "Classified as "
          ++ (display labelled.intent_classification
              ++ (codes " (confidence=" ++ (fixed 3 labelled.complexity_score ++ codes ")"))))
        false

  unfoldable pub executed : Context → Result Text → Context × Option Text
  executed ctx (ok response) = (
    log_step ctx (codes "Layer2_LocalExecutor") (codes "Simple task executed by local SLM") true,
    some response,
  )
  executed ctx (err e) = (
    log_step ctx (codes "Layer2_LocalExecutor") (codes "Local execution failed: " ++ e) false,
    none,
  )

  unfoldable pub local_step : Context → IntentClassification → Context × Option Text
  local_step ctx simple = executed ctx (a.execute_simple ctx.original_prompt)
  local_step ctx _ = (ctx, none)

  -- Step 2.5
  unfoldable pub reranked : ℕ → Context → Result (List (Text × F)) → Context
  reranked top_k ctx (ok ranked) =
      let docs = map (λ (d : Text × F). d.0) ranked in
      log_step (record ctx { optimised_context_documents = docs })
        (codes "Layer2.5_ContextOptimiser")
        (codes "Reranked "
          ++ (decimal (length ctx.retrieved_context_documents)
              ++ (codes " → " ++ (decimal (length docs) ++ codes " documents"))))
        false
  reranked top_k ctx (err e) =
      log_step
        (record ctx { optimised_context_documents = take top_k ctx.retrieved_context_documents })
        (codes "Layer2.5_ContextOptimiser")
        (codes "Reranking failed: "
          ++ (e ++ (codes " — using first " ++ (decimal top_k ++ codes " docs"))))
        false

  -- Step 3
  unfoldable pub completed : Context → Result Text → Context × Text
  completed ctx (ok text) = (
    log_step ctx (codes "Layer3_ExternalLLM")
        (codes "Completion received (" ++ (decimal (byte_len text) ++ codes " chars)")) true,
    text,
  )
  completed ctx (err e) = (
    log_step ctx (codes "Layer3_ExternalLLM") (codes "LLM call failed: " ++ e) true,
    codes "Error: External LLM unavailable — " ++ e,
  )

  -- What the request leaves behind, once its permit is released after `held`.
  abbrev pub Served : Type 0
  Served = Option (PipelineResponse × Limiter × S)

  unfoldable pub finish : Limiter → ℕ → S → PipelineResponse → Served
  finish limiter held store response = elim (release limiter held) [
    | none ↦ none
    | some limiter' ↦ some (response, limiter', store)
  ]

  module _ (pipeline_cfg : PipelineConfig F) (limiter : Limiter) (held : ℕ) (store : S) where
    unfoldable pub fall_back : Context → Served
    fall_back ctx =
        let docs = generate_mock_documents mock_retrieved_document_count in
        let top_k = pipeline_cfg.rerank_top_k in
        let retrieved = record ctx { retrieved_context_documents = docs } in
        let optimised =
          reranked top_k retrieved
            (a.rerank ctx.original_prompt retrieved.retrieved_context_documents top_k) in
        let (ctx', response) =
          completed optimised
            (a.complete ctx.original_prompt optimised.optimised_context_documents) in
        finish limiter held (cache_response store ctx' response)
          (respond 3 response (some a.llm_model) ctx')

    unfoldable pub route_locally : Context × Option Text → Served
    route_locally (ctx, some response) =
        finish limiter held (cache_response store ctx response)
          (respond 2 response (some a.executor_model) ctx)
    route_locally (ctx, none) = fall_back ctx

    unfoldable pub route_cached : Context × Option Text → Served
    route_cached (ctx, some cached_response) =
        finish limiter held store (respond 1 cached_response none ctx)
    route_cached (ctx, none) =
        let ctx' = classified ctx (a.classify ctx.original_prompt) in
        route_locally (local_step ctx' ctx'.intent_classification)

    -- Steps 1 to 3, with the permit.
    unfoldable pub run_layers : Context → Served
    run_layers ctx =
        let ctx' = embedded ctx (a.embed ctx.original_prompt) in
        route_cached (search_step store pipeline_cfg.similarity_threshold ctx' ctx'.request_vector)

  -- `held` is the time from the permit's admission to its release.
  unfoldable pub execute_pipeline : PipelineConfig F → Limiter → ℕ → S → Text → Text → Served
  execute_pipeline pipeline_cfg limiter held store request_id prompt =
      let ctx = new zero_score request_id prompt in
      let (limiter', admitted) = try_acquire limiter in
      let stage = codes "Layer0_AdaptiveConcurrency" in
      if admitted
      then run_layers pipeline_cfg limiter' held store
          (log_step ctx stage (codes "Permit acquired") false)
      else some (
        respond 0 (codes "Service overloaded. Please retry later.") none
            (log_step ctx stage (codes "REJECTED — system overloaded") true),
        limiter',
        store,
      )
