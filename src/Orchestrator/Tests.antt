-- ===== src/Orchestrator/Tests.antt =====
-- Runs of the orchestrator, with a store that answers by the equality of vectors.
use isartor.Common.{
  ℕ, Text, codes, decimal, text_eq, if◌then◌else◌, Option, none, some, List, [], ◌∷◌, ◌≡◌, refl,
  arith, length, map,
}
use isartor.Concurrency
use isartor.Concurrency.{Limiter}
use isartor.Concurrency.Limit.{IsValid}
use isartor.Orchestrator.Context.{
  Result, ok, err, complex, simple, display, PipelineResponse, AlgorithmSuite, PipelineConfig,
}
use isartor.Orchestrator.{
  generate_mock_documents, respond, cache_response, embedded, searched, search_step, classified,
  executed, local_step, reranked, completed, finish, fall_back, route_locally, route_cached,
  run_layers, execute_pipeline,
}
use isartor.Orchestrator.Requests.{Handled, execute_pipeline-Handled}
use isartor.Orchestrator.Replay.{failure, suite_later, failure_replayed}

abbrev Store : Type 0
Store = List (Text × Text)

abbrev find : Store → Text → Option (Text × ℕ)
find [] v = none
find ((w, m) ∷ store) v = if text_eq w v then some (m, 1) else find store v

abbrev as_result : Option (Text × ℕ) → Result (Option (Text × ℕ))
as_result o = ok o

-- Text is its own vector; short prompts are simple; the cloud model fails.
abbrev suite : AlgorithmSuite ℕ Store
suite = record {
  embed = λ prompt. ok prompt;
  search = λ store v threshold. ok (find store v);
  insert = λ store v message. ((v, message) ∷ store, ok tt);
  classify = λ prompt. if text_eq prompt (codes "hi") then ok (simple, 1) else ok (complex, 1);
  execute_simple = λ prompt. ok (codes "hello");
  executor_model = codes "local";
  rerank = λ prompt docs top_k. err (codes "no reranker");
  complete = λ prompt docs. err (codes "timeout");
  llm_model = codes "cloud";
}

abbrev config : PipelineConfig ℕ
config = record { similarity_threshold = 1; rerank_top_k = 2 }

abbrev fixed : ℕ → ℕ → Text
fixed digits x = decimal x

abbrev limiter : Limiter
limiter = record {
  config = record {
    min_concurrency = 1;
    max_concurrency = 2;
    target_latency = 100;
    window_size = 20;
  };
  in_flight = 0;
  concurrency_limit = 2;
  latency_window = [];
}

limiter-IsValid : IsValid limiter
limiter-IsValid = omega arith

program : Unit {0}
unfolding generate_mock_documents respond cache_response embedded searched search_step classified
    executed local_step reranked completed finish fall_back route_locally route_cached run_layers
    execute_pipeline display decimal Concurrency.try_acquire Concurrency.release
    Concurrency.record_latency Concurrency.trim_window
program = tt

abbrev answer : Option (PipelineResponse × Limiter × Store) → Option (ℕ × Text × Store)
answer none = none
answer (some (r, l, s)) = some (r.resolved_by_layer, r.message, s)

simple_runs :
    answer (execute_pipeline 0 fixed suite config limiter 5 [] [] (codes "hi"))
    ≡ some (2, codes "hello", (codes "hi", codes "hello") ∷ [])
unfolding program
simple_runs = refl

cached_runs :
    answer (
      execute_pipeline 0 fixed suite config limiter 5
        ((codes "hi", codes "hey") ∷ [])
        []
        (codes "hi"))
    ≡ some (1, codes "hey", (codes "hi", codes "hey") ∷ [])
unfolding program
cached_runs = refl

failed_runs :
    answer (execute_pipeline 0 fixed suite config limiter 5 [] [] (codes "why"))
    ≡ some (3, failure (codes "timeout"), (codes "why", failure (codes "timeout")) ∷ [])
unfolding program
failed_runs = refl

documents_run : map length (generate_mock_documents 2) ≡ 185 ∷ 185 ∷ []
unfolding program
documents_run = refl

execute_pipeline-Handled_example :
    Handled 0 fixed suite config limiter []
      (codes "why")
      (execute_pipeline 0 fixed suite config limiter 5 [] (codes "id") (codes "why"))
execute_pipeline-Handled_example =
    execute_pipeline-Handled 0 fixed suite config limiter 5 [] (codes "id") (codes "why")
      limiter-IsValid (omega arith)

abbrev full : Limiter
full = record limiter { in_flight = 2 }

-- By the second request the cloud model has recovered.
abbrev recovered : Text → List Text → Result Text
recovered prompt docs = ok (codes "because")

failure_replayed_example :
    (first : Handled 0 fixed suite config limiter []
      (codes "why")
      (execute_pipeline 0 fixed suite config limiter 5 [] (codes "a") (codes "why")))
    × (first.response.resolved_by_layer ≡ 3)
    × (first.response.message ≡ failure (codes "timeout"))
    × (second : Handled 0 fixed
        (suite_later 0 fixed suite config recovered)
        config
        limiter
        first.store'
        (codes "why")
        (execute_pipeline 0 fixed
          (suite_later 0 fixed suite config recovered)
          config
          limiter
          7
          first.store'
          (codes "b")
          (codes "why")))
    × (second.response.resolved_by_layer ≡ 1)
    × (second.response.message ≡ failure (codes "timeout"))
failure_replayed_example =
    failure_replayed 0 fixed suite config recovered limiter limiter 5 7 [] (codes "a") (codes "b")
      (codes "why") (codes "timeout") (codes "why") 1 1 limiter-IsValid (omega arith)
      limiter-IsValid (omega arith) refl refl refl (λ docs. refl) (λ m. refl)
