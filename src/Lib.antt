-- ===== src/Lib.antt =====
-- Isartor, a prompt gateway: models of its core and proofs about them.
--
-- A request passes layers that may each answer it: a cache (layer 1), a local model (layer 2), and the
-- cloud model (layer 3); before layer 3 the instructions in the request are compressed. The modules
-- here follow the source files, from the repository's root:
--
--   TextLines: what `str::lines` makes of a text.
--   Json: the interface of serde_json's values, as far as the program uses them, and an
--     instance for tests.
--   Http: requests, responses and src/models.rs, and the interface of the code outside the
--     repository.
--   Config: src/config.rs, the settings of the request path, the providers and the model of a
--     request.
--   Errors: src/errors.rs, the error type and its classes.
--   Retry: src/core/retry.rs, retries with back-off: the loop runs on the attempts left,
--     which is its fuel.
--   Concurrency: src/pipeline/concurrency.rs, the limiter, call by call and as interleaved
--     steps.
--   Compression: src/compression/, the instruction cache, the stages, the pipeline and the
--     rewriting of request bodies.
--   Prompt: src/core/prompt.rs, the prompt, the key material, the model and the semantic key
--     of a body.
--   CacheScope: src/core/cache_scope.rs, sessions and the keys of the exact cache.
--   ExactCache: src/layer1/layer1a_cache.rs, the exact cache over the interface of the lru
--     crate.
--   VectorCache: src/vector_cache.rs, the semantic cache.
--   Health: src/state.rs, the tracker of the provider's health.
--   AppState: src/state.rs, the state that the layers share, and the outside: models,
--     provider, clocks.
--   Sse: src/openai_sse.rs and src/anthropic_sse.rs, stored answers as server-sent events.
--   Auth: src/middleware/auth.rs, layer 0, the check of the gateway key.
--   CacheKeys: src/middleware/cache.rs and src/handler.rs, the model, the canonical body and
--     the keys of a request.
--   CacheLayer: src/middleware/cache.rs, layer 1, both caches around the rest of the stack.
--   Providers: src/handler.rs, the addresses of the providers.
--   Triage: src/middleware/slm_triage.rs, layer 2, the local model.
--   ContextLayer: src/middleware/context_optimizer.rs, layer 2.5, the compression of bodies.
--   Handlers: src/handler.rs, layer 3, the handlers of the three formats with retries and the
--     stale answer.
--   CacheApi: src/handler.rs, the endpoints to look up and store in the caches.
--   Gateway: src/main.rs, src/middleware/body_buffer.rs and monitoring.rs, the layers put
--     together.
--   RequestLog: src/core/request_logger.rs, the capture of streaming responses and the
--     redaction of the log.
--   PipelineStore: src/pipeline/implementations/vector_store.rs, the vector store of the
--     second pipeline.
--   Orchestrator: src/pipeline/orchestrator.rs, context.rs and traits.rs, the layers of the
--     second pipeline in order.
--   ToolIdentity: src/tool_identity.rs, the name of the tool behind a request.
--   Visibility: src/visibility.rs, the statistics of prompts and agents.
--   Sample: a concrete gateway for the tests.
--
-- `Gateway.serve` is the stack of the authenticated routes: the body buffer, the monitoring headers,
-- `Auth.auth_middleware`, `CacheLayer.cache_middleware`, `Triage.slm_triage_middleware`,
-- `ContextLayer.context_optimizer_middleware` and a handler. Each layer is a function from a request
-- and an `AppState` to a response and an `AppState`, and takes the rest of the stack, `next`, as an
-- argument, as the middleware does; no response is a panic (the state beside it is that of a build
-- that unwinds; the release build aborts). The state holds the caches, the provider's health and a
-- log of the calls made outside. What an outside call returns is a function of the calls made before,
-- a field of the record `Outside`. Layer 3 runs `Retry.execute_with_retry` on the outcomes of the
-- provider's agent, classified by `Errors.from_llm_error`. `Handlers` and `CacheLayer` share the
-- model and the key of a request (`Prompt`, `CacheScope`), and layer 2.5 runs
-- `Compression.Optimize.optimize_request_body`, which sends the system prompts of a body through
-- `Pipeline.execute` with the stages of `Stages.build_pipeline` over the cache of
-- `Compression.Cache`.
--
-- `Orchestrator.execute_pipeline` is the program's other pipeline: it takes a permit with
-- `Concurrency.try_acquire` and gives it back with `release` at each exit; the vector store, the models
-- and the cloud model are the fields of a record, `AlgorithmSuite`, as in the source, over a state that
-- the caller chooses. A request runs alone, except in `Concurrency.Threads`, where the atomic accesses of
-- any number of requests interleave, and releases may be cancelled.
--
-- Text is a list of code points (`Common`), and byte lengths are those of UTF-8. Machine integers are
-- native numbers with their wrap-around written out, instants and durations are numbers, and a value
-- under a lock is a state that each call takes and returns. Errors and panics are values.
-- Code that is not the repository's, such as embedding models, hash functions, the JSON parser and
-- clocks, is an argument, with what the code relies on as named hypotheses. Every loop recurses on its
-- list, so no fuel is needed but in `Retry`, whose fuel is the number of attempts, in `Visibility.pop_to`,
-- whose fuel is the number of entries, and in decimal numbers.
--
-- Not modelled: metrics, tracing and the files of the request log, the provider clients and the
-- embedding model, which are calls of other libraries; the proxy, the MCP server and the command line;
-- start-up and the validation of the settings; and, of the handlers, the listings of models and of the
-- provider's status.
pub mod Common
pub mod TextLines
pub mod Json
pub mod Http
pub mod Config
pub mod Errors
pub mod Retry
pub mod Concurrency
pub mod Compression
pub mod Prompt
pub mod CacheScope
pub mod ExactCache
pub mod VectorCache
pub mod Health
pub mod AppState
pub mod Sse
pub mod Auth
pub mod CacheKeys
pub mod CacheLayer
pub mod Providers
pub mod Triage
pub mod ContextLayer
pub mod Handlers
pub mod CacheApi
pub mod Gateway
pub mod RequestLog
pub mod PipelineStore
pub mod Orchestrator
pub mod ToolIdentity
pub mod Visibility
pub mod Sample
