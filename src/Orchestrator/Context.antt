-- ===== src/Orchestrator/Context.antt =====
-- src/pipeline/context.rs and src/pipeline/traits.rs: the context of a request, the response, and the
-- algorithms that the orchestrator calls, as operations on the state `S` of the vector store. `F` is
-- the type of `f64`. Instants, durations and the metadata of log entries are left out.
use isartor.Common.{ℕ, Text, codes, Bool, Option, none, List, [], ◌∷◌, ◌++◌}

-- `anyhow::Result`: an error is the message that `{e}` prints.
pub data Result {ℓ} (A : Type ℓ) : Type ℓ where
  ok : A → Result A
  err : Text → Result A

pub data IntentClassification : Type 0 where
  unknown simple complex rag code_gen unclassifiable : IntentClassification

unfoldable pub display : IntentClassification → Text
display unknown = codes "UNKNOWN"
display simple = codes "SIMPLE"
display complex = codes "COMPLEX"
display rag = codes "RAG"
display code_gen = codes "CODEGEN"
display unclassifiable = codes "UNCLASSIFIABLE"

pub record ProcessingLogEntry : Type 0 where
  pub stage : Text
  pub action : Text
  pub short_circuited : Bool

pub record PipelineResponse : Type 0 where
  pub resolved_by_layer : ℕ
  pub message : Text
  pub model : Option Text
  pub processing_log : List ProcessingLogEntry

pub record PipelineContext (F : Type 0) : Type 0 where
  pub original_prompt : Text
  pub request_id : Text
  pub request_vector : Option (List F)
  pub intent_classification : IntentClassification
  pub complexity_score : F
  pub retrieved_context_documents : List Text
  pub optimised_context_documents : List Text
  pub processing_log : List ProcessingLogEntry

-- `PipelineContext::new`, given the identifier that the clock and the counter yield, and `0.0`.
abbrev pub new : {F : Type 0} → F → Text → Text → PipelineContext F
new zero_score request_id prompt = record {
  original_prompt = prompt;
  request_id = request_id;
  request_vector = none;
  intent_classification = unknown;
  complexity_score = zero_score;
  retrieved_context_documents = [];
  optimised_context_documents = [];
  processing_log = [];
}

abbrev pub log_step : {F : Type 0} → PipelineContext F → Text → Text → Bool → PipelineContext F
log_step ctx stage action short_circuited = record ctx {
  processing_log =
      ctx.processing_log
      ++ record { stage = stage; action = action; short_circuited = short_circuited } ∷ [];
}

-- `AlgorithmSuite`: the traits of src/pipeline/traits.rs.
pub record AlgorithmSuite (F S : Type 0) : Type 0 where
  pub embed : Text → Result (List F)
  pub search : S → List F → F → Result (Option (Text × F))
  pub insert : S → List F → Text → S × Result (Unit {0})
  pub classify : Text → Result (IntentClassification × F)
  pub execute_simple : Text → Result Text
  pub executor_model : Text
  pub rerank : Text → List Text → ℕ → Result (List (Text × F))
  pub complete : Text → List Text → Result Text
  pub llm_model : Text

pub record PipelineConfig (F : Type 0) : Type 0 where
  pub similarity_threshold : F
  pub rerank_top_k : ℕ
