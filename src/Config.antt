-- ===== src/Config.antt =====
-- src/config.rs: the settings that the request path reads, the model that a request is resolved to, and
-- the providers with their names and endpoints.
use isartor.Common.{
  ℕ, Text, codes, text_eq, is_empty, Bool, if◌then◌else◌, Option, none, some, List, [], ◌∷◌,
  unwrap_or,
}

pub data CacheMode : Type 0 where
  exact semantic both : CacheMode

pub data InferenceEngineMode : Type 0 where
  sidecar embedded : InferenceEngineMode

pub data ClassifierMode : Type 0 where
  binary tiered : ClassifierMode

pub data LlmProvider : Type 0 where
  openai azure anthropic copilot xai gemini mistral groq cerebras nebius siliconflow : LlmProvider
  fireworks nvidia chutes deepseek cohere galadriel hyperbolic huggingface mira : LlmProvider
  moonshot ollama openrouter perplexity together : LlmProvider

pub record AppConfig : Type 0 where
  pub inference_engine : InferenceEngineMode
  pub cache_mode : CacheMode
  pub sidecar_url : Text
  pub sidecar_model_name : Text
  pub classifier_mode : ClassifierMode
  pub max_answer_tokens : ℕ
  pub llm_provider : LlmProvider
  pub external_llm_url : Text
  pub external_llm_model : Text
  pub model_aliases : List (Text × Text)
  pub azure_deployment_id : Text
  pub azure_api_version : Text
  pub enable_slm_router : Bool
  pub offline_mode : Bool
  pub enable_context_optimizer : Bool
  pub context_optimizer_dedup : Bool
  pub context_optimizer_minify : Bool

unfoldable pub configured_model_id : AppConfig → Text
configured_model_id config = elim config.llm_provider [
  | azure ↦
      if is_empty config.azure_deployment_id
      then config.external_llm_model
      else config.azure_deployment_id
  | _ ↦ config.external_llm_model
]

abbrev pub find_alias : List (Text × Text) → Text → Option Text
find_alias [] name = none
find_alias ((alias, target) ∷ aliases) name =
    let rest = find_alias aliases name in if text_eq alias name then some target else rest

unfoldable pub resolve_model_alias : AppConfig → Text → Text
resolve_model_alias config requested_model =
    unwrap_or requested_model (find_alias config.model_aliases requested_model)

unfoldable pub as_str : LlmProvider → Text
as_str openai = codes "openai"
as_str azure = codes "azure"
as_str anthropic = codes "anthropic"
as_str copilot = codes "copilot"
as_str xai = codes "xai"
as_str gemini = codes "gemini"
as_str mistral = codes "mistral"
as_str groq = codes "groq"
as_str cerebras = codes "cerebras"
as_str nebius = codes "nebius"
as_str siliconflow = codes "siliconflow"
as_str fireworks = codes "fireworks"
as_str nvidia = codes "nvidia"
as_str chutes = codes "chutes"
as_str deepseek = codes "deepseek"
as_str cohere = codes "cohere"
as_str galadriel = codes "galadriel"
as_str hyperbolic = codes "hyperbolic"
as_str huggingface = codes "huggingface"
as_str mira = codes "mira"
as_str moonshot = codes "moonshot"
as_str ollama = codes "ollama"
as_str openrouter = codes "openrouter"
as_str perplexity = codes "perplexity"
as_str together = codes "together"

abbrev pub default_openai_chat_completions_url : Text
default_openai_chat_completions_url = codes "https://api.openai.com/v1/chat/completions"

unfoldable pub default_chat_completions_url : LlmProvider → Option Text
default_chat_completions_url openai = some default_openai_chat_completions_url
default_chat_completions_url copilot = some (codes "https://api.githubcopilot.com/chat/completions")
default_chat_completions_url xai = some (codes "https://api.x.ai/v1/chat/completions")
default_chat_completions_url mistral = some (codes "https://api.mistral.ai/v1/chat/completions")
default_chat_completions_url groq = some (codes "https://api.groq.com/openai/v1/chat/completions")
default_chat_completions_url cerebras = some (codes "https://api.cerebras.ai/v1/chat/completions")
default_chat_completions_url nebius =
    some (codes "https://api.studio.nebius.ai/v1/chat/completions")
default_chat_completions_url siliconflow =
    some (codes "https://api.siliconflow.cn/v1/chat/completions")
default_chat_completions_url fireworks =
    some (codes "https://api.fireworks.ai/inference/v1/chat/completions")
default_chat_completions_url nvidia =
    some (codes "https://integrate.api.nvidia.com/v1/chat/completions")
default_chat_completions_url chutes = some (codes "https://llm.chutes.ai/v1/chat/completions")
default_chat_completions_url deepseek = some (codes "https://api.deepseek.com/chat/completions")
default_chat_completions_url galadriel =
    some (codes "https://api.galadriel.com/v1/chat/completions")
default_chat_completions_url hyperbolic =
    some (codes "https://api.hyperbolic.xyz/v1/chat/completions")
default_chat_completions_url moonshot = some (codes "https://api.moonshot.cn/v1/chat/completions")
default_chat_completions_url openrouter =
    some (codes "https://openrouter.ai/api/v1/chat/completions")
default_chat_completions_url perplexity = some (codes "https://api.perplexity.ai/chat/completions")
default_chat_completions_url together = some (codes "https://api.together.xyz/v1/chat/completions")
default_chat_completions_url _ = none
