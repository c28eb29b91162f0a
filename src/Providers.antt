-- ===== src/Providers.antt =====
-- src/handler.rs: which providers take an OpenAI request as it is, and at which address.
use isartor.Common.{
  Text, codes, text_eq, trim, reverse, is_empty, Bool, true, false, not, ◌&&◌, ◌||◌, ◌==◌,
  if◌then◌else◌, Option, none, some, [], ◌∷◌, ◌++◌, map_or,
}
use isartor.Config.{
  AppConfig, LlmProvider, default_chat_completions_url, default_openai_chat_completions_url, openai,
  azure, copilot, xai, mistral, groq, cerebras, nebius, siliconflow, fireworks, nvidia, chutes,
  deepseek, galadriel, hyperbolic, moonshot, openrouter, perplexity, together,
}

abbrev pub trim_start_slashes : Text → Text
trim_start_slashes [] = []
trim_start_slashes (c ∷ s) = elim (c == 47) [ true ↦ trim_start_slashes s | false ↦ c ∷ s ]

-- `trim_end_matches('/')`
abbrev pub trim_end_slashes : Text → Text
trim_end_slashes s = reverse (trim_start_slashes (reverse s))

unfoldable pub supports_openai_passthrough : LlmProvider → Bool
supports_openai_passthrough openai = true
supports_openai_passthrough azure = true
supports_openai_passthrough copilot = true
supports_openai_passthrough xai = true
supports_openai_passthrough mistral = true
supports_openai_passthrough groq = true
supports_openai_passthrough cerebras = true
supports_openai_passthrough nebius = true
supports_openai_passthrough siliconflow = true
supports_openai_passthrough fireworks = true
supports_openai_passthrough nvidia = true
supports_openai_passthrough chutes = true
supports_openai_passthrough deepseek = true
supports_openai_passthrough galadriel = true
supports_openai_passthrough hyperbolic = true
supports_openai_passthrough moonshot = true
supports_openai_passthrough openrouter = true
supports_openai_passthrough perplexity = true
supports_openai_passthrough together = true
supports_openai_passthrough _ = false

abbrev pub is_openai : LlmProvider → Bool
is_openai openai = true
is_openai _ = false

-- The last but one arm of the match: the configured address, unless it is empty or the default one of
-- another provider.
unfoldable pub configured_or_default : AppConfig → Text → Text
configured_or_default config default_url =
    let configured_url = trim config.external_llm_url in
    if is_empty configured_url
      || (not (is_openai config.llm_provider)
          && text_eq configured_url default_openai_chat_completions_url)
    then default_url
    else configured_url

abbrev pub other_url : AppConfig → LlmProvider → Option Text
other_url config provider =
    if supports_openai_passthrough provider
    then map_or none (λ default_url. some (configured_or_default config default_url))
        (default_chat_completions_url provider)
    else none

abbrev pub url_of : AppConfig → LlmProvider → Option Text
url_of config azure = some (
    trim_end_slashes config.external_llm_url
    ++ (codes "/openai/deployments/"
        ++ (config.azure_deployment_id
            ++ (codes "/chat/completions?api-version=" ++ config.azure_api_version))))
url_of config copilot =
    if is_empty (trim config.external_llm_url)
    then some (codes "https://api.githubcopilot.com/chat/completions")
    else some config.external_llm_url
url_of config provider = other_url config provider

unfoldable pub provider_chat_completions_url : AppConfig → Option Text
unfolding supports_openai_passthrough configured_or_default
provider_chat_completions_url config = url_of config config.llm_provider
