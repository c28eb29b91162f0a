-- ===== src/Errors.antt =====
-- src/errors.rs: the gateway's error type, its class (retryable or fatal), its label and its text.
-- The cause chain of an `anyhow::Error` is the list of its messages, and `str::to_lowercase`, whose
-- Unicode tables are not reproduced, is an argument.
pub mod Chain
mod Tests
use isartor.Common.{
  Text, codes, contains, any, text_eq, join, Bool, true, false, if◌then◌else◌, List, [], ◌∷◌, ◌++◌,
  reverse,
}

pub data ErrorClass : Type 0 where
  retryable fatal : ErrorClass

pub data GatewayError : Type 0 where
  cache : Text → Text → ErrorClass → GatewayError
  embedding : Text → ErrorClass → GatewayError
  inference : Text → ErrorClass → GatewayError
  cloud_llm : Text → Text → ErrorClass → GatewayError
  validation : Text → GatewayError
  configuration : Text → GatewayError
  offline_mode_violation : Text → Text → GatewayError

unfoldable pub class : GatewayError → ErrorClass
class (cache layer message c) = c
class (embedding message c) = c
class (inference message c) = c
class (cloud_llm provider message c) = c
class (validation message) = fatal
class (configuration message) = fatal
class (offline_mode_violation url message) = fatal

abbrev pub is_fatal : ErrorClass → Bool
is_fatal retryable = false
is_fatal fatal = true

unfoldable pub is_retryable : GatewayError → Bool
unfolding class
is_retryable e = elim (class e) [ retryable ↦ true | fatal ↦ false ]

unfoldable pub layer_label : GatewayError → Text
layer_label (cache layer message c) = layer
layer_label (embedding message c) = codes "L1b_Embedding"
layer_label (inference message c) = codes "L2_SLM"
layer_label (cloud_llm provider message c) = codes "L3_Cloud"
layer_label (validation message) = codes "Validation"
layer_label (configuration message) = codes "Configuration"
layer_label (offline_mode_violation url message) = codes "OfflineMode"

unfoldable pub cache_error : Text → Text → GatewayError
cache_error layer msg = cache layer msg retryable

unfoldable pub embedding_error : Text → GatewayError
embedding_error msg = embedding msg retryable

-- `fmt::Display`.
unfoldable pub display : GatewayError → Text
display (cache layer message c) = codes "[" ++ (layer ++ (codes "] cache error: " ++ message))
display (embedding message c) = codes "[embedding] " ++ message
display (inference message c) = codes "[inference] " ++ message
display (cloud_llm provider message c) = codes "[" ++ (provider ++ (codes "] " ++ message))
display (validation message) = codes "[validation] " ++ message
display (configuration message) = codes "[config] " ++ message
display (offline_mode_violation url message) =
    codes "[offline] blocked " ++ (url ++ (codes ": " ++ message))

-- The messages kept so far, the newest first; a message equal to the newest is dropped.
unfoldable pub push_cause : List Text → Text → List Text
push_cause [] msg = msg ∷ []
push_cause (prev ∷ parts) msg = if text_eq prev msg then prev ∷ parts else msg ∷ prev ∷ parts

unfoldable pub chain_parts : List Text → List Text → List Text
unfolding push_cause
chain_parts parts [] = reverse parts
chain_parts parts (cause ∷ causes) = chain_parts (push_cause parts cause) causes

abbrev pub joined : List Text → Text
joined [] = []
joined (p ∷ []) = p
joined (p ∷ q ∷ parts) = join (codes ": ") (p ∷ q ∷ parts)

unfoldable pub format_error_chain : List Text → Text
unfolding chain_parts
format_error_chain causes = joined (chain_parts [] causes)

abbrev pub fatal_patterns : List Text
fatal_patterns =
    codes "401"
    ∷ codes "403"
    ∷ codes "400"
    ∷ codes "invalid api key"
    ∷ codes "invalid_api_key"
    ∷ codes "authentication"
    ∷ codes "unauthorized"
    ∷ codes "forbidden"
    ∷ codes "invalid request"
    ∷ codes "invalid_request"
    ∷ codes "model not found"
    ∷ codes "model_not_found"
    ∷ codes "deployment not found"
    ∷ []

abbrev pub retryable_patterns : List Text
retryable_patterns =
    codes "timeout"
    ∷ codes "timed out"
    ∷ codes "connection refused"
    ∷ codes "connection reset"
    ∷ codes "429"
    ∷ codes "rate limit"
    ∷ codes "rate_limit"
    ∷ codes "502"
    ∷ codes "503"
    ∷ codes "504"
    ∷ codes "bad gateway"
    ∷ codes "service unavailable"
    ∷ codes "gateway timeout"
    ∷ codes "temporarily unavailable"
    ∷ codes "network"
    ∷ codes "broken pipe"
    ∷ codes "eof"
    ∷ codes "dns"
    ∷ codes "resolve"
    ∷ []

module _ (to_lowercase : Text → Text) where
  -- `any` is the source's loop over the patterns with an early return.
  unfoldable pub classify_error_message : Text → ErrorClass
  classify_error_message msg =
      let lower = to_lowercase msg in
      if any (λ pat. contains pat lower) fatal_patterns
      then fatal
      else if any (λ pat. contains pat lower) retryable_patterns
      then retryable
      else retryable

  unfoldable pub from_llm_error : Text → List Text → GatewayError
  unfolding format_error_chain classify_error_message
  from_llm_error provider causes =
      let msg = format_error_chain causes in cloud_llm provider msg (classify_error_message msg)

  unfoldable pub from_inference_error : List Text → GatewayError
  unfolding format_error_chain classify_error_message
  from_inference_error causes =
      let msg = format_error_chain causes in inference msg (classify_error_message msg)
