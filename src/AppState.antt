-- ===== src/AppState.antt =====
-- What the layers share (`AppState` of src/state.rs): the caches, the provider's health, and the calls
-- made outside the gateway, the newest first. What a call returns may depend on the calls before it.
pub mod Spending
use isartor.Common.{ℕ, Text, Bool, Option, List, ◌∷◌, ◌⊎◌}
use isartor.Http.{Host, Request, Response}
use isartor.ExactCache.{LruCache}
use isartor.Compression.Stages.{Externals}
use isartor.Retry.{Event}
use isartor.VectorCache.{VectorCache, Floats}
use isartor.Compression.Cache.{InstructionCache}
use isartor.Health.{ProviderHealthState}

pub record ChatMessage : Type 0 where
  pub role : Text
  pub content : Text

-- The request to the sidecar. `deterministic` stands for the temperature 0.0.
pub record ChatCompletionRequest : Type 0 where
  pub model : Text
  pub messages : List ChatMessage
  pub stream : Bool
  pub deterministic : Bool
  pub max_tokens : ℕ

-- `cloud` is a call of the provider under `execute_with_retry`, with the events of its attempts.
pub data Call : Type 0 where
  generate_embedding : Text → Call
  sidecar_chat : Text → ChatCompletionRequest → Call
  embedded_classify : Text → Call
  embedded_execute : Text → Call
  cloud : List Event → Call

pub record AppState (C E F : Type 0) : Type 0 where
  pub exact_cache : C
  pub vector_cache : VectorCache E F
  pub instruction_cache : InstructionCache
  pub provider_health : ProviderHealthState
  pub calls : List Call

module _ {C E F : Type 0} where
  abbrev pub log : Call → AppState C E F → AppState C E F
  log call state = record state { calls = call ∷ state.calls }

-- The rest of the stack. No response is a panic.
abbrev pub Next : Type 0 → Type 0 → Type 0 → Type 0
Next C E F = Request → AppState C E F → Option Response × AppState C E F

-- The classifier of the feature `embedded-inference`: a label or an answer, unless it fails.
pub record Classifier : Type 0 where
  pub classify : List Call → Text → Option Text
  pub execute : List Call → Text → Option Text

-- The code outside the repository. A result depends on the calls made before. `sidecar` gives the
-- contents of the choices, unless the call or the parse fails; without the feature there is no
-- `embedded_classifier`. `provider_name` and `chat` are the provider's agent, and `post` sends a payload
-- to its endpoint, with the credentials, and checks the status. They take the number of the attempt and
-- give an answer, or the messages of the error's chain.
pub record Outside (V C E F : Type 0) : Type 0 where
  pub host : Host V
  pub lru : LruCache C
  pub floats : Floats E F
  pub externals : Externals
  pub embedding : List Call → Text → Option (List E)
  pub sidecar : List Call → Text → ChatCompletionRequest → Option (List Text)
  pub embedded_classifier : Option Classifier
  pub provider_name : Text
  pub chat : List Call → Text → Text → ℕ → Text ⊎ List Text
  pub post : List Call → Text → V → ℕ → Text ⊎ List Text
  pub nanos : List Call → ℕ → ℕ
  pub rfc3339 : List Call → Text
  pub unix_secs : List Call → ℕ
  pub uuid : List Call → Text
  pub searched_at : List Call → ℕ
  pub inserted_at : List Call → ℕ
