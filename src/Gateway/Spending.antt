-- ===== src/Gateway/Spending.antt =====
-- When a request reaches the cloud provider (src/main.rs and the layers of src/middleware).
use isartor.Common.{ℕ, Text, false, Option, none, some, List, ◌≡◌, inl, refl, if_both}
use isartor.Config.{AppConfig}
use isartor.Auth.{Decision, internal_server_error, run_next, unauthorized}
use isartor.Http.{Response, cloud}
use isartor.AppState.{AppState, Outside, Next}
use isartor.AppState.Spending.{Spends}
use isartor.CacheKeys.{Lookup}
use isartor.CacheLayer.{downstream_response, converted}
use isartor.CacheLayer.Spending.{Carries, cache_middleware-Spent}
use isartor.Triage.Spending.{slm_triage_middleware-Spent}
use isartor.ContextLayer.{with_header}
use isartor.ContextLayer.Spending.{context_optimizer_middleware-Spent}
use isartor.Handlers.Spending.{
  Cloudy, chat_handler-Spent, openai_handler-Spent, anthropic_handler-Spent,
}
use isartor.Gateway.{
  Route, api_chat, api_v1_chat, chat_completions, messages, final_layer_of, is_deflected, handler,
  behind_triage, behind_cache, behind_auth, decided, monitoring,
}

-- A panic, or a response that is not counted as deflected.
abbrev pub NotDeflected : Option Response → Type 0
NotDeflected none = Unit
NotDeflected (some r) = is_deflected (final_layer_of r) ≡ false

Cloudy→NotDeflected : (r : Response) → Cloudy (some r) → NotDeflected (some r)
unfolding final_layer_of is_deflected
Cloudy→NotDeflected r h = rw (h, final_layer_of) refl

pub Cloudy-with_header :
    (header : Text × Text) (response : Option Response)
    → Cloudy response
    → Cloudy (with_header header response)
Cloudy-with_header header none h = tt
Cloudy-with_header header (some r) h = h

module _ {V C E F : Type 0} (out : Outside V C E F) (config : AppConfig)
    (gateway_api_key : Text) where
  converted-Cloudy :
      (calls : _) (r : Response) (sse : Option Response)
      → Cloudy (some r)
      → Cloudy (some (converted out calls r sse))
  converted-Cloudy calls r none h = h
  converted-Cloudy calls r (some sse) h = h

  downstream_response-Cloudy :
      (calls : _) (lookup : Lookup) (r : Response) (bytes : List ℕ)
      → Cloudy (some r)
      → Cloudy (some (downstream_response out calls lookup r bytes))
  unfolding downstream_response
  downstream_response-Cloudy calls lookup r bytes h =
      if_both (λ (x : Response). x.final_layer ≡ some cloud) _ _ _ (converted-Cloudy calls r _ h) h

  pub Cloudy-Carries : (next : Next C E F) → Carries out next Cloudy NotDeflected
  unfolding final_layer_of is_deflected
  Cloudy-Carries next = record {
    panics = λ h. tt;
    lost = λ r h. tt;
    unread = λ r h. refl;
    passes = λ state lookup r bytes h.
        Cloudy→NotDeflected (downstream_response out state.calls lookup r bytes)
          (downstream_response-Cloudy state.calls lookup r bytes h);
  }

  pub handler-Spends : (route : Route) → Spends Cloudy (handler out config gateway_api_key route)
  unfolding handler
  handler-Spends api_chat request state = chat_handler-Spent out config request state
  handler-Spends api_v1_chat request state = chat_handler-Spent out config request state
  handler-Spends chat_completions request state = openai_handler-Spent out config request state
  handler-Spends messages request state = anthropic_handler-Spent out config request state

  pub behind_auth-Spends :
      (P Q : Option Response → Type 0) (route : Route)
      → ((header : Text × Text) (response : Option Response)
          → P response
          → P (with_header header response))
      → ((next : Next C E F) → Carries out next P Q)
      → Spends P (handler out config gateway_api_key route)
      → Spends Q (behind_auth out config gateway_api_key route)
  behind_auth-Spends P Q route kept carries spends request state =
      let next = behind_cache out config gateway_api_key route in
      cache_middleware-Spent out next P Q (carries next)
        (λ r s.
          slm_triage_middleware-Spent out config P (behind_triage out config gateway_api_key route)
            (λ r' s'.
              context_optimizer_middleware-Spent out config P kept
                (handler out config gateway_api_key route) spends r' s')
            r s)
        request config state

  pub monitoring-state :
      (o : Option Response × AppState C E F) → (monitoring out config gateway_api_key o).1 ≡ o.1
  monitoring-state (none, state) = refl
  monitoring-state (some r, state) = refl

  pub decided-Spends :
      (Q : Option Response → Type 0) (decision : Decision) (route : Route)
      → Spends Q (behind_auth out config gateway_api_key route)
      → Spends Q (decided out config gateway_api_key decision route)
  decided-Spends Q internal_server_error route h request state = inl refl
  decided-Spends Q unauthorized route h request state = inl refl
  decided-Spends Q run_next route h request state = h request state
