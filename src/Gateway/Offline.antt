-- ===== src/Gateway/Offline.antt =====
-- In offline mode nothing reaches the cloud provider (src/main.rs, src/handler.rs).
use isartor.Common.{ℕ, Text, true, false, Option, none, some, List, ◌≡◌, inl, inr, refl, ap, ◌∙◌}
use isartor.Config.{AppConfig}
use isartor.Auth.{auth_middleware}
use isartor.Http.{Request, Response}
use isartor.AppState.{AppState, Outside, Next}
use isartor.AppState.Spending.{clouds, Spent, Spends}
use isartor.CacheLayer.Spending.{Carries}
use isartor.Handlers.Spending.{
  chat_handler-offline, openai_handler-offline, anthropic_handler-offline,
}
use isartor.Gateway.{
  Route, Incoming, api_chat, api_v1_chat, chat_completions, messages, path_of, handler, decided,
  buffered, serve,
}
use isartor.Gateway.Spending.{behind_auth-Spends, monitoring-state, decided-Spends}

module _ {V C E F : Type 0} (out : Outside V C E F) (config : AppConfig)
    (gateway_api_key : Text) where
  -- No response at all has this property.
  abbrev Never : Option Response → Type 0
  Never response = true ≡ false

  abbrev cloud_calls : AppState C E F → ℕ
  cloud_calls state = clouds state.calls

  handler-offline :
      (route : Route)
      → config.offline_mode ≡ true
      → Spends Never (handler out config gateway_api_key route)
  unfolding handler
  handler-offline api_chat h request state =
      inl (ap cloud_calls (chat_handler-offline out config request state h))
  handler-offline api_v1_chat h request state =
      inl (ap cloud_calls (chat_handler-offline out config request state h))
  handler-offline chat_completions h request state =
      inl (ap cloud_calls (openai_handler-offline out config request state h))
  handler-offline messages h request state =
      inl (ap cloud_calls (anthropic_handler-offline out config request state h))

  Never-Carries : (next : Next C E F) → Carries out next Never Never
  Never-Carries next = record {
    panics = λ h. h;
    lost = λ r h. h;
    unread = λ r h. h;
    passes = λ state lookup r bytes h. h;
  }

  offline_calls :
      (s : AppState C E F) (o : Option Response × AppState C E F)
      → Spent Never s o
      → clouds o.1.calls ≡ clouds s.calls
  offline_calls s o (inl e) = e
  offline_calls s o (inr h) = absurd cc

  buffered-offline :
      (incoming : Incoming) (state : AppState C E F) (body : Option (List ℕ))
      → config.offline_mode ≡ true
      → clouds (buffered out config gateway_api_key incoming state body).1.calls
        ≡ clouds state.calls
  buffered-offline incoming state none h = refl
  buffered-offline incoming state (some body) h =
      let request : Request = record {
        path = path_of incoming.route;
        header = incoming.header;
        buffered_body = some body;
      } in
      let decision = auth_middleware (some gateway_api_key) incoming.header in
      let o = decided out config gateway_api_key decision incoming.route request state in
      let spent =
        decided-Spends out config gateway_api_key Never decision incoming.route
          (behind_auth-Spends out config gateway_api_key Never Never incoming.route
            (λ header response p. p) Never-Carries (handler-offline incoming.route h))
          request state in
      ap cloud_calls (monitoring-state out config gateway_api_key o) ∙ offline_calls state o spent

  -- In offline mode no request calls the cloud provider, whatever its route, its headers and its body, and
  -- whatever the caches and the local model do.
  pub serve-offline :
      (incoming : Incoming) (state : AppState C E F)
      → config.offline_mode ≡ true
      → clouds (serve out config gateway_api_key incoming state).1.calls ≡ clouds state.calls
  unfolding serve
  serve-offline incoming state h = buffered-offline incoming state incoming.body h
