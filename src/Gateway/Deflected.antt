-- ===== src/Gateway/Deflected.antt =====
-- The header `X-Isartor-Deflected` of src/middleware/monitoring.rs.
use isartor.Common.{
  ℕ, Text, codes, text_eq, true, false, Option, none, some, List, [], ◌∷◌, ◌≡◌, inl, inr, refl, ap,
  ◌∙◌, if◌then◌else◌,
}
use isartor.Config.{AppConfig}
use isartor.Auth.{auth_middleware}
use isartor.Http.{Request, Response}
use isartor.AppState.{AppState, Outside}
use isartor.AppState.Spending.{clouds, Spent}
use isartor.Handlers.Spending.{Cloudy}
use isartor.Gateway.{Incoming, path_of, monitored, decided, monitoring, buffered, serve}
use isartor.Gateway.Spending.{
  NotDeflected, Cloudy-with_header, Cloudy-Carries, handler-Spends, behind_auth-Spends,
  monitoring-state, decided-Spends,
}

abbrev pub header_value : List (Text × Text) → Text → Option Text
header_value [] name = none
header_value ((key, value) ∷ headers) name =
    let rest = header_value headers name in if text_eq key name then some value else rest

abbrev pub deflected_header : Option Response → Option Text
deflected_header none = none
deflected_header (some r) = header_value r.headers (codes "X-Isartor-Deflected")

module _ {V C E F : Type 0} (out : Outside V C E F) (config : AppConfig)
    (gateway_api_key : Text) where
  monitored-deflected :
      (o : Option Response × AppState C E F)
      → deflected_header (monitoring out config gateway_api_key o).0 ≡ some (codes "true")
      → NotDeflected o.0
      → true ≡ false
  unfolding monitored
  monitored-deflected (none, state) h n = cc
  monitored-deflected (some r, state) h n = let k = rw (n, monitored) at h in absurd cc

  unspent :
      (state : AppState C E F) (o : Option Response × AppState C E F)
      → deflected_header (monitoring out config gateway_api_key o).0 ≡ some (codes "true")
      → Spent NotDeflected state o
      → clouds o.1.calls ≡ clouds state.calls
  unspent state o h (inl e) = e
  unspent state o h (inr n) = let k = monitored-deflected o h n in absurd cc

  buffered-deflected :
      (incoming : Incoming) (state : AppState C E F) (body : Option (List ℕ))
      → deflected_header (buffered out config gateway_api_key incoming state body).0
        ≡ some (codes "true")
      → clouds (buffered out config gateway_api_key incoming state body).1.calls
        ≡ clouds state.calls
  buffered-deflected incoming state none h = refl
  buffered-deflected incoming state (some body) h =
      let request : Request = record {
        path = path_of incoming.route;
        header = incoming.header;
        buffered_body = some body;
      } in
      let decision = auth_middleware (some gateway_api_key) incoming.header in
      let o = decided out config gateway_api_key decision incoming.route request state in
      let spent =
        decided-Spends out config gateway_api_key NotDeflected decision incoming.route
          (behind_auth-Spends out config gateway_api_key Cloudy NotDeflected incoming.route
            Cloudy-with_header (Cloudy-Carries out config gateway_api_key)
            (handler-Spends out config gateway_api_key incoming.route))
          request state in
      ap (λ (s : AppState C E F). clouds s.calls) (monitoring-state out config gateway_api_key o)
      ∙ unspent state o h spent

  -- A response that says in its header `X-Isartor-Deflected` that it was deflected has not called the
  -- cloud provider.
  pub serve-deflected :
      (incoming : Incoming) (state : AppState C E F)
      → deflected_header (serve out config gateway_api_key incoming state).0 ≡ some (codes "true")
      → clouds (serve out config gateway_api_key incoming state).1.calls ≡ clouds state.calls
  unfolding serve
  serve-deflected incoming state h = buffered-deflected incoming state incoming.body h
