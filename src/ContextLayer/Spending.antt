-- ===== src/ContextLayer/Spending.antt =====
-- Layer 2.5 does not call the cloud provider itself (src/middleware/context_optimizer.rs).
use isartor.Common.{ℕ, Text, Bool, true, false, Option, none, some, List, inl, inr, if◌then◌else◌}
use isartor.Compression.Optimize.{OptimizeResult}
use isartor.Config.{AppConfig}
use isartor.Http.{Request, Response}
use isartor.AppState.{AppState, Outside, Next}
use isartor.AppState.Spending.{Spent, Spends}
use isartor.ContextLayer.{
  with_header, optimized_header, optimized, continued, with_body, context_optimizer_middleware,
}

module _ {V C E F : Type 0} (out : Outside V C E F) (config : AppConfig)
    (P : Option Response → Type 0)
    (kept : (header : Text × Text) (response : Option Response)
      → P response
      → P (with_header header response))
    (next : Next C E F) (spends : Spends P next) (request : Request) where
  with_header-Spent :
      (header : Text × Text) (before : AppState C E F) (o : Option Response × AppState C E F)
      → Spent P before o
      → Spent P before (with_header header o.0, o.1)
  with_header-Spent header before o (inl e) = inl e
  with_header-Spent header before o (inr p) = inr (kept header o.0 p)

  continued-Spent :
      (result : OptimizeResult) (state : AppState C E F) (modified : Bool)
      → Spent P state (continued out config next request result state modified)
  continued-Spent result state false = spends request state
  continued-Spent result state true =
      let changed : Request = record request { buffered_body = some result.body } in
      with_header-Spent (optimized_header result.bytes_saved) state (next changed state)
        (spends changed state)

  with_body-Spent :
      (state : AppState C E F) (body : Option (List ℕ))
      → Spent P state (with_body out config next request state body)
  with_body-Spent state none = spends request state
  with_body-Spent state (some body) =
      let (result, cache) = optimized out config next request body state.instruction_cache in
      continued-Spent result (record state { instruction_cache = cache }) result.modified

  pub context_optimizer_middleware-Spent :
      (state : AppState C E F)
      → Spent P state (context_optimizer_middleware out config next request state)
  unfolding context_optimizer_middleware
  context_optimizer_middleware-Spent state = go config.enable_context_optimizer
    where
      go :
          (enabled : Bool)
          → Spent P state (
              if enabled
              then with_body out config next request state request.buffered_body
              else next request state)
      go true = with_body-Spent state request.buffered_body
      go false = spends request state
