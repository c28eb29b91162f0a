-- ===== src/ContextLayer.antt =====
-- src/middleware/context_optimizer.rs: layer 2.5, which replaces the body of a request by its compressed
-- form. The extension with the application's state is there; telemetry is left out.
pub mod Spending
use isartor.Common.{
  ℕ, Text, codes, decimal, Bool, true, false, if◌then◌else◌, Option, none, some, List, ◌∷◌, ◌++◌,
}
use isartor.CacheScope.{extract_session_cache_scope}
use isartor.Compression.Cache.{InstructionCache}
use isartor.Compression.Optimize.{OptimizeResult, optimize_request_body}
use isartor.Config.{AppConfig}
use isartor.Http.{Request, Response}
use isartor.AppState.{AppState, Outside, Next}

abbrev pub optimized_header : ℕ → Text × Text
optimized_header bytes_saved =
    (codes "x-isartor-context-optimized", codes "bytes_saved=" ++ decimal bytes_saved)

abbrev pub with_header : Text × Text → Option Response → Option Response
with_header header none = none
with_header header (some response) = some (record response { headers = header ∷ response.headers })

module _ {V C E F : Type 0} (out : Outside V C E F) (config : AppConfig) (next : Next C E F)
    (request : Request) where
  open out use {host, externals}
  open host use {json, as_object, from_slice, to_vec, sha256, hex_encode}

  abbrev pub optimized : List ℕ → InstructionCache → OptimizeResult × InstructionCache
  optimized body cache =
      optimize_request_body json externals from_slice to_vec body
        (extract_session_cache_scope sha256 hex_encode json as_object from_slice request.header
          body)
        cache config.context_optimizer_dedup config.context_optimizer_minify

  -- The rest of the stack at a changed body.
  abbrev pub replaced : OptimizeResult → AppState C E F → Option Response × AppState C E F
  replaced result state =
      let (response, state) = next (record request { buffered_body = some result.body }) state in
      (with_header (optimized_header result.bytes_saved) response, state)

  abbrev pub continued : OptimizeResult → AppState C E F → Bool → Option Response × AppState C E F
  continued result state true = replaced result state
  continued result state false = next request state

  abbrev pub with_body : AppState C E F → Option (List ℕ) → Option Response × AppState C E F
  with_body state none = next request state
  with_body state (some body) =
      let (result, cache) = optimized body state.instruction_cache in
      continued result (record state { instruction_cache = cache }) result.modified

  unfoldable pub context_optimizer_middleware : AppState C E F → Option Response × AppState C E F
  context_optimizer_middleware state =
      if config.enable_context_optimizer
      then with_body state request.buffered_body
      else next request state
