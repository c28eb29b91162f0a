-- ===== src/CacheLayer/Repeat.antt =====
-- A request that was answered once is answered by the exact cache (src/middleware/cache.rs).
use isartor.Common.{ℕ, Text, true, Option, none, some, List, ◌≡◌, ap, ◌∙◌}
use isartor.Config.{AppConfig}
use isartor.Http.{Request, Response, exact_cache, is_success}
use isartor.ExactCache.{LruCacheLaws, get, put}
use isartor.AppState.{AppState, Outside, Next}
use isartor.CacheKeys.{Lookup, lookup_of}
use isartor.CacheLayer.{
  hit_response, cache_value, downstream_response, cache_middleware, capture, forwarded,
  semantic_lookup, exact_found, exact_lookup, with_body, store_exact,
}

module _ {V C E F : Type 0} (out : Outside V C E F) (config : AppConfig) (request : Request)
    (body : List ℕ) where
  open out use {host, lru}

  abbrev pub lookup : Lookup
  lookup = lookup_of host config request body

  -- The state after a lookup in the exact cache.
  abbrev pub looked_up : AppState C E F → Text → AppState C E F
  looked_up state key = record state { exact_cache = (get lru state.exact_cache key).1 }

  run-miss :
      (next : Next C E F) (state : AppState C E F) (key : Text) (r : Response)
      (state' : AppState C E F) (bytes : List ℕ)
      → request.buffered_body ≡ some body
      → lookup.exact_key ≡ some key
      → lookup.semantic_prompt ≡ none
      → (get lru state.exact_cache key).0 ≡ none
      → next request (looked_up state key) ≡ (some r, state')
      → is_success r.status ≡ true
      → r.body ≡ some bytes
      → cache_middleware out next config request state ≡ (
        some (downstream_response out state'.calls lookup r bytes),
        record state' { exact_cache = put lru state'.exact_cache key (cache_value host bytes) },
      )
  unfolding cache_middleware
  run-miss next state key r state' bytes b k p m n ok t =
      let captured = capture out next lookup none r state' in
      let value = cache_value host bytes in
      let answer = downstream_response out state'.calls lookup r bytes in
      ap (with_body out next config request state) b
      ∙ ap (exact_lookup out next lookup request state) k
      ∙ ap (exact_found out next lookup request (looked_up state key)) m
      ∙ ap (semantic_lookup out next lookup request (looked_up state key)) p
      ∙ ap (forwarded out next lookup none) n
      ∙ ap (λ x. captured x (is_success r.status)) t
      ∙ ap (captured (some bytes)) ok
      ∙ ap (λ (x : Option Text). (some answer, store_exact out next x value state')) k

  run-hit :
      (next : Next C E F) (state : AppState C E F) (key value : Text)
      → request.buffered_body ≡ some body
      → lookup.exact_key ≡ some key
      → (get lru state.exact_cache key).0 ≡ some value
      → cache_middleware out next config request state
        ≡ (some (hit_response out state.calls lookup exact_cache value), looked_up state key)
  unfolding cache_middleware
  run-hit next state key value b k f =
      ap (with_body out next config request state) b
      ∙ ap (exact_lookup out next lookup request state) k
      ∙ ap (exact_found out next lookup request (looked_up state key)) f

  -- A request has a key, is not looked up in the semantic cache, misses the exact cache, and the rest
  -- of the stack answers it with success. Then, whatever the rest of the stack would do, the same
  -- request sent next is answered by the exact cache with the value stored of that answer, and no call
  -- is made for it.
  pub cache_middleware_repeats :
      (laws : LruCacheLaws lru) (next other : Next C E F) (state : AppState C E F) (key : Text)
      (r : Response) (state' : AppState C E F) (bytes : List ℕ)
      → request.buffered_body ≡ some body
      → lookup.exact_key ≡ some key
      → lookup.semantic_prompt ≡ none
      → (get lru state.exact_cache key).0 ≡ none
      → next request (looked_up state key) ≡ (some r, state')
      → is_success r.status ≡ true
      → r.body ≡ some bytes
      → ((cache_middleware out other config request
            (cache_middleware out next config request state).1).0
          ≡ some (hit_response out state'.calls lookup exact_cache (cache_value host bytes)))
        × ((cache_middleware out other config request
              (cache_middleware out next config request state).1).1.calls
            ≡ state'.calls)
  unfolding get put
  cache_middleware_repeats laws next other state key r state' bytes b k p m n ok t =
      let first = ap (λ x. x.1) (run-miss next state key r state' bytes b k p m n ok t) in
      let stored : AppState C E F = record state' {
        exact_cache = put lru state'.exact_cache key (cache_value host bytes);
      } in
      let found = laws.get-put state'.exact_cache key (cache_value host bytes) in
      let second =
        ap (cache_middleware out other config request) first
        ∙ run-hit other stored key (cache_value host bytes) b k found in
      (ap (λ x. x.0) second, ap (λ x. x.1.calls) second)
