-- ===== src/CacheApi/RoundTrip.antt =====
-- What is stored through the cache endpoint is found through it (src/handler.rs).
use isartor.Common.{
  ℕ, ◌*◌, Text, codes, is_empty, false, Option, none, some, List, ◌≡◌, refl, ap, ◌∙◌, ◌≤◌, length,
  map_or,
}
use isartor.ExactCache.{LruCacheLaws, get, put}
use isartor.VectorCache.{VectorCache}
use isartor.CacheScope.{namespaced_semantic_cache_input}
use isartor.VectorCache.Capacity.{inserted, insert-inserted}
use isartor.AppState.{AppState, Outside, generate_embedding, log}
use isartor.CacheApi.{
  CacheStoreRequest, ApiRequest, to_bytes, hit_response, scope_of, api_key, prompt_of, exact_found,
  lookup_prompt, lookup_body, cache_lookup_handler, cached_json, store_semantic, stored, finished,
  store_request, store_body, cache_store_handler,
}

module _ {V C E F : Type 0} (out : Outside V C E F)
    (cache_store_request_from_slice : List ℕ → Option CacheStoreRequest) where
  open out use {lru}

  -- With room for an entry, the handler answers, and leaves the exact cache as it is by then.
  finished-stored :
      (state : AppState C E F) (text : Text) (scope : Option Text) (embedding : Option (List E))
      → 1 ≤ state.vector_cache.max_capacity
      → length state.vector_cache.entries ≤ state.vector_cache.max_capacity
      → (after : AppState C E F) × (finished out cache_store_request_from_slice
            (store_semantic out cache_store_request_from_slice text scope state embedding)
          ≡ some (stored out cache_store_request_from_slice, after))
        × (after.exact_cache ≡ state.exact_cache)
  finished-stored state text scope none one fits = (state, refl, refl)
  finished-stored state text scope (some embedding) one fits =
      let now = out.inserted_at state.calls in
      let (kept, size) = insert-inserted state.vector_cache now embedding text scope one fits in
      (
        record state { vector_cache = inserted state.vector_cache now embedding text scope },
        ap
            (λ (o : Option (VectorCache E F)).
              finished out cache_store_request_from_slice
                (map_or none (λ cache. some (record state { vector_cache = cache })) o))
            kept,
        refl,
      )

  -- A response that is stored for a prompt is found by a lookup of the same prompt in the same session,
  -- in the exact cache, as an answer of layer 1, and the store endpoint says that it is stored. The
  -- exact cache must give back what has just been put into it, the bodies must be within the limits of
  -- the two endpoints, and the prompt must not be empty; the semantic cache must have a capacity that
  -- is not zero, without which its insertion panics, and hold at most that many entries.
  pub cache_lookup_handler-cache_store_handler :
      (laws : LruCacheLaws lru) (storing looking : ApiRequest) (state : AppState C E F)
      (stored_body looked_body : List ℕ) (req : CacheStoreRequest)
      → to_bytes storing.body (1024 * 256) ≡ some stored_body
      → cache_store_request_from_slice stored_body ≡ some req
      → to_bytes looking.body (1024 * 64) ≡ some looked_body
      → prompt_of out looked_body ≡ req.prompt
      → is_empty req.prompt ≡ false
      → scope_of out looking looked_body ≡ scope_of out storing stored_body
      → 1 ≤ state.vector_cache.max_capacity
      → length state.vector_cache.entries ≤ state.vector_cache.max_capacity
      → (after : AppState C E F) × (cache_store_handler out cache_store_request_from_slice storing
            state
          ≡ some (stored out cache_store_request_from_slice, after))
        × ((cache_lookup_handler out looking after).0
            ≡ hit_response out (codes "l1a") (cached_json out cache_store_request_from_slice req))
  unfolding cache_lookup_handler cache_store_handler get put
  cache_lookup_handler-cache_store_handler laws storing looking state stored_body looked_body req s
        p l same n scopes one fits =
      let scope = scope_of out storing stored_body in
      let key = api_key out req.prompt scope in
      let value = cached_json out cache_store_request_from_slice req in
      let input = namespaced_semantic_cache_input (codes "native") req.prompt in
      let kept_state : AppState C E F = record state {
        exact_cache = put lru state.exact_cache key value;
      } in
      let (after, answers, kept) =
        finished-stored (log (generate_embedding input) kept_state) value scope
          (out.embedding state.calls input) one fits in
      let found : (get lru after.exact_cache key).0 ≡ some value =
        ap (λ c. (get lru c key).0) kept ∙ laws.get-put state.exact_cache key value in
      (
        after,
        ap (store_body out cache_store_request_from_slice storing state) s
            ∙ ap (store_request out cache_store_request_from_slice scope state) p
            ∙ answers,
        ap (λ b. (lookup_body out looking after b).0) l
            ∙ ap
                (λ (t : Text).
                  (lookup_prompt out t (scope_of out looking looked_body) after (is_empty t)).0)
                same
            ∙ ap (λ c. (lookup_prompt out req.prompt c after (is_empty req.prompt)).0) scopes
            ∙ ap (λ b. (lookup_prompt out req.prompt scope after b).0) n
            ∙ ap
                (λ f.
                  (exact_found out req.prompt scope
                    (record after { exact_cache = (get lru after.exact_cache key).1 }) f).0)
                found,
      )
