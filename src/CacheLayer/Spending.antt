-- ===== src/CacheLayer/Spending.antt =====
-- Layer 1 does not call the cloud provider itself (src/middleware/cache.rs).
use isartor.Common.{
  ℕ, Text, Bool, true, false, Option, none, some, List, ◌≡◌, inl, inr, refl, ap, ◌∙◌, map_or,
}
use isartor.Config.{AppConfig}
use isartor.Http.{Request, Response, json_response, is_success}
use isartor.ExactCache.{get}
use isartor.VectorCache.{VectorCache, insert}
use isartor.AppState.{AppState, Outside, Next, generate_embedding, log}
use isartor.AppState.Spending.{clouds, Spent, Spends}
use isartor.CacheKeys.{Lookup, lookup_of}
use isartor.CacheLayer.{
  cache_middleware, cache_value, downstream_response, unreadable, store_exact, answered, capture,
  forwarded, semantic_found, semantic_search, semantic_lookup, exact_found, exact_lookup, with_body,
}

-- What is so of the response of the rest of the stack makes something so of the layer's response.
pub record Carries {V C E F : Type 0} (out : Outside V C E F) (next : Next C E F)
    (P Q : Option Response → Type 0) : Type 0 where
  pub panics : P none → Q none
  pub lost : (r : Response) → P (some r) → Q none
  pub unread :
      (r : Response) → P (some r) → Q (some (json_response out.host 502 (unreadable out next)))
  pub passes :
      (state : AppState C E F) (lookup : Lookup) (r : Response) (bytes : List ℕ)
      → P (some r)
      → Q (some (downstream_response out state.calls lookup r bytes))

module _ {V C E F : Type 0} (out : Outside V C E F) (next : Next C E F)
    (P Q : Option Response → Type 0) (carries : Carries out next P Q) (spends : Spends P next)
    (request : Request) where
  open out use {lru, inserted_at}

  module _ (lookup : Lookup) (r response : Response) (stored : AppState C E F) where
    -- The end of a run, at what the vector cache returned of the insertion.
    abbrev inserted : Option (VectorCache E F) → Option Response × AppState C E F
    inserted cache =
        answered out next response stored
          (map_or none (λ c. some (record stored { vector_cache = c })) cache)

    inserted-calls : (cache : Option (VectorCache E F)) → (inserted cache).1.calls ≡ stored.calls
    inserted-calls none = refl
    inserted-calls (some cache) = refl

    inserted-Paid :
        (cache : Option (VectorCache E F)) → Q none → Q (some response) → Q (inserted cache).0
    inserted-Paid none p q = p
    inserted-Paid (some cache) p q = q

  store_exact-calls :
      (key : Option Text) (value : Text) (state : AppState C E F)
      → (store_exact out next key value state).calls ≡ state.calls
  store_exact-calls none value state = refl
  store_exact-calls (some key) value state = refl

  module _ (lookup : Lookup) (r : Response) (state : AppState C E F) where
    abbrev response_of : List ℕ → Response
    response_of bytes = downstream_response out state.calls lookup r bytes

    abbrev stored_of : List ℕ → AppState C E F
    stored_of bytes = store_exact out next lookup.exact_key (cache_value out.host bytes) state

    abbrev insertion : List ℕ → List E → Option (VectorCache E F)
    insertion bytes emb =
        let stored = stored_of bytes in
        insert stored.vector_cache (inserted_at stored.calls) emb (cache_value out.host bytes)
          lookup.session_cache_scope

    capture-calls :
        (embedding : Option (List E)) (body : Option (List ℕ)) (ok : Bool)
        → (capture out next lookup embedding r state body ok).1.calls ≡ state.calls
    capture-calls embedding none ok = refl
    capture-calls embedding (some bytes) false = refl
    capture-calls none (some bytes) true =
        store_exact-calls lookup.exact_key (cache_value out.host bytes) state
    capture-calls (some emb) (some bytes) true =
        inserted-calls lookup r (response_of bytes) (stored_of bytes) (insertion bytes emb)
        ∙ store_exact-calls lookup.exact_key (cache_value out.host bytes) state

    capture-Paid :
        (embedding : Option (List E)) (body : Option (List ℕ)) (ok : Bool)
        → P (some r)
        → Q (capture out next lookup embedding r state body ok).0
    capture-Paid embedding none ok p = carries.unread r p
    capture-Paid embedding (some bytes) false p = carries.passes state lookup r bytes p
    capture-Paid none (some bytes) true p = carries.passes state lookup r bytes p
    capture-Paid (some emb) (some bytes) true p =
        inserted-Paid lookup r (response_of bytes) (stored_of bytes) (insertion bytes emb)
          (carries.lost r p) (carries.passes state lookup r bytes p)

  forwarded-Spent :
      (lookup : Lookup) (embedding : Option (List E)) (before : AppState C E F)
      (o : Option Response × AppState C E F)
      → Spent P before o
      → Spent Q before (forwarded out next lookup embedding o)
  forwarded-Spent lookup embedding before (none, state) (inl e) = inl e
  forwarded-Spent lookup embedding before (none, state) (inr p) = inr (carries.panics p)
  forwarded-Spent lookup embedding before (some r, state) (inl e) =
      inl (ap clouds (capture-calls lookup r state embedding r.body (is_success r.status)) ∙ e)
  forwarded-Spent lookup embedding before (some r, state) (inr p) =
      inr (capture-Paid lookup r state embedding r.body (is_success r.status) p)

  semantic_found-Spent :
      (lookup : Lookup) (embedding : Option (List E)) (state : AppState C E F) (found : Option Text)
      → Spent Q state (semantic_found out next lookup request embedding state found)
  semantic_found-Spent lookup embedding state (some cached) = inl refl
  semantic_found-Spent lookup embedding state none =
      forwarded-Spent lookup embedding state (next request state) (spends request state)

  semantic_lookup-Spent :
      (lookup : Lookup) (state : AppState C E F) (prompt : Option Text)
      → Spent Q state (semantic_lookup out next lookup request state prompt)
  semantic_lookup-Spent lookup state none = semantic_found-Spent lookup none state none
  semantic_lookup-Spent lookup state (some prompt) =
      let logged = log (generate_embedding prompt) state in
      let embedding = out.embedding state.calls prompt in
      semantic_found-Spent lookup embedding logged
        (semantic_search out next lookup embedding logged)

  exact_found-Spent :
      (lookup : Lookup) (state : AppState C E F) (found : Option Text)
      → Spent Q state (exact_found out next lookup request state found)
  exact_found-Spent lookup state (some cached) = inl refl
  exact_found-Spent lookup state none = semantic_lookup-Spent lookup state lookup.semantic_prompt

  exact_lookup-Spent :
      (lookup : Lookup) (state : AppState C E F) (key : Option Text)
      → Spent Q state (exact_lookup out next lookup request state key)
  exact_lookup-Spent lookup state none = exact_found-Spent lookup state none
  exact_lookup-Spent lookup state (some key) =
      let (found, cache) = get lru state.exact_cache key in
      exact_found-Spent lookup (record state { exact_cache = cache }) found

  with_body-Spent :
      (config : AppConfig) (state : AppState C E F) (body : Option (List ℕ))
      → Spent Q state (with_body out next config request state body)
  with_body-Spent config state none = inl refl
  with_body-Spent config state (some body) =
      let lookup = lookup_of out.host config request body in
      exact_lookup-Spent lookup state lookup.exact_key

  pub cache_middleware-Spent :
      (config : AppConfig) (state : AppState C E F)
      → Spent Q state (cache_middleware out next config request state)
  unfolding cache_middleware
  cache_middleware-Spent config state = with_body-Spent config state request.buffered_body
