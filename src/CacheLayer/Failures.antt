-- ===== src/CacheLayer/Failures.antt =====
-- A response that is no success is not cached (src/middleware/cache.rs).
use isartor.Common.{Text, false, Option, none, some, List, ◌≡◌, ◌⊎◌}
use isartor.Http.{FinalLayer, exact_cache, Response, is_success}
use isartor.ExactCache.{get}
use isartor.AppState.{AppState, Outside, Call}
use isartor.CacheKeys.{Lookup}
use isartor.CacheLayer.{hit_response}

-- A panic or a response whose status is no success.
abbrev pub Unsuccessful : Option Response → Type 0
Unsuccessful none = Unit
Unsuccessful (some r) = is_success r.status ≡ false

module _ {C E F : Type 0} where
  abbrev pub SameCaches : AppState C E F → AppState C E F → Type 0
  SameCaches after before =
      (after.exact_cache ≡ before.exact_cache) × (after.vector_cache ≡ before.vector_cache)

module _ {V C E F : Type 0} (out : Outside V C E F) where
  open out use {lru}

  -- The exact cache is as it was but for a lookup, and the semantic cache as it was.
  abbrev pub OnlyLookedUp : AppState C E F → AppState C E F → Type 0
  OnlyLookedUp after before =
      ((after.exact_cache ≡ before.exact_cache)
        ⊎ ((key : Text) × (after.exact_cache ≡ (get lru before.exact_cache key).1)))
      × (after.vector_cache ≡ before.vector_cache)

  -- An answer without success, or one of a cache.
  abbrev pub Answered : Option Response → Type 0
  Answered r =
      Unsuccessful r
      ⊎ ((calls : List Call) × (lookup : Lookup) × (layer : FinalLayer) × (cached : Text) × (r
            ≡ some (hit_response out calls lookup layer cached)))
