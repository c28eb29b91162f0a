-- ===== src/ExactCache.antt =====
-- src/layer1/layer1a_cache.rs: the exact cache of layer 1a, a bounded cache of the lru crate under a
-- lock. The crate's cache is an interface.
pub mod Bounded
use isartor.Common.{Text, text_eq, Option, some, false, ◌≡◌}

-- `get` moves the entry to the front, so it also returns the cache.
pub record LruCache (C : Type 0) : Type 0 where
  pub get : C → Text → Option Text × C
  pub put : C → Text → Text → C

-- What is put under a key is got back under it.
pub record LruCacheLaws {C : Type 0} (lru : LruCache C) : Type 0 where
  pub get-put : (c : C) (key value : Text) → (lru.get (lru.put c key value) key).0 ≡ some value

module _ {C : Type 0} (lru : LruCache C) where
  unfoldable pub get : C → Text → Option Text × C
  get cache prompt = lru.get cache prompt

  unfoldable pub put : C → Text → Text → C
  put cache prompt response = lru.put cache prompt response
