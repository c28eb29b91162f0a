-- ===== src/PipelineStore.antt =====
-- src/pipeline/implementations/vector_store.rs: the vector store of the second pipeline, behind a lock.
-- `F` is the type of `f64`; instants and durations are numbers.
pub mod Capacity
pub mod Found
mod Tests
use isartor.Common.{
  ℕ, zero, suc, ◌-◌, Text, Bool, true, false, not, ◌&&◌, ◌||◌, ltb, leb, ◌==◌, if◌then◌else◌,
  Option, none, some, List, [], ◌∷◌, ◌++◌, length, retain, is_empty, map_or,
}

-- The operations on `f64` that the code uses.
pub record Doubles (F : Type 0) : Type 0 where
  pub zero_score : F
  pub add : F → F → F
  pub mul : F → F → F
  pub div : F → F → F
  pub sqrt : F → F
  pub eq : F → F → Bool
  pub ge : F → F → Bool
  pub gt : F → F → Bool

pub record CacheEntry (F : Type 0) : Type 0 where
  pub embedding : List F
  pub response : Text
  pub created_at : ℕ

pub record InMemoryVectorStore (F : Type 0) : Type 0 where
  pub entries : List (CacheEntry F)
  pub ttl : ℕ
  pub max_capacity : ℕ

module _ {F : Type 0} where
  -- The time to live in seconds and the capacity.
  abbrev pub new : ℕ → ℕ → InMemoryVectorStore F
  new ttl_secs max_capacity = record { entries = []; ttl = ttl_secs; max_capacity = max_capacity }

  -- The loop that removes the first entry while the capacity is reached: `none` is the panic of
  -- `remove(0)` on an empty vector.
  unfoldable pub evict : ℕ → List (CacheEntry F) → Option (List (CacheEntry F))
  evict max_capacity [] = if leb max_capacity 0 then none else some []
  evict max_capacity (entry ∷ entries) =
      let rest = evict max_capacity entries in
      if leb max_capacity (suc (length entries)) then rest else some (entry ∷ entries)

  unfoldable pub insert : InMemoryVectorStore F → ℕ → List F → Text → Option (InMemoryVectorStore F)
  insert store now embedding response =
      let live = retain (λ e. leb (now - e.created_at) store.ttl) store.entries in
      let entry : CacheEntry F = record {
        embedding = embedding;
        response = response;
        created_at = now;
      } in
      elim (evict store.max_capacity live) [
        | none ↦ none
        | some entries ↦ some (record store { entries = entries ++ entry ∷ [] })
      ]

  unfoldable pub len : InMemoryVectorStore F → ℕ
  len store = length store.entries

module _ {F : Type 0} (x : Doubles F) where
  open x use {zero_score, add, mul, div, sqrt, eq, ge, gt}

  -- The sums of products and of squares, over pairs of coordinates.
  unfoldable pub sums : List F → List F → F × F × F → F × F × F
  sums (u ∷ us) (w ∷ ws) (dot, mag_a, mag_b) =
      sums us ws (add dot (mul u w), add mag_a (mul u u), add mag_b (mul w w))
  sums [] ws s = s
  sums (u ∷ us) [] s = s

  unfoldable pub cosine_similarity : List F → List F → F
  cosine_similarity a b =
      let (dot, mag_a, mag_b) = sums a b (zero_score, zero_score, zero_score) in
      let denom = mul (sqrt mag_a) (sqrt mag_b) in
      if not (length a == length b) || is_empty a
      then zero_score
      else (if eq denom zero_score then zero_score else div dot denom)

  module _ (store : InMemoryVectorStore F) (now : ℕ) (query_vector : List F) (threshold : F) where
    -- One round of the loop of `search`, on the best score and response so far.
    unfoldable pub consider : F × Option Text → CacheEntry F → F × Option Text
    consider (best_score, best_response) entry =
        let score = cosine_similarity query_vector entry.embedding in
        if ltb store.ttl (now - entry.created_at)
        then (best_score, best_response)
        else if ge score threshold && gt score best_score
        then (score, some entry.response)
        else (best_score, best_response)

    unfoldable pub scan : F × Option Text → List (CacheEntry F) → F × Option Text
    scan best [] = best
    scan best (entry ∷ entries) = scan (consider best entry) entries

    unfoldable pub search : Option (Text × F)
    search =
        let (best_score, best_response) = scan (zero_score, none) store.entries in
        map_or none (λ resp. some (resp, best_score)) best_response
