-- ===== src/VectorCache.antt =====
-- src/vector_cache.rs: the semantic cache of layer 1b. `E` is the type of `f32` and `F` that of `f64`,
-- with the operations that the code uses; instants and durations are numbers.
pub mod Best
pub mod Capacity
mod Tests
use isartor.Common.{
  ℕ, zero, suc, ◌-◌, Text, text_eq, Bool, true, false, not, ◌&&◌, ◌||◌, ltb, leb, ◌==◌,
  if◌then◌else◌, Option, none, some, List, [], ◌∷◌, ◌++◌, length, retain, is_empty, foldl, drop,
}

pub record Floats (E F : Type 0) : Type 0 where
  pub widen : E → F
  pub zero_score : F
  pub add : F → F → F
  pub mul : F → F → F
  pub div : F → F → F
  pub sqrt : F → F
  pub eq : F → F → Bool
  pub ge : F → F → Bool
  pub gt : F → F → Bool

pub record CacheEntry (E : Type 0) : Type 0 where
  pub embedding : List E
  pub response : Text
  pub created_at : ℕ
  pub session_cache_scope : Option Text

pub record VectorCache (E F : Type 0) : Type 0 where
  pub entries : List (CacheEntry E)
  pub similarity_threshold : F
  pub ttl : ℕ
  pub max_capacity : ℕ

abbrev pub scope_eq : Option Text → Option Text → Bool
scope_eq none none = true
scope_eq (some s) (some t) = text_eq s t
scope_eq none (some t) = false
scope_eq (some s) none = false

module _ {E : Type 0} where
  -- `Instant::duration_since` is zero for a later instant.
  abbrev pub is_expired : ℕ → ℕ → CacheEntry E → Bool
  is_expired ttl now entry = ltb ttl (now - entry.created_at)

  -- `none` is the panic of `remove(0)` on an empty vector.
  abbrev pub remove_first : List (CacheEntry E) → Option (List (CacheEntry E))
  remove_first [] = none
  remove_first (entry ∷ entries) = some entries

module _ {E F : Type 0} where
  -- The threshold, the time to live in seconds, and the capacity.
  abbrev pub new : F → ℕ → ℕ → VectorCache E F
  new similarity_threshold ttl_secs max_capacity = record {
    entries = [];
    similarity_threshold = similarity_threshold;
    ttl = ttl_secs;
    max_capacity = max_capacity;
  }

  unfoldable pub insert :
      VectorCache E F → ℕ → List E → Text → Option Text → Option (VectorCache E F)
  insert cache now embedding response session_cache_scope =
      let live = retain (λ e. leb (now - e.created_at) cache.ttl) cache.entries in
      let entry : CacheEntry E = record {
        embedding = embedding;
        response = response;
        created_at = now;
        session_cache_scope = session_cache_scope;
      } in
      let kept = if leb cache.max_capacity (length live) then remove_first live else some live in
      elim kept [
        | none ↦ none
        | some entries ↦ some (record cache { entries = entries ++ entry ∷ [] })
      ]

module _ {E F : Type 0} (x : Floats E F) where
  open x use {widen, zero_score, add, mul, div, sqrt, eq, ge, gt}

  -- The sums of products and of squares, over pairs of coordinates.
  unfoldable pub sums : List E → List E → F × F × F → F × F × F
  sums (u ∷ us) (w ∷ ws) (dot, mag_a, mag_b) = sums us ws (
    add dot (mul (widen u) (widen w)),
    add mag_a (mul (widen u) (widen u)),
    add mag_b (mul (widen w) (widen w)),
  )
  sums [] ws s = s
  sums (u ∷ us) [] s = s

  unfoldable pub cosine_similarity : List E → List E → F
  cosine_similarity a b =
      let (dot, mag_a, mag_b) = sums a b (zero_score, zero_score, zero_score) in
      let denom = mul (sqrt mag_a) (sqrt mag_b) in
      if not (length a == length b) || is_empty a
      then zero_score
      else (if eq denom zero_score then zero_score else div dot denom)

  -- One round of the loop of `search`.
  unfoldable pub better : Option (CacheEntry E × F) → F → Bool
  better none score = true
  better (some (entry, s)) score = gt score s

  module _ (cache : VectorCache E F) (now : ℕ) (query : List E) (scope : Option Text) where
    unfoldable pub consider : Option (CacheEntry E × F) → CacheEntry E → Option (CacheEntry E × F)
    consider best entry =
        let score = cosine_similarity query entry.embedding in
        if is_expired cache.ttl now entry
        then best
        else if not (scope_eq entry.session_cache_scope scope)
        then best
        else if ge score cache.similarity_threshold && better best score
        then some (entry, score)
        else best

    unfoldable pub scan :
        Option (CacheEntry E × F) → List (CacheEntry E) → Option (CacheEntry E × F)
    scan best [] = best
    scan best (entry ∷ entries) = scan (consider best entry) entries

    unfoldable pub search : Option Text
    search = elim (scan none cache.entries) [
      | none ↦ none
      | some (entry, score) ↦ some entry.response
    ]
