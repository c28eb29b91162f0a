-- ===== src/VectorCache/Capacity.antt =====
-- Insertion in src/vector_cache.rs: the capacity, and what is kept.
use isartor.Common.{
  ℕ, zero, suc, ◌-◌, ◌≤◌, Text, text_eq_self, true, false, Option, none, some, List, [], ◌∷◌, ◌++◌,
  length, drop, retain, leb, length-append, length-retain-le, All, ◌≡◌, ◌≢◌, refl, arith,
  Bool-cases, inl, inr, if◌then◌else◌,
}
use isartor.VectorCache.{
  Floats, CacheEntry, VectorCache, scope_eq, remove_first, insert, cosine_similarity, search,
}
use isartor.VectorCache.Best.{matches, IsBest, search-IsBest}

make_room :
    {E : Type 0} (live : List (CacheEntry E)) (capacity : ℕ)
    → 1 ≤ capacity
    → length live ≤ capacity
    → (if leb capacity (length live) then remove_first live else some live)
      ≡ some (drop (suc (length live) - capacity) live)
make_room [] capacity one fits =
    let room : leb capacity 0 ≡ false = ground arith in
    let nothing : 1 - capacity ≡ 0 = omega arith in rw (room, nothing)
make_room (e ∷ live) capacity one fits = elim (Bool-cases (leb capacity (suc (length live)))) [
  | inr room ↦
      let nothing : suc (suc (length live)) - capacity ≡ 0 = ground arith in rw (room, nothing)
  | inl full ↦
      let single : suc (suc (length live)) - capacity ≡ 1 = ground arith in rw (full, single)
]

pub length-drop : {A : Type 0} (n : ℕ) (xs : List A) → length (drop n xs) ≡ length xs - n
length-drop zero xs = omega arith
length-drop (suc n) [] = omega arith
length-drop (suc n) (x ∷ xs) = omega (arith, length-drop n xs)

All-last : {A : Type 0} (P : A → Type 0) (xs : List A) (x : A) → All P (xs ++ x ∷ []) → P x
All-last P [] x h = h.0
All-last P (y ∷ xs) x h = All-last P xs x h.1

module _ {E F : Type 0} (cache : VectorCache E F) (now : ℕ) (embedding : List E) (response : Text)
    (scope : Option Text) where
  abbrev pub live : List (CacheEntry E)
  live = retain (λ e. leb (now - e.created_at) cache.ttl) cache.entries

  abbrev pub entry : CacheEntry E
  entry = record {
    embedding = embedding;
    response = response;
    created_at = now;
    session_cache_scope = scope;
  }

  -- The live entries that make room, and the new one.
  abbrev pub inserted : VectorCache E F
  inserted = record cache {
    entries = drop (suc (length live) - cache.max_capacity) live ++ entry ∷ [];
  }

  -- An insertion into a cache that holds at most its capacity, which is not zero, succeeds: it drops
  -- what is expired and then, if no room is left, the oldest entry, puts the new entry last, and
  -- holds at most the capacity again.
  pub insert-inserted :
      1 ≤ cache.max_capacity
      → length cache.entries ≤ cache.max_capacity
      → (insert cache now embedding response scope ≡ some inserted)
        × (length inserted.entries ≤ cache.max_capacity)
  unfolding insert
  insert-inserted one fits =
      let shorter = length-retain-le (λ e. leb (now - e.created_at) cache.ttl) cache.entries in
      let dropped = suc (length live) - cache.max_capacity in
      (
        rw (make_room live cache.max_capacity one (omega arith), insert),
        omega (arith, length-append (drop dropped live) (entry ∷ []), length-drop dropped live),
      )

scope_eq_self : (s : Option Text) → scope_eq s s ≡ true
scope_eq_self none = refl
scope_eq_self (some t) = text_eq_self t

module _ {E F : Type 0} (x : Floats E F) (cache : VectorCache E F) (now : ℕ) (embedding : List E)
    (response : Text) (scope : Option Text) (gt_irrefl : (s : F) → x.gt s s ≡ false)
    (gt_above : (s t u : F) → x.gt u t ≡ true → x.gt s t ≡ false → x.gt s u ≡ false) where
  abbrev stored : VectorCache E F
  stored = inserted cache now embedding response scope

  found :
      (best : Option (CacheEntry E × F))
      → IsBest x stored now embedding scope stored.entries best
      → x.ge (cosine_similarity x embedding embedding) cache.similarity_threshold ≡ true
      → elim best [ none ↦ none | some (e, s) ↦ some e.response ] ≢ none
  unfolding IsBest matches
  found none h similar e =
      let last =
        All-last _
          (drop (suc (length (live cache now embedding response scope)) - cache.max_capacity)
            (live cache now embedding response scope))
          (entry cache now embedding response scope) h in
      ground (arith, scope_eq_self scope)
  found (some b) h similar e = cc

  -- What was inserted is found at once: if a vector is similar enough to itself, a search for it, in
  -- the same session and at the same instant, does not miss. The premises on `>` are those of the
  -- search.
  pub insert_found :
      1 ≤ cache.max_capacity
      → length cache.entries ≤ cache.max_capacity
      → x.ge (cosine_similarity x embedding embedding) cache.similarity_threshold ≡ true
      → (cache' : VectorCache E F) × (insert cache now embedding response scope ≡ some cache')
        × (search x cache' now embedding scope ≢ none)
  insert_found one fits similar =
      let (best, h, e) = search-IsBest x stored now embedding scope gt_irrefl gt_above in
      (
        stored,
        (insert-inserted cache now embedding response scope one fits).0,
        rw e (found best h similar),
      )
