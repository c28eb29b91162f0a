-- ===== src/VectorCache/Tests.antt =====
-- Runs of the semantic cache, with numbers for coordinates and scores.
use isartor.Common.{
  ℕ, ◌+◌, ◌*◌, ◌/◌, ◌≤◌, Text, codes, true, false, ltb, leb, ◌==◌, Option, none, some, [], ◌∷◌,
  length, ◌≡◌, ◌≢◌, refl, arith,
}
use isartor.VectorCache.{
  Floats, CacheEntry, VectorCache, new, insert, sums, cosine_similarity, better, consider, scan,
  search,
}
use isartor.VectorCache.Best.{IsBest, search-IsBest}
use isartor.VectorCache.Capacity.{inserted, insert-inserted, insert_found}

abbrev numbers : Floats ℕ ℕ
numbers = record {
  widen = λ n. n;
  zero_score = 0;
  add = λ a b. a + b;
  mul = λ a b. a * b;
  div = λ a b. a / b;
  sqrt = λ a. a;
  eq = λ a b. a == b;
  ge = λ a b. leb b a;
  gt = λ a b. ltb b a;
}

numbers_irrefl : (s : ℕ) → ltb s s ≡ false
numbers_irrefl s = ground arith

numbers_above : (s t u : ℕ) → ltb t u ≡ true → ltb t s ≡ false → ltb u s ≡ false
numbers_above s t u g h = ground arith

abbrev entry_at : ℕ → Text → Option Text → CacheEntry ℕ
entry_at t message scope = record {
  embedding = 1 ∷ [];
  response = message;
  created_at = t;
  session_cache_scope = scope;
}

abbrev cache : VectorCache ℕ ℕ
cache = record (new {E = ℕ} 1 10 2) {
  entries = entry_at 0 (codes "old") none ∷ entry_at 9 (codes "scoped") (some (codes "s")) ∷ [];
}

program : Unit {0}
unfolding insert sums cosine_similarity better consider scan search
program = tt

expired_runs : search numbers cache 11 (1 ∷ []) none ≡ none
unfolding program
expired_runs = refl

hit_runs : search numbers cache 10 (1 ∷ []) none ≡ some (codes "old")
unfolding program
hit_runs = refl

scoped_runs : search numbers cache 10 (1 ∷ []) (some (codes "s")) ≡ some (codes "scoped")
unfolding program
scoped_runs = refl

-- With no capacity at all, the first insertion panics.
no_capacity_runs : insert (new {E = ℕ} {F = ℕ} 1 10 0) 0 (1 ∷ []) [] none ≡ none
unfolding program
no_capacity_runs = refl

search-IsBest_example :
    (best : Option (CacheEntry ℕ × ℕ)) × IsBest numbers cache 10 (1 ∷ []) none cache.entries best
    × (search numbers cache 10 (1 ∷ []) none
        ≡ elim best [ none ↦ none | some (entry, score) ↦ some entry.response ])
search-IsBest_example = search-IsBest numbers cache 10 (1 ∷ []) none numbers_irrefl numbers_above

insert-inserted_example :
    (insert cache 10 (1 ∷ []) (codes "new") none
      ≡ some (inserted cache 10 (1 ∷ []) (codes "new") none))
    × (length (inserted cache 10 (1 ∷ []) (codes "new") none).entries ≤ 2)
insert-inserted_example =
    insert-inserted cache 10 (1 ∷ []) (codes "new") none (omega arith) (omega arith)

self_similar : leb 1 (cosine_similarity numbers (1 ∷ []) (1 ∷ [])) ≡ true
unfolding program
self_similar = refl

insert_found_example :
    (cache' : VectorCache ℕ ℕ) × (insert cache 10 (1 ∷ []) (codes "new") none ≡ some cache')
    × (search numbers cache' 10 (1 ∷ []) none ≢ none)
insert_found_example =
    insert_found numbers cache 10 (1 ∷ []) (codes "new") none numbers_irrefl numbers_above
      (omega arith) (omega arith) self_similar
