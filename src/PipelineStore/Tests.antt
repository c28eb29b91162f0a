-- ===== src/PipelineStore/Tests.antt =====
-- Runs of the vector store, with numbers for coordinates and scores.
use isartor.Common.{
  ℕ, ◌+◌, ◌*◌, ◌/◌, Text, codes, ltb, leb, ◌==◌, none, some, [], ◌∷◌, ◌≡◌, refl, Option,
}
use isartor.PipelineStore.{
  Doubles, InMemoryVectorStore, new, evict, insert, sums, cosine_similarity, consider, scan, search,
}

abbrev numbers : Doubles ℕ
numbers = record {
  zero_score = 0;
  add = λ a b. a + b;
  mul = λ a b. a * b;
  div = λ a b. a / b;
  sqrt = λ a. a;
  eq = λ a b. a == b;
  ge = λ a b. leb b a;
  gt = λ a b. ltb b a;
}

abbrev found : Option (InMemoryVectorStore ℕ) → Option (Text × ℕ)
found none = none
found (some store) = search numbers store 6 (1 ∷ 0 ∷ []) 1

found_again : found (insert (new 300 2) 5 (1 ∷ 0 ∷ []) (codes "a")) ≡ some (codes "a", 1)
unfolding insert evict search scan consider cosine_similarity sums
found_again = refl

expired : found (insert (new 0 2) 5 (1 ∷ 0 ∷ []) (codes "a")) ≡ none
unfolding insert evict search scan consider cosine_similarity sums
expired = refl
