-- ===== src/Concurrency/Sort.antt =====
-- The `sort` of durations that src/pipeline/concurrency.rs calls, and what it keeps.
use isartor.Common.{
  ℕ, zero, suc, ◌≤◌, ◌<◌, leb, ltb, if◌then◌else◌, List, [], ◌∷◌, length, ◌≡◌, refl, arith, some,
  get_elem?, All, Bool-cases, inl, inr, subst,
}

unfoldable pub insert : ℕ → List ℕ → List ℕ
insert a [] = a ∷ []
insert a (b ∷ bs) = let rest = insert a bs in if leb a b then a ∷ b ∷ bs else b ∷ rest

unfoldable pub sort : List ℕ → List ℕ
unfolding insert
sort [] = []
sort (a ∷ as') = insert a (sort as')

-- How many of the numbers are at most `p`.
abbrev pub count_le : ℕ → List ℕ → ℕ
count_le p [] = 0
count_le p (a ∷ rest) = if leb a p then suc (count_le p rest) else count_le p rest

-- How many of the numbers are below `p`.
abbrev pub count_lt : ℕ → List ℕ → ℕ
count_lt p [] = 0
count_lt p (a ∷ rest) = if ltb a p then suc (count_lt p rest) else count_lt p rest

abbrev IsSorted : List ℕ → Type 0
IsSorted [] = Unit
IsSorted (a ∷ rest) = All (λ b. a ≤ b) rest × IsSorted rest

length-insert : (a : ℕ) (bs : List ℕ) → length (insert a bs) ≡ suc (length bs)
unfolding insert
length-insert a [] = refl
length-insert a (b ∷ bs) = ground (arith, length-insert a bs)

pub length-sort : (xs : List ℕ) → length (sort xs) ≡ length xs
unfolding sort
length-sort [] = refl
length-sort (a ∷ xs) = omega (arith, length-insert a (sort xs), length-sort xs)

count_le-insert : (p a : ℕ) (bs : List ℕ) → count_le p (insert a bs) ≡ count_le p (a ∷ bs)
unfolding insert
count_le-insert p a [] = refl
count_le-insert p a (b ∷ bs) = ground (arith, count_le-insert p a bs)

pub count_le-sort : (p : ℕ) (xs : List ℕ) → count_le p (sort xs) ≡ count_le p xs
unfolding sort
count_le-sort p [] = refl
count_le-sort p (a ∷ xs) = ground (arith, count_le-insert p a (sort xs), count_le-sort p xs)

All-le_trans : (a b : ℕ) (xs : List ℕ) → a ≤ b → All (λ c. b ≤ c) xs → All (λ c. a ≤ c) xs
All-le_trans a b [] h k = tt
All-le_trans a b (x ∷ xs) h k = (omega arith, All-le_trans a b xs h k.1)

All-insert : (a b : ℕ) (xs : List ℕ) → a ≤ b → All (λ c. a ≤ c) xs → All (λ c. a ≤ c) (insert b xs)
unfolding insert
All-insert a b [] h k = (h, tt)
All-insert a b (x ∷ xs) h k = elim (Bool-cases (leb b x)) [
  | inl p ↦ rw p (h, (k.0, k.1))
  | inr p ↦ rw p (k.0, All-insert a b xs h k.1)
]

insert-IsSorted : (a : ℕ) (xs : List ℕ) → IsSorted xs → IsSorted (insert a xs)
unfolding insert
insert-IsSorted a [] s = (tt, tt)
insert-IsSorted a (x ∷ xs) s = elim (Bool-cases (leb a x)) [
  | inl p ↦ rw p ((ground arith, All-le_trans a x xs (ground arith) s.0), s)
  | inr p ↦ rw p (All-insert x a xs (ground arith) s.0, insert-IsSorted a xs s.1)
]

sort-IsSorted : (xs : List ℕ) → IsSorted (sort xs)
unfolding sort
sort-IsSorted [] = tt
sort-IsSorted (a ∷ xs) = insert-IsSorted a (sort xs) (sort-IsSorted xs)

get_elem-All :
    (a : ℕ) (xs : List ℕ) (i : ℕ) {p : ℕ} → All (λ c. a ≤ c) xs → get_elem? xs i ≡ some p → a ≤ p
get_elem-All a [] i h e = absurd (ground arith)
get_elem-All a (x ∷ xs) zero h e = ground arith
get_elem-All a (x ∷ xs) (suc i) h e = get_elem-All a xs i h.1 e

count_le-sorted :
    (xs : List ℕ) (i p : ℕ) → IsSorted xs → get_elem? xs i ≡ some p → suc i ≤ count_le p xs
count_le-sorted [] i p s e = absurd (ground arith)
count_le-sorted (x ∷ xs) zero p s e = ground arith
count_le-sorted (x ∷ xs) (suc i) p s e =
    let first : x ≤ p = get_elem-All x xs i s.0 e in ground (arith, count_le-sorted xs i p s.1 e)

-- The element at index `i` of the sorted list has at least `i + 1` elements at or below it.
pub count_le-sort_get :
    (xs : List ℕ) (i p : ℕ) → get_elem? (sort xs) i ≡ some p → suc i ≤ count_le p xs
count_le-sort_get xs i p e =
    omega (arith, count_le-sorted (sort xs) i p (sort-IsSorted xs) e, count_le-sort p xs)

count_lt-insert : (p a : ℕ) (bs : List ℕ) → count_lt p (insert a bs) ≡ count_lt p (a ∷ bs)
unfolding insert
count_lt-insert p a [] = refl
count_lt-insert p a (b ∷ bs) = ground (arith, count_lt-insert p a bs)

count_lt-sort : (p : ℕ) (xs : List ℕ) → count_lt p (sort xs) ≡ count_lt p xs
unfolding sort
count_lt-sort p [] = refl
count_lt-sort p (a ∷ xs) = ground (arith, count_lt-insert p a (sort xs), count_lt-sort p xs)

count_lt-All : (p : ℕ) (xs : List ℕ) → All (λ c. p ≤ c) xs → count_lt p xs ≡ 0
count_lt-All p [] h = refl
count_lt-All p (x ∷ xs) h = let first = h.0 in ground (arith, count_lt-All p xs h.1)

count_lt-sorted :
    (xs : List ℕ) (i p : ℕ) → IsSorted xs → get_elem? xs i ≡ some p → count_lt p xs ≤ i
count_lt-sorted [] i p s e = absurd (ground arith)
count_lt-sorted (x ∷ xs) zero p s e =
    let same : x ≡ p = ground arith in
    let rest : All (λ c. p ≤ c) xs = subst (λ k. All (λ c. k ≤ c) xs) same s.0 in
    ground (arith, count_lt-All p xs rest)
count_lt-sorted (x ∷ xs) (suc i) p s e = ground (arith, count_lt-sorted xs i p s.1 e)

-- The element at index `i` of the sorted list has at most `i` elements below it.
pub count_lt-sort_get : (xs : List ℕ) (i p : ℕ) → get_elem? (sort xs) i ≡ some p → count_lt p xs ≤ i
count_lt-sort_get xs i p e =
    omega (arith, count_lt-sorted (sort xs) i p (sort-IsSorted xs) e, count_lt-sort p xs)

pub get_elem-lt : (xs : List ℕ) (i : ℕ) → i < length xs → (p : ℕ) × (get_elem? xs i ≡ some p)
get_elem-lt [] i h = absurd (omega arith)
get_elem-lt (x ∷ xs) zero h = (x, refl)
get_elem-lt (x ∷ xs) (suc i) h = get_elem-lt xs i (omega arith)
