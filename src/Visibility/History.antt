-- ===== src/Visibility/History.antt =====
-- What the statistics of src/visibility.rs say of the entries that were recorded.
use isartor.Common.{
  ℕ, zero, suc, ◌+◌, ◌≤◌, ◌<◌, Text, text_eq, is_empty, Bool, false, Bool-cases, ltb, if◌then◌else◌,
  List, [], ◌∷◌, length, take, ◌≡◌, inl, inr, refl, ap, ◌∙◌, sym, not, min, arith,
}
use isartor.Visibility.{
  u64_mod, text_lt, update, plus_one, bump, PromptVisibilityEntry, PromptVisibilityState,
  default_state, recent_prompt_entries_capacity, pop_back, pop_to, record_entry, snapshot,
}

abbrev pub total : List (Text × ℕ) → ℕ
total [] = 0
total ((key, n) ∷ entries) = n + total entries

-- A number below the limit is counted up without a wrap.
plus_one_small : (n : ℕ) → n + 1 < u64_mod → plus_one n ≡ suc n
plus_one_small n h = omega arith

total-bump :
    (key : Text) (entries : List (Text × ℕ))
    → suc (total entries) < u64_mod
    → total (bump key entries) ≡ suc (total entries)
unfolding update
total-bump key [] h = refl
total-bump key ((key', n) ∷ entries) h = elim (Bool-cases (text_eq key key')) [
  | inl same ↦ rw (same, plus_one_small n (omega arith)) (omega arith)
  | inr other ↦ elim (Bool-cases (text_lt key key')) [
    | inl before ↦ rw (other, before) (omega arith)
    | inr after ↦
        let rest = total-bump key entries (omega arith) in rw (other, after, rest) (omega arith)
  ]
]

module _ {A : Type 0} where
  length-pop_back : (x : A) (xs : List A) → length (pop_back (x ∷ xs)) ≡ length xs
  unfolding pop_back
  length-pop_back x [] = refl
  length-pop_back x (y ∷ ys) = ap suc (length-pop_back y ys)

  take-pop_back : (n : ℕ) (xs : List A) → n < length xs → take n (pop_back xs) ≡ take n xs
  unfolding pop_back
  take-pop_back zero xs h = refl
  take-pop_back (suc n) [] h = absurd (omega arith)
  take-pop_back (suc n) (x ∷ []) h = absurd (omega arith)
  take-pop_back (suc n) (x ∷ y ∷ ys) h =
      ap (λ (zs : List A). x ∷ zs) (take-pop_back n (y ∷ ys) (omega arith))

  take_all : (n : ℕ) (xs : List A) → length xs ≤ n → take n xs ≡ xs
  take_all zero [] h = refl
  take_all zero (x ∷ xs) h = absurd (omega arith)
  take_all (suc n) [] h = refl
  take_all (suc n) (x ∷ xs) h = ap (λ (zs : List A). x ∷ zs) (take_all n xs (omega arith))

  -- Fuel for the entries above the capacity is enough, and what is left are the newest.
  pop_to-take :
      (fuel capacity : ℕ) (xs : List A)
      → length xs ≤ fuel + capacity
      → pop_to fuel capacity xs ≡ take capacity xs
  unfolding pop_to
  pop_to-take zero capacity xs h = sym (take_all capacity xs (omega arith))
  pop_to-take (suc fuel) capacity [] h =
      let fits : ltb capacity 0 ≡ false = ground arith in
      rw fits (sym (take_all capacity [] (omega arith)))
  pop_to-take (suc fuel) capacity (x ∷ xs) h = elim (Bool-cases (ltb capacity (suc (length xs)))) [
    | inr fits ↦ rw fits (sym (take_all capacity (x ∷ xs) (ground arith)))
    | inl over ↦
        let shorter = length-pop_back x xs in
        rw over (
          pop_to-take fuel capacity (pop_back (x ∷ xs)) (omega arith)
          ∙ take-pop_back capacity (x ∷ xs) (ground arith))
  ]

  take-take : (m n : ℕ) (xs : List A) → m ≤ n → take m (take n xs) ≡ take m xs
  take-take zero n xs h = refl
  take-take (suc m) zero xs h = absurd (omega arith)
  take-take (suc m) (suc n) [] h = refl
  take-take (suc m) (suc n) (x ∷ xs) h =
      ap (λ (zs : List A). x ∷ zs) (take-take m n xs (omega arith))

-- How many of the entries pass the test.
abbrev pub count : (PromptVisibilityEntry → Bool) → List PromptVisibilityEntry → ℕ
count p [] = 0
count p (e ∷ es) = if p e then suc (count p es) else count p es

count-le :
    (p : PromptVisibilityEntry → Bool) (es : List PromptVisibilityEntry) → count p es ≤ length es
count-le p [] = omega arith
count-le p (e ∷ es) = elim (Bool-cases (p e)) [
  | inl h ↦ rw h (omega (arith, count-le p es))
  | inr h ↦ rw h (omega (arith, count-le p es))
]

-- The state after these entries, the newest first.
abbrev pub recorded : List PromptVisibilityEntry → PromptVisibilityState
recorded [] = default_state
recorded (e ∷ es) = record_entry (recorded es) e

abbrev pub is_deflected : PromptVisibilityEntry → Bool
is_deflected e = e.deflected

abbrev pub has_tool : PromptVisibilityEntry → Bool
has_tool e = not (is_empty e.tool)

total_prompts-recorded :
    (es : List PromptVisibilityEntry)
    → length es < u64_mod
    → (recorded es).total_prompts ≡ length es
unfolding record_entry
total_prompts-recorded [] h = refl
total_prompts-recorded (e ∷ es) h =
    rw (total_prompts-recorded es (omega arith)) (plus_one_small (length es) (omega arith))

total_deflected-recorded :
    (es : List PromptVisibilityEntry)
    → length es < u64_mod
    → (recorded es).total_deflected_prompts ≡ count is_deflected es
unfolding record_entry
total_deflected-recorded [] h = refl
total_deflected-recorded (e ∷ es) h = elim (Bool-cases e.deflected) [
  | inr out ↦ rw out (total_deflected-recorded es (omega arith))
  | inl hit ↦
      rw (hit, total_deflected-recorded es (omega arith))
        (plus_one_small (count is_deflected es) (omega (arith, count-le is_deflected es)))
]

by_layer-recorded :
    (es : List PromptVisibilityEntry)
    → length es < u64_mod
    → total (recorded es).by_layer ≡ length es
unfolding record_entry
by_layer-recorded [] h = refl
by_layer-recorded (e ∷ es) h =
    let before = by_layer-recorded es (omega arith) in
    total-bump e.final_layer (recorded es).by_layer (omega arith) ∙ ap suc before

by_surface-recorded :
    (es : List PromptVisibilityEntry)
    → length es < u64_mod
    → total (recorded es).by_surface ≡ length es
unfolding record_entry
by_surface-recorded [] h = refl
by_surface-recorded (e ∷ es) h =
    let before = by_surface-recorded es (omega arith) in
    total-bump e.traffic_surface (recorded es).by_surface (omega arith) ∙ ap suc before

by_client-recorded :
    (es : List PromptVisibilityEntry)
    → length es < u64_mod
    → total (recorded es).by_client ≡ length es
unfolding record_entry
by_client-recorded [] h = refl
by_client-recorded (e ∷ es) h =
    let before = by_client-recorded es (omega arith) in
    total-bump e.client (recorded es).by_client (omega arith) ∙ ap suc before

by_tool-recorded :
    (es : List PromptVisibilityEntry)
    → length es < u64_mod
    → total (recorded es).by_tool ≡ count has_tool es
unfolding record_entry
by_tool-recorded [] h = refl
by_tool-recorded (e ∷ es) h = elim (Bool-cases (is_empty e.tool)) [
  | inl anonymous ↦ rw anonymous (by_tool-recorded es (omega arith))
  | inr named ↦
      let before = by_tool-recorded es (omega arith) in
      rw named (
        total-bump e.tool (recorded es).by_tool (omega (arith, count-le has_tool es))
        ∙ ap suc before)
]

recent-recorded :
    (es : List PromptVisibilityEntry)
    → (recorded es).recent ≡ take recent_prompt_entries_capacity es
unfolding record_entry
recent-recorded [] = refl
recent-recorded (e ∷ es) =
    pop_to-take _ recent_prompt_entries_capacity _ (omega arith)
    ∙ ap (λ (xs : List PromptVisibilityEntry). e ∷ take 199 xs) (recent-recorded es)
    ∙ ap (λ (xs : List PromptVisibilityEntry). e ∷ xs) (take-take 199 200 es (omega arith))

-- After any number of entries below 2 ^ 64, a snapshot has the number of entries and of deflected
-- ones; the counts by layer, by surface and by client each add up to the number of entries, and those
-- by tool to the number of entries that name a tool; and the recent entries are the newest ones, the
-- newest first, at most the limit asked for and at most 200.
pub snapshot-recorded :
    (es : List PromptVisibilityEntry) (limit : ℕ)
    → length es < u64_mod
    → ((snapshot (recorded es) limit).total_prompts ≡ length es)
      × ((snapshot (recorded es) limit).total_deflected_prompts ≡ count is_deflected es)
      × (total (snapshot (recorded es) limit).by_layer ≡ length es)
      × (total (snapshot (recorded es) limit).by_surface ≡ length es)
      × (total (snapshot (recorded es) limit).by_client ≡ length es)
      × (total (snapshot (recorded es) limit).by_tool ≡ count has_tool es)
      × ((snapshot (recorded es) limit).recent ≡ take (min limit recent_prompt_entries_capacity) es)
unfolding snapshot
snapshot-recorded es limit h = (
  total_prompts-recorded es h,
  total_deflected-recorded es h,
  by_layer-recorded es h,
  by_surface-recorded es h,
  by_client-recorded es h,
  by_tool-recorded es h,
  ap (take (min limit recent_prompt_entries_capacity)) (recent-recorded es)
      ∙ take-take (min limit recent_prompt_entries_capacity) recent_prompt_entries_capacity es
          (omega arith),
)
