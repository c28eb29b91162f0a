-- ===== src/PipelineStore/Capacity.antt =====
-- Insertion in src/pipeline/implementations/vector_store.rs: the capacity, and what is kept.
use isartor.Common.{
  ℕ, suc, ◌-◌, ◌≤◌, Text, true, false, none, some, List, [], ◌∷◌, ◌++◌, length, drop, retain, leb,
  length-append, ◌≡◌, arith, Bool-cases, inl, inr,
}
use isartor.VectorCache.Capacity.{length-drop}
use isartor.PipelineStore.{CacheEntry, InMemoryVectorStore, evict, insert, len}

module _ {F : Type 0} where
  evict-drop :
      (capacity : ℕ) (entries : List (CacheEntry F))
      → 1 ≤ capacity
      → evict capacity entries ≡ some (drop (suc (length entries) - capacity) entries)
  unfolding evict
  evict-drop capacity [] one =
      let room : leb capacity 0 ≡ false = ground arith in
      let nothing : 1 - capacity ≡ 0 = omega arith in rw (room, nothing)
  evict-drop capacity (e ∷ es) one = elim (Bool-cases (leb capacity (suc (length es)))) [
    | inr room ↦
        let nothing : suc (suc (length es)) - capacity ≡ 0 = ground arith in rw (room, nothing)
    | inl full ↦
        let more : suc (suc (length es)) - capacity ≡ suc (suc (length es) - capacity) =
          ground arith in
        rw (full, more, evict-drop capacity es one)
  ]

  evict_all :
      (capacity : ℕ) (entries : List (CacheEntry F)) → capacity ≡ 0 → evict capacity entries ≡ none
  unfolding evict
  evict_all capacity [] nothing = rw nothing
  evict_all capacity (e ∷ es) nothing =
      let full : leb capacity (suc (length es)) ≡ true = ground arith in
      rw (full, evict_all capacity es nothing)

module _ {F : Type 0} (store : InMemoryVectorStore F) (now : ℕ) (embedding : List F)
    (response : Text) where
  abbrev pub live : List (CacheEntry F)
  live = retain (λ e. leb (now - e.created_at) store.ttl) store.entries

  abbrev pub entry : CacheEntry F
  entry = record { embedding = embedding; response = response; created_at = now }

  -- The newest live entries that leave room for one more, and the new one.
  abbrev pub inserted : InMemoryVectorStore F
  inserted = record store {
    entries = drop (suc (length live) - store.max_capacity) live ++ entry ∷ [];
  }

  -- If the capacity is not zero, an insertion succeeds whatever the store holds: it keeps the newest
  -- live entries that leave room for one more, puts the new entry last, and the store then holds at
  -- most its capacity, also if it held more.
  pub len-insert :
      1 ≤ store.max_capacity
      → (insert store now embedding response ≡ some inserted) × (len inserted ≤ store.max_capacity)
  unfolding insert len
  len-insert one =
      let dropped = suc (length live) - store.max_capacity in
      (
        rw (evict-drop store.max_capacity live one, insert),
        omega (arith, length-append (drop dropped live) (entry ∷ []), length-drop dropped live),
      )

  -- With the capacity zero, every insertion panics.
  pub insert_panics : store.max_capacity ≡ 0 → insert store now embedding response ≡ none
  unfolding insert
  insert_panics none_fits = rw (evict_all store.max_capacity live none_fits, insert)
