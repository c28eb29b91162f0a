-- ===== src/PipelineStore/Found.antt =====
-- Search in src/pipeline/implementations/vector_store.rs: what is found.
use isartor.Common.{
  ℕ, ◌-◌, Text, true, false, Bool-cases, ltb, Option, none, some, List, [], ◌∷◌, ◌≡◌, inl, inr, ◌⊎◌,
  refl, ◌∙◌, subst,
}
use isartor.PipelineStore.{
  Doubles, CacheEntry, InMemoryVectorStore, cosine_similarity, consider, scan, search,
}

module _ {F : Type 0} (x : Doubles F) (store : InMemoryVectorStore F) (now : ℕ) (query : List F)
    (threshold : F) where
  -- An entry of the list that is not expired, with this response and this score, which reaches the
  -- threshold.
  pub data Hit (response : Text) (score : F) : List (CacheEntry F) → Type 0 where
    here :
        (entry : CacheEntry F) (rest : List (CacheEntry F))
        → ltb store.ttl (now - entry.created_at) ≡ false
        → entry.response ≡ response
        → cosine_similarity x query entry.embedding ≡ score
        → x.ge score threshold ≡ true
        → Hit response score (entry ∷ rest)
    later :
        (entry : CacheEntry F) (rest : List (CacheEntry F))
        → Hit response score rest
        → Hit response score (entry ∷ rest)

  -- A round leaves the best so far, or takes an entry that is a hit.
  consider-Hit :
      (best : F × Option Text) (e : CacheEntry F) (rest : List (CacheEntry F))
      → (consider x store now query threshold best e ≡ best)
        ⊎ ((consider x store now query threshold best e
              ≡ (cosine_similarity x query e.embedding, some e.response))
            × Hit e.response (cosine_similarity x query e.embedding) (e ∷ rest))
  unfolding consider
  consider-Hit (s, r) e rest = elim (Bool-cases (ltb store.ttl (now - e.created_at))) [
    | inl old ↦ inl (rw old)
    | inr live ↦ elim (Bool-cases (x.ge (cosine_similarity x query e.embedding) threshold)) [
      | inr low ↦ inl (rw (live, low))
      | inl high ↦ elim (Bool-cases (x.gt (cosine_similarity x query e.embedding) s)) [
        | inr worse ↦ inl (rw (live, high, worse))
        | inl more ↦ inr (rw (live, high, more), here e rest live refl refl high)
      ]
    ]
  ]

  scan-Hit :
      (best : F × Option Text) (entries : List (CacheEntry F))
      → (scan x store now query threshold best entries ≡ best)
        ⊎ ((r : Text) × (s : F) × (scan x store now query threshold best entries ≡ (s, some r))
            × Hit r s entries)
  unfolding scan
  scan-Hit best [] = inl refl
  scan-Hit best (e ∷ es) = elim (scan-Hit (consider x store now query threshold best e) es) [
    | inr (r, s, p, hit) ↦ inr (r, s, p, later e es hit)
    | inl p ↦ elim (consider-Hit best e es) [
      | inl q ↦ inl (p ∙ q)
      | inr (q, hit) ↦ inr (e.response, cosine_similarity x query e.embedding, p ∙ q, hit)
    ]
  ]

  -- What a search returns is the response of an entry of the store that is not expired, with its
  -- similarity to the query, which reaches the threshold.
  pub search-Hit :
      (r : Text) (s : F) → search x store now query threshold ≡ some (r, s) → Hit r s store.entries
  unfolding search
  search-Hit r s found = elim (scan-Hit (x.zero_score, none) store.entries) [
    | inl p ↦ let nothing : search x store now query threshold ≡ none = rw (p, search) in cc
    | inr (r', s', p, hit) ↦
        let one : search x store now query threshold ≡ some (r', s') = rw (p, search) in
        let same_r : r' ≡ r = cc in
        let same_s : s' ≡ s = cc in
        subst (λ t. Hit t s store.entries) same_r (subst (λ t. Hit r' t store.entries) same_s hit)
  ]
