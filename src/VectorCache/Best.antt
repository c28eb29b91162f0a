-- ===== src/VectorCache/Best.antt =====
-- What a search in src/vector_cache.rs finds.
use isartor.Common.{
  ℕ, Text, Bool, true, false, not, ◌&&◌, Option, none, some, List, [], ◌∷◌, ◌++◌, All, All-append,
  All-imp, ◌≡◌, refl, arith, Bool-cases, inl, inr, if◌then◌else◌,
}
use mathlib.Core.List.{append_assoc, append-nil}
use isartor.VectorCache.{
  Floats, CacheEntry, VectorCache, scope_eq, is_expired, cosine_similarity, better, consider, scan,
  search,
}

module _ {E F : Type 0} (x : Floats E F) (cache : VectorCache E F) (now : ℕ) (query : List E)
    (scope : Option Text) where
  open x use {ge, gt}

  -- An entry that may answer: it is live, of the same session, and similar enough.
  unfoldable pub matches : CacheEntry E → Bool
  matches e =
      not (is_expired cache.ttl now e)
      && (scope_eq e.session_cache_scope scope
          && ge (cosine_similarity x query e.embedding) cache.similarity_threshold)

  -- Of the entries seen, the one found matches, and no other that matches is more similar.
  unfoldable pub IsBest : List (CacheEntry E) → Option (CacheEntry E × F) → Type 0
  IsBest seen none = All (λ e. matches e ≡ false) seen
  IsBest seen (some (best, score)) =
      (before : List (CacheEntry E)) × (after : List (CacheEntry E)) × (seen
        ≡ before ++ best ∷ after)
      × (score ≡ cosine_similarity x query best.embedding)
      × (matches best ≡ true)
      × All (λ e. matches e ≡ true → gt (cosine_similarity x query e.embedding) score ≡ false) seen

  consider_rejects :
      (best : Option (CacheEntry E × F)) (e : CacheEntry E)
      → matches e ≡ false
      → consider x cache now query scope best e ≡ best
  unfolding consider matches
  consider_rejects best e h = ground arith

  consider_compares :
      (best : Option (CacheEntry E × F)) (e : CacheEntry E)
      → matches e ≡ true
      → consider x cache now query scope best e ≡ (
          if better x best (cosine_similarity x query e.embedding)
          then some (e, cosine_similarity x query e.embedding)
          else best)
  unfolding consider matches
  consider_compares best e h = ground arith

  module _ (gt_irrefl : (s : F) → gt s s ≡ false)
      (gt_above : (s t u : F) → gt u t ≡ true → gt s t ≡ false → gt s u ≡ false) where
    abbrev score_of : CacheEntry E → F
    score_of e = cosine_similarity x query e.embedding

    snoc_rejected :
        (seen : List (CacheEntry E)) (best : Option (CacheEntry E × F)) (e : CacheEntry E)
        → matches e ≡ false
        → IsBest seen best
        → IsBest (seen ++ e ∷ []) best
    unfolding IsBest
    snoc_rejected seen none e n h = All-append _ seen (e ∷ []) h (n, tt)
    snoc_rejected seen (some (best, s)) e n (before, after, split, eq, m, all) = (
      before,
      after ++ e ∷ [],
      rw split (append_assoc before (best ∷ after) (e ∷ [])),
      eq,
      m,
      All-append _ seen (e ∷ []) all ((λ k. cc), tt),
    )

    snoc_first :
        (seen : List (CacheEntry E)) (e : CacheEntry E)
        → matches e ≡ true
        → IsBest seen none
        → IsBest (seen ++ e ∷ []) (some (e, score_of e))
    unfolding IsBest
    snoc_first seen e m h = (
      seen,
      [],
      refl,
      refl,
      m,
      All-append _ seen (e ∷ []) (All-imp _ _ (λ f n k. cc) seen h)
          ((λ k. gt_irrefl (score_of e)), tt),
    )

    snoc_better :
        (seen : List (CacheEntry E)) (best : CacheEntry E) (s : F) (e : CacheEntry E)
        → matches e ≡ true
        → gt (score_of e) s ≡ true
        → IsBest seen (some (best, s))
        → IsBest (seen ++ e ∷ []) (some (e, score_of e))
    unfolding IsBest
    snoc_better seen best s e m g (before, after, split, eq, m', all) = (
      seen,
      [],
      refl,
      refl,
      m,
      All-append _ seen (e ∷ [])
          (All-imp _ _ (λ f n k. gt_above (score_of f) s (score_of e) g (n k)) seen all)
          ((λ k. gt_irrefl (score_of e)), tt),
    )

    snoc_kept :
        (seen : List (CacheEntry E)) (best : CacheEntry E) (s : F) (e : CacheEntry E)
        → gt (score_of e) s ≡ false
        → IsBest seen (some (best, s))
        → IsBest (seen ++ e ∷ []) (some (best, s))
    unfolding IsBest
    snoc_kept seen best s e g (before, after, split, eq, m', all) = (
      before,
      after ++ e ∷ [],
      rw split (append_assoc before (best ∷ after) (e ∷ [])),
      eq,
      m',
      All-append _ seen (e ∷ []) all ((λ k. g), tt),
    )

    consider-IsBest :
        (seen : List (CacheEntry E)) (best : Option (CacheEntry E × F)) (e : CacheEntry E)
        → IsBest seen best
        → IsBest (seen ++ e ∷ []) (consider x cache now query scope best e)
    unfolding better
    consider-IsBest seen best e h = elim (Bool-cases (matches e)) [
      | inr n ↦ rw (consider_rejects best e n) (snoc_rejected seen best e n h)
      | inl m ↦ rw (consider_compares best e m) (compared best m h)
    ]
      where
        compared :
            (best : Option (CacheEntry E × F))
            → matches e ≡ true
            → IsBest seen best
            → IsBest
                (seen ++ e ∷ [])
                (if better x best (score_of e) then some (e, score_of e) else best)
        compared none m h = snoc_first seen e m h
        compared (some (b, s)) m h = elim (Bool-cases (gt (score_of e) s)) [
          | inl g ↦ rw (g, better) (snoc_better seen b s e m g h)
          | inr g ↦ rw (g, better) (snoc_kept seen b s e g h)
        ]

    scan-IsBest :
        (seen rest : List (CacheEntry E)) (best : Option (CacheEntry E × F))
        → IsBest seen best
        → IsBest (seen ++ rest) (scan x cache now query scope best rest)
    unfolding scan
    scan-IsBest seen [] best h = rw (append-nil seen) h
    scan-IsBest seen (e ∷ rest) best h = rw (← append_assoc seen (e ∷ []) rest) (
        scan-IsBest (seen ++ e ∷ []) rest (consider x cache now query scope best e)
          (consider-IsBest seen best e h))

    -- A search answers exactly if some entry matches, one that is neither expired nor of another
    -- session nor below the threshold, and then with the response of an entry such that no other that
    -- matches is more similar to the query. The premises are what IEEE 754 says of `>`, NaN included:
    -- no number is above itself, and what is not above `t` is not above any `u` that is.
    pub search-IsBest :
        (best : Option (CacheEntry E × F)) × IsBest cache.entries best
        × (search x cache now query scope
            ≡ elim best [ none ↦ none | some (entry, score) ↦ some entry.response ])
    unfolding search IsBest
    search-IsBest = (
      scan x cache now query scope none cache.entries,
      scan-IsBest [] cache.entries none tt,
      refl,
    )
