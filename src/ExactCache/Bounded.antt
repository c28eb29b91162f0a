-- ===== src/ExactCache/Bounded.antt =====
-- A bounded cache with the operations of the lru crate, the most recent entry first.
use isartor.Common.{
  ℕ, suc, Text, text_eq, text_eq_self, not, if◌then◌else◌, Option, none, some, List, [], ◌∷◌,
  retain, take, refl,
}
use isartor.ExactCache.{LruCache, LruCacheLaws}

abbrev pub Entries : Type 0
Entries = List (Text × Text)

unfoldable pub find : Entries → Text → Option Text
find [] key = none
find ((k, v) ∷ rest) key = if text_eq k key then some v else find rest key

abbrev pub without : Entries → Text → Entries
without entries key = retain (λ e. not (text_eq e.0 key)) entries

abbrev pub touch : Entries → Text → Option Text → Option Text × Entries
touch entries key none = (none, entries)
touch entries key (some v) = (some v, (key, v) ∷ without entries key)

-- A cache of `capacity + 1` entries.
abbrev pub bounded : ℕ → LruCache Entries
bounded capacity = record {
  get = λ entries key. touch entries key (find entries key);
  put = λ entries key value. take (suc capacity) ((key, value) ∷ without entries key);
}

pub bounded-LruCacheLaws : (capacity : ℕ) → LruCacheLaws (bounded capacity)
unfolding find
bounded-LruCacheLaws capacity = record { get-put = λ c key value. rw (text_eq_self key, find) refl }
