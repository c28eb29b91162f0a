-- ===== src/Compression/Cache.antt =====
-- src/compression/cache.rs: the hash of the instructions that each session sent last, and for how many
-- turns in a row. The map is an association list in the order in which the hash map would be iterated,
-- which is arbitrary: nothing proved here fixes where an entry stands. The turn is a `u32`.
-- SHA-256 and the hexadecimal encoding are arguments.
pub mod History
use isartor.Common.{
  ℕ, ◌+◌, ◌/◌, ◌%◌, ◌^◌, Text, text_eq, Bool, true, false, not, if◌then◌else◌, Option, none, some,
  List, [], ◌∷◌, map, length, take, retain, foldl, ltb,
}

abbrev pub u32_mod : ℕ
u32_mod = 2 ^ 32

abbrev pub InstructionCache : Type 0
InstructionCache = List (Text × Text × ℕ)

abbrev pub new : InstructionCache
new = []

unfoldable pub get : InstructionCache → Text → Option (Text × ℕ)
get [] scope = none
get ((k, h, turn) ∷ rest) scope = if text_eq k scope then some (h, turn) else get rest scope

-- A write through `get_mut`, or `insert` of a new key.
unfoldable pub set : InstructionCache → Text → Text → ℕ → InstructionCache
set [] scope hash turn = (scope, hash, turn) ∷ []
set ((k, h, t) ∷ rest) scope hash turn =
    if text_eq k scope then (k, hash, turn) ∷ rest else (k, h, t) ∷ set rest scope hash turn

unfoldable pub check_and_update : InstructionCache → Text → Text → InstructionCache × Option ℕ
check_and_update map' scope hash = elim (get map' scope) [
  | some (prev_hash, turn) ↦
      let next = (turn + 1) % u32_mod in
      if text_eq prev_hash hash
      then (set map' scope hash next, some next)
      else (set map' scope hash 1, none)
  | none ↦ (set map' scope hash 1, none)
]

unfoldable pub remove : InstructionCache → Text → InstructionCache
remove m scope = retain (λ e. not (text_eq e.0 scope)) m

unfoldable pub evict_if_needed : InstructionCache → ℕ → InstructionCache
unfolding remove
evict_if_needed m max_entries =
    if ltb max_entries (length m)
    then foldl remove m (take (length m / 2) (map (λ e. e.0) m))
    else m

module _ (sha256 : Text → List ℕ) (hex_encode : List ℕ → Text) where
  unfoldable pub hash_instructions : Text → Text
  hash_instructions text = hex_encode (take 8 (sha256 text))
