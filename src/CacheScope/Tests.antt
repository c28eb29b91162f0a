-- ===== src/CacheScope/Tests.antt =====
-- Runs of the key functions, and instances of what is proved of them.
use isartor.Common.{
  ℕ, Text, codes, text_eq, if◌then◌else◌, Option, none, some, List, [], ◌∷◌, ◌++◌, ◌≡◌, ◌↔◌, refl,
}
use isartor.Json.Tree.{Value, string, object, field, end, get, lookup, as_str, tree}
use isartor.CacheScope.{
  normalize_session_identifier, build_exact_cache_input, derive_session_cache_scope,
  extract_session_identifier_from_headers, extract_session_identifier_from_body,
  extract_session_cache_scope,
}
use isartor.CacheScope.Keys.{build_exact_cache_input_separates, build_exact_cache_input_collides}

abbrev objects : Value → Option Value
objects (object fs) = some (object fs)
objects _ = none

abbrev from_slice : List ℕ → Option Value
from_slice [] = none
from_slice (b ∷ bytes) = some (
    object (
      field (codes "metadata")
        (object (field (codes "conversation_id") (string (codes " conv-456 ")) end)) end))

abbrev no_header : Text → Option Text
no_header name = none

abbrev thread_header : Text → Option Text
thread_header name = if text_eq name (codes "x-thread-id") then some (codes "t1") else none

program : Unit {0}
unfolding normalize_session_identifier extract_session_identifier_from_headers
    extract_session_identifier_from_body extract_session_cache_scope derive_session_cache_scope get
    lookup as_str build_exact_cache_input
program = tt

body_runs :
    extract_session_cache_scope (λ t. t) (λ b. b) tree objects from_slice no_header (1 ∷ [])
    ≡ some (codes "conv-456")
unfolding program
body_runs = refl

header_runs :
    extract_session_cache_scope (λ t. t) (λ b. b) tree objects from_slice thread_header (1 ∷ [])
    ≡ some (codes "t1")
unfolding program
header_runs = refl

blank_runs : normalize_session_identifier (codes "   ") ≡ none
unfolding program
blank_runs = refl

build_exact_cache_input_separates_example : (codes "ab" ≡ codes "ab") × (codes "p" ≡ codes "p")
build_exact_cache_input_separates_example =
    build_exact_cache_input_separates (codes "native") (codes "ab") (codes "ab") (codes "p")
      (codes "p") refl refl

build_exact_cache_input_collides_example :
    (build_exact_cache_input (codes "native") (codes "session:ab|p") none
      ≡ build_exact_cache_input (codes "native") (codes "p") (some (codes "ab")))
    ↔ (codes "session:ab|p" ≡ codes "session:" ++ (codes "ab" ++ (codes "|" ++ codes "p")))
build_exact_cache_input_collides_example =
    build_exact_cache_input_collides (codes "native") (codes "ab") (codes "session:ab|p")
      (codes "p")

meets :
    build_exact_cache_input (codes "native") (codes "session:ab|p") none
    ≡ build_exact_cache_input (codes "native") (codes "p") (some (codes "ab"))
unfolding program
meets = refl
