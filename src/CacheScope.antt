-- ===== src/CacheScope.antt =====
-- src/core/cache_scope.rs: the session that a request belongs to, and the keys of the exact cache.
-- `header` looks a header up that is valid text; JSON values and their parser, SHA-256 and the
-- hexadecimal encoding are arguments.
pub mod Keys
mod Tests
use isartor.Common.{
  ℕ, Text, codes, byte_len, trim, is_empty, Bool, true, ◌||◌, ltb, if◌then◌else◌, Option, none,
  some, List, [], ◌∷◌, ◌++◌, or_else, and_then,
}
use isartor.Json.{Json}

abbrev pub session_header_names : List Text
session_header_names =
    codes "x-isartor-session-id"
    ∷ codes "x-thread-id"
    ∷ codes "x-session-id"
    ∷ codes "x-conversation-id"
    ∷ []

abbrev pub session_body_field_names : List Text
session_body_field_names = codes "session_id" ∷ codes "thread_id" ∷ codes "conversation_id" ∷ []

abbrev pub max_session_identifier_len : ℕ
max_session_identifier_len = 512

unfoldable pub normalize_session_identifier : Text → Option Text
normalize_session_identifier value =
    let trimmed = trim value in
    if is_empty trimmed || ltb max_session_identifier_len (byte_len trimmed)
    then none
    else some trimmed

-- `find_map` over names.
abbrev pub find_map : (Text → Option Text) → List Text → Option Text
find_map f [] = none
find_map f (name ∷ names) =
    let rest = find_map f names in elim (f name) [ some v ↦ some v | none ↦ rest ]

unfoldable pub build_exact_cache_input : Text → Text → Option Text → Text
build_exact_cache_input cache_namespace cache_key_material (some scope) =
    cache_namespace ++ (codes "|session:" ++ (scope ++ (codes "|" ++ cache_key_material)))
build_exact_cache_input cache_namespace cache_key_material none =
    cache_namespace ++ (codes "|" ++ cache_key_material)

unfoldable pub namespaced_semantic_cache_input : Text → Text → Text
namespaced_semantic_cache_input cache_namespace semantic_prompt =
    cache_namespace ++ (codes "|" ++ semantic_prompt)

unfoldable pub extract_session_identifier_from_headers : (Text → Option Text) → Option Text
extract_session_identifier_from_headers header =
    find_map (λ name. and_then (header name) normalize_session_identifier) session_header_names

module _ {V : Type 0} (json : Json V) (as_object : V → Option V)
    (from_slice : List ℕ → Option V) where
  open json use {get, as_str}

  -- `value.get(*field).and_then(Value::as_str)`
  abbrev pub body_field : V → Text → Option Text
  body_field value name = and_then (get value name) as_str

  unfoldable pub extract_session_identifier_from_body : List ℕ → Option Text
  extract_session_identifier_from_body body = and_then (from_slice body) (λ value.
      or_else
        (and_then (find_map (body_field value) session_body_field_names)
          normalize_session_identifier)
        (and_then (get value (codes "metadata")) (λ m. and_then (as_object m) (λ metadata.
          and_then (find_map (body_field metadata) session_body_field_names)
            normalize_session_identifier))))

module _ (sha256 : Text → List ℕ) (hex_encode : List ℕ → Text) where
  unfoldable pub derive_session_cache_scope : Text → Option Text
  derive_session_cache_scope identifier = elim (normalize_session_identifier identifier) [
    | none ↦ none
    | some normalized ↦ some (hex_encode (sha256 normalized))
  ]

  unfoldable pub build_exact_cache_key : Text → Text → Option Text → Text
  build_exact_cache_key cache_namespace cache_key_material session_cache_scope =
      hex_encode
        (sha256 (build_exact_cache_input cache_namespace cache_key_material session_cache_scope))

  module _ {V : Type 0} (json : Json V) (as_object : V → Option V)
      (from_slice : List ℕ → Option V) where
    unfoldable pub extract_session_cache_scope : (Text → Option Text) → List ℕ → Option Text
    extract_session_cache_scope header body =
        and_then
          (or_else (extract_session_identifier_from_headers header)
            (extract_session_identifier_from_body json as_object from_slice body))
          derive_session_cache_scope
