-- ===== src/Prompt/Model.antt =====
-- What the override of the model changes in a body (src/core/prompt.rs).
use isartor.Common.{ℕ, Text, codes, true, false, Option, none, some, List, ◌≡◌, refl, map_or}
use isartor.Json.{Json, JsonLaws}
use isartor.Prompt.{
  with_model, value_has_tooling, extract_request_model, override_request_model, has_tooling,
}

module _ {V : Type 0} (json : Json V) (laws : JsonLaws json) where
  open json use {get, set_field, is_object, as_str, as_array, string}
  open laws use {get-set_other, get-set_same, as_str-string}

  value_has_tooling-set_model :
      (v : V) (model : V)
      → value_has_tooling json (set_field v (codes "model") model) ≡ value_has_tooling json v
  value_has_tooling-set_model v model =
      let a = get-set_other v (codes "model") (codes "tools") model refl in
      let b = get-set_other v (codes "model") (codes "tool_choice") model refl in
      let c = get-set_other v (codes "model") (codes "functions") model refl in
      let d = get-set_other v (codes "model") (codes "function_call") model refl in
      let e = get-set_other v (codes "model") (codes "messages") model refl in
      rw (a, b, c, d, e) refl

  module _ (from_slice : List ℕ → Option V) (to_vec : V → Option (List ℕ)) where
    override_request_model-object :
        (body bytes : List ℕ) (v : V) (model : Text)
        → from_slice body ≡ some v
        → is_object v ≡ true
        → to_vec (set_field v (codes "model") (string model)) ≡ some bytes
        → override_request_model json from_slice to_vec body model ≡ bytes
    unfolding override_request_model
    override_request_model-object body bytes v model parsed object printed =
        rw (parsed, object, printed, override_request_model) refl

    -- The override of the model of a body that is a JSON object is read back as its model, and leaves
    -- the body's answer to whether it uses tools as it was. The premises: the changed object is
    -- printed, and its print parses to it.
    pub extract_request_model-override_request_model :
        (body bytes : List ℕ) (v : V) (model : Text)
        → from_slice body ≡ some v
        → is_object v ≡ true
        → to_vec (set_field v (codes "model") (string model)) ≡ some bytes
        → from_slice bytes ≡ some (set_field v (codes "model") (string model))
        → (extract_request_model json from_slice
              (override_request_model json from_slice to_vec body model)
            ≡ some model)
          × (has_tooling json from_slice (override_request_model json from_slice to_vec body model)
              ≡ has_tooling json from_slice body)
    unfolding extract_request_model has_tooling
    extract_request_model-override_request_model body bytes v model parsed object printed back =
        let same = override_request_model-object body bytes v model parsed object printed in
        let found = get-set_same v (codes "model") (string model) object in
        let text = as_str-string model in
        let tools = value_has_tooling-set_model v (string model) in
        (
          rw (same, extract_request_model, back, found, text) refl,
          rw (same, has_tooling, back, parsed, tools) refl,
        )

    -- A body that is no JSON, or that is no object, is left as it is.
    pub override_request_model-other :
        (body : List ℕ) (model : Text)
        → map_or false is_object (from_slice body) ≡ false
        → override_request_model json from_slice to_vec body model ≡ body
    unfolding override_request_model
    override_request_model-other body model h = go (from_slice body) h
      where
        go :
            (parsed : Option V)
            → map_or false is_object parsed ≡ false
            → map_or body (with_model json to_vec body model) parsed ≡ body
        go none k = refl
        go (some v) k = rw k refl
