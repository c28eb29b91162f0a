-- ===== src/RequestLog/Redaction.antt =====
-- No credential is left in a redacted body (src/core/request_logger.rs).
use isartor.Common.{true, false, Bool-cases, ◌≡◌, ◌⊎◌, inl, inr, refl}
use isartor.Json.Tree.{
  Value, Values, Fields, null, boolean, number, string, array, object, nil, cons, end, field,
}
use isartor.RequestLog.{
  redacted, should_redact_body_key, redact_json_value, redact_values, redact_fields,
}

-- At every depth, the field of a credential holds the mark.
unfoldable mutual
  pub Clean : Value → Type 0
  Clean null = Unit
  Clean (boolean b) = Unit
  Clean (number t) = Unit
  Clean (string s) = Unit
  Clean (array items) = CleanValues items
  Clean (object map) = CleanFields map

  pub CleanValues : Values → Type 0
  CleanValues nil = Unit
  CleanValues (cons item items) = Clean item × CleanValues items

  pub CleanFields : Fields → Type 0
  CleanFields end = Unit
  CleanFields (field key nested map) =
      (((should_redact_body_key key ≡ true) × (nested ≡ string redacted))
        ⊎ ((should_redact_body_key key ≡ false) × Clean nested))
      × CleanFields map

mutual
  unfolding redact_json_value Clean

  value-Clean : (value : Value) → Clean (redact_json_value value)
  value-Clean null = tt
  value-Clean (boolean b) = tt
  value-Clean (number t) = tt
  value-Clean (string s) = tt
  value-Clean (array items) = redact_values-Clean items
  value-Clean (object map) = redact_fields-Clean map

  redact_values-Clean : (items : Values) → CleanValues (redact_values items)
  redact_values-Clean nil = tt
  redact_values-Clean (cons item items) = (value-Clean item, redact_values-Clean items)

  redact_fields-Clean : (map : Fields) → CleanFields (redact_fields map)
  redact_fields-Clean end = tt
  redact_fields-Clean (field key nested map) = (
    elim (Bool-cases (should_redact_body_key key)) [
      | inl h ↦ inl (h, rw h refl)
      | inr h ↦ inr (h, rw h (value-Clean nested))
    ],
    redact_fields-Clean map,
  )

-- After the redaction of a body, the field of a credential holds the mark `[REDACTED]` at every depth, in
-- objects and in arrays.
pub redact_json_value-Clean : (value : Value) → Clean (redact_json_value value)
redact_json_value-Clean value = value-Clean value
