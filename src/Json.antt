-- ===== src/Json.antt =====
-- What the program uses of `serde_json::Value`, as an interface: the constructors that it applies, the
-- accessors, the lookup of a field, and the assignment of a field; and what it relies on.
pub mod Tree
use isartor.Common.{ℕ, Text, text_eq, Bool, true, false, Option, some, List, ◌≡◌}

pub record Json (V : Type 0) : Type 0 where
  pub null : V
  pub string : Text → V
  pub number : ℕ → V
  pub boolean : Bool → V
  pub array : List V → V
  pub object : List (Text × V) → V
  pub is_null : V → Bool
  pub is_object : V → Bool
  pub as_str : V → Option Text
  pub as_array : V → Option (List V)
  pub as_bool : V → Option Bool
  pub get : V → Text → Option V
  pub set_field : V → Text → V → V
  pub to_string : V → Text

-- Only objects have fields, and an assignment to an object is seen at its key and nowhere else; an
-- array has its elements, and a string its text.
pub record JsonLaws {V : Type 0} (json : Json V) : Type 0 where
  pub get-set_other :
      (d : V) (key other : Text) (value : V)
      → text_eq key other ≡ false
      → json.get (json.set_field d key value) other ≡ json.get d other
  pub get-set_same :
      (d : V) (key : Text) (value : V)
      → json.is_object d ≡ true
      → json.get (json.set_field d key value) key ≡ some value
  pub get-object :
      (d : V) (key : Text) (value : V) → json.get d key ≡ some value → json.is_object d ≡ true
  pub object-set :
      (d : V) (key : Text) (value : V)
      → json.is_object (json.set_field d key value) ≡ json.is_object d
  pub as_str-string : (t : Text) → json.as_str (json.string t) ≡ some t
  pub as_array-array : (vs : List V) → json.as_array (json.array vs) ≡ some vs
