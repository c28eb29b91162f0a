-- ===== src/Json/Tree.antt =====
-- A type of JSON trees that has the operations and keeps the laws: objects are fields in order.
use isartor.Json.{Json, JsonLaws}
use isartor.Common.{
  true, codes, ◌++◌, decimal, List, [], ◌∷◌, ap, Text, text_eq, text_eq_iff, text_eq_self, Bool,
  false, if◌then◌else◌, Option, none, some, ◌≡◌, refl, arith,
}

mutual
  pub data Value : Type 0 where
    null : Value
    boolean : Bool → Value
    number : Text → Value
    string : Text → Value
    array : Values → Value
    object : Fields → Value

  pub data Values : Type 0 where
    nil : Values
    cons : Value → Values → Values

  pub data Fields : Type 0 where
    end : Fields
    field : Text → Value → Fields → Fields

unfoldable pub lookup : Fields → Text → Option Value
lookup end key = none
lookup (field k v fields) key = if text_eq k key then some v else lookup fields key

unfoldable pub assign : Fields → Text → Value → Fields
assign end key value = field key value end
assign (field k v fields) key value =
    if text_eq k key then field k value fields else field k v (assign fields key value)

-- `Value::get` with a name.
unfoldable pub get : Value → Text → Option Value
get (object fields) key = lookup fields key
get _ key = none

-- `value[key] = v`, which the program does only to objects.
unfoldable pub set_field : Value → Text → Value → Value
set_field (object fields) key value = object (assign fields key value)
set_field other key value = other

unfoldable pub as_str : Value → Option Text
as_str (string s) = some s
as_str _ = none

lookup-assign_other :
    (fields : Fields) (key j : Text) (value : Value)
    → text_eq key j ≡ false
    → lookup (assign fields key value) j ≡ lookup fields j
unfolding lookup assign
lookup-assign_other end key j value n = rw n
lookup-assign_other (field k v fields) key j value n = ground (
  arith,
  text_eq_iff k key,
  text_eq_iff k j,
  text_eq_iff key j,
  lookup-assign_other fields key j value,
)

lookup-assign_same :
    (fields : Fields) (key : Text) (value : Value)
    → lookup (assign fields key value) key ≡ some value
unfolding lookup assign
lookup-assign_same end key value = rw (text_eq_self key)
lookup-assign_same (field k v fields) key value =
    ground (arith, lookup-assign_same fields key value)

pub get-set_field_other :
    (d : Value) (key j : Text) (value : Value)
    → text_eq key j ≡ false
    → get (set_field d key value) j ≡ get d j
unfolding get set_field
get-set_field_other (object fields) key j value n = lookup-assign_other fields key j value n
get-set_field_other null key j value n = refl
get-set_field_other (boolean b) key j value n = refl
get-set_field_other (number t) key j value n = refl
get-set_field_other (string t) key j value n = refl
get-set_field_other (array vs) key j value n = refl

unfoldable pub is_object : Value → Bool
is_object (object fields) = true
is_object _ = false

unfoldable pub is_null : Value → Bool
is_null null = true
is_null _ = false

pub get-set_field_same :
    (d : Value) (key : Text) (value : Value)
    → is_object d ≡ true
    → get (set_field d key value) key ≡ some value
unfolding get set_field is_object
get-set_field_same (object fields) key value h = lookup-assign_same fields key value
get-set_field_same null key value h = absurd cc
get-set_field_same (boolean b) key value h = absurd cc
get-set_field_same (number t) key value h = absurd cc
get-set_field_same (string t) key value h = absurd cc
get-set_field_same (array vs) key value h = absurd cc

get-is_object :
    (d : Value) (key : Text) (value : Value) → get d key ≡ some value → is_object d ≡ true
unfolding get is_object
get-is_object (object fields) key value h = refl
get-is_object null key value h = absurd cc
get-is_object (boolean b) key value h = absurd cc
get-is_object (number t) key value h = absurd cc
get-is_object (string t) key value h = absurd cc
get-is_object (array vs) key value h = absurd cc

is_object-set_field :
    (d : Value) (key : Text) (value : Value) → is_object (set_field d key value) ≡ is_object d
unfolding set_field is_object
is_object-set_field (object fields) key value = refl
is_object-set_field null key value = refl
is_object-set_field (boolean b) key value = refl
is_object-set_field (number t) key value = refl
is_object-set_field (string t) key value = refl
is_object-set_field (array vs) key value = refl

-- A print with no escapes in strings, and a comma behind each element.
unfoldable mutual
  pub to_string : Value → Text
  to_string null = codes "null"
  to_string (boolean b) = if b then codes "true" else codes "false"
  to_string (number t) = t
  to_string (string s) = codes "\"" ++ (s ++ codes "\"")
  to_string (array vs) = codes "[" ++ (print_values vs ++ codes "]")
  to_string (object fs) = codes "{" ++ (print_fields fs ++ codes "}")

  pub print_values : Values → Text
  print_values nil = []
  print_values (cons v vs) = to_string v ++ (codes "," ++ print_values vs)

  pub print_fields : Fields → Text
  print_fields end = []
  print_fields (field k v fs) =
      codes "\"" ++ (k ++ (codes "\":" ++ (to_string v ++ (codes "," ++ print_fields fs))))

unfoldable pub to_list : Values → List Value
to_list nil = []
to_list (cons v vs) = v ∷ to_list vs

unfoldable pub from_list : List Value → Values
from_list [] = nil
from_list (v ∷ vs) = cons v (from_list vs)

unfoldable pub fields : List (Text × Value) → Fields
fields [] = end
fields ((k, v) ∷ rest) = field k v (fields rest)

unfoldable pub as_bool : Value → Option Bool
as_bool (boolean b) = some b
as_bool _ = none

unfoldable pub elements : Value → Option (List Value)
elements (array vs) = some (to_list vs)
elements _ = none

to_list-from_list : (vs : List Value) → to_list (from_list vs) ≡ vs
unfolding to_list from_list
to_list-from_list [] = refl
to_list-from_list (v ∷ vs) = ap (λ ws. v ∷ ws) (to_list-from_list vs)

abbrev pub tree : Json Value
tree = record {
  null = null;
  string = string;
  number = λ n. number (decimal n);
  boolean = boolean;
  array = λ vs. array (from_list vs);
  object = λ fs. object (fields fs);
  is_null = is_null;
  is_object = is_object;
  as_str = as_str;
  as_array = elements;
  as_bool = as_bool;
  get = get;
  set_field = set_field;
  to_string = to_string;
}

pub tree-JsonLaws : JsonLaws tree
unfolding elements as_str
tree-JsonLaws = record {
  get-set_other = get-set_field_other;
  get-set_same = get-set_field_same;
  get-object = get-is_object;
  object-set = is_object-set_field;
  as_str-string = λ t. refl;
  as_array-array = λ vs. ap some (to_list-from_list vs);
}
