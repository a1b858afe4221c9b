-- ===== src/Js/Json.antt =====
-- Values that `JSON.parse` returns. An object's keys are distinct, in the order of `Object.keys`.
use helio.Prelude.{Bool, true, false, not, Option, none, some, List, [], ◌∷◌, if◌then◌else◌}
use helio.Js.Text.{Text, text_eq}
use helio.Js.Number.{Number, dyadic, infinity, neg_infinity, nan, equals}

mutual
  pub data Json : Type 0 where
    null : Json
    bool : Bool → Json
    number : Number → Json
    string : Text → Json
    array : Elements → Json
    object : Fields → Json

  pub data Elements : Type 0 where
    nil : Elements
    cons : Json → Elements → Elements

  pub data Fields : Type 0 where
    end : Fields
    field : Text → Json → Fields → Fields

abbrev pub elements : Elements → List Json
elements nil = []
elements (cons v vs) = v ∷ elements vs

abbrev pub of_list : List Json → Elements
of_list [] = nil
of_list (v ∷ vs) = cons v (of_list vs)

-- `Object.keys(value)`
abbrev pub keys : Fields → List Text
keys end = []
keys (field k v fs) = k ∷ keys fs

unfoldable pub find_field : Text → Fields → Option Json
find_field key end = none
find_field key (field k v fs) = if text_eq k key then some v else find_field key fs

-- `value.key`; `none` is undefined. What has no such property gives undefined, and a read of null,
-- which throws, stands only behind a test in the program.
abbrev pub get_field : Text → Json → Option Json
get_field key (object fs) = find_field key fs
get_field key null = none
get_field key (bool b) = none
get_field key (number x) = none
get_field key (string s) = none
get_field key (array vs) = none

-- `Boolean(value)`
abbrev pub truthy : Json → Bool
truthy null = false
truthy (bool b) = b
truthy (number nan) = false
truthy (number infinity) = true
truthy (number neg_infinity) = true
truthy (number (dyadic m k)) = not (equals (dyadic m k) 0)
truthy (string []) = false
truthy (string (c ∷ s)) = true
truthy (array vs) = true
truthy (object fs) = true

-- `typeof value === 'object' && value !== null`
abbrev pub is_record : Json → Bool
is_record (array vs) = true
is_record (object fs) = true
is_record null = false
is_record (bool b) = false
is_record (number x) = false
is_record (string s) = false

-- `Array.isArray(value) ? value : undefined`
abbrev pub as_array : Json → Option (List Json)
as_array (array vs) = some (elements vs)
as_array null = none
as_array (bool b) = none
as_array (number x) = none
as_array (string s) = none
as_array (object fs) = none

-- `typeof value === 'string'`, `'number'` and `'boolean'`, with the value.
abbrev pub as_string : Option Json → Option Text
as_string (some (string s)) = some s
as_string (some null) = none
as_string (some (bool b)) = none
as_string (some (number x)) = none
as_string (some (array vs)) = none
as_string (some (object fs)) = none
as_string none = none

abbrev pub as_number : Option Json → Option Number
as_number (some (number x)) = some x
as_number (some null) = none
as_number (some (bool b)) = none
as_number (some (string s)) = none
as_number (some (array vs)) = none
as_number (some (object fs)) = none
as_number none = none

abbrev pub as_bool : Option Json → Option Bool
as_bool (some (bool b)) = some b
as_bool (some null) = none
as_bool (some (number x)) = none
as_bool (some (string s)) = none
as_bool (some (array vs)) = none
as_bool (some (object fs)) = none
as_bool none = none
