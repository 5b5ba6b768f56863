-- ===== src/Json.antt =====
-- Absolute-Runtime/src/json.cpp: the functions of the C interface behind std/json.abs. A null
-- handle is `none`. A `const char*` is the list of the bytes that it points to, of which a C string
-- is what stands before the first byte 0; keys are given without the byte 0.
pub mod Text
pub mod Numbers
pub mod Tree
pub mod Parser
pub mod Printer
pub mod Progress
pub mod Fuel
pub mod Termination
pub mod Strings
pub mod Tokens
pub mod Readable
pub mod Pieces
pub mod Loops
pub mod CStrings
pub mod RoundTrip
pub mod Objects
pub mod Members
mod Examples
use absolute.Prelude.{
  ℕ, zero, ◌||◌, suc, ◌+◌, ◌*◌, ◌%◌, ◌^◌, Bool, true, false, List, [], ◌∷◌, Option, none, some,
  Result, ok, err, ◌>>=◌, ◌==◌, if◌then◌else◌, length,
}
use absolute.Prelude.Int.{ℤ, pos, negsuc}
use Text.{JsonError, empty_text, c_string}
use Numbers.{Floats}
use Tree.{
  Value, null, bool, number, string, array, object, Values, nil, cons, Fields, end, field, key_less,
  insert,
}
use Parser.{parse_value, null_text}
use Printer.{stringify_value}

-- Two units of fuel for each byte, and one.
abbrev pub fuel_for : List ℕ → ℕ
fuel_for text = 2 * length text + 1

module _ (floats : Floats) where
  open floats use {Double, zero_double}

  -- `absolute_json_parse` of a C string: what stands behind the value is not looked at.
  unfoldable pub parse_text : List ℕ → Result JsonError (Value Double)
  parse_text [] = err empty_text
  parse_text (c ∷ cs) = do r ← parse_value floats (fuel_for (c ∷ cs)) (c ∷ cs); ok r.0

  unfoldable pub parse : Option (List ℕ) → Result JsonError (Value Double)
  unfolding parse_text c_string
  parse none = err empty_text
  parse (some text) = parse_text (c_string text)

  -- `absolute_json_stringify`; what `c_str` gives is a C string.
  unfoldable pub stringify : Bool → Option (Value Double) → List ℕ
  unfolding c_string
  stringify pretty none = null_text
  stringify pretty (some v) = c_string (stringify_value floats pretty v)

  -- `absolute_json_as_number`
  unfoldable pub as_number : Option (Value Double) → Double
  as_number (some (number d)) = d
  as_number _ = zero_double

-- `JsonNodeType`, by its numbers.
unfoldable pub get_type : {D : Type 0} → Option (Value D) → ℕ
get_type none = 0
get_type (some null) = 0
get_type (some (bool b)) = 1
get_type (some (number d)) = 2
get_type (some (string s)) = 3
get_type (some (array vs)) = 4
get_type (some (object fs)) = 5

unfoldable pub as_bool : {D : Type 0} → Option (Value D) → ℕ
as_bool (some (bool b)) = if b then 1 else 0
as_bool _ = 0

unfoldable pub as_string : {D : Type 0} → Option (Value D) → List ℕ
unfolding c_string
as_string (some (string s)) = c_string s
as_string _ = []

unfoldable pub length_values : {D : Type 0} → Values D → ℕ
length_values nil = 0
length_values (cons v vs) = suc (length_values vs)

unfoldable pub length_fields : {D : Type 0} → Fields D → ℕ
length_fields end = 0
length_fields (field k v fs) = suc (length_fields fs)

-- `absolute_json_size`, with its cast to an `int32_t` as a bit pattern.
unfoldable pub size : {D : Type 0} → Option (Value D) → ℕ
unfolding length_values length_fields
size (some (array vs)) = length_values vs % 2 ^ 32
size (some (object fs)) = length_fields fs % 2 ^ 32
size _ = 0

unfoldable pub nth : {D : Type 0} → Values D → ℕ → Option (Value D)
nth nil i = none
nth (cons v vs) zero = some v
nth (cons v vs) (suc i) = nth vs i

-- `absolute_json_get_array_elem`, for arrays of fewer than 2 ^ 31 elements.
unfoldable pub get_array_elem : {D : Type 0} → Option (Value D) → ℤ → Option (Value D)
unfolding nth
get_array_elem (some (array vs)) (pos i) = nth vs i
get_array_elem (some (array vs)) (negsuc i) = none
get_array_elem _ i = none

unfoldable pub find : {D : Type 0} → List ℕ → Fields D → Option (Value D)
unfolding key_less
find k end = none
find k (field j v fs) = elim (key_less k j || key_less j k) [ true ↦ find k fs | false ↦ some v ]

unfoldable pub get_property : {D : Type 0} → Option (Value D) → Option (List ℕ) → Option (Value D)
unfolding find
get_property (some (object fs)) (some k) = find k fs
get_property _ key = none

abbrev pub present : {A : Type 0} → Option A → ℕ
present none = 0
present (some a) = 1

unfoldable pub has_property : {D : Type 0} → Option (Value D) → Option (List ℕ) → ℕ
unfolding find
has_property (some (object fs)) (some k) = present (find k fs)
has_property _ key = 0

unfoldable pub add_last : {D : Type 0} → Values D → Value D → Values D
add_last nil v = cons v nil
add_last (cons w vs) v = cons w (add_last vs v)

-- `absolute_json_array_add`: the handle after the call.
unfoldable pub array_add : {D : Type 0} → Option (Value D) → Option (Value D) → Option (Value D)
unfolding add_last
array_add (some (array vs)) (some v) = some (array (add_last vs v))
array_add handle item = handle

-- `absolute_json_object_set`; a value that the key had is freed.
unfoldable pub object_set :
    {D : Type 0} → Option (Value D) → Option (List ℕ) → Option (Value D) → Option (Value D)
unfolding insert
object_set (some (object fs)) (some k) (some v) = some (object (insert k v fs))
object_set handle key item = handle
