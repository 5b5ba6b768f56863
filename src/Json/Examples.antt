-- ===== src/Json/Examples.antt =====
-- Absolute-Runtime/src/json.cpp at concrete texts, with numbers kept as the text they stand in.
use absolute.Prelude.{
  ℕ, ◌≡◌, ◌≢◌, refl, true, false, ◌||◌, List, [], ◌∷◌, some, ok, err, if◌then◌else◌,
}
use absolute.Json.Text.{out_of_fuel, unterminated_string, expected_comma_in_array, expected_colon}
use absolute.Json.Numbers.{Floats, scan_number}
use absolute.Json.Tree.{
  Value, null, bool, number, string, array, object, nil, cons, end, field, key_less,
}
use absolute.Json.Parser.{parse_value, start_of}
use absolute.Json.Printer.{stringify_value, show_number}
use absolute.Json.Readable.{Readable}
use absolute.Json.CStrings.{WithoutNul}
use absolute.Json.Termination.{parse-total}
use absolute.Json.RoundTrip.{parse-stringify}
use absolute.Json.Objects.{get_property-object_set}
use absolute.Json.{parse, stringify, get_property, object_set}

-- A "double" that is its own text.
abbrev decimal_texts : Floats
decimal_texts = record {
  Double = List ℕ;
  zero_double = b'0' ∷ [];
  strtod = some;
  is_whole = λ d. true;
  show_int64 = λ d. d;
  show_double = λ d. d;
}

abbrev DecimalValue : Type 0
DecimalValue = Value (List ℕ)

-- {"a": [-7, "x\n"], "b": true}
abbrev document : DecimalValue
document = object (
    field (b'a' ∷ [])
      (array (cons (number (b'-' ∷ b'7' ∷ [])) (cons (string (b'x' ∷ b'\n' ∷ [])) nil)))
      (field (b'b' ∷ []) (bool true) end))

document-Readable : Readable decimal_texts document
unfolding Readable show_number start_of scan_number key_less
document-Readable = (
  (refl, refl, tt),
  (((b'-', b'7' ∷ [], refl, refl), refl, refl), (tt, tt)),
  (refl, tt),
  ((refl, refl, tt), tt, tt, tt),
)

document-WithoutNul : WithoutNul decimal_texts document
unfolding WithoutNul show_number
document-WithoutNul =
    ((refl, tt), ((refl, (refl, tt)), ((refl, (refl, tt)), tt)), ((refl, tt), tt, tt))

-- A byte 0 in a string cuts what is printed.
nul-test :
    parse decimal_texts
      (some (stringify decimal_texts false (some (string (b'a' ∷ 0 ∷ b'b' ∷ [])))))
    ≡ err unterminated_string
unfolding parse parse_value stringify stringify_value
nul-test = refl

open_array-test :
    parse decimal_texts (some (b'[' ∷ b'1' ∷ b' ' ∷ b'2' ∷ [])) ≡ err expected_comma_in_array
unfolding parse parse_value
open_array-test = refl

-- What stands behind the value is not looked at.
trailing-test : parse decimal_texts (some (b'1' ∷ b' ' ∷ b'x' ∷ [])) ≡ ok (number (b'1' ∷ []))
unfolding parse parse_value
trailing-test = refl

-- The key `"` is printed so that its text does not parse.
quoted_key-test :
    parse decimal_texts
      (some (stringify decimal_texts false (some (object (field (b'"' ∷ []) null end)))))
    ≡ err expected_colon
unfolding parse parse_value stringify stringify_value
quoted_key-test = refl

parse-total_example : parse decimal_texts (some (b'[' ∷ b'[' ∷ [])) ≢ err out_of_fuel
parse-total_example = parse-total decimal_texts (some (b'[' ∷ b'[' ∷ []))

parse-stringify_example :
    parse decimal_texts (some (stringify decimal_texts true (some document))) ≡ ok document
parse-stringify_example =
    parse-stringify decimal_texts true document document-Readable document-WithoutNul

get_property-object_set_example :
    get_property (object_set (some document) (some (b'b' ∷ [])) (some null)) (some (b'a' ∷ [])) ≡ (
      if key_less (b'a' ∷ []) (b'b' ∷ []) || key_less (b'b' ∷ []) (b'a' ∷ [])
      then get_property (some document) (some (b'a' ∷ []))
      else some null)
get_property-object_set_example =
    get_property-object_set
      (field (b'a' ∷ [])
        (array (cons (number (b'-' ∷ b'7' ∷ [])) (cons (string (b'x' ∷ b'\n' ∷ [])) nil)))
        (field (b'b' ∷ []) (bool true) end))
      (b'b' ∷ []) (b'a' ∷ []) null
