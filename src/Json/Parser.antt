-- ===== src/Json/Parser.antt =====
-- Absolute-Runtime/src/json.cpp: the recursive descent of `JsonParser`. The recursion is on fuel,
-- one unit for each call and each round of a loop; Json/Fuel shows how much is enough.
use absolute.Prelude.{
  ℕ, zero, suc, true, false, ◌||◌, List, [], ◌∷◌, none, some, Result, ok, err, ◌>>=◌, ◌==◌,
  if◌then◌else◌,
}
use absolute.Json.Text.{
  JsonError, unexpected_end, unexpected_character, expected_null, expected_bool, invalid_number,
  expected_comma_in_array, unterminated_array, expected_key, expected_colon,
  expected_comma_in_object, unterminated_object, out_of_fuel, skip_whitespace, is_digit,
  parse_string, strip_prefix,
}
use absolute.Json.Numbers.{Floats, Token, scan_number}
use absolute.Json.Tree.{
  Value, null, bool, number, string, array, object, Values, nil, cons, Fields, end, insert,
}

abbrev pub null_text : List ℕ
null_text = b'n' ∷ b'u' ∷ b'l' ∷ b'l' ∷ []

abbrev pub true_text : List ℕ
true_text = b't' ∷ b'r' ∷ b'u' ∷ b'e' ∷ []

abbrev pub false_text : List ℕ
false_text = b'f' ∷ b'a' ∷ b'l' ∷ b's' ∷ b'e' ∷ []

-- The tests of `parseValue` on the first character.
pub data Start : Type 0 where
  at_null at_bool at_string at_array at_object at_number at_other : Start

unfoldable pub start_of : ℕ → Start
start_of c =
    if c == b'n'
    then at_null
    else if c == b't' || c == b'f'
    then at_bool
    else if c == b'"'
    then at_string
    else if c == b'['
    then at_array
    else if c == b'{'
    then at_object
    else if c == b'-' || is_digit c
    then at_number
    else at_other

-- What follows an element of an array or a member of an object.
pub data Next : Type 0 where
  closed : List ℕ → Next
  more : List ℕ → Next
  neither : Next

unfoldable pub next_of : ℕ → List ℕ → Next
next_of close [] = neither
next_of close (c ∷ cs) = if c == close then closed cs else if c == b',' then more cs else neither

-- The next byte has to be `c`.
unfoldable pub expect_byte : ℕ → JsonError → List ℕ → Result JsonError (List ℕ)
expect_byte c e [] = err e
expect_byte c e (x ∷ xs) = if x == c then ok xs else err e

-- `parseObject` from a key on: the key, and the bytes behind the colon.
unfoldable pub parse_key : List ℕ → Result JsonError (List ℕ × List ℕ)
unfolding parse_string skip_whitespace expect_byte
parse_key s = do
  text ← expect_byte b'"' expected_key (skip_whitespace s)
  r ← parse_string zero text
  behind ← expect_byte b':' expected_colon (skip_whitespace r.1)
  ok (r.0, behind)

-- `parseNull` and `parseBool`.
unfoldable pub parse_null : {D : Type 0} → List ℕ → Result JsonError (Value D × List ℕ)
unfolding strip_prefix
parse_null s = elim (strip_prefix null_text s) [
  | some rest ↦ ok (null, rest)
  | none ↦ err expected_null
]

unfoldable pub parse_bool : {D : Type 0} → List ℕ → Result JsonError (Value D × List ℕ)
unfolding strip_prefix
parse_bool s = elim (strip_prefix true_text s) [
  | some rest ↦ ok (bool true, rest)
  | none ↦ elim (strip_prefix false_text s) [
    | some rest ↦ ok (bool false, rest)
    | none ↦ err expected_bool
  ]
]

module _ (floats : Floats) where
  open floats use {Double, strtod}

  abbrev pub Parsed : Type 0
  Parsed = Result JsonError (Value Double × List ℕ)

  -- The end of `parseNumber`, at its token.
  unfoldable pub number_of : Token → Parsed
  number_of (text, rest) = elim (strtod text) [
    | some val ↦ ok (number val, rest)
    | none ↦ err invalid_number
  ]

  -- `parseNumber`
  unfoldable pub parse_number : List ℕ → Parsed
  unfolding scan_number number_of
  parse_number s = number_of (scan_number s)

  -- `parseArray` and `parseObject` behind their opening bracket, where `loop` is their loop.
  unfoldable pub parse_array :
      (List ℕ → Result JsonError (Values Double × List ℕ)) → Next → List ℕ → Parsed
  parse_array loop (closed rest) s = ok (array nil, rest)
  parse_array loop _ s = do r ← loop s; ok (array r.0, r.1)

  unfoldable pub parse_object :
      (List ℕ → Result JsonError (Fields Double × List ℕ)) → Next → List ℕ → Parsed
  parse_object loop (closed rest) s = ok (object end, rest)
  parse_object loop _ s = do r ← loop s; ok (object r.0, r.1)

  module _ (elements : List ℕ → Result JsonError (Values Double × List ℕ))
      (members : List ℕ → Result JsonError (Fields Double × List ℕ)) where
    -- The branches of `parseValue`, at `c` with `cs` behind it.
    unfoldable pub parse_from : Start → ℕ → List ℕ → Parsed
    unfolding skip_whitespace next_of parse_null parse_bool parse_number parse_string parse_array
        parse_object
    parse_from at_null c cs = parse_null (c ∷ cs)
    parse_from at_bool c cs = parse_bool (c ∷ cs)
    parse_from at_string c cs = do r ← parse_string zero cs; ok (string r.0, r.1)
    parse_from at_array c cs =
        parse_array elements (next_of b']' (skip_whitespace cs)) (skip_whitespace cs)
    parse_from at_object c cs =
        parse_object members (next_of b'}' (skip_whitespace cs)) (skip_whitespace cs)
    parse_from at_number c cs = parse_number (c ∷ cs)
    parse_from at_other c cs = err (unexpected_character c)

    unfoldable pub parse_at : List ℕ → Parsed
    unfolding start_of parse_from
    parse_at [] = err unexpected_end
    parse_at (c ∷ cs) = parse_from (start_of c) c cs

  -- The end of a round of the loop of `parseArray`, at what follows the element `v`.
  unfoldable pub after_element :
      (List ℕ → Result JsonError (Values Double × List ℕ))
      → Value Double
      → Next
      → Result JsonError (Values Double × List ℕ)
  after_element loop v (closed rest) = ok (cons v nil, rest)
  after_element loop v (more rest) = do q ← loop rest; ok (cons v q.0, q.1)
  after_element loop v neither = err expected_comma_in_array

  -- The end of a round of the loop of `parseObject`.
  unfoldable pub after_member :
      (Fields Double → List ℕ → Result JsonError (Fields Double × List ℕ))
      → Fields Double
      → Next
      → Result JsonError (Fields Double × List ℕ)
  after_member loop read (closed rest) = ok (read, rest)
  after_member loop read (more rest) = loop read rest
  after_member loop read neither = err expected_comma_in_object

  unfoldable mutual
    unfolding skip_whitespace next_of parse_key insert parse_at after_element after_member

    -- `parseValue`
    pub parse_value : ℕ → List ℕ → Parsed
    parse_value zero s = err out_of_fuel
    parse_value (suc fuel) s =
        parse_at (parse_elements fuel) (parse_members fuel end) (skip_whitespace s)

    -- The loop of `parseArray`.
    pub parse_elements : ℕ → List ℕ → Result JsonError (Values Double × List ℕ)
    parse_elements zero s = err out_of_fuel
    parse_elements (suc fuel) [] = err unterminated_array
    parse_elements (suc fuel) (c ∷ cs) = do
      r ← parse_value fuel (c ∷ cs)
      after_element (parse_elements fuel) r.0 (next_of b']' (skip_whitespace r.1))

    -- The loop of `parseObject`, with the members read so far.
    pub parse_members : ℕ → Fields Double → List ℕ → Result JsonError (Fields Double × List ℕ)
    parse_members zero read s = err out_of_fuel
    parse_members (suc fuel) read [] = err unterminated_object
    parse_members (suc fuel) read (c ∷ cs) = do
      k ← parse_key (c ∷ cs)
      r ← parse_value fuel k.1
      after_member (parse_members fuel) (insert k.0 r.0 read) (next_of b'}' (skip_whitespace r.1))
