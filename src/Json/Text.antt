-- ===== src/Json/Text.antt =====
-- Absolute-Runtime/src/json.cpp: `skipWhitespace`, `parseString`, and the escapes that
-- `stringifyHelper` writes. A text is the list of its bytes; the parser's position is the list
-- of the bytes that are left.
use absolute.Prelude.{
  ℕ, zero, suc, ◌+◌, ◌-◌, ◌*◌, ◌/◌, ◌%◌, Bool, true, false, ◌&&◌, ◌||◌, List, [], ◌∷◌, ◌++◌, Option,
  none, some, Result, ok, err, ltb, leb, ◌==◌, if◌then◌else◌, length, take,
}

-- The values of `error`, in the order of the file; `out_of_fuel` is none of them.
pub data JsonError : Type 0 where
  unexpected_end : JsonError
  unexpected_character : ℕ → JsonError
  expected_null expected_bool invalid_number unterminated_escape : JsonError
  incomplete_unicode invalid_unicode unterminated_string : JsonError
  expected_comma_in_array unterminated_array expected_key expected_colon : JsonError
  expected_comma_in_object unterminated_object empty_text out_of_fuel : JsonError

abbrev pub is_space : ℕ → Bool
is_space c = c == b' ' || c == b'\t' || c == b'\r' || c == b'\n'

unfoldable pub skip_whitespace : List ℕ → List ℕ
skip_whitespace [] = []
skip_whitespace (c ∷ cs) = elim (is_space c) [ true ↦ skip_whitespace cs | false ↦ c ∷ cs ]

abbrev pub is_digit : ℕ → Bool
is_digit c = leb b'0' c && leb c b'9'

abbrev pub is_hex : ℕ → Bool
is_hex c = is_digit c || leb b'a' c && leb c b'f' || leb b'A' c && leb c b'F'

abbrev pub all_hex : List ℕ → Bool
all_hex [] = true
all_hex (c ∷ cs) = is_hex c && all_hex cs

abbrev pub hex_digit_value : ℕ → ℕ
hex_digit_value c =
    if is_digit c then c - b'0' else if leb b'a' c then c - b'a' + 10 else c - b'A' + 10

-- `strtoul(text, nullptr, 16)` of digits that were checked.
unfoldable pub hex_value : ℕ → List ℕ → ℕ
hex_value acc [] = acc
hex_value acc (c ∷ cs) = hex_value (acc * 16 + hex_digit_value c) cs

-- The bytes of a code unit. The bits that `|` joins do not overlap.
unfoldable pub utf8 : ℕ → List ℕ
utf8 code =
    if leb code 0x7f
    then code ∷ []
    else if leb code 0x7ff
    then (0xc0 + code / 64 % 32) ∷ (0x80 + code % 64) ∷ []
    else (0xe0 + code / 4096 % 16) ∷ (0x80 + code / 64 % 64) ∷ (0x80 + code % 64) ∷ []

-- The character of an escape other than `\u`.
unfoldable pub unescape : ℕ → ℕ
unescape esc =
    if esc == b'b'
    then 8
    else if esc == b'f'
    then 12
    else if esc == b'n'
    then b'\n'
    else if esc == b'r'
    then b'\r'
    else if esc == b't'
    then b'\t'
    else esc

-- What one round of the loop of `parseString` does at `c`, with `cs` behind it: it ends, fails,
-- or appends bytes and goes on behind `skip` bytes of `cs`.
pub data Round : Type 0 where
  stop : Round
  fail : JsonError → Round
  append : List ℕ → ℕ → Round

unfoldable pub escape_round : List ℕ → Round
unfolding unescape utf8 hex_value
escape_round [] = fail unterminated_escape
escape_round (esc ∷ rest) =
    if esc == b'u'
    then if ltb (length rest) 4
      then fail incomplete_unicode
      else if all_hex (take 4 rest)
      then append (utf8 (hex_value 0 (take 4 rest))) 5
      else fail invalid_unicode
    else append (unescape esc ∷ []) 1

unfoldable pub round : ℕ → List ℕ → Round
unfolding escape_round
round c cs = if c == b'"' then stop else if c == b'\\' then escape_round cs else append (c ∷ []) 0

abbrev pub prepend :
    List ℕ → Result JsonError (List ℕ × List ℕ) → Result JsonError (List ℕ × List ℕ)
prepend bytes (ok (res, rest)) = ok (bytes ++ res, rest)
prepend bytes (err e) = err e

-- The rest of the loop behind a round, where `parse` goes on behind some bytes of `cs`.
unfoldable pub after_round :
    Round → List ℕ → (ℕ → Result JsonError (List ℕ × List ℕ)) → Result JsonError (List ℕ × List ℕ)
after_round stop cs parse = ok ([], cs)
after_round (fail e) cs parse = err e
after_round (append bytes skip) cs parse = prepend bytes (parse skip)

-- The loop, behind the opening quote: the string and the bytes behind the closing quote. The
-- number counts the bytes that a round has used up already.
unfoldable pub parse_string : ℕ → List ℕ → Result JsonError (List ℕ × List ℕ)
unfolding round after_round
parse_string skip [] = err unterminated_string
parse_string (suc skip) (c ∷ cs) = parse_string skip cs
parse_string zero (c ∷ cs) = after_round (round c cs) cs (λ skip. parse_string skip cs)

-- The bytes of a C string, which ends at the first byte 0.
unfoldable pub c_string : List ℕ → List ℕ
c_string [] = []
c_string (c ∷ cs) = if c == 0 then [] else c ∷ c_string cs

-- The escapes of `stringifyHelper`.
unfoldable pub escape_byte : ℕ → List ℕ
escape_byte c =
    if c == b'"'
    then b'\\' ∷ b'"' ∷ []
    else if c == b'\\'
    then b'\\' ∷ b'\\' ∷ []
    else if c == b'\n'
    then b'\\' ∷ b'n' ∷ []
    else if c == b'\r'
    then b'\\' ∷ b'r' ∷ []
    else if c == b'\t'
    then b'\\' ∷ b't' ∷ []
    else c ∷ []

unfoldable pub escape : List ℕ → List ℕ
unfolding escape_byte
escape [] = []
escape (c ∷ cs) = escape_byte c ++ escape cs

-- `src.compare(pos, size, text) == 0`, with the bytes behind the text.
unfoldable pub strip_prefix : List ℕ → List ℕ → Option (List ℕ)
strip_prefix [] s = some s
strip_prefix (x ∷ xs) [] = none
strip_prefix (x ∷ xs) (c ∷ cs) = if c == x then strip_prefix xs cs else none
