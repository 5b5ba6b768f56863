-- ===== src/Json/Numbers.antt =====
-- Absolute-Runtime/src/json.cpp: the token of `parseNumber`. A floating-point number and the
-- library functions that read and print it are parameters.
use absolute.Prelude.{ℕ, Bool, true, false, ◌||◌, List, [], ◌∷◌, ◌++◌, Option, ◌==◌}
use absolute.Json.Text.{is_digit}

-- The `double` of the host with `strtod` (`none` where it converts nothing), the comparison
-- `d == static_cast<int64_t>(d)`, and the output of the integer and of the `double` on a stream.
pub record Floats : Type 1 where
  pub Double : Type 0
  pub zero_double : Double
  pub strtod : List ℕ → Option Double
  pub is_whole : Double → Bool
  pub show_int64 : Double → List ℕ
  pub show_double : Double → List ℕ

abbrev pub Token : Type 0
Token = List ℕ × List ℕ

-- `while (pos < src.size() && std::isdigit(src[pos])) pos++;`
unfoldable pub span_digits : List ℕ → Token
span_digits [] = ([], [])
span_digits (c ∷ cs) = elim (is_digit c) [
  | true ↦ let (a, b) = span_digits cs in (c ∷ a, b)
  | false ↦ ([], c ∷ cs)
]

-- A character that the test takes, with what `behind` takes behind it.
unfoldable pub optional : (ℕ → Bool) → (List ℕ → Token) → List ℕ → Token
optional test behind [] = ([], [])
optional test behind (c ∷ cs) = elim (test c) [
  | true ↦ let (a, b) = behind cs in (c ∷ a, b)
  | false ↦ ([], c ∷ cs)
]

abbrev pub nothing_more : List ℕ → Token
nothing_more s = ([], s)

-- One stage of the token behind another.
unfoldable pub both : (List ℕ → Token) → (List ℕ → Token) → List ℕ → Token
both first second s = let (a, r) = first s in let (b, r') = second r in (a ++ b, r')

abbrev pub is_sign : ℕ → Bool
is_sign c = c == b'+' || c == b'-'

abbrev pub is_exponent : ℕ → Bool
is_exponent c = c == b'e' || c == b'E'

abbrev pub minus : List ℕ → Token
minus = optional (λ c. c == b'-') nothing_more

abbrev pub fraction : List ℕ → Token
fraction = optional (λ c. c == b'.') span_digits

abbrev pub sign : List ℕ → Token
sign = optional is_sign nothing_more

abbrev pub exponent : List ℕ → Token
exponent = optional is_exponent (both sign span_digits)

unfoldable pub scan_number : List ℕ → Token
unfolding span_digits optional both
scan_number = both (both minus span_digits) (both fraction exponent)
