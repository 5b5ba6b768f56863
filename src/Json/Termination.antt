-- ===== src/Json/Termination.antt =====
-- `absolute_json_parse` returns on every text: the recursion of its parser comes to an end.
use absolute.Prelude.{
  ℕ, ◌≢◌, List, [], ◌∷◌, Option, none, some, Result, ok, err, ◌>>=◌, length, arith,
}
use absolute.Json.Text.{JsonError, out_of_fuel, c_string}
use absolute.Json.Numbers.{Floats}
use absolute.Json.Tree.{Value}
use absolute.Json.Parser.{parse_value}
use absolute.Json.Progress.{Ends}
use absolute.Json.Fuel.{parse_value-Ends}
use absolute.Json.{parse, parse_text, fuel_for}

value-total :
    (A : Type 0) (n : ℕ) (r : Result JsonError (A × List ℕ))
    → Ends n r
    → (r >>= (λ (p : A × List ℕ). ok p.0)) ≢ err out_of_fuel
value-total A n (ok p) h = λ same. cc
value-total A n (err e) h = λ same. h cc

parse_text-total : (floats : Floats) (text : List ℕ) → parse_text floats text ≢ err out_of_fuel
unfolding parse_text
parse_text-total floats [] = λ same. cc
parse_text-total floats (c ∷ cs) =
    value-total (Value floats.Double) (length (c ∷ cs))
      (parse_value floats (fuel_for (c ∷ cs)) (c ∷ cs))
      (parse_value-Ends floats (fuel_for (c ∷ cs)) (c ∷ cs) (omega arith))

-- For every implementation of the floating-point functions and every text, also a null text and
-- an empty one, `parse` ends with a value or with one of the source's errors: the fuel of two
-- units for each byte, and one, never runs out.
pub parse-total : (floats : Floats) (text : Option (List ℕ)) → parse floats text ≢ err out_of_fuel
unfolding parse
parse-total floats none = λ same. cc
parse-total floats (some text) = parse_text-total floats (c_string text)
