-- ===== src/Json/RoundTrip.antt =====
-- What `absolute_json_stringify` writes, in both modes, `absolute_json_parse` reads back.
use absolute.Prelude.{ℕ, ◌≡◌, sym, ap, ◌∙◌, Bool, List, [], ◌∷◌, some, ok, ◌>>=◌, arith}
use absolute.Json.Numbers.{Floats}
use absolute.Json.Tree.{Value}
use absolute.Json.Parser.{parse_value}
use absolute.Json.Printer.{stringify_value}
use absolute.Json.Readable.{Readable}
use absolute.Json.Text.{c_string}
use absolute.Json.CStrings.{WithoutNul, c_string-NoNul, stringify_value-NoNul}
use absolute.Json.Loops.{parse_value-stringify}
use absolute.Json.{parse, parse_text, stringify, fuel_for}
use mathlib.Core.List.{append-nil}

module _ (floats : Floats) where
  open floats use {Double}

  parse-whole :
      (s : List ℕ) (v : Value Double) (rest : List ℕ)
      → parse_value floats (fuel_for s) s ≡ ok (v, rest)
      → parse_text floats s ≡ ok v
  unfolding parse_text parse_value
  parse-whole [] v rest h = cc
  parse-whole (c ∷ cs) v rest h = ap (λ x. x >>= (λ r. ok r.0)) h

  -- For every value whose numbers read back, as one token each, and whose objects have their keys
  -- in order, none with a quote or a backslash, `parse` gives the value back from what `stringify`
  -- prints for it, with spaces behind the separators and without; strings are any bytes but 0, and keys
  -- and printed numbers have no byte 0 either.
  pub parse-stringify :
      (pretty : Bool) (v : Value Double)
      → Readable floats v
      → WithoutNul floats v
      → parse floats (some (stringify floats pretty (some v))) ≡ ok v
  unfolding parse stringify
  parse-stringify pretty v h n =
      let s = stringify_value floats pretty v in
      let uncut : c_string s ≡ s = c_string-NoNul s (stringify_value-NoNul floats pretty v n) in
      ap (λ t. parse_text floats (c_string t)) uncut
      ∙ ap (parse_text floats) uncut
      ∙ parse-whole s v [] (
          ap (parse_value floats (fuel_for s)) (sym (append-nil s))
          ∙ parse_value-stringify floats pretty (fuel_for s) v [] (omega arith) h tt)
