-- ===== src/Json/Printer.antt =====
-- Absolute-Runtime/src/json.cpp: `stringifyHelper`. The indentation that it passes on is not
-- used by it.
use absolute.Prelude.{ℕ, Bool, true, false, List, [], ◌∷◌, ◌++◌, if◌then◌else◌}
use absolute.Json.Text.{escape}
use absolute.Json.Numbers.{Floats}
use absolute.Json.Parser.{null_text, true_text, false_text}
use absolute.Json.Tree.{
  Value, null, bool, number, string, array, object, Values, nil, cons, Fields, end, field,
}

abbrev pub separator : Bool → List ℕ
separator pretty = if pretty then b',' ∷ b' ' ∷ [] else b',' ∷ []

-- The separator stands in front of every element but the first.
abbrev pub behind : Bool → Bool → List ℕ
behind pretty first = if first then [] else separator pretty

abbrev pub colon : Bool → List ℕ
colon pretty = if pretty then b'"' ∷ b':' ∷ b' ' ∷ [] else b'"' ∷ b':' ∷ []

unfoldable pub show_number : (floats : Floats) → floats.Double → List ℕ
show_number floats d = if floats.is_whole d then floats.show_int64 d else floats.show_double d

module _ (floats : Floats) (pretty : Bool) where
  open floats use {Double}

  unfoldable mutual
    unfolding show_number escape

    pub stringify_value : Value Double → List ℕ
    stringify_value null = null_text
    stringify_value (bool b) = if b then true_text else false_text
    stringify_value (number d) = show_number floats d
    stringify_value (string s) = b'"' ∷ (escape s ++ b'"' ∷ [])
    stringify_value (array vs) = b'[' ∷ (stringify_values true vs ++ b']' ∷ [])
    stringify_value (object fs) = b'{' ∷ (stringify_fields true fs ++ b'}' ∷ [])

    pub stringify_values : Bool → Values Double → List ℕ
    stringify_values first nil = []
    stringify_values first (cons v vs) =
        behind pretty first ++ (stringify_value v ++ stringify_values false vs)

    -- A key is written without escapes.
    pub stringify_fields : Bool → Fields Double → List ℕ
    stringify_fields first end = []
    stringify_fields first (field k v fs) =
        behind pretty first
        ++ (b'"' ∷ (k ++ (colon pretty ++ (stringify_value v ++ stringify_fields false fs))))
