-- ===== src/Json/Readable.antt =====
-- The values of Absolute-Runtime/src/json.cpp that a text can stand for: what
-- `absolute_json_stringify` needs of a value so that `absolute_json_parse` reads it back.
use absolute.Prelude.{ℕ, ◌≡◌, true, false, List, [], ◌∷◌, some, ◌==◌}
use absolute.Json.Numbers.{Floats, scan_number}
use absolute.Json.Tree.{
  Value, null, bool, number, string, array, object, Values, nil, cons, Fields, end, field, key_less,
}
use absolute.Json.Parser.{start_of, at_number}
use absolute.Json.Printer.{show_number}

-- A key that is printed as it stands: no byte of it is a quote or a backslash.
abbrev pub Plain : List ℕ → Type 0
Plain [] = Unit {0}
Plain (c ∷ cs) = ((c == b'"') ≡ false) × ((c == b'\\') ≡ false) × Plain cs

module _ (floats : Floats) where
  open floats use {Double, strtod}

  -- The printed number starts with a digit or a minus, is one token, and `strtod` reads it back.
  abbrev pub ReadsBack : Double → Type 0
  ReadsBack d =
      ((c : ℕ) × (t : List ℕ) × (show_number floats d ≡ c ∷ t) × (start_of c ≡ at_number))
      × (scan_number (show_number floats d) ≡ (show_number floats d, []))
      × (strtod (show_number floats d) ≡ some d)

  -- Every key of the members is greater.
  abbrev pub Above : List ℕ → Fields Double → Type 0
  Above k end = Unit {0}
  Above k (field j v fs) = (key_less k j ≡ true) × Above k fs

  -- Numbers read back, keys are plain and ascend.
  unfoldable mutual
    pub Readable : Value Double → Type 0
    Readable null = Unit {0}
    Readable (bool b) = Unit {0}
    Readable (number d) = ReadsBack d
    Readable (string s) = Unit {0}
    Readable (array vs) = ReadableValues vs
    Readable (object fs) = ReadableFields fs

    pub ReadableValues : Values Double → Type 0
    ReadableValues nil = Unit {0}
    ReadableValues (cons v vs) = Readable v × ReadableValues vs

    pub ReadableFields : Fields Double → Type 0
    ReadableFields end = Unit {0}
    ReadableFields (field k v fs) = Plain k × Readable v × Above k fs × ReadableFields fs
