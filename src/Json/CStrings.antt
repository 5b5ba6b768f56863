-- ===== src/Json/CStrings.antt =====
-- The C strings of Absolute-Runtime/src/json.cpp: which values are printed without a byte 0, at which
-- the string that `absolute_json_stringify` returns would end.
use absolute.Prelude.{ℕ, ◌≡◌, refl, ap, Bool, true, false, List, [], ◌∷◌, ◌++◌, ◌==◌, arith}
use absolute.Json.Numbers.{Floats}
use absolute.Json.Text.{c_string, escape_byte, escape}
use absolute.Json.Tree.{
  Value, null, bool, number, string, array, object, Values, nil, cons, Fields, end, field,
}
use absolute.Json.Printer.{
  show_number, behind, colon, stringify_value, stringify_values, stringify_fields,
}

-- No byte of the text is 0.
abbrev pub NoNul : List ℕ → Type 0
NoNul [] = Unit {0}
NoNul (c ∷ cs) = ((c == 0) ≡ false) × NoNul cs

pub c_string-NoNul : (s : List ℕ) → NoNul s → c_string s ≡ s
unfolding c_string
c_string-NoNul [] h = refl
c_string-NoNul (c ∷ cs) (h, hs) = rw h (ap (c ∷◌) (c_string-NoNul cs hs))

append-NoNul : (s t : List ℕ) → NoNul s → NoNul t → NoNul (s ++ t)
append-NoNul [] t h g = g
append-NoNul (c ∷ cs) t (h, hs) g = (h, append-NoNul cs t hs g)

escape_byte-NoNul : (c : ℕ) → (c == 0) ≡ false → NoNul (escape_byte c)
unfolding escape_byte
escape_byte-NoNul c h = ground (arith, h)

escape-NoNul : (s : List ℕ) → NoNul s → NoNul (escape s)
unfolding escape
escape-NoNul [] h = tt
escape-NoNul (c ∷ cs) (h, hs) =
    append-NoNul (escape_byte c) (escape cs) (escape_byte-NoNul c h) (escape-NoNul cs hs)

behind-NoNul : (pretty first : Bool) → NoNul (behind pretty first)
behind-NoNul true true = tt
behind-NoNul true false = (refl, (refl, tt))
behind-NoNul false true = tt
behind-NoNul false false = (refl, tt)

colon-NoNul : (pretty : Bool) → NoNul (colon pretty)
colon-NoNul true = (refl, (refl, (refl, tt)))
colon-NoNul false = (refl, (refl, tt))

module _ (floats : Floats) where
  open floats use {Double}

  -- No string, key or printed number in the value has a byte 0.
  unfoldable mutual
    pub WithoutNul : Value Double → Type 0
    WithoutNul null = Unit {0}
    WithoutNul (bool b) = Unit {0}
    WithoutNul (number d) = NoNul (show_number floats d)
    WithoutNul (string s) = NoNul s
    WithoutNul (array vs) = WithoutNulValues vs
    WithoutNul (object fs) = WithoutNulFields fs

    pub WithoutNulValues : Values Double → Type 0
    WithoutNulValues nil = Unit {0}
    WithoutNulValues (cons v vs) = WithoutNul v × WithoutNulValues vs

    pub WithoutNulFields : Fields Double → Type 0
    WithoutNulFields end = Unit {0}
    WithoutNulFields (field k v fs) = NoNul k × WithoutNul v × WithoutNulFields fs

  module _ (pretty : Bool) where
    mutual
      unfolding WithoutNul stringify_value

      pub stringify_value-NoNul :
          (v : Value Double) → WithoutNul v → NoNul (stringify_value floats pretty v)
      stringify_value-NoNul null h = (refl, (refl, (refl, (refl, tt))))
      stringify_value-NoNul (bool true) h = (refl, (refl, (refl, (refl, tt))))
      stringify_value-NoNul (bool false) h = (refl, (refl, (refl, (refl, (refl, tt)))))
      stringify_value-NoNul (number d) h = h
      stringify_value-NoNul (string s) h =
          (refl, append-NoNul (escape s) (b'"' ∷ []) (escape-NoNul s h) (refl, tt))
      stringify_value-NoNul (array vs) h = (
        refl,
        append-NoNul (stringify_values floats pretty true vs) (b']' ∷ [])
            (stringify_values-NoNul true vs h) (refl, tt),
      )
      stringify_value-NoNul (object fs) h = (
        refl,
        append-NoNul (stringify_fields floats pretty true fs) (b'}' ∷ [])
            (stringify_fields-NoNul true fs h) (refl, tt),
      )

      stringify_values-NoNul :
          (first : Bool) (vs : Values Double)
          → WithoutNulValues vs
          → NoNul (stringify_values floats pretty first vs)
      stringify_values-NoNul first nil h = tt
      stringify_values-NoNul first (cons v vs) (h, hs) =
          append-NoNul (behind pretty first) _ (behind-NoNul pretty first) (
            append-NoNul (stringify_value floats pretty v) _ (stringify_value-NoNul v h)
              (stringify_values-NoNul false vs hs))

      stringify_fields-NoNul :
          (first : Bool) (fs : Fields Double)
          → WithoutNulFields fs
          → NoNul (stringify_fields floats pretty first fs)
      stringify_fields-NoNul first end h = tt
      stringify_fields-NoNul first (field k v fs) (g, h, hs) =
          append-NoNul (behind pretty first) _ (behind-NoNul pretty first) (
            refl,
            append-NoNul k _ g (
                append-NoNul (colon pretty) _ (colon-NoNul pretty) (
                  append-NoNul (stringify_value floats pretty v) _ (stringify_value-NoNul v h)
                    (stringify_fields-NoNul false fs hs))),
          )
