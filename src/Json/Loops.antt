-- ===== src/Json/Loops.antt =====
-- The functions of the parser of Absolute-Runtime/src/json.cpp on what its printer writes.
use absolute.Prelude.{
  ℕ, zero, suc, ◌+◌, ◌≤◌, ◌≡◌, refl, sym, ap, ◌∙◌, Bool, true, false, List, [], ◌∷◌, ◌++◌, ok,
  arith, length, length-append,
}
use absolute.Json.Text.{escape, skip_whitespace}
use absolute.Json.Numbers.{Floats}
use absolute.Json.Tree.{
  Value, null, bool, number, string, array, object, Values, nil, cons, Fields, end, field, insert,
}
use absolute.Json.Parser.{
  next_of, parse_key, parse_value, parse_elements, parse_members, after_element, after_member,
  parse_number,
}
use absolute.Json.Printer.{stringify_value, stringify_values, stringify_fields, colon}
use absolute.Json.Readable.{Plain, Readable, ReadableValues, ReadableFields}
use absolute.Json.Strings.{parse_string-escape}
use absolute.Json.Tokens.{Inert}
use mathlib.Core.List.{append_assoc}
use absolute.Json.Pieces.{
  gap, parse_value-gap, value-Opens, parse_number-show, parse_value-number, parse_value-array,
  parse_elements-round, values_behind-Inert, fields_behind-Inert, values_behind, fields_behind,
  parse_key-Plain, parse_members-round, after_element-more, parse_value-object,
}
use absolute.Json.Members.{extend, Below, insert-Below, extend_one, Below-extend}

module _ (floats : Floats) (pretty : Bool) where
  open floats use {Double, strtod}

  abbrev sv : Value Double → List ℕ
  sv = stringify_value floats pretty

  abbrev svs : Bool → Values Double → List ℕ
  svs = stringify_values floats pretty

  abbrev sfs : Bool → Fields Double → List ℕ
  sfs = stringify_fields floats pretty

  pub value-nonempty : (v : Value Double) → Readable floats v → 1 ≤ length (sv v)
  unfolding stringify_value Readable
  value-nonempty null h = omega arith
  value-nonempty (bool true) h = omega arith
  value-nonempty (bool false) h = omega arith
  value-nonempty (number d) ((c, t, e, starts), scanned, reads) = rw e (omega arith)
  value-nonempty (string s) h = omega arith
  value-nonempty (array vs) h = omega arith
  value-nonempty (object fs) h = omega arith

  values_assoc :
      (v : Value Double) (vs : Values Double) (r : List ℕ)
      → svs true (cons v vs) ++ r ≡ sv v ++ (svs false vs ++ r)
  unfolding stringify_value
  values_assoc v vs r = append_assoc (sv v) (svs false vs) r

  fields_assoc :
      (k : List ℕ) (v : Value Double) (fs : Fields Double) (r : List ℕ)
      → sfs true (field k v fs) ++ r ≡ b'"' ∷ (k ++ (colon pretty ++ (sv v ++ (sfs false fs ++ r))))
  unfolding stringify_value
  fields_assoc k v fs r =
      rw
        (
          append_assoc k (colon pretty ++ (sv v ++ sfs false fs)) r,
          append_assoc (colon pretty) (sv v ++ sfs false fs) r,
          append_assoc (sv v) (sfs false fs) r,
        )
        refl

  -- The lengths that the fuel has to cover.
  values-length :
      (v : Value Double) (vs : Values Double)
      → length (svs true (cons v vs)) ≡ length (sv v) + length (svs false vs)
  unfolding stringify_value
  values-length v vs = length-append (sv v) (svs false vs)

  values_behind-length :
      (v : Value Double) (vs : Values Double)
      → suc (length (svs true (cons v vs))) ≤ length (svs false (cons v vs))
  values_behind-length v vs =
      rw (values_behind floats pretty v vs)
        (omega (arith, length-append (gap pretty) (svs true (cons v vs))))

  fields-length :
      (k : List ℕ) (v : Value Double) (fs : Fields Double)
      → suc (length (sv v) + length (sfs false fs)) ≤ length (sfs true (field k v fs))
  unfolding stringify_value
  fields-length k v fs = omega (
    arith,
    length-append k (colon pretty ++ (sv v ++ sfs false fs)),
    length-append (colon pretty) (sv v ++ sfs false fs),
    length-append (sv v) (sfs false fs),
  )

  fields_behind-length :
      (k : List ℕ) (v : Value Double) (fs : Fields Double)
      → suc (length (sfs true (field k v fs))) ≤ length (sfs false (field k v fs))
  fields_behind-length k v fs =
      rw (fields_behind floats pretty k v fs)
        (omega (arith, length-append (gap pretty) (sfs true (field k v fs))))

  bracket-length : (s : List ℕ) (c d : ℕ) → length (c ∷ (s ++ d ∷ [])) ≡ suc (suc (length s))
  bracket-length s c d = omega (arith, length-append s (d ∷ []))

  -- The value of one round of the loop of an array, and the member of one of an object.
  parse_element-stringify :
      (fuel : ℕ) (gapped : Bool) (v : Value Double) (vs : Values Double) (r : List ℕ)
      → parse_value floats fuel (sv v ++ (svs false vs ++ r)) ≡ ok (v, svs false vs ++ r)
      → parse_value floats fuel (gap gapped ++ (svs true (cons v vs) ++ r))
        ≡ ok (v, svs false vs ++ r)
  parse_element-stringify fuel gapped v vs r h =
      parse_value-gap floats gapped fuel (svs true (cons v vs) ++ r)
      ∙ ap (parse_value floats fuel) (values_assoc v vs r)
      ∙ h

  parse_member-stringify :
      (fuel : ℕ) (gapped : Bool) (read : Fields Double) (k : List ℕ) (v : Value Double)
      (fs : Fields Double) (r : List ℕ)
      → Plain k
      → parse_value floats fuel (sv v ++ (sfs false fs ++ r)) ≡ ok (v, sfs false fs ++ r)
      → parse_members floats (suc fuel) read (gap gapped ++ (sfs true (field k v fs) ++ r))
        ≡ after_member floats
            (parse_members floats fuel)
            (insert k v read)
            (next_of b'}' (skip_whitespace (sfs false fs ++ r)))
  parse_member-stringify fuel gapped read k v fs r p h =
      parse_members-round floats fuel read (gap gapped ++ (sfs true (field k v fs) ++ r))
        (gap pretty ++ (sv v ++ (sfs false fs ++ r))) (sfs false fs ++ r) k v
        (ap (λ t. parse_key (gap gapped ++ t)) (fields_assoc k v fs r)
          ∙ parse_key-Plain floats pretty gapped k (sv v ++ (sfs false fs ++ r)) p)
        (parse_value-gap floats pretty fuel (sv v ++ (sfs false fs ++ r)) ∙ h)

  mutual
    unfolding parse_value stringify_value Readable

    pub parse_value-stringify :
        (fuel : ℕ) (v : Value Double) (rest : List ℕ)
        → length (sv v) ≤ fuel
        → Readable floats v
        → Inert rest
        → parse_value floats fuel (sv v ++ rest) ≡ ok (v, rest)
    parse_value-stringify zero v rest h g i = ground (arith, h, value-nonempty v g)
    parse_value-stringify (suc fuel) null rest h g i = refl
    parse_value-stringify (suc fuel) (bool true) rest h g i = refl
    parse_value-stringify (suc fuel) (bool false) rest h g i = refl
    parse_value-stringify (suc fuel) (number d) rest h ((c, t, e, starts), scanned, reads) i =
        ap (λ x. parse_value floats (suc fuel) (x ++ rest)) e
        ∙ parse_value-number floats fuel c (t ++ rest) starts
        ∙ ap (λ x. parse_number floats (x ++ rest)) (sym e)
        ∙ parse_number-show floats d rest ((c, t, e, starts), scanned, reads) i
    parse_value-stringify (suc fuel) (string s) rest h g i =
        ap (λ t. parse_value floats (suc fuel) (b'"' ∷ t))
          (append_assoc (escape s) (b'"' ∷ []) rest)
        ∙ rw (parse_string-escape s rest) refl
    parse_value-stringify (suc fuel) (array nil) rest h g i = refl
    parse_value-stringify (suc fuel) (array (cons v vs)) rest h (g, gs) i =
        let s = svs true (cons v vs) in
        ap (λ t. parse_value floats (suc fuel) (b'[' ∷ t)) (append_assoc s (b']' ∷ []) rest)
        ∙ parse_value-array floats fuel (s ++ b']' ∷ rest)
            (rw (values_assoc v vs (b']' ∷ rest))
              (value-Opens floats pretty v (svs false vs ++ b']' ∷ rest) g))
            (parse_elements-stringify fuel false v vs rest
              (omega (arith, h, bracket-length s b'[' b']')) g gs)
    parse_value-stringify (suc fuel) (object end) rest h g i = refl
    parse_value-stringify (suc fuel) (object (field k v fs)) rest h g i =
        let s = sfs true (field k v fs) in
        ap (λ t. parse_value floats (suc fuel) (b'{' ∷ t)) (append_assoc s (b'}' ∷ []) rest)
        ∙ parse_value-object floats fuel _ (
            parse_members-stringify fuel false end k v fs rest
              (omega (arith, h, bracket-length s b'{' b'}')) g tt)

    parse_elements-stringify :
        (fuel : ℕ) (gapped : Bool) (v : Value Double) (vs : Values Double) (rest : List ℕ)
        → suc (length (svs true (cons v vs))) ≤ fuel
        → Readable floats v
        → ReadableValues floats vs
        → parse_elements floats fuel (gap gapped ++ (svs true (cons v vs) ++ b']' ∷ rest))
          ≡ ok (cons v vs, rest)
    parse_elements-stringify zero gapped v vs rest h g gs = ground arith
    parse_elements-stringify (suc fuel) gapped v nil rest h g gs =
        parse_elements-round floats fuel (gap gapped ++ (svs true (cons v nil) ++ b']' ∷ rest))
          (b']' ∷ rest) v
          (parse_element-stringify fuel gapped v nil (b']' ∷ rest) (
            parse_value-stringify fuel v (svs false nil ++ b']' ∷ rest)
              (omega (arith, h, values-length v nil)) g
              (values_behind-Inert floats pretty nil rest)))
    parse_elements-stringify (suc fuel) gapped v (cons w ws) rest h g (g', gs) =
        let s = svs true (cons w ws) in
        parse_elements-round floats fuel
          (gap gapped ++ (svs true (cons v (cons w ws)) ++ b']' ∷ rest))
          (svs false (cons w ws) ++ b']' ∷ rest) v
          (parse_element-stringify fuel gapped v (cons w ws) (b']' ∷ rest) (
            parse_value-stringify fuel v (svs false (cons w ws) ++ b']' ∷ rest)
              (omega (arith, h, values-length v (cons w ws))) g
              (values_behind-Inert floats pretty (cons w ws) rest)))
        ∙ ap
            (λ t.
              after_element floats (parse_elements floats fuel) v
                (next_of b']' (skip_whitespace (t ++ b']' ∷ rest))))
            (values_behind floats pretty w ws)
        ∙ after_element-more floats fuel v ((gap pretty ++ s) ++ b']' ∷ rest) (
            ap (parse_elements floats fuel) (append_assoc (gap pretty) s (b']' ∷ rest))
            ∙ parse_elements-stringify fuel pretty w ws rest
                (omega (
                  arith,
                  h,
                  values-length v (cons w ws),
                  values_behind-length w ws,
                  value-nonempty v g,
                ))
                g' gs)

    parse_members-stringify :
        (fuel : ℕ) (gapped : Bool) (read : Fields Double) (k : List ℕ) (v : Value Double)
        (fs : Fields Double) (rest : List ℕ)
        → suc (length (sfs true (field k v fs))) ≤ fuel
        → ReadableFields floats (field k v fs)
        → Below floats read (field k v fs)
        → parse_members floats fuel read (gap gapped ++ (sfs true (field k v fs) ++ b'}' ∷ rest))
          ≡ ok (extend floats read (field k v fs), rest)
    parse_members-stringify zero gapped read k v fs rest h g b = ground arith
    parse_members-stringify (suc fuel) gapped read k v end rest h (p, g, a, gs) b =
        parse_member-stringify fuel gapped read k v end (b'}' ∷ rest) p (
          parse_value-stringify fuel v (sfs false end ++ b'}' ∷ rest)
            (omega (arith, h, fields-length k v end)) g
            (fields_behind-Inert floats pretty end rest))
        ∙ ap (λ x. ok (x, rest)) (insert-Below floats k v end read b)
    parse_members-stringify (suc fuel) gapped read k v (field j w fs) rest h (p, g, a, gs) b =
        let s = sfs true (field j w fs) in
        parse_member-stringify fuel gapped read k v (field j w fs) (b'}' ∷ rest) p (
          parse_value-stringify fuel v (sfs false (field j w fs) ++ b'}' ∷ rest)
            (omega (arith, h, fields-length k v (field j w fs))) g
            (fields_behind-Inert floats pretty (field j w fs) rest))
        ∙ ap
            (λ t.
              after_member floats (parse_members floats fuel) (insert k v read)
                (next_of b'}' (skip_whitespace (t ++ b'}' ∷ rest))))
            (fields_behind floats pretty j w fs)
        ∙ ap (parse_members floats fuel (insert k v read))
            (append_assoc (gap pretty) s (b'}' ∷ rest))
        ∙ ap (λ x. parse_members floats fuel x (gap pretty ++ (s ++ b'}' ∷ rest)))
            (insert-Below floats k v (field j w fs) read b)
        ∙ parse_members-stringify fuel pretty (extend floats read (field k v end)) j w fs rest
            (omega (arith, h, fields-length k v (field j w fs), fields_behind-length j w fs)) gs
            (Below-extend floats read k v (field j w fs) b a)
        ∙ ap (λ x. ok (x, rest)) (extend_one floats read k v (field j w fs))
