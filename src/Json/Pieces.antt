-- ===== src/Json/Pieces.antt =====
-- The parser of Absolute-Runtime/src/json.cpp on the pieces that its printer writes.
use absolute.Prelude.{
  ℕ, zero, suc, ◌≡◌, refl, ap, ◌∙◌, Bool, true, false, List, [], ◌∷◌, ◌++◌, some, ok, if◌then◌else◌,
  arith,
}
use absolute.Json.Text.{skip_whitespace}
use absolute.Json.Numbers.{Floats, scan_number}
use absolute.Json.Tree.{
  Value, null, bool, number, string, array, object, Values, nil, cons, Fields, end, field, insert,
}
use absolute.Json.Parser.{
  start_of, at_number, more, neither, next_of, parse_key, parse_value, parse_elements,
  parse_members, parse_at, after_element, after_member, number_of, parse_number,
}
use absolute.Json.Printer.{show_number, stringify_value, stringify_values, stringify_fields, colon}
use absolute.Json.Readable.{Plain, ReadsBack, Readable}
use absolute.Json.Strings.{parse_string-Plain}
use absolute.Json.Tokens.{Inert, scan_number-Local}

-- The space that the pretty mode writes behind a comma or a colon.
abbrev pub gap : Bool → List ℕ
gap pretty = if pretty then b' ' ∷ [] else []

-- Bytes that are no white space and no end of an array.
abbrev pub Opens : List ℕ → Type 0
Opens s = (skip_whitespace s ≡ s) × (next_of b']' s ≡ neither)

module _ (floats : Floats) where
  open floats use {Double, strtod}

  pub parse_value-gap :
      (pretty : Bool) (fuel : ℕ) (s : List ℕ)
      → parse_value floats fuel (gap pretty ++ s) ≡ parse_value floats fuel s
  unfolding parse_value
  parse_value-gap pretty zero s = refl
  parse_value-gap true (suc fuel) s = refl
  parse_value-gap false (suc fuel) s = refl

  pub number-Opens : (c : ℕ) (t : List ℕ) → start_of c ≡ at_number → Opens (c ∷ t)
  unfolding skip_whitespace next_of start_of
  number-Opens c t h = ground arith

  pub value-Opens :
      (pretty : Bool) (v : Value Double) (rest : List ℕ)
      → Readable floats v
      → Opens (stringify_value floats pretty v ++ rest)
  unfolding skip_whitespace next_of Readable stringify_value
  value-Opens pretty null rest h = (refl, refl)
  value-Opens pretty (bool true) rest h = (refl, refl)
  value-Opens pretty (bool false) rest h = (refl, refl)
  value-Opens pretty (number d) rest ((c, t, e, starts), scanned, reads) =
      rw e (number-Opens c (t ++ rest) starts)
  value-Opens pretty (string s) rest h = (refl, refl)
  value-Opens pretty (array vs) rest h = (refl, refl)
  value-Opens pretty (object fs) rest h = (refl, refl)

  pub parse_number-scanned :
      (s text rest : List ℕ) (d : Double)
      → scan_number s ≡ (text, rest)
      → strtod text ≡ some d
      → parse_number floats s ≡ ok (number d, rest)
  unfolding parse_number
  parse_number-scanned s text rest d scanned reads =
      ap (number_of floats) scanned ∙ rw (reads, number_of) refl

  pub parse_number-show :
      (d : Double) (rest : List ℕ)
      → ReadsBack floats d
      → Inert rest
      → parse_number floats (show_number floats d ++ rest) ≡ ok (number d, rest)
  parse_number-show d rest (h, scanned, reads) i =
      let text = show_number floats d in
      parse_number-scanned (text ++ rest) text rest d
        (scan_number-Local text rest i ∙ rw scanned refl) reads

  pub starts-Start : (c : ℕ) (t : List ℕ) → start_of c ≡ at_number → skip_whitespace (c ∷ t) ≡ c ∷ t
  unfolding skip_whitespace start_of
  starts-Start c t h = ground arith

  pub parse_value-number :
      (fuel : ℕ) (c : ℕ) (t : List ℕ)
      → start_of c ≡ at_number
      → parse_value floats (suc fuel) (c ∷ t) ≡ parse_number floats (c ∷ t)
  unfolding parse_value
  parse_value-number fuel c t h = rw (starts-Start c t h, parse_value) (rw (h, parse_at) refl)

  -- An array that does not close at once is read by the loop.
  pub parse_value-array :
      (fuel : ℕ) (s : List ℕ) {vs : Values Double} {rest : List ℕ}
      → Opens s
      → parse_elements floats fuel s ≡ ok (vs, rest)
      → parse_value floats (suc fuel) (b'[' ∷ s) ≡ ok (array vs, rest)
  unfolding parse_value
  parse_value-array fuel s (blank, open_one) h = rw (blank, open_one, h) refl

  -- A round of the loop of an array.
  pub parse_elements-round :
      (fuel : ℕ) (s rest : List ℕ) (v : Value Double)
      → parse_value floats fuel s ≡ ok (v, rest)
      → parse_elements floats (suc fuel) s
        ≡ after_element floats (parse_elements floats fuel) v (next_of b']' (skip_whitespace rest))
  unfolding parse_elements
  parse_elements-round zero [] rest v h = cc
  parse_elements-round (suc fuel) [] rest v h = cc
  parse_elements-round fuel (c ∷ cs) rest v h = rw (h) refl

  -- What follows an element of an array: a bracket or a comma with a gap.
  pub values_behind-Inert :
      (pretty : Bool) (vs : Values Double) (rest : List ℕ)
      → Inert (stringify_values floats pretty false vs ++ b']' ∷ rest)
  unfolding stringify_values
  values_behind-Inert pretty nil rest = refl
  values_behind-Inert true (cons v vs) rest = refl
  values_behind-Inert false (cons v vs) rest = refl

  pub fields_behind-Inert :
      (pretty : Bool) (fs : Fields Double) (rest : List ℕ)
      → Inert (stringify_fields floats pretty false fs ++ b'}' ∷ rest)
  unfolding stringify_fields
  fields_behind-Inert pretty end rest = refl
  fields_behind-Inert true (field k v fs) rest = refl
  fields_behind-Inert false (field k v fs) rest = refl

  -- The separator is a comma and the gap.
  pub values_behind :
      (pretty : Bool) (v : Value Double) (vs : Values Double)
      → stringify_values floats pretty false (cons v vs)
        ≡ b',' ∷ (gap pretty ++ stringify_values floats pretty true (cons v vs))
  unfolding stringify_values
  values_behind true v vs = refl
  values_behind false v vs = refl

  pub fields_behind :
      (pretty : Bool) (k : List ℕ) (v : Value Double) (fs : Fields Double)
      → stringify_fields floats pretty false (field k v fs)
        ≡ b',' ∷ (gap pretty ++ stringify_fields floats pretty true (field k v fs))
  unfolding stringify_fields
  fields_behind true k v fs = refl
  fields_behind false k v fs = refl

  -- A key with its quotes and its colon.
  pub parse_key-Plain :
      (pretty gapped : Bool) (k rest : List ℕ)
      → Plain k
      → parse_key (gap gapped ++ (b'"' ∷ (k ++ (colon pretty ++ rest))))
        ≡ ok (k, gap pretty ++ rest)
  unfolding parse_key
  parse_key-Plain true true k rest h = rw (parse_string-Plain k (b':' ∷ b' ' ∷ rest) h) refl
  parse_key-Plain true false k rest h = rw (parse_string-Plain k (b':' ∷ b' ' ∷ rest) h) refl
  parse_key-Plain false true k rest h = rw (parse_string-Plain k (b':' ∷ rest) h) refl
  parse_key-Plain false false k rest h = rw (parse_string-Plain k (b':' ∷ rest) h) refl

  -- A round of the loop of an object.
  pub parse_members-round :
      (fuel : ℕ) (read : Fields Double) (s t rest : List ℕ) (k : List ℕ) (v : Value Double)
      → parse_key s ≡ ok (k, t)
      → parse_value floats fuel t ≡ ok (v, rest)
      → parse_members floats (suc fuel) read s
        ≡ after_member floats
            (parse_members floats fuel)
            (insert k v read)
            (next_of b'}' (skip_whitespace rest))
  unfolding parse_members parse_key
  parse_members-round fuel read [] t rest k v g h = cc
  parse_members-round fuel read (c ∷ cs) t rest k v g h = rw (g, h) refl

  -- A loop that goes on behind a comma.
  pub after_element-more :
      (fuel : ℕ) (v : Value Double) (t : List ℕ) {vs : Values Double} {rest : List ℕ}
      → parse_elements floats fuel t ≡ ok (vs, rest)
      → after_element floats (parse_elements floats fuel) v (more t) ≡ ok (cons v vs, rest)
  unfolding after_element
  after_element-more fuel v t h = rw h refl

  -- An object that does not close at once is read by the loop.
  pub parse_value-object :
      (fuel : ℕ) (t : List ℕ) {fs : Fields Double} {rest : List ℕ}
      → parse_members floats fuel end (b'"' ∷ t) ≡ ok (fs, rest)
      → parse_value floats (suc fuel) (b'{' ∷ b'"' ∷ t) ≡ ok (object fs, rest)
  unfolding parse_value
  parse_value-object fuel t h = rw h refl
