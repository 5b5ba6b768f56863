-- ===== src/Json/Strings.antt =====
-- Strings of Absolute-Runtime/src/json.cpp: `parseString` reads back what `stringifyHelper`
-- writes.
use absolute.Prelude.{
  ℕ, zero, ◌≡◌, refl, ap, ◌∙◌, inl, inr, List, [], ◌∷◌, ◌++◌, ok, ◌==◌, Bool-cases, ==_iff,
}
use absolute.Json.Readable.{Plain}
use mathlib.Core.List.{append_assoc}
use absolute.Json.Text.{parse_string, escape_byte, escape, prepend}

-- One character that is written is read as one character.
parse_string-escape_byte :
    (c : ℕ) (s : List ℕ)
    → parse_string zero (escape_byte c ++ s) ≡ prepend (c ∷ []) (parse_string zero s)
unfolding parse_string escape_byte
parse_string-escape_byte c s = elim (Bool-cases (c == b'"')) [
  | inl same ↦ rw ((==_iff c b'"').0 same) refl
  | inr q ↦ elim (Bool-cases (c == b'\\')) [
    | inl same ↦ rw ((==_iff c b'\\').0 same) refl
    | inr sl ↦ elim (Bool-cases (c == b'\n')) [
      | inl same ↦ rw ((==_iff c b'\n').0 same) refl
      | inr n ↦ elim (Bool-cases (c == b'\r')) [
        | inl same ↦ rw ((==_iff c b'\r').0 same) refl
        | inr r ↦ elim (Bool-cases (c == b'\t')) [
          | inl same ↦ rw ((==_iff c b'\t').0 same) refl
          | inr t ↦ rw (q, sl, n, r, t) (rw (q, sl) refl)
        ]
      ]
    ]
  ]
]

pub parse_string-escape :
    (s rest : List ℕ) → parse_string zero (escape s ++ b'"' ∷ rest) ≡ ok (s, rest)
unfolding escape parse_string
parse_string-escape [] rest = refl
parse_string-escape (c ∷ cs) rest =
    ap (parse_string zero) (append_assoc (escape_byte c) (escape cs) (b'"' ∷ rest))
    ∙ parse_string-escape_byte c (escape cs ++ b'"' ∷ rest)
    ∙ ap (prepend (c ∷ [])) (parse_string-escape cs rest)

-- A plain key is its own escaped form.
pub parse_string-Plain :
    (k rest : List ℕ) → Plain k → parse_string zero (k ++ b'"' ∷ rest) ≡ ok (k, rest)
unfolding parse_string
parse_string-Plain [] rest h = refl
parse_string-Plain (c ∷ cs) rest (q, sl, h) = rw (q, sl) (rw (parse_string-Plain cs rest h) refl)
