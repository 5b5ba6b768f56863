-- ===== src/Json/Progress.antt =====
-- The scanning functions of Json/Text, Json/Numbers and Json/Parser end, and leave no more bytes
-- than they are given.
use absolute.Prelude.{
  ℕ, zero, suc, Bool, ◌≤◌, ◌<◌, ◌≡◌, ◌≢◌, ◌⊎◌, refl, true, List, [], ◌∷◌, some, Result, ok, err,
  ◌>>=◌, arith, ◌==◌, length, Bool-cases, Option-cases, inl, inr,
}
use absolute.Json.Text.{
  JsonError, out_of_fuel, skip_whitespace, parse_string, after_round, strip_prefix, round, prepend,
  Round, stop, fail, append, expected_key, expected_colon,
}
use absolute.Json.Numbers.{
  Floats, scan_number, span_digits, optional, both, nothing_more, Token, is_exponent, is_sign,
  minus, fraction, sign, exponent,
}
use absolute.Json.Parser.{
  null_text, true_text, false_text, expect_byte, parse_key, parse_null, parse_bool, number_of,
  parse_number, next_of, Next, closed, more, neither,
}

-- The call fails for a reason of its own, or leaves at most `n` bytes.
abbrev pub Ends : {A : Type 0} → ℕ → Result JsonError (A × List ℕ) → Type 0
Ends n (ok r) = length r.1 ≤ n
Ends n (err e) = e ≢ out_of_fuel

pub bind-Ends :
    {A B : Type 0} (m n : ℕ) (r : Result JsonError (A × List ℕ))
    (f : A × List ℕ → Result JsonError (B × List ℕ))
    → Ends m r
    → ((p : A × List ℕ) → length p.1 ≤ m → Ends n (f p))
    → Ends n (r >>= f)
bind-Ends m n (ok p) f h k = k p h
bind-Ends m n (err e) f h k = h

pub skip_whitespace-le : (s : List ℕ) → length (skip_whitespace s) ≤ length s
unfolding skip_whitespace
skip_whitespace-le [] = omega arith
skip_whitespace-le (c ∷ cs) = ground (arith, skip_whitespace-le cs)

-- Each stage of a number's token splits the text.
abbrev Splits : (List ℕ → Token) → Type 0
Splits g = (s : List ℕ) → length (g s).1 ≤ length s

span_digits-Splits : Splits span_digits
unfolding span_digits
span_digits-Splits [] = omega arith
span_digits-Splits (c ∷ cs) = ground (arith, span_digits-Splits cs)

optional-Splits : (test : ℕ → Bool) (g : List ℕ → Token) → Splits g → Splits (optional test g)
unfolding optional
optional-Splits test g h [] = omega arith
optional-Splits test g h (c ∷ cs) = ground (arith, h cs)

both-Splits : (g h : List ℕ → Token) → Splits g → Splits h → Splits (both g h)
unfolding both
both-Splits g h p q s = omega (arith, p s, q (g s).1)

nothing-Splits : Splits nothing_more
nothing-Splits s = omega arith

scan_number-Splits : Splits scan_number
unfolding scan_number
scan_number-Splits =
    both-Splits (both minus span_digits) (both fraction exponent)
      (both-Splits minus span_digits (optional-Splits (λ c. c == b'-') nothing_more nothing-Splits)
        span_digits-Splits)
      (both-Splits fraction exponent
        (optional-Splits (λ c. c == b'.') span_digits span_digits-Splits)
        (optional-Splits is_exponent (both sign span_digits) (
          both-Splits sign span_digits (optional-Splits is_sign nothing_more nothing-Splits)
            span_digits-Splits)))

prepend-Ends :
    (n : ℕ) (bytes : List ℕ) (r : Result JsonError (List ℕ × List ℕ))
    → Ends n r
    → Ends n (prepend bytes r)
prepend-Ends n bytes (ok r) h = h
prepend-Ends n bytes (err e) h = h

-- A round fails with an error of its own.
abbrev Fails : Round → Type 0
Fails (fail e) = e ≢ out_of_fuel
Fails _ = Unit {0}

round-Fails : (c : ℕ) (cs : List ℕ) → Fails (round c cs)
unfolding round
round-Fails c [] = ground arith
round-Fails c (d ∷ ds) = ground arith

pub Ends-more :
    {A : Type 0} (m n : ℕ) (r : Result JsonError (A × List ℕ)) → m ≤ n → Ends m r → Ends n r
Ends-more m n (ok r) h k = omega arith
Ends-more m n (err e) h k = k

after_round-Ends :
    (r : Round) (cs : List ℕ) (parse : ℕ → Result JsonError (List ℕ × List ℕ))
    → Fails r
    → ((skip : ℕ) → Ends (length cs) (parse skip))
    → Ends (length cs) (after_round r cs parse)
unfolding after_round
after_round-Ends stop cs parse f h = omega arith
after_round-Ends (fail e) cs parse f h = f
after_round-Ends (append bytes skip) cs parse f h =
    prepend-Ends (length cs) bytes (parse skip) (h skip)

pub parse_string-Ends : (skip : ℕ) (s : List ℕ) → Ends (length s) (parse_string skip s)
unfolding parse_string
parse_string-Ends skip [] = λ e. cc
parse_string-Ends (suc skip) (c ∷ cs) =
    Ends-more (length cs) _ (parse_string skip cs) (omega arith) (parse_string-Ends skip cs)
parse_string-Ends zero (c ∷ cs) =
    Ends-more (length cs) _ (after_round (round c cs) cs (λ skip. parse_string skip cs))
      (omega arith)
      (after_round-Ends (round c cs) cs (λ skip. parse_string skip cs) (round-Fails c cs)
        (λ skip. parse_string-Ends skip cs))

-- A byte that was expected is gone.
expect_byte-Ends :
    (c : ℕ) (e : JsonError) (s : List ℕ)
    → e ≢ out_of_fuel
    → (expect_byte c e s ≡ err e)
      ⊎ ((t : List ℕ) × (expect_byte c e s ≡ ok t) × (length t < length s))
unfolding expect_byte
expect_byte-Ends c e [] h = inl refl
expect_byte-Ends c e (x ∷ xs) h = elim (Bool-cases (x == c)) [
  | inl same ↦ inr (xs, rw same, omega arith)
  | inr other ↦ inl (rw other)
]

-- The end of a key, whose bytes are read.
key_colon-Ends :
    (n : ℕ) (r : List ℕ × List ℕ)
    → length r.1 ≤ n
    → Ends n (do behind ← expect_byte b':' expected_colon (skip_whitespace r.1); ok (r.0, behind))
key_colon-Ends n r below =
    elim (expect_byte-Ends b':' expected_colon (skip_whitespace r.1) (λ same. cc)) [
      | inl e ↦ rw e (λ same. cc)
      | inr (t, e, shorter) ↦ rw e (omega (arith, below, shorter, skip_whitespace-le r.1))
    ]

pub parse_key-Ends : (s : List ℕ) → Ends (length s) (parse_key s)
unfolding parse_key
parse_key-Ends s = elim (expect_byte-Ends b'"' expected_key (skip_whitespace s) (λ same. cc)) [
  | inl e ↦ rw (e, parse_key) (λ same. cc)
  | inr (text, e, shorter) ↦
      rw (e, parse_key)
        (bind-Ends (length text) (length s) (parse_string zero text) _ (parse_string-Ends zero text)
          (λ r below.
            key_colon-Ends (length s) r (omega (arith, below, shorter, skip_whitespace-le s))))
]

same_tail :
    (x : ℕ) (xs : List ℕ) (c : ℕ) (cs t : List ℕ)
    → (c == x) ≡ true
    → strip_prefix (x ∷ xs) (c ∷ cs) ≡ some t
    → strip_prefix xs cs ≡ some t
unfolding strip_prefix
same_tail x xs c cs t same h = cc

strip_prefix-le : (p s t : List ℕ) → strip_prefix p s ≡ some t → length t ≤ length s
unfolding strip_prefix
strip_prefix-le [] s t h = ground arith
strip_prefix-le (x ∷ xs) [] t h = cc
strip_prefix-le (x ∷ xs) (c ∷ cs) t h = elim (Bool-cases (c == x)) [
  | inl same ↦ omega (arith, strip_prefix-le xs cs t (same_tail x xs c cs t same h))
  | inr other ↦ cc
]

pub parse_null-Ends : (D : Type 0) (s : List ℕ) → Ends (length s) (parse_null {D = D} s)
unfolding parse_null
parse_null-Ends D s = elim (Option-cases (strip_prefix null_text s)) [
  | inl e ↦ rw (e, parse_null) (λ same. cc)
  | inr (t, e) ↦ rw (e, parse_null) (strip_prefix-le null_text s t e)
]

pub parse_bool-Ends : (D : Type 0) (s : List ℕ) → Ends (length s) (parse_bool {D = D} s)
unfolding parse_bool
parse_bool-Ends D s = elim (Option-cases (strip_prefix true_text s)) [
  | inl e ↦ elim (Option-cases (strip_prefix false_text s)) [
    | inl f ↦ rw (e, f, parse_bool) (λ same. cc)
    | inr (t, f) ↦ rw (e, f, parse_bool) (strip_prefix-le false_text s t f)
  ]
  | inr (t, e) ↦ rw (e, parse_bool) (strip_prefix-le true_text s t e)
]

number_of-Ends : (floats : Floats) (token : Token) → Ends (length token.1) (number_of floats token)
unfolding number_of
number_of-Ends floats (text, rest) = elim (Option-cases (floats.strtod text)) [
  | inl e ↦ rw (e, number_of) (λ same. cc)
  | inr (d, e) ↦ rw (e, number_of) (omega arith)
]

pub parse_number-Ends : (floats : Floats) (s : List ℕ) → Ends (length s) (parse_number floats s)
unfolding parse_number
parse_number-Ends floats s =
    Ends-more (length (scan_number s).1) (length s) (number_of floats (scan_number s))
      (scan_number-Splits s) (number_of-Ends floats (scan_number s))

-- What is left behind a separator is shorter.
abbrev pub Behind : ℕ → Next → Type 0
Behind n (closed t) = length t < n
Behind n (more t) = length t < n
Behind n neither = Unit {0}

pub next_of-Behind : (close : ℕ) (s : List ℕ) → Behind (length s) (next_of close s)
unfolding next_of
next_of-Behind close [] = tt
next_of-Behind close (c ∷ cs) = elim (Bool-cases (c == close)) [
  | inl same ↦ rw same (omega arith)
  | inr other ↦ elim (Bool-cases (c == b',')) [
    | inl same ↦ rw (other, same) (omega arith)
    | inr neither_one ↦ rw (other, neither_one) tt
  ]
]
