-- ===== src/Json/Tokens.antt =====
-- The token of `parseNumber` in Absolute-Runtime/src/json.cpp does not depend on a separator or a
-- closing bracket behind it.
use absolute.Prelude.{
  ℕ, ◌≡◌, refl, ◌∙◌, Bool, true, false, ◌||◌, inl, inr, List, [], ◌∷◌, ◌++◌, ◌==◌, Bool-cases,
  arith,
}
use absolute.Json.Text.{is_digit}
use absolute.Json.Numbers.{
  Token, scan_number, span_digits, optional, both, nothing_more, is_exponent, is_sign, minus,
  fraction, sign, exponent,
}

-- A separator, or a bracket that closes.
abbrev pub is_behind : ℕ → Bool
is_behind c = c == b',' || c == b']' || c == b'}'

-- What can stand behind a value.
abbrev pub Inert : List ℕ → Type 0
Inert [] = Unit {0}
Inert (c ∷ cs) = is_behind c ≡ true

abbrev Local : (List ℕ → Token) → Type 0
Local g = (t rest : List ℕ) → Inert rest → g (t ++ rest) ≡ ((g t).0, (g t).1 ++ rest)

behind-digit : (c : ℕ) → is_behind c ≡ true → is_digit c ≡ false
behind-digit c h = ground arith

span_digits-digit :
    (c : ℕ) (cs : List ℕ)
    → is_digit c ≡ true
    → span_digits (c ∷ cs) ≡ (c ∷ (span_digits cs).0, (span_digits cs).1)
unfolding span_digits
span_digits-digit c cs h = rw (h, span_digits) refl

span_digits-other : (c : ℕ) (cs : List ℕ) → is_digit c ≡ false → span_digits (c ∷ cs) ≡ ([], c ∷ cs)
unfolding span_digits
span_digits-other c cs h = rw (h, span_digits) refl

optional-taken :
    (test : ℕ → Bool) (g : List ℕ → Token) (c : ℕ) (cs : List ℕ)
    → test c ≡ true
    → optional test g (c ∷ cs) ≡ (c ∷ (g cs).0, (g cs).1)
unfolding optional
optional-taken test g c cs h = rw (h, optional) refl

optional-left :
    (test : ℕ → Bool) (g : List ℕ → Token) (c : ℕ) (cs : List ℕ)
    → test c ≡ false
    → optional test g (c ∷ cs) ≡ ([], c ∷ cs)
unfolding optional
optional-left test g c cs h = rw (h, optional) refl

span_digits-Local : Local span_digits
unfolding span_digits
span_digits-Local [] [] h = refl
span_digits-Local [] (c ∷ cs) h = rw (behind-digit c h, span_digits) refl
span_digits-Local (c ∷ cs) rest h = elim (Bool-cases (is_digit c)) [
  | inl same ↦
      span_digits-digit c (cs ++ rest) same
      ∙ rw (span_digits-digit c cs same, span_digits-Local cs rest h) refl
  | inr other ↦ span_digits-other c (cs ++ rest) other ∙ rw (span_digits-other c cs other) refl
]

optional-Local :
    (test : ℕ → Bool) (g : List ℕ → Token)
    → ((c : ℕ) → is_behind c ≡ true → test c ≡ false)
    → Local g
    → Local (optional test g)
unfolding optional
optional-Local test g p h [] [] i = refl
optional-Local test g p h [] (c ∷ cs) i = rw (p c i) refl
optional-Local test g p h (c ∷ cs) rest i = elim (Bool-cases (test c)) [
  | inl same ↦
      optional-taken test g c (cs ++ rest) same
      ∙ rw (optional-taken test g c cs same, h cs rest i) refl
  | inr other ↦
      optional-left test g c (cs ++ rest) other ∙ rw (optional-left test g c cs other) refl
]

both-Local : (g h : List ℕ → Token) → Local g → Local h → Local (both g h)
unfolding both
both-Local g h p q t rest i = rw (p t rest i, q (g t).1 rest i) refl

nothing-Local : Local nothing_more
nothing-Local t rest i = refl

pub scan_number-Local : Local scan_number
unfolding scan_number
scan_number-Local =
    both-Local (both minus span_digits) (both fraction exponent)
      (both-Local minus span_digits
        (optional-Local (λ c. c == b'-') nothing_more (λ c i. ground arith) nothing-Local)
        span_digits-Local)
      (both-Local fraction exponent
        (optional-Local (λ c. c == b'.') span_digits (λ c i. ground arith) span_digits-Local)
        (optional-Local is_exponent (both sign span_digits) (λ c i. ground arith)
          (both-Local sign span_digits
            (optional-Local is_sign nothing_more (λ c i. ground arith) nothing-Local)
            span_digits-Local)))
