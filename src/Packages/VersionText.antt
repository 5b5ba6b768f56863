-- ===== src/Packages/VersionText.antt =====
-- Absolute-Compiler/src/package_manager.cpp: what `ToString` writes for a version and `Parse` reads.
use absolute.Prelude.{
  ℕ, zero, suc, ◌+◌, ◌*◌, ◌-◌, ◌/◌, ◌%◌, ◌^◌, ◌<◌, ◌≡◌, refl, ◌∙◌, true, false, List, [], ◌∷◌, ◌++◌,
  some, ok, ltb, ◌==◌, if◌then◌else◌, arith, Bool-cases, inl, inr,
}
use absolute.Datetime.IsoText.{decimal}
use absolute.Packages.Versions.{
  SemVer, is_digit, span_digits, dot_number, one_line, suffix, captures_of, version_match,
  digits_value, stoi, int_limit, parse_captures, parse, to_string, prerelease_text,
}

abbrev AllDigits : List ℕ → Type 0
AllDigits [] = Unit
AllDigits (c ∷ cs) = (is_digit c ≡ true) × AllDigits cs

-- The text does not go on with a digit.
abbrev Ends : List ℕ → Type 0
Ends [] = Unit
Ends (c ∷ cs) = is_digit c ≡ false

digits-append : (a b : List ℕ) → AllDigits a → AllDigits b → AllDigits (a ++ b)
digits-append [] b h k = k
digits-append (c ∷ cs) b (h, t) k = (h, digits-append cs b t k)

last_digit : (n : ℕ) → is_digit (b'0' + n % 10) ≡ true
last_digit n = ground arith

decimal-AllDigits : (w n : ℕ) → AllDigits (decimal w n)
unfolding decimal
decimal-AllDigits zero n = tt
decimal-AllDigits (suc w) n = elim (Bool-cases (ltb n 10)) [
  | inl small ↦ rw small (last_digit n, tt)
  | inr large ↦ rw large (
      digits-append (decimal w (n / 10)) ((b'0' + n % 10) ∷ []) (decimal-AllDigits w (n / 10))
        (last_digit n, tt))
]

span-digits : (ds rest : List ℕ) → AllDigits ds → Ends rest → span_digits (ds ++ rest) ≡ (ds, rest)
unfolding span_digits
span-digits [] [] d e = refl
span-digits [] (c ∷ cs) d e = rw (e, span_digits) refl
span-digits (c ∷ cs) rest (d, ds) e = rw (d, span_digits) (rw (span-digits cs rest ds e) refl)

value-append :
    (acc c : ℕ) (ds : List ℕ)
    → digits_value acc (ds ++ c ∷ []) ≡ digits_value acc ds * 10 + (c - b'0')
unfolding digits_value
value-append acc c [] = refl
value-append acc c (d ∷ ds) = value-append (acc * 10 + (d - b'0')) c ds

digits_value-decimal : (w n : ℕ) → n < 10 ^ w → digits_value 0 (decimal w n) ≡ n
unfolding decimal digits_value
digits_value-decimal zero n h = ground (arith, h)
digits_value-decimal (suc w) n h = elim (Bool-cases (ltb n 10)) [
  | inl small ↦ rw small (ground (arith, small))
  | inr large ↦ rw large (
      value-append 0 (b'0' + n % 10) (decimal w (n / 10))
      ∙ rw (digits_value-decimal w (n / 10) (omega (arith, h))) (omega arith))
]

stoi-decimal : (n : ℕ) → n < int_limit → stoi (decimal 10 n) ≡ ok n
unfolding stoi
stoi-decimal n h = rw (digits_value-decimal 10 n (omega (arith, h))) (ground (arith, h))

-- The decimal digits of a number are some.
Digits : List ℕ → Type 0
Digits s = (d : ℕ) × (ds : List ℕ) × (s ≡ d ∷ ds) × AllDigits (d ∷ ds)

Digits-some : (a b : List ℕ) (c : ℕ) → AllDigits (a ++ c ∷ b) → Digits (a ++ c ∷ b)
unfolding Digits
Digits-some [] b c h = (c, b, refl, h)
Digits-some (d ∷ ds) b c h = (d, ds ++ c ∷ b, refl, h)

decimal-Digits : (n : ℕ) → Digits (decimal 10 n)
unfolding decimal
decimal-Digits n =
    Digits-some (if ltb n 10 then [] else decimal 9 (n / 10)) [] (b'0' + n % 10)
      (decimal-AllDigits 10 n)

dot-Digits :
    (s rest : List ℕ) → Digits s → Ends rest → dot_number (b'.' ∷ (s ++ rest)) ≡ (some s, rest)
unfolding dot_number Digits
dot-Digits s rest (d, ds, e, h) end = rw e (rw (span-digits (d ∷ ds) rest h end) refl)

prerelease-Ends : (s : List ℕ) → Ends (prerelease_text s)
prerelease-Ends [] = tt
prerelease-Ends (c ∷ cs) = refl

suffix-prerelease : (s : List ℕ) → one_line s ≡ true → suffix (prerelease_text s) ≡ some s
unfolding suffix
suffix-prerelease [] h = refl
suffix-prerelease (c ∷ cs) h = rw h refl

digit-not_v : (d : ℕ) → is_digit d ≡ true → (d == b'v') ≡ false
digit-not_v d h = ground (arith, h)

match-Digits :
    (a b c s : List ℕ)
    → Digits a
    → Digits b
    → Digits c
    → one_line s ≡ true
    → version_match (a ++ b'.' ∷ (b ++ b'.' ∷ (c ++ prerelease_text s)))
      ≡ some (record { first = a; second = some b; third = some c; last = s })
unfolding version_match captures_of Digits
match-Digits a b c s (d, ds, e, h) hb hc line =
    let back = b'.' ∷ (c ++ prerelease_text s) in
    let first = span-digits (d ∷ ds) (b'.' ∷ (b ++ back)) h refl in
    let second = dot-Digits b back hb refl in
    let third = dot-Digits c (prerelease_text s) hc (prerelease-Ends s) in
    let fourth = suffix-prerelease s line in
    let other = digit-not_v d (h.0) in
    rw e (rw (other, first) (simp (captures_of, second, third, fourth)))

-- A version that has numbers of an `int` and a prerelease on one line, or none, is what
-- `SemVer::Parse` reads from the text that `ToString` writes for it.
pub parse-to_string :
    (v : SemVer)
    → v.major < int_limit
    → v.minor < int_limit
    → v.patch < int_limit
    → one_line v.prerelease ≡ true
    → parse (to_string v) ≡ ok v
unfolding parse parse_captures to_string
parse-to_string v a b c line =
    rw
      (match-Digits (decimal 10 v.major) (decimal 10 v.minor) (decimal 10 v.patch) v.prerelease
        (decimal-Digits v.major) (decimal-Digits v.minor) (decimal-Digits v.patch) line)
      (rw (stoi-decimal v.major a) (rw (stoi-decimal v.minor b) (rw (stoi-decimal v.patch c) refl)))
