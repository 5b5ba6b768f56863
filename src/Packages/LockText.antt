-- ===== src/Packages/LockText.antt =====
-- Absolute-Compiler/src/package_manager.cpp: `LoadLockfile` reads what `SaveLockfile` writes. Here are
-- the parts of the patterns on the parts of the text.
use absolute.Prelude.{
  ℕ, ◌≡◌, refl, true, false, ◌⊎◌, inl, inr, [], ◌∷◌, ◌++◌, none, some, ◌==◌, Bool-cases, arith,
}
use absolute.Prelude.Texts.{Text}
use absolute.Json.Text.{strip_prefix}
use absolute.Packages.Documents.{skip_white, span_until, quoted, pair_at}
use absolute.Packages.Manifests.{quote}

-- No byte is `c`.
abbrev pub Without : ℕ → Text → Type 0
Without c [] = Unit
Without c (x ∷ xs) = ((x == c) ≡ false) × Without c xs

-- A text that can stand between quotes.
abbrev pub IsPlain : Text → Type 0
IsPlain [] = ⊥
IsPlain (c ∷ cs) = Without b'"' (c ∷ cs)

pub span_until-Without :
    (c : ℕ) (s rest : Text) → Without c s → span_until c (s ++ c ∷ rest) ≡ (s, c ∷ rest)
unfolding span_until
span_until-Without c [] rest h = rw (same c, span_until) refl
  where
    same : (a : ℕ) → (a == a) ≡ true
    same a = ground arith
span_until-Without c (x ∷ xs) rest (h, t) =
    rw (h, span_until) (rw (span_until-Without c xs rest t) refl)

pub quoted-quote : (s rest : Text) → IsPlain s → quoted (quote s rest) ≡ some (s, rest)
unfolding quoted
quoted-quote [] rest h = absurd h
quoted-quote (c ∷ cs) rest h = rw (span_until-Without b'"' (c ∷ cs) rest h, quoted) refl

-- A pair where an entry stands.
pub pair_at-entry :
    (name val rest : Text)
    → IsPlain name
    → IsPlain val
    → pair_at (quote name (b':' ∷ b' ' ∷ quote val rest)) ≡ some ((name, val), rest)
unfolding pair_at skip_white
pair_at-entry name val rest h k =
    rw (quoted-quote name (b':' ∷ b' ' ∷ quote val rest) h, pair_at)
      (rw (quoted-quote val rest k, pair_at) refl)

pub Without-append : (c : ℕ) (s t : Text) → Without c s → Without c t → Without c (s ++ t)
Without-append c [] t h k = k
Without-append c (x ∷ s) t (h, hs) k = (h, Without-append c s t hs k)

-- A text between quotes is the key of a pattern, or it is not.
pub strip_prefix-cases :
    (key name rest : Text)
    → Without b'"' key
    → Without b'"' name
    → (strip_prefix (key ++ b'"' ∷ []) (name ++ b'"' ∷ rest) ≡ none)
      ⊎ (strip_prefix (key ++ b'"' ∷ []) (name ++ b'"' ∷ rest) ≡ some rest)
unfolding strip_prefix
strip_prefix-cases [] [] rest h k = inr refl
strip_prefix-cases [] (n ∷ name) rest h (k, _) = inl (rw (k, strip_prefix) refl)
strip_prefix-cases (c ∷ key) [] rest (h, _) k = inl (rw (apart, strip_prefix) refl)
  where
    apart : (b'"' == c) ≡ false
    apart = ground (arith, h)
strip_prefix-cases (c ∷ key) (n ∷ name) rest (_, h) (_, k) = elim (Bool-cases (n == c)) [
  | inr other ↦ inl (rw (other, strip_prefix) refl)
  | inl same ↦ elim (strip_prefix-cases key name rest h k) [
    | inl e ↦ inl (rw (same, strip_prefix) e)
    | inr e ↦ inr (rw (same, strip_prefix) e)
  ]
]
