-- ===== src/Prelude/Texts.antt =====
-- Texts, as the lists of their bytes, and their equality.
use absolute.Prelude.{
  ℕ, ◌≡◌, ◌≢◌, refl, ap₂, inl, inr, Bool, true, false, List, [], ◌∷◌, ◌==◌, Bool-cases, ==_iff,
  arith,
}

abbrev pub Text : Type 0
Text = List ℕ

unfoldable pub text_eq : Text → Text → Bool
text_eq [] [] = true
text_eq [] (d ∷ ds) = false
text_eq (c ∷ cs) [] = false
text_eq (c ∷ cs) (d ∷ ds) = elim (c == d) [ true ↦ text_eq cs ds | false ↦ false ]

pub text_eq_refl : (k : Text) → text_eq k k ≡ true
unfolding text_eq
text_eq_refl [] = refl
text_eq_refl (c ∷ cs) = ground (arith, text_eq_refl cs)

pub text_eq→eq : (j k : Text) → text_eq j k ≡ true → j ≡ k
unfolding text_eq
text_eq→eq [] [] h = refl
text_eq→eq [] (d ∷ ds) h = cc
text_eq→eq (c ∷ cs) [] h = cc
text_eq→eq (c ∷ cs) (d ∷ ds) h = elim (Bool-cases (c == d)) [
  | inl same ↦ ap₂ (◌∷◌) ((==_iff c d).0 same) (text_eq→eq cs ds (ground (arith, h, same)))
  | inr other ↦ ground (arith, h, other)
]

pub text_eq_other : (j k : Text) → j ≢ k → text_eq j k ≡ false
text_eq_other j k n = elim (Bool-cases (text_eq j k)) [
  | inl same ↦ absurd (n (text_eq→eq j k same))
  | inr other ↦ other
]
