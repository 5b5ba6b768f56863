-- ===== src/Scheduler/Pool/Rings.antt =====
-- The indices that a loop visits which goes round a ring.
use absolute.Prelude.{
  ℕ, zero, suc, ◌+◌, ◌-◌, ◌%◌, ◌≤◌, ◌<◌, ◌≡◌, ◌⊎◌, inl, inr, refl, ap, ◌∙◌, arith,
}
use native.Mathlib.Nat.{mod-eq_of_lt, mod_self}

module _ (size : ℕ) where
  abbrev pub ring : ℕ → ℕ → ℕ
  ring start zero = start
  ring start (suc steps) = ring ((start + 1) % size) steps

  step-lt :
      (v : ℕ)
      → v < size
      → ((v + 1 < size) × ((v + 1) % size ≡ v + 1)) ⊎ ((v + 1 ≡ size) × ((v + 1) % size ≡ 0))
  step-lt v h = elim (lt_or_last v h) [
    | inl less ↦ inl (less, mod-eq_of_lt less)
    | inr last ↦ inr (last, ap (λ x. x % size) last ∙ mod_self size)
  ]
    where
      lt_or_last : (v : ℕ) → v < size → (v + 1 < size) ⊎ (v + 1 ≡ size)
      lt_or_last v h = omega arith

  pub step_in : (v : ℕ) → v < size → (v + 1) % size < size
  step_in v h = elim (step-lt v h) [
    | inl (a, b) ↦ omega (arith, a, b)
    | inr (a, b) ↦ omega (arith, a, b, h)
  ]

  ring-forward : (steps v : ℕ) → v + steps < size → ring v steps ≡ v + steps
  ring-forward zero v h = omega arith
  ring-forward (suc steps) v h = elim (step-lt v (omega (arith, h))) [
    | inl (a, b) ↦
        ap (λ x. ring x steps) b ∙ ring-forward steps (v + 1) (omega (arith, h)) ∙ omega arith
    | inr (a, b) ↦ absurd (omega (arith, a, h))
  ]

  ring-around :
      (k steps v i : ℕ) → v + k + 1 ≡ size → i < size → steps ≡ k + i → ring v (suc steps) ≡ i
  ring-around zero steps v i h l e = elim (step-lt v (omega (arith, h))) [
    | inl (a, b) ↦ absurd (omega (arith, a, h))
    | inr (a, b) ↦
        ap (λ x. ring x steps) b ∙ ring-forward steps 0 (omega (arith, e, l)) ∙ omega (arith, e)
  ]
  ring-around (suc k) zero v i h l e = absurd (omega (arith, e))
  ring-around (suc k) (suc steps) v i h l e = elim (step-lt v (omega (arith, h))) [
    | inl (a, b) ↦
        ap (λ x. ring x (suc steps)) b
        ∙ ring-around k steps (v + 1) i (omega (arith, h)) l (omega (arith, e))
    | inr (a, b) ↦ absurd (omega (arith, a, h))
  ]

  -- Each index is visited within a turn.
  pub ring_visits :
      (start i : ℕ)
      → start < size
      → i < size
      → (steps : ℕ) × (steps < size) × (ring start steps ≡ i)
  ring_visits start i h k = elim (before_or_behind start i) [
    | inl behind ↦ (
      i - start,
      omega (arith, k),
      ring-forward (i - start) start (omega (arith, k, behind)) ∙ omega (arith, behind),
    )
    | inr before ↦ (
      suc (size - start - 1 + i),
      omega (arith, h, before),
      ring-around (size - start - 1) (size - start - 1 + i) start i (omega (arith, h)) k refl,
    )
  ]
    where
      before_or_behind : (a b : ℕ) → (a ≤ b) ⊎ (b < a)
      before_or_behind a b = omega arith
