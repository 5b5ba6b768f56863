-- ===== src/Random/Range.antt =====
-- Absolute-Runtime/src/random.cpp: `absolute_random_range`.
use absolute.Prelude.{
  ℕ, zero, suc, ◌+◌, ◌-◌, ◌*◌, ◌/◌, ◌%◌, ◌≤◌, ◌<◌, ◌≡◌, refl, ap, true, false, inl, inr, some, ltb,
  lt→ltb, arith, Bool-cases,
}
use native.Mathlib.Nat.{mod-lt, div-add-mod, mod-eq-sub-mod}
use absolute.Prelude.Int.{ℤ, pos, pos_part, neg_part, ◌+ℤ◌, ◌-ℤ◌, ◌≤ℤ◌, ltb_ℤ, +ℤ_parts, int_laws}
use absolute.Prelude.Words.{FitsI32, to_i32_fits}
use absolute.Random.{
  word, RandomState, next, span_of, threshold_of, draw, scaled, drawn, random_range,
}

-- The state behind `k` values.
abbrev pub after : ℕ → RandomState → RandomState
after zero s = s
after (suc k) s = after k (next s).1

-- The value behind `j` others is the first that is not below the threshold.
abbrev pub IsFirst : ℕ → RandomState → ℕ → Type 0
IsFirst threshold s j =
    ((i : ℕ) → i < j → (next (after i s)).0 < threshold) × (threshold ≤ (next (after j s)).0)

suc-IsFirst :
    (threshold : ℕ) (s : RandomState) (j : ℕ)
    → (next s).0 < threshold
    → IsFirst threshold (next s).1 j
    → IsFirst threshold s (suc j)
suc-IsFirst threshold s j low (below, high) = (earlier, high)
  where
    earlier : (i : ℕ) → i < suc j → (next (after i s)).0 < threshold
    earlier zero l = low
    earlier (suc i) l = below i (omega (arith, l))

draw-total :
    (k fuel threshold : ℕ) (s : RandomState)
    → threshold ≤ (next (after k s)).0
    → k < fuel
    → (j : ℕ) × (j ≤ k) × IsFirst threshold s j × (draw fuel threshold s ≡ some (next (after j s)))
unfolding draw
draw-total k zero threshold s h l = absurd (omega (arith, l))
draw-total zero (suc fuel) threshold s h l =
    (0, omega arith, (λ i l. absurd (omega (arith, l)), h), rw (le→ltb_false _ _ h, draw) refl)
  where
    le→ltb_false : (a b : ℕ) → b ≤ a → ltb a b ≡ false
    le→ltb_false a b g = ground arith
draw-total (suc k) (suc fuel) threshold s h l = elim (Bool-cases (ltb (next s).0 threshold)) [
  | inr high ↦ (
    0,
    omega arith,
    (λ i l. absurd (omega (arith, l)), ground (arith, high)),
    rw (high, draw) refl,
  )
  | inl low ↦
      let (j, m, first, e) = draw-total k fuel threshold (next s).1 h (omega (arith, l)) in
      (
        suc j,
        omega (arith, m),
        suc-IsFirst threshold s j (ground (arith, low)) first,
        rw (low, draw) e,
      )
]

span_of-fits :
    (minimum maximum : ℤ)
    → FitsI32 minimum
    → FitsI32 maximum
    → minimum +ℤ pos 1 ≤ℤ maximum
    → (pos_part maximum + neg_part minimum
        ≡ pos_part minimum + neg_part maximum + span_of minimum maximum)
unfolding ◌-ℤ◌ ◌+ℤ◌ span_of
span_of-fits minimum maximum h k l = ground (arith, h, k, l)

sum_fits :
    (a b : ℤ) (x span : ℕ)
    → FitsI32 a
    → FitsI32 b
    → x < span
    → pos_part b + neg_part a ≡ pos_part a + neg_part b + span
    → FitsI32 (a +ℤ pos x)
unfolding ◌+ℤ◌
sum_fits a b x span h k s e = ground (arith, h, k, s, e)

scaled-bounds :
    (minimum maximum : ℤ) (v : ℕ)
    → FitsI32 minimum
    → FitsI32 maximum
    → minimum +ℤ pos 1 ≤ℤ maximum
    → (scaled minimum (span_of minimum maximum) v ≡ minimum +ℤ pos (v % span_of minimum maximum))
      × (minimum ≤ℤ scaled minimum (span_of minimum maximum) v)
      × (scaled minimum (span_of minimum maximum) v +ℤ pos 1 ≤ℤ maximum)
unfolding scaled
scaled-bounds minimum maximum v h k l =
    let span = span_of minimum maximum in
    let e = span_of-fits minimum maximum h k l in
    let x = v % span in
    let small : x < span = mod-lt v (omega (arith, e, l, +ℤ_parts minimum (pos 1))) in
    let parts = +ℤ_parts minimum (pos x) in
    let fits = to_i32_fits (minimum +ℤ pos x) (sum_fits minimum maximum x span h k small e) in
    rw fits (refl, omega (int_laws, parts), omega (int_laws, parts, small, e))

-- The values that the loop lets through are a multiple of the span.
whole_periods :
    (span : ℕ) → 0 < span → span ≤ word → word - threshold_of span ≡ span * (word / span)
whole_periods span p l = let same = mod-eq-sub-mod l in omega (arith, same, div-add-mod word span)

-- Where `absolute_random_range` is called with a minimum below the maximum and the generator gives
-- a value that is not below the threshold behind `k` others, the loop passes over each value that is
-- below the threshold and ends at the first that is not, behind `j` others; the result is the minimum
-- and the remainder of that value by the span, it is from the minimum on and below the maximum, and
-- the values that are not below the threshold are a multiple of the span in number, so as many give
-- each result.
pub random_range-bounds :
    (k fuel : ℕ) (minimum maximum : ℤ) (s : RandomState)
    → FitsI32 minimum
    → FitsI32 maximum
    → minimum +ℤ pos 1 ≤ℤ maximum
    → threshold_of (span_of minimum maximum) ≤ (next (after k s)).0
    → k < fuel
    → ((j : ℕ) × (r : ℤ) × (j ≤ k)
        × IsFirst (threshold_of (span_of minimum maximum)) s j
        × (random_range fuel minimum maximum (some s) ≡ some (r, some (next (after j s)).1))
        × (r ≡ minimum +ℤ pos ((next (after j s)).0 % span_of minimum maximum))
        × (minimum ≤ℤ r)
        × (r +ℤ pos 1 ≤ℤ maximum))
      × (word - threshold_of (span_of minimum maximum)
          ≡ span_of minimum maximum * (word / span_of minimum maximum))
unfolding random_range drawn
random_range-bounds k fuel minimum maximum s h g l high enough =
    let span = span_of minimum maximum in
    let (j, m, first, e) = draw-total k fuel (threshold_of span) s high enough in
    let v = (next (after j s)).0 in
    let (same, low, top) = scaled-bounds minimum maximum v h g l in
    let fits = span_of-fits minimum maximum h g l in
    let apart = below minimum maximum l in
    (
      (
        j,
        scaled minimum span v,
        m,
        first,
        rw (apart, random_range) (ap (drawn minimum span) e),
        same,
        low,
        top,
      ),
      whole_periods span (omega (arith, fits, l, +ℤ_parts minimum (pos 1)))
          (omega (arith, fits, h, g)),
    )
  where
    below : (a b : ℤ) → a +ℤ pos 1 ≤ℤ b → ltb_ℤ a b ≡ true
    below a b l = lt→ltb _ _ (omega (int_laws, l))
