-- ===== src/Random/Examples.antt =====
-- Absolute-Runtime/src/random.cpp at concrete seeds.
use absolute.Prelude.{ℕ, ◌%◌, ◌-◌, ◌*◌, ◌/◌, ◌≤◌, ◌≡◌, refl, none, some, arith}
use absolute.Prelude.Int.{ℤ, pos, negsuc, ◌+ℤ◌, ◌≤ℤ◌}
use absolute.Random.{word, next, create, span_of, threshold_of, random_range}
use absolute.Random.Range.{after, IsFirst, random_range-bounds}

-- The first value of the seed 0 is that of the published generator.
first-test : (next (create 0)).0 ≡ 0x99EC5F36CB75F2B4
unfolding next create
first-test = refl

no_handle-test : random_range 1 (pos 3) (pos 9) none ≡ some (pos 3, none)
unfolding random_range
no_handle-test = refl

high-test : threshold_of (span_of (negsuc 4) (pos 6)) ≤ (next (create 1)).0
unfolding next create span_of
high-test = omega arith

random_range-bounds_example :
    ((j : ℕ) × (r : ℤ) × (j ≤ 0)
      × IsFirst (threshold_of (span_of (negsuc 4) (pos 6))) (create 1) j
      × (random_range 1 (negsuc 4) (pos 6) (some (create 1))
          ≡ some (r, some (next (after j (create 1))).1))
      × (r ≡ negsuc 4 +ℤ pos ((next (after j (create 1))).0 % span_of (negsuc 4) (pos 6)))
      × (negsuc 4 ≤ℤ r)
      × (r +ℤ pos 1 ≤ℤ pos 6))
    × (word - threshold_of (span_of (negsuc 4) (pos 6))
        ≡ span_of (negsuc 4) (pos 6) * (word / span_of (negsuc 4) (pos 6)))
unfolding ◌+ℤ◌
random_range-bounds_example =
    random_range-bounds 0 1 (negsuc 4) (pos 6) (create 1) (omega arith, omega arith)
      (omega arith, omega arith) (omega arith) high-test (omega arith)
