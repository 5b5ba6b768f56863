-- ===== src/Datetime/Eras.antt =====
-- Division with a remainder that is not negative, as Datetime computes it in eras.
use absolute.Prelude.{ℕ, ◌+◌, ◌*◌, ◌<◌, ◌≡◌, arith}
use absolute.Prelude.Int.{ℤ, pos, negsuc, pos_part, neg_part}
use absolute.Datetime.{era_of, in_era, fixed_div, fixed_rem, to_nat}

-- `z` is `q * size + r`, and `r` is below `size`.
abbrev pub IsFloor : ℕ → ℤ → ℤ → ℕ → Type 0
IsFloor size z q r =
    (r < size) × (pos_part z + neg_part q * size ≡ r + neg_part z + pos_part q * size)

pub era_146097 : (z : ℤ) → IsFloor 146097 z (era_of 146097 z) (in_era 146097 z (era_of 146097 z))
unfolding era_of in_era
era_146097 (pos n) = ground arith
era_146097 (negsuc n) = ground arith

pub era_400 : (z : ℤ) → IsFloor 400 z (era_of 400 z) (in_era 400 z (era_of 400 z))
unfolding era_of in_era
era_400 (pos n) = ground arith
era_400 (negsuc n) = ground arith

pub fixed_1000 :
    (z : ℤ)
    → (fixed_rem z 1000 ≡ pos (to_nat (fixed_rem z 1000)))
      × IsFloor 1000 z (fixed_div z 1000) (to_nat (fixed_rem z 1000))
unfolding fixed_div fixed_rem
fixed_1000 (pos n) = ground arith
fixed_1000 (negsuc n) = ground arith

pub fixed_86400 :
    (z : ℤ)
    → (fixed_rem z 86400 ≡ pos (to_nat (fixed_rem z 86400)))
      × IsFloor 86400 z (fixed_div z 86400) (to_nat (fixed_rem z 86400))
unfolding fixed_div fixed_rem
fixed_86400 (pos n) = ground arith
fixed_86400 (negsuc n) = ground arith

pub same_parts : (p q : ℤ) → pos_part p + neg_part q ≡ pos_part q + neg_part p → p ≡ q
same_parts (pos m) (pos n) h = ground arith
same_parts (pos m) (negsuc n) h = ground arith
same_parts (negsuc m) (pos n) h = ground arith
same_parts (negsuc m) (negsuc n) h = ground arith

pub floor_unique_400 :
    (z q q' : ℤ) (r r' : ℕ) → IsFloor 400 z q r → IsFloor 400 z q' r' → (q ≡ q') × (r ≡ r')
floor_unique_400 z q q' r r' f g = (same_parts q q' (omega arith), omega arith)

pub floor_unique_146097 :
    (z q q' : ℤ) (r r' : ℕ) → IsFloor 146097 z q r → IsFloor 146097 z q' r' → (q ≡ q') × (r ≡ r')
floor_unique_146097 z q q' r r' f g = (same_parts q q' (omega arith), omega arith)
