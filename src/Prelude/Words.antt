-- ===== src/Prelude/Words.antt =====
-- Signed division as C++ has it, which rounds towards 0, and 32-bit and 64-bit integers.
use absolute.Prelude.{
  ℕ, suc, ◌+◌, ◌-◌, ◌*◌, ◌/◌, ◌%◌, ◌^◌, ◌≤◌, ◌<◌, ◌≡◌, refl, ◌⊎◌, inl, inr, arith, ltb,
  if◌then◌else◌,
}
use absolute.Prelude.Int.{ℤ, pos, negsuc, pos_part, neg_part, sub_ℕ, ◌*ℤ◌}

-- `a / d` and `a % d` for a positive number `d`.
unfoldable pub tdiv : ℤ → ℕ → ℤ
tdiv (pos n) d = pos (n / d)
tdiv (negsuc n) d = sub_ℕ 0 (suc n / d)

unfoldable pub trem : ℤ → ℕ → ℤ
trem (pos n) d = pos (n % d)
trem (negsuc n) d = sub_ℕ 0 (suc n % d)

-- `static_cast<uint32_t>` and `static_cast<int32_t>`.
unfoldable pub to_u32 : ℤ → ℕ
to_u32 (pos n) = n % 2 ^ 32
to_u32 (negsuc n) = 2 ^ 32 - 1 - n % 2 ^ 32

unfoldable pub to_i32 : ℤ → ℤ
unfolding to_u32
to_i32 z = let w = to_u32 z in if ltb w (2 ^ 31) then pos w else negsuc (2 ^ 32 - 1 - w)

abbrev pub FitsI32 : ℤ → Type 0
FitsI32 z = (pos_part z < 2 ^ 31) × (neg_part z ≤ 2 ^ 31)

-- A value in range is its own cast.
pub to_i32_fits : (z : ℤ) → FitsI32 z → to_i32 z ≡ z
unfolding to_i32
to_i32_fits (pos n) h = ground arith
to_i32_fits (negsuc n) h = ground arith

pub *ℤ_parts :
    (a : ℤ) (k : ℕ)
    → (pos_part (a *ℤ pos k) + neg_part a * k ≡ neg_part (a *ℤ pos k) + pos_part a * k)
unfolding ◌*ℤ◌
*ℤ_parts (pos n) k = ground arith
*ℤ_parts (negsuc n) k = ground arith

-- A 64-bit integer, with the wrap-around of a sum or a product that leaves its range.
unfoldable pub to_i64 : ℤ → ℤ
to_i64 (pos n) = let w = n % 2 ^ 64 in if ltb w (2 ^ 63) then pos w else negsuc (2 ^ 64 - 1 - w)
to_i64 (negsuc n) = let w = n % 2 ^ 64 in if ltb w (2 ^ 63) then negsuc w else pos (2 ^ 64 - 1 - w)

abbrev pub FitsI64 : ℤ → Type 0
FitsI64 z = (pos_part z < 2 ^ 63) × (neg_part z ≤ 2 ^ 63)

pub to_i64_fits : (z : ℤ) → FitsI64 z → to_i64 z ≡ z
unfolding to_i64
to_i64_fits (pos n) h = ground arith
to_i64_fits (negsuc n) h = ground arith

-- One of the two parts of an integer is 0.
pub parts_normal : (z : ℤ) → (pos_part z ≡ 0) ⊎ (neg_part z ≡ 0)
parts_normal (pos n) = inr refl
parts_normal (negsuc n) = inl refl
