-- ===== src/Random.antt =====
-- Absolute-Runtime/src/random.cpp: the generator and its ranges. The words of 64 bits are numbers, and
-- their operators wrap around.
pub mod Range
mod Examples
use Prim.Native.Nat.{bit_xor}
use absolute.Prelude.{
  ℕ, zero, suc, true, false, ◌+◌, ◌-◌, ◌*◌, ◌/◌, ◌%◌, ◌^◌, Option, none, some, ltb, if◌then◌else◌,
}
use absolute.Prelude.Int.{ℤ, pos, negsuc, ◌-ℤ◌, ◌+ℤ◌, ltb_ℤ}
use absolute.Prelude.Words.{to_i32}

-- 2 ^ 64
abbrev pub word : ℕ
word = 0x10000000000000000

pub record RandomState : Type 0 where
  pub value_0 : ℕ
  pub value_1 : ℕ
  pub value_2 : ℕ
  pub value_3 : ℕ

abbrev pub shift_left : ℕ → ℕ → ℕ
shift_left x k = x * 2 ^ k % word

abbrev pub shift_right : ℕ → ℕ → ℕ
shift_right x k = x / 2 ^ k

-- `std::rotl`; the bits that it joins do not overlap.
unfoldable pub rotl : ℕ → ℕ → ℕ
rotl x k = shift_left x k + shift_right x (64 - k)

-- The value and the state behind it.
unfoldable pub split_mix_64 : ℕ → ℕ × ℕ
split_mix_64 state =
    let state' = (state + 0x9e3779b97f4a7c15) % word in
    let first = bit_xor state' (shift_right state' 30) * 0xbf58476d1ce4e5b9 % word in
    let second = bit_xor first (shift_right first 27) * 0x94d049bb133111eb % word in
    (bit_xor second (shift_right second 31), state')

unfoldable pub next : RandomState → ℕ × RandomState
unfolding rotl
next s =
    let shift = shift_left s.value_1 17 in
    let second = bit_xor s.value_2 s.value_0 in
    let third = bit_xor s.value_3 s.value_1 in
    let first = bit_xor s.value_1 second in
    (
      rotl (s.value_1 * 5 % word) 7 * 9 % word,
      record {
        value_0 = bit_xor s.value_0 third;
        value_1 = first;
        value_2 = bit_xor second shift;
        value_3 = rotl third 45;
      },
    )

-- `absolute_random_create`, where the allocation succeeds.
unfoldable pub create : ℕ → RandomState
unfolding split_mix_64
create seed =
    let (a, s) = split_mix_64 seed in
    let (b, s') = split_mix_64 s in
    let (c, s'') = split_mix_64 s' in
    let (d, _) = split_mix_64 s'' in record { value_0 = a; value_1 = b; value_2 = c; value_3 = d }

-- The functions below have no state where the handle is null.
unfoldable pub random_u64 : Option RandomState → ℕ × Option RandomState
unfolding next
random_u64 none = (0, none)
random_u64 (some s) = let (v, after) = next s in (v, some after)

-- `std::bit_cast` of the upper 32 bits.
unfoldable pub random_i32 : Option RandomState → ℤ × Option RandomState
unfolding random_u64 to_i32
random_i32 handle = let (v, after) = random_u64 handle in (to_i32 (pos (shift_right v 32)), after)

abbrev pub to_u64 : ℤ → ℕ
to_u64 (pos n) = n % word
to_u64 (negsuc n) = word - 1 - n % word

-- `span` and `threshold`
unfoldable pub span_of : ℤ → ℤ → ℕ
unfolding ◌-ℤ◌
span_of minimum maximum = to_u64 (maximum -ℤ minimum)

abbrev pub threshold_of : ℕ → ℕ
threshold_of span = (word - span) % span

-- The loop of `absolute_random_range`, on fuel, one unit for each value; `none` is out of fuel.
unfoldable pub draw : ℕ → ℕ → RandomState → Option (ℕ × RandomState)
unfolding next
draw zero threshold s = none
draw (suc fuel) threshold s =
    let (v, after) = next s in
    elim (ltb v threshold) [ true ↦ draw fuel threshold after | false ↦ some (v, after) ]

unfoldable pub scaled : ℤ → ℕ → ℕ → ℤ
unfolding to_i32 ◌+ℤ◌
scaled minimum span v = to_i32 (minimum +ℤ pos (v % span))

unfoldable pub drawn : ℤ → ℕ → Option (ℕ × RandomState) → Option (ℤ × Option RandomState)
unfolding scaled
drawn minimum span none = none
drawn minimum span (some (v, after)) = some (scaled minimum span v, some after)

-- `absolute_random_range`
unfoldable pub random_range : ℕ → ℤ → ℤ → Option RandomState → Option (ℤ × Option RandomState)
unfolding draw span_of drawn
random_range fuel minimum maximum none = some (minimum, none)
random_range fuel minimum maximum (some s) =
    let span = span_of minimum maximum in
    let values = draw fuel (threshold_of span) s in
    elim (ltb_ℤ minimum maximum) [
      | true ↦ drawn minimum span values
      | false ↦ some (minimum, some s)
    ]
