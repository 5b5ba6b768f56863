-- ===== src/ByteBuffer.antt =====
-- Absolute-Runtime/src/bytes.cpp: buffers of bytes, and slices that share the bytes of a buffer. The
-- memory is a function from addresses; the address that `malloc` gives, 0 for none, is an argument.
-- The sum of an offset and a length wraps around at 2 ^ 63, as compiled; a negative sum is above no
-- capacity. Addresses are taken to be in range.
pub mod Views
mod Examples
use absolute.Prelude.{
  ℕ, ◌+◌, ◌-◌, ◌^◌, ◌≤◌, Bool, true, false, ◌&&◌, ◌||◌, Option, none, some, ltb, leb, ◌==◌,
  if◌then◌else◌,
}
use absolute.Prelude.Int.{ℤ, pos, negsuc, clamp}

abbrev pub Memory : Type 0
Memory = ℕ → ℕ

-- `AbsoluteByteBufferImpl`; no capacity is negative.
pub record Buffer : Type 0 where
  pub data_at : ℕ
  pub capacity : ℕ
  pub is_owner : Bool

unfoldable pub capacity_for : ℤ → ℕ
capacity_for capacity = if clamp capacity == 0 then 1024 else clamp capacity

-- `absolute_byte_buffer_create`, where `malloc` gives `allocation`.
unfoldable pub create : ℤ → ℕ → Memory → Buffer × Memory
unfolding capacity_for
create capacity allocation memory =
    let size = capacity_for capacity in
    (
      record { data_at = allocation; capacity = size; is_owner = true },
      λ a.
          if ltb 0 allocation && (leb allocation a && ltb a (allocation + size))
          then 0
          else memory a,
    )

-- `absolute_byte_buffer_wrap`
unfoldable pub wrap : ℕ → ℤ → Buffer
wrap address size = record { data_at = address; capacity = clamp size; is_owner = false }

-- The offset and the length of a slice, after the tests of `absolute_byte_buffer_slice`.
unfoldable pub slice_offset : Buffer → ℤ → ℕ
slice_offset b offset = if ltb b.capacity (clamp offset) then b.capacity else clamp offset

-- Whether a sum of two numbers of an `int64_t`, which are not negative, is above the capacity.
unfoldable pub exceeds : Buffer → ℕ → Bool
exceeds b sum = ltb sum (2 ^ 63) && ltb b.capacity sum

unfoldable pub slice_length : Buffer → ℕ → ℤ → ℕ
unfolding exceeds
slice_length b offset length =
    if exceeds b (offset + clamp length) then b.capacity - offset else clamp length

unfoldable pub slice : Option Buffer → ℤ → ℤ → Option Buffer
unfolding slice_offset slice_length
slice none offset length = none
slice (some b) offset length =
    let start = slice_offset b offset in
    some (record {
      data_at = b.data_at + start;
      capacity = slice_length b start length;
      is_owner = false;
    })

-- `absolute_byte_buffer_get_byte`
unfoldable pub get_byte : Memory → Option Buffer → ℤ → ℕ
get_byte memory none offset = 0
get_byte memory (some b) (negsuc n) = 0
get_byte memory (some b) (pos i) = if leb b.capacity i then 0 else memory (b.data_at + i)

-- `absolute_byte_buffer_set_byte`
unfoldable pub set_byte : Memory → Option Buffer → ℤ → ℕ → Memory
set_byte memory none offset val = memory
set_byte memory (some b) (negsuc n) val = memory
set_byte memory (some b) (pos i) val =
    if leb b.capacity i then memory else λ a. if a == b.data_at + i then val else memory a

-- `memmove` of `count` bytes to the front of the buffer.
unfoldable pub moved : Memory → Buffer → ℕ → ℕ → Memory
moved memory b position count a =
    if leb b.data_at a && ltb a (b.data_at + count) then memory (a + position) else memory a

-- `absolute_byte_buffer_compact`; `none` where a position behind the buffer makes the count that
-- `memmove` is given negative.
unfoldable pub compact : Memory → Option Buffer → ℤ → ℤ → Option Memory
unfolding moved exceeds
compact memory none position remaining = some memory
compact memory (some b) position remaining =
    let p = clamp position in
    let r = clamp remaining in
    if p == 0 || r == 0
    then some memory
    else if ltb b.capacity p
    then none
    else some (moved memory b p (if exceeds b (p + r) then b.capacity - p else r))
