-- ===== src/ByteBuffer/Views.antt =====
-- Slices of the buffers of Absolute-Runtime/src/bytes.cpp, and what reads and writes see of bytes
-- that several buffers share.
use absolute.Prelude.{ℕ, ◌+◌, ◌-◌, ◌^◌, ◌≤◌, ◌<◌, ◌≡◌, ◌&&◌, some, ltb, ◌==◌, if◌then◌else◌, arith}
use absolute.Prelude.Int.{ℤ, pos, clamp}
use absolute.ByteBuffer.{
  Memory, Buffer, create, slice_offset, slice_length, slice, exceeds, get_byte, set_byte, moved,
  compact,
}

slice_bounds :
    (b : Buffer) (offset length : ℤ)
    → let start = slice_offset b offset in
      start + clamp length < 2 ^ 63
      → (start ≤ b.capacity) × (start + slice_length b start length ≤ b.capacity)
unfolding slice_offset slice_length exceeds
slice_bounds b offset length h = ground (arith, h)

-- A slice of a buffer, at any offset and length, negative and too large ones too, where the start of
-- the slice and the length fit 63 bits together, is a window inside the buffer, and a byte of the slice is the byte of the buffer as far behind the start of
-- the window.
pub slice-Window :
    (b : Buffer) (offset length : ℤ) (memory : Memory) (i : ℕ)
    → slice_offset b offset + clamp length < 2 ^ 63
    → let start = slice_offset b offset in
      let size = slice_length b start length in
      (start + size ≤ b.capacity)
      × (get_byte memory (slice (some b) offset length) (pos i)
          ≡ (if ltb i size then get_byte memory (some b) (pos (start + i)) else 0))
unfolding get_byte slice
slice-Window b offset length memory i h =
    let start = slice_offset b offset in
    let (inside, fits) = slice_bounds b offset length h in (fits, ground (arith, fits, inside))

-- Reading a byte of any buffer after a write through any buffer gives the byte that was written
-- if the write was inside its buffer and hit the same address, and the byte of before otherwise.
pub get_byte-set_byte :
    (memory : Memory) (b c : Buffer) (i j val : ℕ)
    → get_byte (set_byte memory (some b) (pos i) val) (some c) (pos j) ≡ (
        if ltb i b.capacity && (ltb j c.capacity && (b.data_at + i == c.data_at + j))
        then val
        else get_byte memory (some c) (pos j))
unfolding get_byte set_byte
get_byte-set_byte memory b c i j val = ground arith

-- A buffer that was made where memory was given has the capacity that was asked for, 1024 if it
-- was not positive, and reads 0 everywhere.
pub create-zero :
    (size : ℤ) (allocation : ℕ) (memory : Memory) (i : ℕ)
    → 0 < allocation
    → let r = create size allocation memory in
      (r.0.capacity ≡ (if clamp size == 0 then 1024 else clamp size))
      × (get_byte r.1 (some r.0) (pos i) ≡ 0)
unfolding create get_byte
create-zero size allocation memory i h = ground arith

-- Compacting at a position inside the buffer returns, and moves the bytes from there to the front,
-- as many as were asked for or as there are, where the position and that number fit 63 bits together;
-- every other byte stays.
pub compact-get_byte :
    (memory : Memory) (b : Buffer) (p r : ℕ)
    → 0 < p
    → p ≤ b.capacity
    → 0 < r
    → p + r < 2 ^ 63
    → (after : Memory) × (compact memory (some b) (pos p) (pos r) ≡ some after)
      × ((i : ℕ)
          → get_byte after (some b) (pos i) ≡ (
              if ltb i r && ltb (p + i) b.capacity
              then get_byte memory (some b) (pos (p + i))
              else get_byte memory (some b) (pos i)))
unfolding compact get_byte moved exceeds
compact-get_byte memory b p r hp inside hr small =
    let count = if ltb b.capacity (p + r) then b.capacity - p else r in
    (moved memory b p count, ground arith, λ i. ground arith)
