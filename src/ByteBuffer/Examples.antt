-- ===== src/ByteBuffer/Examples.antt =====
-- Absolute-Runtime/src/bytes.cpp on a buffer of eight bytes.
use absolute.Prelude.{arith, ◌+◌, ◌≤◌, ◌≡◌, refl, true, false, none, some, ltb, if◌then◌else◌}
use absolute.Prelude.Int.{pos, negsuc}
use absolute.ByteBuffer.{Memory, Buffer, slice_offset, slice_length, slice, get_byte, compact}
use absolute.ByteBuffer.Views.{slice-Window}

-- Every byte is its address.
abbrev addresses : Memory
addresses = λ a. a

abbrev eight_bytes : Buffer
eight_bytes = record { data_at = 100; capacity = 8; is_owner = true }

abbrev last_bytes : Buffer
last_bytes = record { data_at = 105; capacity = 3; is_owner = false }

slice-test : slice (some eight_bytes) (pos 5) (pos 100) ≡ some last_bytes
unfolding slice
slice-test = refl

behind_end-test : compact addresses (some eight_bytes) (pos 9) (pos 1) ≡ none
unfolding compact
behind_end-test = refl

-- A length of 2 ^ 63 - 1 behind the offset 1: the sum wraps around, and the length stays as it is.
wrapped-test : slice_length eight_bytes 1 (pos 9223372036854775807) ≡ 9223372036854775807
unfolding slice_length
wrapped-test = refl

slice-Window_example :
    let start = slice_offset eight_bytes (negsuc 2) in
    let size = slice_length eight_bytes start (pos 3) in
    (start + size ≤ eight_bytes.capacity)
    × (get_byte addresses (slice (some eight_bytes) (negsuc 2) (pos 3)) (pos 1)
        ≡ (if ltb 1 size then get_byte addresses (some eight_bytes) (pos (start + 1)) else 0))
unfolding slice_offset
slice-Window_example = slice-Window eight_bytes (negsuc 2) (pos 3) addresses 1 (omega arith)
