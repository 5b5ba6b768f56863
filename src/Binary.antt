-- ===== src/Binary.antt =====
-- Absolute-Runtime/src/binary.cpp: the binary writer and reader behind std/binary.abs. A byte is
-- a number below 256, and an integer or a float is its bit pattern, a number below 2 ^ (8 * width);
-- the order in which `memcpy` lays the bytes of a number out is the parameter `host`. A null handle is `none`.
pub mod Bytes
pub mod Reading
pub mod RoundTrip
pub mod Hex
mod Examples
use absolute.Prelude.{
  ℕ, zero, suc, ◌+◌, ◌-◌, ◌*◌, ◌/◌, ◌%◌, ◌^◌, Bool, true, false, ◌||◌, List, [], ◌∷◌, ◌++◌, Option,
  none, some, ltb, leb, ◌==◌, if◌then◌else◌, length, take, drop,
}
use absolute.Prelude.Int.{ℤ, pos, negsuc}
use mathlib.Core.Option
use Bytes.{Endian, bytes_of, word_of}

pub record Writer : Type 0 where
  pub buffer : List ℕ

pub record Reader : Type 0 where
  pub buffer : List ℕ
  pub pos : ℕ

-- `absolute_binary_writer_create`
abbrev pub writer_create : Writer
writer_create = record { buffer = [] }

-- `absolute_binary_writer_write_byte`; the parameter is a `uint8_t`.
unfoldable pub write_byte : ℕ → Writer → Writer
write_byte val w = record w { buffer = w.buffer ++ val ∷ [] }

-- `absolute_binary_reader_create`: the buffer stays empty where the data are null or the size
-- is not positive.
unfoldable pub reader_create : Option (List ℕ) → ℤ → Reader
reader_create (some data') (pos size) = record { buffer = take size data'; pos = 0 }
reader_create (some data') (negsuc size) = record { buffer = []; pos = 0 }
reader_create none size = record { buffer = []; pos = 0 }

unfoldable pub read_byte : Reader → ℕ × Reader
unfolding word_of
read_byte r =
    if leb (length r.buffer) r.pos
    then (0, r)
    else (word_of Endian.little (take 1 (drop r.pos r.buffer)), record r { pos = r.pos + 1 })

-- `absolute_binary_writer_write_bytes`: nothing is written where the data are null or the size
-- is not positive.
unfoldable pub write_bytes : Option (List ℕ) → ℤ → Writer → Writer
write_bytes (some data') (pos size) w = record w { buffer = w.buffer ++ take size data' }
write_bytes (some data') (negsuc size) w = w
write_bytes none size w = w

-- `absolute_binary_reader_read_bytes`: the bytes that it stores to `dest`, which is not null.
-- The count that it returns is their number.
unfoldable pub read_bytes : ℤ → Reader → List ℕ × Reader
read_bytes (negsuc size) r = ([], r)
read_bytes (pos size) r =
    let avail = length r.buffer - r.pos in
    let to_read = if ltb size avail then size else avail in
    if size == 0
    then ([], r)
    else if avail == 0
    then ([], r)
    else (take to_read (drop r.pos r.buffer), record r { pos = r.pos + to_read })

unfoldable pub remaining : Reader → ℕ
remaining r = if leb (length r.buffer) r.pos then 0 else length r.buffer - r.pos

unfoldable pub is_eof : Reader → Bool
is_eof r = leb (length r.buffer) r.pos

unfoldable pub seek : ℤ → Reader → Reader
seek (negsuc p) r = r
seek (pos p) r = record r { pos = if ltb (length r.buffer) p then length r.buffer else p }

-- A hexadecimal digit in lower case, as `std::hex` prints it.
unfoldable pub hex_digit : ℕ → ℕ
hex_digit d = if ltb d 10 then b'0' + d else b'a' + (d - 10)

-- `absolute_binary_writer_to_hex`: two digits for each byte, filled with `0`.
unfoldable pub hex_of : List ℕ → List ℕ
unfolding hex_digit
hex_of [] = []
hex_of (b ∷ bs) = hex_digit (b / 16) ∷ hex_digit (b % 16) ∷ hex_of bs

unfoldable pub to_hex : Writer → List ℕ
unfolding hex_of
to_hex w = hex_of w.buffer

-- `absolute_binary_reader_read_string`, from the length on: `len <= 0` as an `int32_t`.
unfoldable pub read_text : ℕ → Reader → List ℕ × Reader
read_text len r =
    if len == 0 || leb (2 ^ 31) len || ltb (length r.buffer) (r.pos + len)
    then ([], r)
    else (take len (drop r.pos r.buffer), record r { pos = r.pos + len })

module _ (host : Endian) where
  -- `write_i16`, `write_i32`, `write_i64`, `write_float` and `write_double`: two, four, eight,
  -- four and eight bytes of `memcpy`.
  unfoldable pub write_word : ℕ → ℕ → Writer → Writer
  unfolding bytes_of
  write_word size val w = record w { buffer = w.buffer ++ bytes_of host size val }

  -- `absolute_binary_writer_write_string`; the length is cast to an `int32_t`.
  unfoldable pub write_string : Option (List ℕ) → Writer → Writer
  unfolding write_word
  write_string text w =
      let s = Option.get_or text [] in
      let counted = write_word 4 (length s % 2 ^ 32) w in
      record counted { buffer = counted.buffer ++ s }

  -- `read_i16`, `read_i32`, `read_i64`, `read_float` and `read_double`.
  unfoldable pub read_word : ℕ → Reader → ℕ × Reader
  unfolding word_of
  read_word size r =
      if ltb (length r.buffer) (r.pos + size)
      then (0, r)
      else (word_of host (take size (drop r.pos r.buffer)), record r { pos = r.pos + size })

  unfoldable pub read_string : Reader → List ℕ × Reader
  unfolding read_word read_text
  read_string r = let (len, r') = read_word 4 r in read_text len r'

-- `if (!handle) return;` in front of each operation that writes, and of each that reads.
unfoldable pub on_writer : (Writer → Writer) → Option Writer → Option Writer
on_writer f none = none
on_writer f (some w) = some (f w)

unfoldable pub on_reader {ℓ} :
    {A : Type ℓ} → A → (Reader → A × Reader) → Option Reader → A × Option Reader
on_reader default f none = (default, none)
on_reader default f (some r) = let (a, r') = f r in (a, some r')
