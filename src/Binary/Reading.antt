-- ===== src/Binary/Reading.antt =====
-- The reader of Binary never leaves its buffer, whatever is asked of it.
use absolute.Prelude.{ℕ, ◌+◌, ◌≤◌, ◌≡◌, List, [], ◌∷◌, arith, length, ◌==◌}
use absolute.Prelude.Int.{ℤ, pos, negsuc}
use absolute.Binary.Bytes.{Endian}
use absolute.Binary.{
  Reader, read_byte, read_bytes, read_word, read_text, read_string, seek, remaining, is_eof,
}

-- The calls that move a reader.
pub data Call : Type 0 where
  byte text : Call
  word : ℕ → Call
  bytes seeks : ℤ → Call

unfoldable pub step : Endian → Call → Reader → Reader
step host byte r = (read_byte r).1
step host text r = (read_string host r).1
step host (word size) r = (read_word host size r).1
step host (bytes size) r = (read_bytes size r).1
step host (seeks p) r = seek p r

unfoldable pub run : Endian → List Call → Reader → Reader
unfolding step
run host [] r = r
run host (c ∷ cs) r = run host cs (step host c r)

-- The position stays within the buffer, and the buffer stays as it is.
abbrev pub Within : List ℕ → Reader → Type 0
Within buffer r = (r.buffer ≡ buffer) × (r.pos ≤ length buffer)

module _ (buffer : List ℕ) where
  read_word-Within :
      (host : Endian) (size : ℕ) (r : Reader)
      → Within buffer r
      → Within buffer (read_word host size r).1
  unfolding read_word
  read_word-Within host size r v = ground arith

  read_text-Within : (len : ℕ) (r : Reader) → Within buffer r → Within buffer (read_text len r).1
  unfolding read_text
  read_text-Within len r v = ground arith

  step-Within :
      (host : Endian) (c : Call) (r : Reader) → Within buffer r → Within buffer (step host c r)
  unfolding step read_byte read_bytes read_string seek
  step-Within host byte r v = ground arith
  step-Within host text r v =
      read_text-Within (read_word host 4 r).0 (read_word host 4 r).1 (read_word-Within host 4 r v)
  step-Within host (word size) r v = read_word-Within host size r v
  step-Within host (bytes (pos n)) r v = ground arith
  step-Within host (bytes (negsuc n)) r v = v
  step-Within host (seeks (pos n)) r v = ground arith
  step-Within host (seeks (negsuc n)) r v = v

-- No sequence of reads and seeks, on any data, moves a reader that stands in its buffer out of it
-- or changes the buffer; what remains is what is behind the position, and the reader says that it is at the end
-- of the data exactly where the position is the length of the buffer.
pub run-Within :
    (buffer : List ℕ) (host : Endian) (cs : List Call) (r : Reader)
    → Within buffer r
    → Within buffer (run host cs r)
      × ((run host cs r).pos + remaining (run host cs r) ≡ length buffer)
      × (is_eof (run host cs r) ≡ ((run host cs r).pos == length buffer))
unfolding run remaining is_eof
run-Within buffer host [] r v = (v, ground arith, ground arith)
run-Within buffer host (c ∷ cs) r v =
    run-Within buffer host cs (step host c r) (step-Within buffer host c r v)
