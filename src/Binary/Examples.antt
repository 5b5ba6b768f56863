-- ===== src/Binary/Examples.antt =====
-- Runs of Binary on small inputs, and its theorems at such inputs.
use absolute.Prelude.{◌+◌, ◌≡◌, refl, some, none, true, List, [], ◌∷◌, arith, length, ◌==◌}
use absolute.Prelude.Int.{pos, negsuc}
use absolute.Binary.Bytes.{little, big}
use absolute.Binary.Reading.{byte, word, bytes, seeks, run, Within, run-Within}
use absolute.Binary.RoundTrip.{Item, kinds, write_all, read_all, read_all-write_all}
use absolute.Binary.{
  Writer, Reader, writer_create, reader_create, write_word, write_bytes, read_word, on_writer,
  on_reader, to_hex, is_eof, remaining,
}

abbrev items : List Item
items = Item.byte 7 ∷ Item.word 4 0x01020304 ∷ Item.text (b'h' ∷ b'i' ∷ []) ∷ []

little_layout :
    (write_all little items writer_create).buffer
    ≡ 7 ∷ 4 ∷ 3 ∷ 2 ∷ 1 ∷ 2 ∷ 0 ∷ 0 ∷ 0 ∷ b'h' ∷ b'i' ∷ []
unfolding write_all
little_layout = refl

-- A null handle reads as 0, and a count that is not positive reads and writes nothing.
nothing_done :
    (on_reader 0 (read_word little 4) none ≡ (0, none))
    × (on_writer (write_word little 4 1) none ≡ none)
    × (write_bytes (some (1 ∷ [])) (negsuc 0) writer_create ≡ writer_create)
unfolding on_reader on_writer write_bytes
nothing_done = (refl, refl, refl)

read_all-write_all_example :
    let data' = (write_all big items writer_create).buffer in
    let read = read_all big (kinds items) (reader_create (some data') (pos (length data'))) in
    (read.0 ≡ items) × (is_eof read.1 ≡ true)
read_all-write_all_example = read_all-write_all big items (omega arith)

abbrev short_reader : Reader
short_reader = record { buffer = 1 ∷ 2 ∷ 3 ∷ []; pos = 0 }

run-Within_example :
    let r = run little (byte ∷ word 4 ∷ seeks (pos 9) ∷ bytes (pos 2) ∷ []) short_reader in
    Within (1 ∷ 2 ∷ 3 ∷ []) r × (r.pos + remaining r ≡ 3) × (is_eof r ≡ (r.pos == 3))
run-Within_example =
    run-Within (1 ∷ 2 ∷ 3 ∷ []) little (byte ∷ word 4 ∷ seeks (pos 9) ∷ bytes (pos 2) ∷ [])
      short_reader (refl, omega arith)

abbrev hex_writer : Writer
hex_writer = record { buffer = 0 ∷ 0xab ∷ 255 ∷ [] }

hex_text : to_hex hex_writer ≡ b'0' ∷ b'0' ∷ b'a' ∷ b'b' ∷ b'f' ∷ b'f' ∷ []
unfolding to_hex
hex_text = refl
