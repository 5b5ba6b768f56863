-- ===== src/Binary/RoundTrip.antt =====
-- What the writer of Binary writes, the reader reads back.
use mathlib.Core.List.{append_assoc, append-nil}
use absolute.Prelude.{
  ℕ, ◌%◌, ◌^◌, ◌<◌, ◌≡◌, refl, ap, ◌∙◌, some, true, List, [], ◌∷◌, ◌++◌, arith, length, take,
  length-append, drop-append, take-append,
}
use absolute.Prelude.Int.{pos}
use absolute.Binary.Bytes.{Endian, bytes_of, word_of, length-bytes_of, word_of-bytes_of}
use absolute.Binary.{
  Writer, Reader, writer_create, reader_create, write_byte, write_word, write_string, read_byte,
  read_word, read_text, read_string, is_eof,
}

-- A value of the format: a byte, a number of a given width, or a string.
pub data Item : Type 0 where
  byte : ℕ → Item
  word : ℕ → ℕ → Item
  text : List ℕ → Item

pub data Kind : Type 0 where
  a_byte a_text : Kind
  a_word : ℕ → Kind

take_all : (xs : List ℕ) → take (length xs) xs ≡ xs
take_all [] = refl
take_all (x ∷ xs) = ap (◌∷◌ x) (take_all xs)

abbrev pub kind_of : Item → Kind
kind_of (byte val) = a_byte
kind_of (word size val) = a_word size
kind_of (text s) = a_text

abbrev pub kinds : List Item → List Kind
kinds [] = []
kinds (i ∷ is) = kind_of i ∷ kinds is

abbrev pub IsItem : Item → Type 0
IsItem (byte val) = val < 256
IsItem (word size val) = val < 256 ^ size
IsItem (text s) = length s < 2 ^ 31

abbrev pub AllItems : List Item → Type 0
AllItems [] = Unit {0}
AllItems (i ∷ is) = IsItem i × AllItems is

module _ (host : Endian) where
  unfoldable pub write_item : Item → Writer → Writer
  unfolding write_byte write_word write_string
  write_item (byte val) w = write_byte val w
  write_item (word size val) w = write_word host size val w
  write_item (text s) w = write_string host (some s) w

  unfoldable pub write_all : List Item → Writer → Writer
  unfolding write_item
  write_all [] w = w
  write_all (i ∷ is) w = write_all is (write_item i w)

  unfoldable pub read_item : Kind → Reader → Item × Reader
  unfolding read_byte read_word read_string
  read_item a_byte r = let (val, r') = read_byte r in (byte val, r')
  read_item (a_word size) r = let (val, r') = read_word host size r in (word size val, r')
  read_item a_text r = let (s, r') = read_string host r in (text s, r')

  unfoldable pub read_all : List Kind → Reader → List Item × Reader
  unfolding read_item
  read_all [] r = ([], r)
  read_all (k ∷ ks) r =
      let (i, r') = read_item k r in let (is, r'') = read_all ks r' in (i ∷ is, r'')

  abbrev encoding : Item → List ℕ
  encoding (byte val) = val ∷ []
  encoding (word size val) = bytes_of host size val
  encoding (text s) = bytes_of host 4 (length s % 2 ^ 32) ++ s

  abbrev encodings : List Item → List ℕ
  encodings [] = []
  encodings (i ∷ is) = encoding i ++ encodings is

  write_item-encoding :
      (i : Item) (w : Writer) → write_item i w ≡ record w { buffer = w.buffer ++ encoding i }
  unfolding write_item
  write_item-encoding (byte val) w = refl
  write_item-encoding (word size val) w = refl
  write_item-encoding (text s) w = rw append_assoc

  write_all-encodings :
      (is : List Item) (w : Writer)
      → write_all is w ≡ record w { buffer = w.buffer ++ encodings is }
  unfolding write_all
  write_all-encodings [] w = rw append-nil
  write_all-encodings (i ∷ is) w =
      write_all-encodings is (write_item i w)
      ∙ rw (write_item-encoding i w, append_assoc w.buffer (encoding i) (encodings is)) refl

  -- The reader in front of `b`, with `pre` behind it.
  abbrev At : List ℕ → List ℕ → Reader
  At pre b = record { buffer = pre ++ b; pos = length pre }

  read_word-At :
      (pre b rest : List ℕ) (size : ℕ)
      → length b ≡ size
      → read_word host size (At pre (b ++ rest)) ≡ (word_of host b, At (pre ++ b) rest)
  unfolding read_word
  read_word-At pre b rest size e =
      rw (← e, drop-append pre (b ++ rest), take-append b rest, append_assoc, length-append pre b)
        (ground (arith, length-append pre (b ++ rest), length-append b rest))

  read_text-At :
      (pre s rest : List ℕ)
      → length s < 2 ^ 31
      → read_text (length s) (At pre (s ++ rest)) ≡ (s, At (pre ++ s) rest)
  unfolding read_text
  read_text-At pre [] rest h = rw append-nil
  read_text-At pre (x ∷ s) rest h =
      rw
        (
          drop-append pre ((x ∷ s) ++ rest),
          take-append (x ∷ s) rest,
          append_assoc,
          length-append pre (x ∷ s),
        )
        (ground (arith, length-append pre (x ∷ (s ++ rest)), length-append s rest))

  read_byte-At :
      (pre rest : List ℕ) (val : ℕ)
      → read_byte (At pre (val ∷ rest)) ≡ (val, At (pre ++ val ∷ []) rest)
  unfolding read_byte
  read_byte-At pre rest val =
      rw (drop-append pre (val ∷ rest), append_assoc, length-append pre (val ∷ []))
        (unfold word_of in ground (arith, length-append pre (val ∷ rest)))

  read_item-At :
      (pre rest : List ℕ) (i : Item)
      → IsItem i
      → read_item (kind_of i) (At pre (encoding i ++ rest)) ≡ (i, At (pre ++ encoding i) rest)
  unfolding read_item read_string
  read_item-At pre rest (byte val) h = rw (read_byte-At pre rest val)
  read_item-At pre rest (word size val) h = rw (
    read_word-At pre (bytes_of host size val) rest size (length-bytes_of host size val),
    word_of-bytes_of host size val h,
  )
  read_item-At pre rest (text s) h =
      let count = length s % 2 ^ 32 in
      let fits : count ≡ length s = omega arith in
      rw
        (
          append_assoc (bytes_of host 4 count) s rest,
          read_word-At pre (bytes_of host 4 count) (s ++ rest) 4 (length-bytes_of host 4 count),
          word_of-bytes_of host 4 count (omega arith),
          fits,
          read_text-At (pre ++ bytes_of host 4 (length s)) s rest h,
        )
        (simp append_assoc)

  read_all-At :
      (pre : List ℕ) (is : List Item)
      → AllItems is
      → read_all (kinds is) (At pre (encodings is)) ≡ (is, At (pre ++ encodings is) [])
  unfolding read_all
  read_all-At pre [] h = simp append-nil
  read_all-At pre (i ∷ is) h =
      rw (read_item-At pre (encodings is) i h.0, read_all-At (pre ++ encoding i) is h.1)
        (simp append_assoc)

-- A sequence of bytes, numbers that fit their widths and strings shorter than 2 ^ 31 bytes,
-- written by one writer and read in the same order from its data, comes back unchanged, on a
-- host of either byte order, and the reader is then at the end of the data.
pub read_all-write_all :
    (host : Endian) (is : List Item)
    → AllItems is
    → let data' = (write_all host is writer_create).buffer in
      let read = read_all host (kinds is) (reader_create (some data') (pos (length data'))) in
      (read.0 ≡ is) × (is_eof read.1 ≡ true)
unfolding reader_create is_eof
read_all-write_all host is h =
    rw
      (
        write_all-encodings host is writer_create,
        take_all (encodings host is),
        read_all-At host [] is h,
      )
      (refl, ground (arith, ap length (append-nil (encodings host is))))
