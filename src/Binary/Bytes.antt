-- ===== src/Binary/Bytes.antt =====
-- The bytes of a machine word, as `memcpy` copies them in Absolute-Runtime/src/binary.cpp.
use mathlib.Core.List.{reverse, reverse-reverse, reverse-cons}
use native.Mathlib.Nat.{pow-suc}
use absolute.Prelude.{
  ℕ, zero, suc, ◌+◌, ◌*◌, ◌/◌, ◌%◌, ◌^◌, ◌<◌, ◌≡◌, refl, ap, ◌∙◌, List, [], ◌∷◌, arith, length,
  length-append,
}

pub data Endian : Type 0 where
  little big : Endian

unfoldable pub le_bytes : ℕ → ℕ → List ℕ
le_bytes zero val = []
le_bytes (suc n) val = (val % 256) ∷ le_bytes n (val / 256)

unfoldable pub le_word : List ℕ → ℕ
le_word [] = 0
le_word (b ∷ bs) = b + 256 * le_word bs

unfoldable pub bytes_of : Endian → ℕ → ℕ → List ℕ
unfolding le_bytes
bytes_of little size val = le_bytes size val
bytes_of big size val = reverse (le_bytes size val)

unfoldable pub word_of : Endian → List ℕ → ℕ
unfolding le_word
word_of little bs = le_word bs
word_of big bs = le_word (reverse bs)

length-le_bytes : (n val : ℕ) → length (le_bytes n val) ≡ n
unfolding le_bytes
length-le_bytes zero val = refl
length-le_bytes (suc n) val = omega (arith, length-le_bytes n (val / 256))

pub length-reverse : (bytes : List ℕ) → length (reverse bytes) ≡ length bytes
length-reverse [] = refl
length-reverse (byte ∷ bytes) =
    ap length (reverse-cons byte bytes)
    ∙ length-append (reverse bytes) (byte ∷ [])
    ∙ omega (arith, length-reverse bytes)

pub length-bytes_of : (host : Endian) (n val : ℕ) → length (bytes_of host n val) ≡ n
unfolding bytes_of
length-bytes_of little n val = length-le_bytes n val
length-bytes_of big n val = length-reverse (le_bytes n val) ∙ length-le_bytes n val

le_word-le_bytes : (n val : ℕ) → val < 256 ^ n → le_word (le_bytes n val) ≡ val
unfolding le_word le_bytes
le_word-le_bytes zero val h = omega arith
le_word-le_bytes (suc n) val h =
    omega (arith, le_word-le_bytes n (val / 256) (omega (arith, pow-suc 256 n)))

pub word_of-bytes_of :
    (host : Endian) (n val : ℕ) → val < 256 ^ n → word_of host (bytes_of host n val) ≡ val
unfolding word_of bytes_of
word_of-bytes_of little n val h = le_word-le_bytes n val h
word_of-bytes_of big n val h = rw (reverse-reverse (le_bytes n val)) (le_word-le_bytes n val h)
