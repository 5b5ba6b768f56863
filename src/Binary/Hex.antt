-- ===== src/Binary/Hex.antt =====
-- The hexadecimal text of Binary says what the buffer holds.
use absolute.Prelude.{
  ℕ, ◌+◌, ◌-◌, ◌*◌, ◌/◌, ◌%◌, ◌<◌, ◌≡◌, refl, List, [], ◌∷◌, arith, ltb, if◌then◌else◌, length,
}
use absolute.Binary.{Writer, hex_digit, hex_of, to_hex}

abbrev pub AllBytes : List ℕ → Type 0
AllBytes [] = Unit {0}
AllBytes (b ∷ bs) = (b < 256) × AllBytes bs

-- The value of a digit, and of a text of digits, two for each byte.
unfoldable pub digit_value : ℕ → ℕ
digit_value c = if ltb c b'a' then c - b'0' else c - b'a' + 10

unfoldable pub bytes_from : List ℕ → List ℕ
unfolding digit_value
bytes_from (high ∷ low ∷ rest) = (digit_value high * 16 + digit_value low) ∷ bytes_from rest
bytes_from _ = []

digit_value-hex_digit : (d : ℕ) → d < 16 → digit_value (hex_digit d) ≡ d
unfolding digit_value hex_digit
digit_value-hex_digit d h = ground arith

bytes_from-hex_of : (bs : List ℕ) → AllBytes bs → bytes_from (hex_of bs) ≡ bs
unfolding bytes_from hex_of
bytes_from-hex_of [] h = refl
bytes_from-hex_of (b ∷ bs) h = ground (
  arith,
  digit_value-hex_digit (b / 16) (omega arith),
  digit_value-hex_digit (b % 16) (omega arith),
  bytes_from-hex_of bs h.1,
)

length-hex_of : (bs : List ℕ) → length (hex_of bs) ≡ 2 * length bs
unfolding hex_of
length-hex_of [] = refl
length-hex_of (b ∷ bs) = omega (arith, length-hex_of bs)

-- The text of a buffer of bytes, numbers below 256, has two digits for each byte, and reading the
-- digits gives the buffer back.
pub bytes_from-to_hex :
    (w : Writer)
    → AllBytes w.buffer
    → (length (to_hex w) ≡ 2 * length w.buffer) × (bytes_from (to_hex w) ≡ w.buffer)
unfolding to_hex
bytes_from-to_hex w h = (length-hex_of w.buffer, bytes_from-hex_of w.buffer h)
