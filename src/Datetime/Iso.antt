-- ===== src/Datetime/Iso.antt =====
-- Absolute-Runtime/src/datetime.cpp: texts in ISO 8601, printed and parsed. A text is the list of
-- its bytes up to the closing zero, and the cursor is the list of the bytes that are left.
use absolute.Prelude.{
  ℕ, zero, suc, ◌+◌, ◌-◌, ◌*◌, Bool, true, false, ◌&&◌, ◌||◌, List, [], ◌∷◌, Option, none, some,
  Result, ok, err, ◌>>=◌, ltb, leb, ◌==◌, if◌then◌else◌,
}
use absolute.Prelude.Int.{ℤ, pos, negsuc}
use absolute.Datetime.{Civil, Moment}

pub data IsoError : Type 0 where
  empty_text invalid_format invalid_time invalid_fraction invalid_offset : IsoError
  offset_out_of_range trailing_text : IsoError

abbrev pub is_digit : ℕ → Bool
is_digit c = leb b'0' c && leb c b'9'

abbrev pub or_fail : {A : Type 0} → IsoError → Option A → Result IsoError A
or_fail e none = err e
or_fail e (some a) = ok a

-- `ReadYearDigits` behind its loop: four digits or more.
abbrev pub year_end : ℕ → ℕ → List ℕ → Option (ℕ × List ℕ)
year_end digits result s = if ltb digits 4 then none else some (result, s)

-- The loop of `ReadYearDigits`.
unfoldable pub read_year_digits : ℕ → ℕ → List ℕ → Option (ℕ × List ℕ)
read_year_digits digits result [] = year_end digits result []
read_year_digits digits result (c ∷ cs) =
    let later = read_year_digits (digits + 1) (result * 10 + (c - b'0')) cs in
    if is_digit c
    then if ltb 100000000 result then none else later
    else year_end digits result (c ∷ cs)

-- The loop of `ReadFixedDigits`.
unfoldable pub read_fixed_digits : ℕ → ℕ → List ℕ → Option (ℕ × List ℕ)
read_fixed_digits zero result s = some (result, s)
read_fixed_digits (suc count) result [] = none
read_fixed_digits (suc count) result (c ∷ cs) =
    let later = read_fixed_digits count (result * 10 + (c - b'0')) cs in
    if is_digit c then later else none

-- `*cursor == c`, and the step behind it.
abbrev pub behind : ℕ → List ℕ → Option (List ℕ)
behind c [] = none
behind c (x ∷ xs) = if x == c then some xs else none

-- The sign of the year.
abbrev pub year_sign : List ℕ → Bool × List ℕ
year_sign [] = (false, [])
year_sign (c ∷ cs) =
    if c == b'-' then (true, cs) else if c == b'+' then (false, cs) else (false, c ∷ cs)

abbrev pub negated : Bool → ℕ → ℤ
negated false n = pos n
negated true zero = pos zero
negated true (suc n) = negsuc n

-- Two digits behind the separator `c`.
unfoldable pub field_behind : IsoError → ℕ → List ℕ → Result IsoError (ℕ × List ℕ)
unfolding read_fixed_digits
field_behind e c s = do t ← or_fail e (behind c s); or_fail e (read_fixed_digits 2 0 t)

-- The date behind the sign of its year.
unfoldable pub unsigned_date : Bool × List ℕ → Result IsoError (Civil × List ℕ)
unfolding read_year_digits field_behind
unsigned_date (negative, s) = do
  y ← or_fail invalid_format (read_year_digits 0 0 s)
  m ← field_behind invalid_format b'-' y.1
  d ← field_behind invalid_format b'-' m.1
  ok (record { year = negated negative y.0; month = m.0; day = d.0 }, d.1)

-- The date, which is required.
unfoldable pub read_date : List ℕ → Result IsoError (Civil × List ℕ)
unfolding unsigned_date
read_date s = unsigned_date (year_sign s)

-- The seconds, where a colon stands.
unfoldable pub read_seconds : List ℕ → Result IsoError (ℕ × List ℕ)
unfolding read_fixed_digits
read_seconds s = elim (behind b':' s) [
  | none ↦ ok (0, s)
  | some t ↦ or_fail invalid_time (read_fixed_digits 2 0 t)
]

-- The loops of the fraction: three digits count, and missing ones are 0.
unfoldable pub fraction_digits : ℕ → ℕ → List ℕ → ℕ × List ℕ
fraction_digits digits millis [] =
    (millis * (if digits == 1 then 100 else if digits == 2 then 10 else 1), [])
fraction_digits digits millis (c ∷ cs) =
    let later =
      fraction_digits (digits + 1) (if ltb digits 3 then millis * 10 + (c - b'0') else millis) cs in
    if is_digit c
    then later
    else (millis * (if digits == 1 then 100 else if digits == 2 then 10 else 1), c ∷ cs)

unfoldable pub read_fraction : List ℕ → Result IsoError (ℕ × List ℕ)
unfolding fraction_digits
read_fraction [] = ok (0, [])
read_fraction (c ∷ []) = if c == b'.' || c == b',' then err invalid_fraction else ok (0, c ∷ [])
read_fraction (c ∷ d ∷ ds) =
    if c == b'.' || c == b','
    then if is_digit d then ok (fraction_digits 0 0 (d ∷ ds)) else err invalid_fraction
    else ok (0, c ∷ d ∷ ds)

-- The minutes of an offset, which may be left out, with the colon or without.
unfoldable pub read_offset_minutes : List ℕ → Result IsoError (ℕ × List ℕ)
unfolding read_fixed_digits
read_offset_minutes [] = ok (0, [])
read_offset_minutes (c ∷ cs) =
    if is_digit c then or_fail invalid_offset (read_fixed_digits 2 0 (c ∷ cs)) else ok (0, c ∷ cs)

abbrev pub skip_colon : List ℕ → List ℕ
skip_colon [] = []
skip_colon (c ∷ cs) = if c == b':' then cs else c ∷ cs

unfoldable pub read_offset : Bool → List ℕ → Result IsoError (ℤ × List ℕ)
unfolding read_fixed_digits read_offset_minutes
read_offset negative s = do
  h ← or_fail invalid_offset (read_fixed_digits 2 0 s)
  m ← read_offset_minutes (skip_colon h.1)
  if ltb 23 h.0 || ltb 59 m.0
      then err offset_out_of_range
      else ok (negated negative (h.0 * 60 + m.0), m.1)

unfoldable pub read_zone : List ℕ → Result IsoError (ℤ × List ℕ)
unfolding read_offset
read_zone [] = ok (pos 0, [])
read_zone (c ∷ cs) =
    if c == b'Z' || c == b'z'
    then ok (pos 0, cs)
    else if c == b'+' || c == b'-'
    then read_offset (c == b'-') cs
    else ok (pos 0, c ∷ cs)

-- A moment with the minutes of its offset.
pub record Stamp : Type 0 where
  pub moment : Moment
  pub offset_minutes : ℤ

unfoldable pub read_time : Civil → List ℕ → Result IsoError (Stamp × List ℕ)
unfolding read_fixed_digits field_behind read_seconds read_fraction read_zone
read_time date s = do
  h ← or_fail invalid_time (read_fixed_digits 2 0 s)
  m ← field_behind invalid_time b':' h.1
  sec ← read_seconds m.1
  f ← read_fraction sec.1
  z ← read_zone f.1
  ok (
    record {
      moment = record { date = date; hour = h.0; minute = m.0; second = sec.0; millis = f.0 };
      offset_minutes = z.0;
    },
    z.1,
  )

-- The time of the day, where a `T` or a space stands.
unfoldable pub read_rest : Civil → List ℕ → Result IsoError (Stamp × List ℕ)
unfolding read_time
read_rest date [] = ok (
  record {
    moment = record { date = date; hour = 0; minute = 0; second = 0; millis = 0 };
    offset_minutes = pos 0;
  },
  [],
)
read_rest date (c ∷ cs) =
    if c == b'T' || c == b't' || c == b' '
    then read_time date cs
    else ok (
      record {
        moment = record { date = date; hour = 0; minute = 0; second = 0; millis = 0 };
        offset_minutes = pos 0;
      },
      c ∷ cs,
    )

-- White space up to the end.
unfoldable pub only_space : List ℕ → Bool
only_space [] = true
only_space (c ∷ cs) = (c == b' ' || c == b'\t' || c == b'\r' || c == b'\n') && only_space cs

-- `absolute_datetime_parse_iso`; a null text is `none`.
unfoldable pub parse_iso : Option (List ℕ) → Result IsoError Stamp
unfolding read_date read_rest only_space
parse_iso none = err empty_text
parse_iso (some []) = err empty_text
parse_iso (some (c ∷ cs)) = do
  d ← read_date (c ∷ cs)
  r ← read_rest d.0 d.1
  if only_space r.1 then ok r.0 else err trailing_text
