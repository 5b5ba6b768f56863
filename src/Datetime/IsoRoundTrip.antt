-- ===== src/Datetime/IsoRoundTrip.antt =====
-- What `absolute_datetime_format_iso` prints, `absolute_datetime_parse_iso` reads back.
use absolute.Prelude.{
  ℕ, suc, ◌<◌, ◌≡◌, refl, ap, ◌∙◌, Bool, true, false, List, [], ◌∷◌, ◌++◌, some, ok, err, arith,
}
use absolute.Prelude.Int.{ℤ, pos, negsuc, pos_part, neg_part}
use absolute.Datetime.{Civil}
use absolute.Datetime.Iso.{
  invalid_format, invalid_time, year_sign, negated, unsigned_date, read_date, Stamp, read_time,
  parse_iso,
}
use absolute.Datetime.IsoText.{padded, year_text, zone_text, millis_text, format_iso}
use absolute.Datetime.IsoPieces.{
  read_fixed-padded_2, padded_4, read_year-padded_4, field_behind-padded_2, read_zone-zone_text,
  read_fraction-millis_text, read_seconds-padded_2, IsPrintable,
}

read_time-text :
    (s : Stamp)
    → IsPrintable s
    → read_time s.moment.date (
        padded 2 s.moment.hour
        ++ b':'
          ∷ (padded 2 s.moment.minute
              ++ b':'
                ∷ (padded 2 s.moment.second
                    ++ (millis_text s.moment.millis ++ zone_text s.offset_minutes))))
      ≡ ok (s, [])
unfolding read_time
read_time-text s (y, y', mo, d, h, mi, sec, ms, o, o') =
    let m = s.moment in
    let zone = zone_text s.offset_minutes in
    let tail = millis_text m.millis ++ zone in
    rw
      (read_fixed-padded_2 m.hour (b':' ∷ (padded 2 m.minute ++ b':' ∷ (padded 2 m.second ++ tail)))
        h)
      (rw (field_behind-padded_2 invalid_time b':' m.minute (b':' ∷ (padded 2 m.second ++ tail)) mi)
        (rw (read_seconds-padded_2 m.second tail sec) (
          rw (read_fraction-millis_text m.millis s.offset_minutes ms)
            (rw (read_zone-zone_text s.offset_minutes o o') refl))))

unsigned_date-text :
    (negative : Bool) (year month day : ℕ) (t : List ℕ)
    → year < 10000
    → month < 100
    → day < 100
    → unsigned_date
        (negative, padded 4 year ++ b'-' ∷ (padded 2 month ++ b'-' ∷ (padded 2 day ++ t)))
      ≡ ok (record { year = negated negative year; month = month; day = day }, t)
unfolding unsigned_date
unsigned_date-text negative year month day t y mo d =
    rw (read_year-padded_4 year (padded 2 month ++ b'-' ∷ (padded 2 day ++ t)) y) (
      rw (field_behind-padded_2 invalid_format b'-' month (b'-' ∷ (padded 2 day ++ t)) mo)
        (rw (field_behind-padded_2 invalid_format b'-' day t d) refl))

year_sign-padded_4 :
    (n : ℕ) (t : List ℕ) → n < 10000 → year_sign (padded 4 n ++ t) ≡ (false, padded 4 n ++ t)
year_sign-padded_4 n t h = rw (padded_4 n h) (ground arith)

-- The sign and the digits of a printed year.
year_sign-year_text :
    (year : ℤ) (t : List ℕ)
    → pos_part year < 10000
    → neg_part year < 10000
    → (negative : Bool) × (n : ℕ) × (year_sign (year_text year ++ t) ≡ (negative, padded 4 n ++ t))
      × (n < 10000)
      × (negated negative n ≡ year)
unfolding year_text
year_sign-year_text (pos n) t h k = (false, n, year_sign-padded_4 n t h, h, refl)
year_sign-year_text (negsuc n) t h k = (true, suc n, refl, k, refl)

read_date-text :
    (date : Civil) (t : List ℕ)
    → pos_part date.year < 10000
    → neg_part date.year < 10000
    → date.month < 100
    → date.day < 100
    → read_date
        (year_text date.year ++ b'-' ∷ (padded 2 date.month ++ b'-' ∷ (padded 2 date.day ++ t)))
      ≡ ok (date, t)
unfolding read_date
read_date-text date t y y' mo d =
    let fields = b'-' ∷ (padded 2 date.month ++ b'-' ∷ (padded 2 date.day ++ t)) in
    let (negative, n, e, small, back) = year_sign-year_text date.year fields y y' in
    ap unsigned_date e
    ∙ unsigned_date-text negative n date.month date.day t small mo d
    ∙ ap (λ x. ok (record { year = x; month = date.month; day = date.day }, t)) back

read_date-nil : read_date [] ≡ err invalid_format
unfolding read_date
read_date-nil = refl

-- A text whose date and time are read, and that ends there.
parse_iso-parts :
    (text rest : List ℕ) (date : Civil) (s : Stamp)
    → read_date text ≡ ok (date, b'T' ∷ rest)
    → read_time date rest ≡ ok (s, [])
    → parse_iso (some text) ≡ ok s
unfolding parse_iso
parse_iso-parts [] rest date s d t = cc read_date-nil
parse_iso-parts (c ∷ cs) rest date s d t = rw d (rw t refl)

-- A stamp with a year of at most four digits, other fields that fit the digits they are printed
-- with, and an offset of less than a day either way is read back as it was from what `format_iso`
-- prints for it, also with a negative year and without milliseconds.
pub parse_iso-format_iso : (s : Stamp) → IsPrintable s → parse_iso (some (format_iso s)) ≡ ok s
unfolding format_iso
parse_iso-format_iso s h =
    let m = s.moment in
    let rest =
      padded 2 m.hour
      ++ b':'
        ∷ (padded 2 m.minute
            ++ b':'
              ∷ (padded 2 m.second ++ (millis_text m.millis ++ zone_text s.offset_minutes))) in
    parse_iso-parts (format_iso s) rest m.date s
      (read_date-text m.date (b'T' ∷ rest) h.0 h.1 h.2 h.3) (read_time-text s h)
