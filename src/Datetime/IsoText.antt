-- ===== src/Datetime/IsoText.antt =====
-- Absolute-Runtime/src/datetime.cpp: `absolute_datetime_format_iso`, for a month, a day, a time and
-- milliseconds that are not negative.
use absolute.Prelude.{
  ℕ, zero, suc, ◌+◌, ◌-◌, ◌/◌, ◌%◌, List, [], ◌∷◌, ◌++◌, ltb, if◌then◌else◌, length, replicate,
}
use absolute.Prelude.Int.{ℤ, pos, negsuc}
use absolute.Datetime.Iso.{Stamp}

-- The decimal digits of a number of `width` digits at most.
unfoldable pub decimal : ℕ → ℕ → List ℕ
decimal zero n = []
decimal (suc width) n =
    let front = decimal width (n / 10) in (if ltb n 10 then [] else front) ++ (b'0' + n % 10) ∷ []

-- `%0wd` of a number that is not negative: zeros up to `w` digits.
unfoldable pub padded : ℕ → ℕ → List ℕ
unfolding decimal
padded width n = let digits = decimal 10 n in replicate (width - length digits) b'0' ++ digits

unfoldable pub year_text : ℤ → List ℕ
unfolding padded
year_text (pos n) = padded 4 n
year_text (negsuc n) = b'-' ∷ padded 4 (suc n)

unfoldable pub offset_text : ℕ → ℕ → List ℕ
unfolding padded
offset_text sign minutes = sign ∷ (padded 2 (minutes / 60) ++ b':' ∷ padded 2 (minutes % 60))

unfoldable pub zone_text : ℤ → List ℕ
unfolding offset_text
zone_text (pos zero) = b'Z' ∷ []
zone_text (pos (suc n)) = offset_text b'+' (suc n)
zone_text (negsuc n) = offset_text b'-' (suc n)

-- The milliseconds, which are printed only if there are any.
unfoldable pub millis_text : ℕ → List ℕ
unfolding padded
millis_text zero = []
millis_text (suc n) = b'.' ∷ padded 3 (suc n)

unfoldable pub format_iso : Stamp → List ℕ
unfolding year_text zone_text millis_text padded
format_iso s =
    let m = s.moment in
    year_text m.date.year
    ++ b'-'
      ∷ (padded 2 m.date.month
          ++ b'-'
            ∷ (padded 2 m.date.day
                ++ b'T'
                  ∷ (padded 2 m.hour
                      ++ b':'
                        ∷ (padded 2 m.minute
                            ++ b':'
                              ∷ (padded 2 m.second
                                  ++ (millis_text m.millis ++ zone_text s.offset_minutes))))))
