-- ===== src/Datetime.antt =====
-- Absolute-Runtime/src/datetime.cpp: days and civil dates, and times in milliseconds. The 64-bit
-- sums and products on milliseconds and seconds wrap around; the 64-bit values of day counts are
-- integers without a bound (one is a millisecond count divided by 86400000 or comes from a 32-bit
-- year, far inside 64 bits); the casts to 32 bits are written out.
pub mod Eras
pub mod Calendar
pub mod RoundTrip
pub mod Gregorian
pub mod Succession
pub mod Iso
pub mod IsoText
pub mod IsoPieces
pub mod IsoRoundTrip
mod Examples
use absolute.Prelude.{
  ℕ, ◌+◌, ◌-◌, ◌*◌, ◌/◌, ◌%◌, ◌^◌, Bool, true, false, leb, ltb, ◌==◌, if◌then◌else◌,
}
use absolute.Prelude.Int.{ℤ, pos, negsuc, ◌+ℤ◌, ◌-ℤ◌, ◌*ℤ◌, ltb_ℤ}
use absolute.Prelude.Words.{tdiv, trem, to_u32, to_i32, to_i64}

pub record Civil : Type 0 where
  pub year : ℤ
  pub month : ℕ
  pub day : ℕ

-- `(value >= 0 ? value : value - (size - 1)) / size`
unfoldable pub era_of : ℕ → ℤ → ℤ
unfolding tdiv ◌-ℤ◌
era_of size value = tdiv (if ltb_ℤ value (pos 0) then value -ℤ pos (size - 1) else value) size

-- `static_cast<uint32_t>(value - era * size)`
unfoldable pub in_era : ℕ → ℤ → ℤ → ℕ
unfolding to_u32 ◌-ℤ◌ ◌*ℤ◌
in_era size value era = to_u32 (value -ℤ era *ℤ pos size)

abbrev pub year_of_era : ℕ → ℕ
year_of_era doe = (doe - doe / 1460 + doe / 36524 - doe / 146096) / 365

abbrev pub day_of_year : ℕ → ℕ
day_of_year doe = let yoe = year_of_era doe in doe - (365 * yoe + yoe / 4 - yoe / 100)

-- The year starts in March here: `mp` is 0 for March and 11 for February.
abbrev pub month_place : ℕ → ℕ
month_place doy = (5 * doy + 2) / 153

abbrev pub month_of : ℕ → ℕ
month_of mp = if ltb mp 10 then mp + 3 else mp - 9

-- `CivilFromDays` behind the shift of the epoch.
unfoldable pub civil_in_era : ℤ → ℕ → Civil
unfolding to_i32 ◌+ℤ◌ ◌*ℤ◌
civil_in_era era doe =
    let y = pos (year_of_era doe) +ℤ era *ℤ pos 400 in
    let doy = day_of_year doe in
    let mp = month_place doy in
    let month = month_of mp in
    record {
      year = to_i32 (y +ℤ (if leb month 2 then pos 1 else pos 0));
      month = month;
      day = doy - (153 * mp + 2) / 5 + 1;
    }

unfoldable pub civil_from_days : ℤ → Civil
unfolding civil_in_era era_of in_era ◌+ℤ◌
civil_from_days days =
    let shifted = days +ℤ pos 719468 in
    let era = era_of 146097 shifted in civil_in_era era (in_era 146097 shifted era)

-- The `uint32_t` sums of `DaysFromCivil`; `+ day - 1` wraps for day 0.
abbrev pub day_of_era : ℕ → ℕ → ℕ → ℕ
day_of_era yoe month day =
    let place = if ltb 2 month then month - 3 else month + 9 in
    let doy = ((153 * place + 2) / 5 + day + (2 ^ 32 - 1)) % 2 ^ 32 in
    (yoe * 365 + yoe / 4 - yoe / 100 + doy) % 2 ^ 32

-- `DaysFromCivil`, for a month and a day that are not negative.
unfoldable pub days_from_civil : Civil → ℤ
unfolding era_of in_era ◌+ℤ◌ ◌-ℤ◌ ◌*ℤ◌
days_from_civil c =
    let year = if leb c.month 2 then c.year -ℤ pos 1 else c.year in
    let era = era_of 400 year in
    era *ℤ pos 146097 +ℤ pos (day_of_era (in_era 400 year era) c.month c.day) -ℤ pos 719468

-- A civil date with the time of the day.
pub record Moment : Type 0 where
  pub date : Civil
  pub hour : ℕ
  pub minute : ℕ
  pub second : ℕ
  pub millis : ℕ

-- `q = a / d; r = a % d; if (r < 0) { r += d; q -= 1; }`, the remainder.
unfoldable pub fixed_rem : ℤ → ℕ → ℤ
unfolding trem ◌+ℤ◌
fixed_rem a d = let r = trem a d in if ltb_ℤ r (pos 0) then r +ℤ pos d else r

-- ... and the quotient.
unfoldable pub fixed_div : ℤ → ℕ → ℤ
unfolding tdiv trem ◌-ℤ◌
fixed_div a d = if ltb_ℤ (trem a d) (pos 0) then tdiv a d -ℤ pos 1 else tdiv a d

abbrev pub to_nat : ℤ → ℕ
to_nat (pos n) = n
to_nat (negsuc n) = 0

-- `adjustedMillis`
unfoldable pub adjusted_millis : ℤ → ℤ → ℤ
unfolding to_i64 ◌+ℤ◌ ◌*ℤ◌
adjusted_millis unix_millis offset_minutes = to_i64 (unix_millis +ℤ offset_minutes *ℤ pos 60000)

-- The parts of an adjusted time. The remainders are not negative when they are read.
unfoldable pub moment_at : ℤ → Moment
unfolding fixed_rem fixed_div civil_from_days
moment_at adjusted =
    let seconds = fixed_div adjusted 1000 in
    let secs_of_day = to_nat (fixed_rem seconds 86400) in
    record {
      date = civil_from_days (fixed_div seconds 86400);
      hour = secs_of_day / 3600;
      minute = secs_of_day % 3600 / 60;
      second = secs_of_day % 60;
      millis = to_nat (fixed_rem adjusted 1000);
    }

-- `absolute_datetime_civil_from_unix_millis`
unfoldable pub civil_from_unix_millis : ℤ → ℤ → Moment
unfolding moment_at adjusted_millis
civil_from_unix_millis unix_millis offset_minutes =
    moment_at (adjusted_millis unix_millis offset_minutes)

-- `seconds` and `unixMillis`; the products of hours and minutes are in range.
unfoldable pub joined_seconds : ℤ → ℕ → ℕ → ℕ → ℤ
unfolding to_i64 ◌+ℤ◌ ◌*ℤ◌
joined_seconds days hour minute second =
    to_i64 (days *ℤ pos 86400 +ℤ pos (hour * 3600 + minute * 60 + second))

unfoldable pub joined_millis : ℤ → ℕ → ℤ → ℤ
unfolding to_i64 ◌+ℤ◌ ◌-ℤ◌ ◌*ℤ◌
joined_millis seconds millis offset_minutes =
    to_i64 (to_i64 (to_i64 (seconds *ℤ pos 1000) +ℤ pos millis) -ℤ offset_minutes *ℤ pos 60000)

-- `absolute_datetime_civil_to_unix_millis`
unfoldable pub civil_to_unix_millis : Moment → ℤ → ℤ
unfolding days_from_civil joined_seconds joined_millis
civil_to_unix_millis m offset_minutes =
    joined_millis (joined_seconds (days_from_civil m.date) m.hour m.minute m.second) m.millis
      offset_minutes
