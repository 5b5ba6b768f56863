-- ===== src/Datetime/Succession.antt =====
-- Dates of Datetime follow one another by the rule of the Gregorian calendar: the theorem, from
-- the steps within a year and from one year to the next (Datetime/Gregorian).
use absolute.Prelude.{
  ℕ, ◌+◌, ◌%◌, ◌<◌, ◌≡◌, refl, sym, ap, ap₂, ◌∙◌, inl, inr, Bool, not, ◌&&◌, ◌||◌, arith, ltb, ◌==◌,
  if◌then◌else◌, Bool-cases, ltb→lt, ltb_false→le,
}
use absolute.Prelude.Int.{ℤ, pos, negsuc, ◌+ℤ◌, ◌*ℤ◌, +ℤ_parts}
use absolute.Prelude.Words.{FitsI32, to_i32_fits, *ℤ_parts}
use absolute.Datetime.Eras.{era_146097, same_parts, floor_unique_146097}
use absolute.Datetime.Calendar.{year_of_era_bounds, year_start}
use absolute.Datetime.RoundTrip.{InRange, march_year, civil_year, civil_year_fits}
use absolute.Datetime.Gregorian.{is_leap, next_day, date_at, year_length, step_inside, step_over}
use absolute.Datetime.{
  Civil, era_of, in_era, year_of_era, day_of_year, civil_in_era, civil_from_days,
}

leap_number : ℕ → Bool
leap_number n = n % 4 == 0 && (not (n % 100 == 0) || n % 400 == 0)

is_leap_era :
    (era : ℤ) (yoe : ℕ) → is_leap (pos yoe +ℤ era *ℤ pos 400 +ℤ pos 1) ≡ leap_number (yoe + 1)
unfolding is_leap leap_number ◌+ℤ◌ ◌*ℤ◌
is_leap_era (pos n) yoe = ground arith
is_leap_era (negsuc n) yoe = ground arith

abbrev length_number : ℕ → ℕ
length_number yoe = if leap_number (yoe + 1) then 366 else 365

-- Day `doe` of an era is day `doy` of its year `y`.
record Split (y doy doe : ℕ) : Type 0 where
  in_years : y < 400
  in_days : doy < length_number y
  is_day : year_start y + doy ≡ doe

Split-year : {y doy doe : ℕ} → Split y doy doe → (year_of_era doe ≡ y) × (day_of_year doe ≡ doy)
unfolding leap_number
Split-year {y} {doy} s =
    let e : year_of_era (year_start y + doy) ≡ y = ground (arith, s.in_years, s.in_days) in
    (rw (← s.is_day) e, rw (← s.is_day, e) (omega arith))

split : (doe : ℕ) → doe < 146097 → Split (year_of_era doe) (day_of_year doe) doe
unfolding leap_number
split doe h = record {
  in_years = omega arith;
  in_days = ground arith;
  is_day = omega (arith, year_of_era_bounds doe h);
}

year_start-suc : (y : ℕ) → y < 399 → year_start (y + 1) ≡ year_start y + length_number y
unfolding leap_number
year_start-suc y h = ground arith

abbrev calendar : ℤ → ℕ → Civil
calendar era doe = date_at (march_year era doe) (day_of_year doe)

abbrev date_in : ℤ → ℕ → ℕ → Civil
date_in era y doy = date_at (pos y +ℤ era *ℤ pos 400) doy

calendar-Split : (era : ℤ) {y doy doe : ℕ} → Split y doy doe → date_in era y doy ≡ calendar era doe
calendar-Split era s = let (a, b) = Split-year s in ap₂ (date_in era) (sym a) (sym b)

year_length-era : (era : ℤ) (y : ℕ) → year_length (pos y +ℤ era *ℤ pos 400) ≡ length_number y
year_length-era era y = rw (is_leap_era era y)

year_more : (era : ℤ) (y : ℕ) → pos y +ℤ era *ℤ pos 400 +ℤ pos 1 ≡ pos (y + 1) +ℤ era *ℤ pos 400
year_more era y = same_parts _ _ (omega (arith, +ℤ_parts, *ℤ_parts))

era_more : (era : ℤ) → pos 399 +ℤ era *ℤ pos 400 +ℤ pos 1 ≡ pos 0 +ℤ (era +ℤ pos 1) *ℤ pos 400
era_more era = same_parts _ _ (omega (arith, +ℤ_parts, *ℤ_parts))

next_in_era :
    (era : ℤ) {y doy doe : ℕ}
    → Split y doy doe
    → doe + 1 < 146097
    → next_day (date_in era y doy) ≡ calendar era (doe + 1)
next_in_era era {y} {doy} {doe} s h = elim (Bool-cases (ltb (doy + 1) (length_number y))) [
  | inl inside ↦
      step_inside (pos y +ℤ era *ℤ pos 400) doy (rw (year_length-era era y) (ground arith))
      ∙ calendar-Split era (record {
        in_years = s.in_years;
        in_days = ground arith;
        is_day = omega (arith, s.is_day);
      })
  | inr over ↦
      let whole : doy + 1 ≡ length_number y = ground (arith, s.in_days) in
      let more : y < 399 = unfold leap_number in ground (arith, s.in_years, s.is_day) in
      step_over (pos y +ℤ era *ℤ pos 400) doy (rw (year_length-era era y) whole)
      ∙ ap (λ year. date_at year 0) (year_more era y)
      ∙ calendar-Split era {doy = 0} (record {
        in_years = omega arith;
        in_days = ground arith;
        is_day = omega (arith, s.is_day, year_start-suc y more);
      })
]

next_era :
    (era : ℤ) {y doy : ℕ}
    → Split y doy 146096
    → next_day (date_in era y doy) ≡ calendar (era +ℤ pos 1) 0
unfolding leap_number
next_era era {y} {doy} s =
    let last : y ≡ 399 = ground (arith, s.in_years, s.in_days, s.is_day) in
    let day : doy ≡ 365 = ground (arith, s.is_day) in
    ap₂ (λ a b. next_day (date_in era a b)) last day
    ∙ step_over (pos 399 +ℤ era *ℤ pos 400) 365 (rw (year_length-era era 399) refl)
    ∙ ap (λ year. date_at year 0) (era_more era)

civil_in_era-calendar :
    (era : ℤ) (doe : ℕ) → FitsI32 (civil_year era doe) → civil_in_era era doe ≡ calendar era doe
unfolding civil_in_era
civil_in_era-calendar era doe h = rw (to_i32_fits (civil_year era doe) h)

-- The day after a date of the calendar, in range of the years of 32 bits, is the next date by
-- the Gregorian rule: months of 30 and 31 days, a February of 28 or 29, and a leap year every
-- fourth year but for the centuries that 400 does not divide.
pub civil_from_days_suc :
    (days : ℤ)
    → InRange days
    → InRange (days +ℤ pos 1)
    → civil_from_days (days +ℤ pos 1) ≡ next_day (civil_from_days days)
unfolding civil_from_days
civil_from_days_suc days h k =
    let z = days +ℤ pos 719468 in
    let z' = days +ℤ pos 1 +ℤ pos 719468 in
    let f = era_146097 z in
    let f' = era_146097 z' in
    let era = era_of 146097 z in
    let doe = in_era 146097 z era in
    let era' = era_of 146097 z' in
    let doe' = in_era 146097 z' era' in
    civil_in_era-calendar era' doe' (civil_year_fits (days +ℤ pos 1) era' doe' k f')
    ∙ sym (
        ap next_day (civil_in_era-calendar era doe (civil_year_fits days era doe h f))
        ∙ elim (Bool-cases (ltb (doe + 1) 146097)) [
          | inl within ↦
              let (a, b) =
                floor_unique_146097 z' era era' (doe + 1) doe'
                  (ltb→lt (doe + 1) 146097 within, omega (arith, f, +ℤ_parts)) f' in
              next_in_era era (split doe f.0) (ltb→lt (doe + 1) 146097 within) ∙ ap₂ calendar a b
          | inr over ↦
              let last : doe ≡ 146096 = omega (arith, f.0, ltb_false→le (doe + 1) 146097 over) in
              let (a, b) =
                floor_unique_146097 z' (era +ℤ pos 1) era' 0 doe'
                  (omega arith, omega (arith, f, last, +ℤ_parts)) f' in
              ap (λ d. next_day (calendar era d)) last
              ∙ next_era era (split 146096 (omega arith))
              ∙ ap₂ calendar a b
        ])
