-- ===== src/Datetime/Gregorian.antt =====
-- The dates of Datetime follow one another by the rule of the Gregorian calendar.
use absolute.Prelude.{
  ℕ, ◌+◌, ◌-◌, ◌*◌, ◌/◌, ◌%◌, ◌<◌, ◌≡◌, sym, ap, ap₂, ◌∙◌, inl, inr, ◌⊎◌, Bool, not, ◌&&◌, ◌||◌,
  arith, ltb, leb, ◌==◌, if◌then◌else◌, Bool-cases,
}
use absolute.Prelude.Int.{ℤ, pos, negsuc, ◌+ℤ◌, +ℤ_parts}
use absolute.Datetime.Eras.{same_parts}
use absolute.Datetime.Calendar.{day_in_month}
use absolute.Datetime.{Civil, month_place, month_of}

-- The remainder of a year, not negative.
abbrev pub year_mod : ℤ → ℕ → ℕ
year_mod (pos n) k = n % k
year_mod (negsuc n) k = k - 1 - n % k

unfoldable pub is_leap : ℤ → Bool
is_leap year = year_mod year 4 == 0 && (not (year_mod year 100 == 0) || year_mod year 400 == 0)

unfoldable pub days_in_month : ℤ → ℕ → ℕ
unfolding is_leap
days_in_month year month =
    if month == 2
    then if is_leap year then 29 else 28
    else if month == 4 || month == 6 || month == 9 || month == 11
    then 30
    else 31

unfoldable pub next_day : Civil → Civil
next_day c =
    if ltb c.day (days_in_month c.year c.month)
    then record c { day = c.day + 1 }
    else if ltb c.month 12
    then record c { month = c.month + 1; day = 1 }
    else record { year = c.year +ℤ pos 1; month = 1; day = 1 }

-- The days of the month at a place in the year that starts in March, February left out.
place_length : ℕ → ℕ
place_length mp = (153 * (mp + 1) + 2) / 5 - (153 * mp + 2) / 5

days_in_month-month_of :
    (year : ℤ) (mp : ℕ) → mp < 11 → days_in_month year (month_of mp) ≡ place_length mp
unfolding days_in_month place_length
days_in_month-month_of year mp h = ground arith

next_in_year :
    (doy : ℕ)
    → doy < 365
    → ((month_place (doy + 1) ≡ month_place doy)
        × (day_in_month (doy + 1) ≡ day_in_month doy + 1)
        × (month_place doy < 11 → day_in_month doy < place_length (month_place doy)))
      ⊎ ((month_place (doy + 1) ≡ month_place doy + 1)
          × (day_in_month (doy + 1) ≡ 1)
          × (day_in_month doy ≡ place_length (month_place doy))
          × (month_place doy < 11))
unfolding place_length
next_in_year doy h = elim (Bool-cases (month_place (doy + 1) == month_place doy)) [
  | inl same ↦ inl (ground arith, ground arith, λ k. ground arith)
  | inr other ↦ inr (ground arith, ground arith, ground arith, ground arith)
]

-- The date in a year that starts in March, by its month's place.
abbrev pub early : ℕ → ℤ
early mp = if leb (month_of mp) 2 then pos 1 else pos 0

abbrev pub date : ℤ → ℕ → ℕ → Civil
date year mp day = record { year = year +ℤ early mp; month = month_of mp; day = day }

abbrev february : ℤ → ℕ
february year = if is_leap (year +ℤ pos 1) then 29 else 28

zero_more : (z : ℤ) → z +ℤ pos 0 +ℤ pos 1 ≡ z +ℤ pos 1
zero_more z =
    same_parts _ _
      (omega (arith, +ℤ_parts z (pos 0), +ℤ_parts (z +ℤ pos 0) (pos 1), +ℤ_parts z (pos 1)))

plus_zero : (z : ℤ) → z +ℤ pos 0 ≡ z
plus_zero z = same_parts _ _ (omega (arith, +ℤ_parts z (pos 0)))

days_in_february : (year : ℤ) → days_in_month year 2 ≡ (if is_leap year then 29 else 28)
unfolding days_in_month
days_in_february year = ground arith

next_same :
    (year : ℤ) (mp day : ℕ)
    → mp < 11
    → day < place_length mp
    → next_day (date year mp day) ≡ date year mp (day + 1)
unfolding next_day
next_same year mp day h k = ground (arith, days_in_month-month_of (year +ℤ early mp) mp h)

next_february :
    (year : ℤ) (day : ℕ)
    → day < february year
    → next_day (date year 11 day) ≡ date year 11 (day + 1)
unfolding next_day
next_february year day k = ground (arith, days_in_february (year +ℤ pos 1))

next_place :
    (year : ℤ) (mp : ℕ) → mp < 11 → next_day (date year mp (place_length mp)) ≡ date year (mp + 1) 1
unfolding next_day
next_place year mp h =
    ground (arith, days_in_month-month_of (year +ℤ early mp) mp h, zero_more year)

next_march : (year : ℤ) → next_day (date year 11 (february year)) ≡ date (year +ℤ pos 1) 0 1
unfolding next_day
next_march year = ground (arith, days_in_february (year +ℤ pos 1), plus_zero (year +ℤ pos 1))

abbrev pub date_at : ℤ → ℕ → Civil
date_at year doy = date year (month_place doy) (day_in_month doy)

abbrev pub year_length : ℤ → ℕ
year_length year = if is_leap (year +ℤ pos 1) then 366 else 365

pub step_inside :
    (year : ℤ) (doy : ℕ)
    → doy + 1 < year_length year
    → next_day (date_at year doy) ≡ date_at year (doy + 1)
step_inside year doy h = elim (next_in_year doy (ground arith)) [
  | inl (place, day, short) ↦ elim (Bool-cases (ltb (month_place doy) 11)) [
    | inl before ↦
        next_same year (month_place doy) (day_in_month doy) (ground arith) (short (ground arith))
        ∙ ap₂ (date year) (sym place) (sym day)
    | inr last ↦
        let e : month_place doy ≡ 11 = ground arith in
        ap (λ mp. next_day (date year mp (day_in_month doy))) e
        ∙ next_february year (day_in_month doy) (ground arith)
        ∙ ap₂ (date year) (sym (place ∙ e)) (sym day)
  ]
  | inr (place, day, last, small) ↦
      ap (λ d. next_day (date year (month_place doy) d)) last
      ∙ next_place year (month_place doy) small
      ∙ ap₂ (date year) (sym place) (sym day)
]

pub step_over :
    (year : ℤ) (doy : ℕ)
    → doy + 1 ≡ year_length year
    → next_day (date_at year doy) ≡ date_at (year +ℤ pos 1) 0
step_over year doy h =
    let e : month_place doy ≡ 11 = ground arith in
    let f : day_in_month doy ≡ february year = ground arith in
    ap₂ (λ mp d. next_day (date year mp d)) e f ∙ next_march year
