-- ===== src/Datetime/Calendar.antt =====
-- The civil calendar of Datetime: days to dates and back, and the rule of the Gregorian calendar.
use absolute.Prelude.{ℕ, ◌+◌, ◌-◌, ◌*◌, ◌/◌, ◌≤◌, ◌<◌, ◌≡◌, arith}
use absolute.Datetime.{year_of_era, day_of_year, month_place, month_of, day_of_era}

-- The years of an era start at these days.
abbrev pub year_start : ℕ → ℕ
year_start yoe = 365 * yoe + yoe / 4 - yoe / 100

pub year_of_era_bounds :
    (doe : ℕ)
    → doe < 146097
    → (year_of_era doe < 400)
      × (year_start (year_of_era doe) ≤ doe)
      × (doe < year_start (year_of_era doe) + 366)
year_of_era_bounds doe h = (omega arith, omega arith, omega arith)

pub month_place_bounds :
    (doy : ℕ)
    → doy < 366
    → (month_place doy < 12)
      × ((153 * month_place doy + 2) / 5 ≤ doy)
      × (doy < (153 * (month_place doy + 1) + 2) / 5)
month_place_bounds doy h = (omega arith, omega arith, omega arith)

abbrev pub day_in_month : ℕ → ℕ
day_in_month doy = doy - (153 * month_place doy + 2) / 5 + 1

back_in_year :
    (yoe doy : ℕ)
    → yoe < 400
    → doy < 366
    → day_of_era yoe (month_of (month_place doy)) (day_in_month doy) ≡ year_start yoe + doy
back_in_year yoe doy h k = ground (arith, month_place_bounds doy k)

pub day_of_era_back :
    (doe : ℕ)
    → doe < 146097
    → day_of_era
        (year_of_era doe)
        (month_of (month_place (day_of_year doe)))
        (day_in_month (day_of_year doe))
      ≡ doe
day_of_era_back doe h =
    let (a, b, c) = year_of_era_bounds doe h in
    omega (arith, back_in_year (year_of_era doe) (day_of_year doe) a (omega arith))
