-- ===== src/Datetime/RoundTrip.antt =====
-- Datetime: a day count is the day count of its civil date, and a time in milliseconds that of
-- its civil moment.
use absolute.Prelude.{
  ℕ, ◌+◌, ◌*◌, ◌/◌, ◌%◌, ap, ◌≤◌, ◌<◌, ◌≡◌, refl, ◌∙◌, inl, inr, arith, leb, if◌then◌else◌,
  Bool-cases,
}
use absolute.Prelude.Int.{ℤ, pos, pos_part, neg_part, ◌+ℤ◌, ◌-ℤ◌, ◌*ℤ◌, +ℤ_parts, -ℤ_parts}
use absolute.Prelude.Words.{
  FitsI32, FitsI64, to_i32_fits, to_i64, to_i64_fits, *ℤ_parts, parts_normal,
}
use absolute.Datetime.Eras.{
  IsFloor, era_146097, era_400, same_parts, floor_unique_400, fixed_1000, fixed_86400,
}
use absolute.Datetime.Calendar.{day_of_era_back, year_of_era_bounds}
use absolute.Datetime.{
  era_of, in_era, year_of_era, day_of_year, month_place, month_of, civil_in_era, civil_from_days,
  days_from_civil, civil_from_unix_millis, civil_to_unix_millis, fixed_div, fixed_rem, to_nat,
  moment_at, adjusted_millis, joined_seconds, joined_millis,
}

ruleset parts = (arith, +ℤ_parts, -ℤ_parts, *ℤ_parts)

abbrev pub month_in : ℕ → ℕ
month_in doe = month_of (month_place (day_of_year doe))

-- The year that starts in March, and the civil year.
abbrev pub march_year : ℤ → ℕ → ℤ
march_year era doe = pos (year_of_era doe) +ℤ era *ℤ pos 400

abbrev pub civil_year : ℤ → ℕ → ℤ
civil_year era doe = march_year era doe +ℤ (if leb (month_in doe) 2 then pos 1 else pos 0)

year_back :
    (era : ℤ) (doe : ℕ)
    → (if leb (month_in doe) 2 then civil_year era doe -ℤ pos 1 else civil_year era doe)
      ≡ march_year era doe
year_back era doe = elim (Bool-cases (leb (month_in doe) 2)) [
  | inl early ↦ rw early (same_parts _ _ (omega parts))
  | inr late ↦ rw late (same_parts _ _ (omega parts))
]

march_year-IsFloor :
    (era : ℤ) (doe : ℕ) → doe < 146097 → IsFloor 400 (march_year era doe) era (year_of_era doe)
march_year-IsFloor era doe h = (omega arith, omega parts)

back_in_era :
    (era : ℤ) (doe : ℕ)
    → doe < 146097
    → FitsI32 (civil_year era doe)
    → days_from_civil (civil_in_era era doe) ≡ era *ℤ pos 146097 +ℤ pos doe -ℤ pos 719468
unfolding days_from_civil civil_in_era
back_in_era era doe h fits =
    let y = march_year era doe in
    let (same_era, same_year) =
      floor_unique_400 y (era_of 400 y) era (in_era 400 y (era_of 400 y)) (year_of_era doe)
        (era_400 y) (march_year-IsFloor era doe h) in
    rw
      (
        to_i32_fits (civil_year era doe) fits,
        year_back era doe,
        same_year,
        same_era,
        day_of_era_back doe h,
      )
      refl

-- Day counts whose years fit an `int32_t`: some two thousand million years either way.
abbrev pub InRange : ℤ → Type 0
InRange days = (pos_part days ≤ 784000000000) × (neg_part days ≤ 784000000000)

pub civil_year_fits :
    (days era : ℤ) (doe : ℕ)
    → InRange days
    → IsFloor 146097 (days +ℤ pos 719468) era doe
    → FitsI32 (civil_year era doe)
civil_year_fits days era doe h f =
    let (small, _, _) = year_of_era_bounds doe f.0 in
    elim (Bool-cases (leb (month_in doe) 2)) [
      | inl early ↦
          rw early (omega (parts, parts_normal (march_year era doe +ℤ pos 1), parts_normal days))
      | inr late ↦
          rw late (omega (parts, parts_normal (march_year era doe +ℤ pos 0), parts_normal days))
    ]

-- Every day count in range is the day count of its civil date.
pub days_from_civil-civil_from_days :
    (days : ℤ) → InRange days → days_from_civil (civil_from_days days) ≡ days
unfolding civil_from_days
days_from_civil-civil_from_days days h =
    let z = days +ℤ pos 719468 in
    let f = era_146097 z in
    let era = era_of 146097 z in
    let doe = in_era 146097 z era in
    back_in_era era doe f.0 (civil_year_fits days era doe h f)
    ∙ same_parts (era *ℤ pos 146097 +ℤ pos doe -ℤ pos 719468) days (omega (parts, f))

-- Milliseconds that have more than a day left to the bounds of 64 bits, so that no sum leaves them
-- at an offset of a day or less.
abbrev pub MillisInRange : ℤ → Type 0
MillisInRange t = (pos_part t ≤ 9223372036768374000) × (neg_part t ≤ 9223372036768374000)

abbrev pub OffsetInRange : ℤ → Type 0
OffsetInRange o = (pos_part o ≤ 1440) × (neg_part o ≤ 1440)

adjusted_millis-fits :
    (t offset : ℤ)
    → MillisInRange t
    → OffsetInRange offset
    → adjusted_millis t offset ≡ t +ℤ offset *ℤ pos 60000
unfolding adjusted_millis
adjusted_millis-fits t offset h k =
    let adjusted = t +ℤ offset *ℤ pos 60000 in
    to_i64_fits adjusted
      (omega (parts, parts_normal adjusted, parts_normal t, parts_normal (offset *ℤ pos 60000)))

-- Seconds and milliseconds of a floor are put together again.
joined_seconds-floor :
    (seconds days : ℤ) (hour minute second : ℕ)
    → FitsI64 seconds
    → IsFloor 86400 seconds days (hour * 3600 + minute * 60 + second)
    → joined_seconds days hour minute second ≡ seconds
unfolding joined_seconds
joined_seconds-floor seconds days hour minute second h f =
    let clock = hour * 3600 + minute * 60 + second in
    let same = same_parts (days *ℤ pos 86400 +ℤ pos clock) seconds (omega (parts, f)) in
    ap to_i64 same ∙ to_i64_fits seconds h

joined_millis-floor :
    (t offset seconds : ℤ) (millis : ℕ)
    → MillisInRange t
    → OffsetInRange offset
    → IsFloor 1000 (t +ℤ offset *ℤ pos 60000) seconds millis
    → joined_millis seconds millis offset ≡ t
unfolding joined_millis
joined_millis-floor t offset seconds millis h k f =
    let shift = offset *ℤ pos 60000 in
    let product = seconds *ℤ pos 1000 in
    let sum = product +ℤ pos millis in
    let first : to_i64 product ≡ product =
      to_i64_fits product
        (omega (parts, f, parts_normal product, parts_normal sum, parts_normal t)) in
    let second : to_i64 sum ≡ sum =
      to_i64_fits sum (omega (parts, f, parts_normal product, parts_normal sum, parts_normal t)) in
    let back = same_parts (sum -ℤ shift) t (omega (parts, f)) in
    rw first (rw second (ap to_i64 back ∙ to_i64_fits t (omega (arith, h))))

-- A time in milliseconds that is more than a day inside the bounds of an `int64_t`, taken apart at
-- an offset of a day or less and put together again at that offset, is
-- the same time; the parts are an hour, a minute, a second and a millisecond of a clock.
pub civil_to_unix_millis-civil_from_unix_millis :
    (t offset : ℤ)
    → MillisInRange t
    → OffsetInRange offset
    → let m = civil_from_unix_millis t offset in
      (civil_to_unix_millis m offset ≡ t)
      × (m.hour < 24)
      × (m.minute < 60)
      × (m.second < 60)
      × (m.millis < 1000)
unfolding civil_from_unix_millis civil_to_unix_millis moment_at
civil_to_unix_millis-civil_from_unix_millis t offset h k =
    let adjusted = t +ℤ offset *ℤ pos 60000 in
    let (_, f) = fixed_1000 adjusted in
    let seconds = fixed_div adjusted 1000 in
    let (_, g) = fixed_86400 seconds in
    let days = fixed_div seconds 86400 in
    let back = days_from_civil-civil_from_days days (omega (parts, f, g, parts_normal days)) in
    let clock = to_nat (fixed_rem seconds 86400) in
    let millis = to_nat (fixed_rem adjusted 1000) in
    let hour = clock / 3600 in
    let minute = clock % 3600 / 60 in
    let second = clock % 60 in
    let whole = joined_seconds-floor seconds days hour minute second in
    rw (adjusted_millis-fits t offset h k) (
      ap (λ d. joined_millis (joined_seconds d hour minute second) millis offset) back
          ∙ ap (λ z. joined_millis z millis offset)
              (whole (omega (parts, f, parts_normal seconds)) (omega (arith, g), omega (arith, g)))
          ∙ joined_millis-floor t offset seconds millis h k f,
      omega (arith, g),
      omega arith,
      omega arith,
      omega (arith, f),
    )
