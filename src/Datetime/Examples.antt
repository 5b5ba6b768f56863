-- ===== src/Datetime/Examples.antt =====
-- Absolute-Runtime/src/datetime.cpp at concrete days and times.
use absolute.Prelude.{◌<◌, ◌≡◌, refl, arith, [], ◌∷◌, some, ok}
use absolute.Prelude.Int.{pos, negsuc, ◌+ℤ◌}
use absolute.Datetime.RoundTrip.{
  days_from_civil-civil_from_days, civil_to_unix_millis-civil_from_unix_millis,
}
use absolute.Datetime.Gregorian.{next_day}
use absolute.Datetime.Iso.{Stamp, parse_iso}
use absolute.Datetime.IsoText.{format_iso}
use absolute.Datetime.IsoRoundTrip.{parse_iso-format_iso}
use absolute.Datetime.Succession.{civil_from_days_suc}
use absolute.Datetime.{
  civil_from_days, days_from_civil, civil_from_unix_millis, civil_to_unix_millis,
}

epoch-test : civil_from_days (pos 0) ≡ record { year = pos 1970; month = 1; day = 1 }
unfolding civil_from_days
epoch-test = refl

leap_day-test : civil_from_days (pos 19782) ≡ record { year = pos 2024; month = 2; day = 29 }
unfolding civil_from_days
leap_day-test = refl

before_epoch-test : civil_from_days (negsuc 0) ≡ record { year = pos 1969; month = 12; day = 31 }
unfolding civil_from_days
before_epoch-test = refl

-- A month that is none is taken without a test: 2023-13-01 is 2024-01-01.
month_13-test :
    days_from_civil (record { year = pos 2023; month = 13; day = 1 })
    ≡ days_from_civil (record { year = pos 2024; month = 1; day = 1 })
unfolding days_from_civil
month_13-test = refl

days_from_civil-civil_from_days_example :
    days_from_civil (civil_from_days (negsuc 719467)) ≡ negsuc 719467
days_from_civil-civil_from_days_example =
    days_from_civil-civil_from_days (negsuc 719467) (omega arith)

civil_to_unix_millis-civil_from_unix_millis_example :
    let m = civil_from_unix_millis (negsuc 0) (pos 180) in
    (civil_to_unix_millis m (pos 180) ≡ negsuc 0)
    × (m.hour < 24)
    × (m.minute < 60)
    × (m.second < 60)
    × (m.millis < 1000)
civil_to_unix_millis-civil_from_unix_millis_example =
    civil_to_unix_millis-civil_from_unix_millis (negsuc 0) (pos 180) (omega arith) (omega arith)

civil_from_days_suc_example :
    civil_from_days (pos 19782 +ℤ pos 1) ≡ next_day (civil_from_days (pos 19782))
unfolding ◌+ℤ◌
civil_from_days_suc_example = civil_from_days_suc (pos 19782) (omega arith) (omega arith)

-- 30 milliseconds before midnight on the last day of the year -44, half an hour west of Greenwich.
abbrev old_stamp : Stamp
old_stamp = record {
  moment = record {
    date = record { year = negsuc 43; month = 12; day = 31 };
    hour = 23;
    minute = 59;
    second = 59;
    millis = 970;
  };
  offset_minutes = negsuc 29;
}

-- A month that is none is taken by the parser too: "2023-13-45".
month_13_text-test :
    parse_iso (some (b'2' ∷ b'0' ∷ b'2' ∷ b'3' ∷ b'-' ∷ b'1' ∷ b'3' ∷ b'-' ∷ b'4' ∷ b'5' ∷ []))
    ≡ ok (record {
      moment = record {
        date = record { year = pos 2023; month = 13; day = 45 };
        hour = 0;
        minute = 0;
        second = 0;
        millis = 0;
      };
      offset_minutes = pos 0;
    })
unfolding parse_iso
month_13_text-test = refl

parse_iso-format_iso_example : parse_iso (some (format_iso old_stamp)) ≡ ok old_stamp
parse_iso-format_iso_example = parse_iso-format_iso old_stamp (omega arith)
