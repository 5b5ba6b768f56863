-- ===== src/Datetime/IsoPieces.antt =====
-- The pieces of the ISO 8601 texts of Absolute-Runtime/src/datetime.cpp: each function of the parser
-- reads what the printer writes for it.
use absolute.Prelude.{
  ℕ, zero, suc, ◌+◌, ◌*◌, ◌/◌, ◌%◌, ◌<◌, ◌≡◌, refl, sym, ap, ◌∙◌, Bool, true, false, ◌||◌, List, [],
  ◌∷◌, ◌++◌, some, Result, ok, err, ltb, ◌==◌, if◌then◌else◌, arith, inl, inr, Bool-cases,
}
use absolute.Prelude.Int.{ℤ, pos, negsuc, pos_part, neg_part}
use absolute.Datetime.Iso.{
  IsoError, invalid_time, offset_out_of_range, is_digit, or_fail, read_year_digits,
  read_fixed_digits, negated, field_behind, read_seconds, fraction_digits, read_fraction,
  read_offset_minutes, read_offset, read_zone, Stamp,
}
use absolute.Datetime.IsoText.{padded, zone_text, millis_text}

pub digit : (a : ℕ) → a < 10 → (is_digit (b'0' + a) ≡ true)
digit a h = ground arith

pub padded_2 : (n : ℕ) → n < 100 → padded 2 n ≡ (b'0' + n / 10) ∷ (b'0' + n % 10) ∷ []
unfolding padded
padded_2 n h = elim (Bool-cases (ltb n 10)) [ inl small ↦ ground arith | inr large ↦ ground arith ]

pub read_fixed-padded_2 :
    (n : ℕ) (t : List ℕ) → n < 100 → read_fixed_digits 2 0 (padded 2 n ++ t) ≡ some (n, t)
unfolding read_fixed_digits
read_fixed-padded_2 n t h = rw (padded_2 n h) (ground arith)

pub padded_3 :
    (n : ℕ) → n < 1000 → padded 3 n ≡ (b'0' + n / 100) ∷ (b'0' + n / 10 % 10) ∷ (b'0' + n % 10) ∷ []
unfolding padded
padded_3 n h = elim (Bool-cases (ltb n 10)) [
  | inl small ↦ ground arith
  | inr large ↦ elim (Bool-cases (ltb n 100)) [
    | inl small ↦ ground arith
    | inr large' ↦ ground arith
  ]
]

pub padded_4 :
    (n : ℕ)
    → n < 10000
    → padded 4 n
      ≡ (b'0' + n / 1000) ∷ (b'0' + n / 100 % 10) ∷ (b'0' + n / 10 % 10) ∷ (b'0' + n % 10) ∷ []
unfolding padded
padded_4 n h = elim (Bool-cases (ltb n 10)) [
  | inl small ↦ ground arith
  | inr large ↦ elim (Bool-cases (ltb n 100)) [
    | inl small ↦ ground arith
    | inr large' ↦ elim (Bool-cases (ltb n 1000)) [
      | inl small ↦ ground arith
      | inr large'' ↦ ground arith
    ]
  ]
]

pub read_year-padded_4 :
    (n : ℕ) (t : List ℕ)
    → n < 10000
    → read_year_digits 0 0 (padded 4 n ++ b'-' ∷ t) ≡ some (n, b'-' ∷ t)
unfolding read_year_digits
read_year-padded_4 n t h = rw (padded_4 n h) (ground arith)

pub fraction-padded_3 :
    (n c : ℕ) (t : List ℕ)
    → n < 1000
    → is_digit c ≡ false
    → fraction_digits 0 0 (padded 3 n ++ c ∷ t) ≡ (n, c ∷ t)
unfolding fraction_digits
fraction-padded_3 n c t h other = rw (padded_3 n h) (ground arith)

pub same_byte : (c : ℕ) → (c == c) ≡ true
same_byte c = ground arith

pub field_behind-padded_2 :
    (e : IsoError) (c n : ℕ) (t : List ℕ)
    → n < 100
    → field_behind e c (c ∷ (padded 2 n ++ t)) ≡ ok (n, t)
unfolding field_behind
field_behind-padded_2 e c n t h = rw (same_byte c) (ap (or_fail e) (read_fixed-padded_2 n t h))

-- The years that are printed with four digits, and the offsets of less than a day.
abbrev pub IsPrintable : Stamp → Type 0
IsPrintable s =
    (pos_part s.moment.date.year < 10000)
    × (neg_part s.moment.date.year < 10000)
    × (s.moment.date.month < 100)
    × (s.moment.date.day < 100)
    × (s.moment.hour < 100)
    × (s.moment.minute < 100)
    × (s.moment.second < 100)
    × (s.moment.millis < 1000)
    × (pos_part s.offset_minutes < 1440)
    × (neg_part s.offset_minutes < 1440)

pub offset_minutes-padded_2 : (n : ℕ) → n < 100 → read_offset_minutes (padded 2 n) ≡ ok (n, [])
unfolding read_offset_minutes
offset_minutes-padded_2 n h = rw (padded_2 n h) (ground arith)

-- The last test of `read_offset`.
pub offset_range :
    (negative : Bool) (minutes : ℕ)
    → minutes < 1440
    → ◌≡◌ {A = Result IsoError (ℤ × List ℕ)}
        (if ltb 23 (minutes / 60) || ltb 59 (minutes % 60)
          then err offset_out_of_range
          else ok (negated negative (minutes / 60 * 60 + minutes % 60), []))
        (ok (negated negative minutes, []))
offset_range negative minutes h = ground arith

pub read_offset-offset_text :
    (negative : Bool) (minutes : ℕ)
    → minutes < 1440
    → read_offset negative (padded 2 (minutes / 60) ++ b':' ∷ padded 2 (minutes % 60))
      ≡ ok (negated negative minutes, [])
unfolding read_offset
read_offset-offset_text negative minutes h =
    rw (read_fixed-padded_2 (minutes / 60) (b':' ∷ padded 2 (minutes % 60)) (omega arith))
      (rw (offset_minutes-padded_2 (minutes % 60) (omega arith)) (offset_range negative minutes h))

pub read_zone-zone_text :
    (offset : ℤ)
    → pos_part offset < 1440
    → neg_part offset < 1440
    → read_zone (zone_text offset) ≡ ok (offset, [])
unfolding read_zone zone_text
read_zone-zone_text (pos zero) h k = refl
read_zone-zone_text (pos (suc n)) h k = read_offset-offset_text false (suc n) h
read_zone-zone_text (negsuc n) h k = read_offset-offset_text true (suc n) k

-- A text that starts with no digit and no mark of a fraction.
pub zone_text-head :
    (offset : ℤ)
    → (c : ℕ) × (t : List ℕ) × (zone_text offset ≡ c ∷ t)
      × (is_digit c ≡ false)
      × ((c == b'.' || c == b',') ≡ false)
unfolding zone_text
zone_text-head (pos zero) = (b'Z', [], refl, refl, refl)
zone_text-head (pos (suc n)) = (b'+', _, refl, refl, refl)
zone_text-head (negsuc n) = (b'-', _, refl, refl, refl)

pub no_fraction :
    (c : ℕ) (t : List ℕ) → (c == b'.' || c == b',') ≡ false → read_fraction (c ∷ t) ≡ ok (0, c ∷ t)
unfolding read_fraction
no_fraction c [] h = rw h refl
no_fraction c (d ∷ ds) h = rw h refl

pub read_fraction-padded_3 :
    (n : ℕ) (t : List ℕ)
    → n < 1000
    → read_fraction (b'.' ∷ (padded 3 n ++ t)) ≡ ok (fraction_digits 0 0 (padded 3 n ++ t))
unfolding read_fraction
read_fraction-padded_3 n t h = rw (padded_3 n h) (rw (digit (n / 100) (omega arith)) refl)

pub read_fraction-millis_text :
    (n : ℕ) (offset : ℤ)
    → n < 1000
    → read_fraction (millis_text n ++ zone_text offset) ≡ ok (n, zone_text offset)
unfolding read_fraction millis_text
read_fraction-millis_text zero offset h =
    let (c, t, e, _, plain) = zone_text-head offset in
    ap read_fraction e ∙ no_fraction c t plain ∙ ap (λ x. ok (0, x)) (sym e)
read_fraction-millis_text (suc n) offset h =
    let (c, t, e, other, _) = zone_text-head offset in
    read_fraction-padded_3 (suc n) (zone_text offset) h
    ∙ ap (λ x. ok (fraction_digits 0 0 (padded 3 (suc n) ++ x))) e
    ∙ ap ok (fraction-padded_3 (suc n) c t h other)
    ∙ ap (λ x. ok (suc n, x)) (sym e)

pub read_seconds-padded_2 :
    (n : ℕ) (t : List ℕ) → n < 100 → read_seconds (b':' ∷ (padded 2 n ++ t)) ≡ ok (n, t)
unfolding read_seconds
read_seconds-padded_2 n t h = ap (or_fail invalid_time) (read_fixed-padded_2 n t h)
