-- ===== src/Filter/Date.antt =====
-- internal/filter/domain/rule.go (NewDateScalar): the texts that time.Parse reads by the layout
-- "2006-01-02", and the text that Format writes.
use iwut_app_center.Prelude.{
  ℕ, ◌+◌, ◌-◌, ◌*◌, ◌/◌, ◌%◌, ◌≤◌, leb, ◌==◌, Bool, true, false, not, ◌&&◌, ◌||◌, Option, none,
  some, [], ◌∷◌, ◌++◌, Bytes, bytes_eq, bytes_eq_refl, codes, length, take, if◌then◌else◌, ◌≡◌, ◌↔◌,
  sym, arith,
}

abbrev is_digit : ℕ → Bool
is_digit c = leb b'0' c && leb c b'9'

abbrev digit : ℕ → ℕ
digit c = c - b'0'

pub record Date : Type 0 where
  pub year : ℕ
  pub month : ℕ
  pub day : ℕ

abbrev is_leap : ℕ → Bool
is_leap y = y % 4 == 0 && (not (y % 100 == 0) || y % 400 == 0)

unfoldable pub days_in : ℕ → ℕ → ℕ
days_in month year =
    if month == 2
    then (if is_leap year then 29 else 28)
    else if month == 4 || month == 6 || month == 9 || month == 11
    then 30
    else 31

-- time.Parse: four digits, two digits and two digits, each part in range.
unfoldable pub parse_date : Bytes → Option Date
parse_date (y1 ∷ y2 ∷ y3 ∷ y4 ∷ s1 ∷ m1 ∷ m2 ∷ s2 ∷ d1 ∷ d2 ∷ []) =
    let year = digit y1 * 1000 + digit y2 * 100 + digit y3 * 10 + digit y4 in
    let month = digit m1 * 10 + digit m2 in
    let day = digit d1 * 10 + digit d2 in
    if is_digit y1
      && is_digit y2
      && is_digit y3
      && is_digit y4
      && s1 == b'-'
      && is_digit m1
      && is_digit m2
      && s2 == b'-'
      && is_digit d1
      && is_digit d2
      && leb 1 month
      && leb month 12
      && leb 1 day
      && leb day (days_in month year)
    then some (record { year = year; month = month; day = day })
    else none
parse_date _ = none

abbrev digits2 : ℕ → Bytes
digits2 n = (b'0' + n / 10 % 10) ∷ (b'0' + n % 10) ∷ []

-- Format of a date with a year of at most four digits.
unfoldable pub format_date : Date → Bytes
format_date t =
    (b'0' + t.year / 1000 % 10)
    ∷ (b'0' + t.year / 100 % 10)
    ∷ (b'0' + t.year / 10 % 10)
    ∷ (b'0' + t.year % 10)
    ∷ b'-'
    ∷ (digits2 t.month ++ (b'-' ∷ digits2 t.day))

abbrev formats_as : Option Date → Bytes → Bool
formats_as none value = false
formats_as (some t) value = bytes_eq (format_date t) value

-- Whether NewDateScalar accepts the text.
unfoldable pub date_is_valid : Bytes → Bool
unfolding parse_date format_date
date_is_valid value =
    if not (length value == 10) || bytes_eq (take 4 value) (codes "0000")
    then false
    else formats_as (parse_date value) value

abbrev IsDigit : ℕ → Type 0
IsDigit c = (b'0' ≤ c) × (c ≤ b'9')

-- The bytes that parse_date has read.
abbrev Reads : ℕ → ℕ → ℕ → ℕ → ℕ → ℕ → ℕ → ℕ → ℕ → ℕ → Date → Type 0
Reads y1 y2 y3 y4 s1 m1 m2 s2 d1 d2 t =
    (IsDigit y1 × IsDigit y2 × IsDigit y3 × IsDigit y4)
    × (IsDigit m1 × IsDigit m2 × IsDigit d1 × IsDigit d2)
    × (s1 ≡ b'-')
    × (s2 ≡ b'-')
    × (t.year ≡ digit y1 * 1000 + digit y2 * 100 + digit y3 * 10 + digit y4)
    × (t.month ≡ digit m1 * 10 + digit m2)
    × (t.day ≡ digit d1 * 10 + digit d2)

module _ (y1 y2 y3 y4 s1 m1 m2 s2 d1 d2 : ℕ) (t : Date) where
  parse_date-Reads :
      parse_date (y1 ∷ y2 ∷ y3 ∷ y4 ∷ s1 ∷ m1 ∷ m2 ∷ s2 ∷ d1 ∷ d2 ∷ []) ≡ some t
      → Reads y1 y2 y3 y4 s1 m1 m2 s2 d1 d2 t
  unfolding parse_date
  parse_date-Reads h = ground arith

  parse_date_ranges :
      parse_date (y1 ∷ y2 ∷ y3 ∷ y4 ∷ s1 ∷ m1 ∷ m2 ∷ s2 ∷ d1 ∷ d2 ∷ []) ≡ some t
      → (1 ≤ t.month) × (t.month ≤ 12) × (1 ≤ t.day) × (t.day ≤ days_in t.month t.year)
  unfolding parse_date
  parse_date_ranges h = ground arith

  format_date-Reads :
      Reads y1 y2 y3 y4 s1 m1 m2 s2 d1 d2 t
      → format_date t ≡ y1 ∷ y2 ∷ y3 ∷ y4 ∷ s1 ∷ m1 ∷ m2 ∷ s2 ∷ d1 ∷ d2 ∷ []
  unfolding format_date
  format_date-Reads h = cc (first, second, third, fourth, ten_m, one_m, ten_d, one_d)
    where
      first : b'0' + t.year / 1000 % 10 ≡ y1
      first = omega arith

      second : b'0' + t.year / 100 % 10 ≡ y2
      second = omega arith

      third : b'0' + t.year / 10 % 10 ≡ y3
      third = omega arith

      fourth : b'0' + t.year % 10 ≡ y4
      fourth = omega arith

      ten_m : b'0' + t.month / 10 % 10 ≡ m1
      ten_m = omega arith

      one_m : b'0' + t.month % 10 ≡ m2
      one_m = omega arith

      ten_d : b'0' + t.day / 10 % 10 ≡ d1
      ten_d = omega arith

      one_d : b'0' + t.day % 10 ≡ d2
      one_d = omega arith

-- What time.Parse reads, Format writes back: the comparison in NewDateScalar refuses nothing more.
pub format_date-parse_date :
    (value : Bytes) (t : Date) → parse_date value ≡ some t → format_date t ≡ value
format_date-parse_date (y1 ∷ y2 ∷ y3 ∷ y4 ∷ s1 ∷ m1 ∷ m2 ∷ s2 ∷ d1 ∷ d2 ∷ []) t h =
    format_date-Reads y1 y2 y3 y4 s1 m1 m2 s2 d1 d2 t
      (parse_date-Reads y1 y2 y3 y4 s1 m1 m2 s2 d1 d2 t h)
format_date-parse_date _ t h = absurd (unfold parse_date in (cc h))

-- A date of the calendar, in the years that four digits can write.
abbrev pub IsDate : Date → Type 0
IsDate t =
    (1 ≤ t.year)
    × (t.year ≤ 9999)
    × (1 ≤ t.month)
    × (t.month ≤ 12)
    × (1 ≤ t.day)
    × (t.day ≤ days_in t.month t.year)

is_digit_mod : (n : ℕ) → is_digit (b'0' + n % 10) ≡ true
is_digit_mod n = ground arith

read_year :
    (y : ℕ)
    → y ≤ 9999
    → digit (b'0' + y / 1000 % 10) * 1000
        + digit (b'0' + y / 100 % 10) * 100
        + digit (b'0' + y / 10 % 10) * 10
        + digit (b'0' + y % 10)
      ≡ y
read_year y h = omega arith

read_two : (n : ℕ) → n ≤ 99 → digit (b'0' + n / 10 % 10) * 10 + digit (b'0' + n % 10) ≡ n
read_two n h = omega arith

days_in_le : (m y : ℕ) → days_in m y ≤ 31
unfolding days_in
days_in_le m y = ground arith

pub parse_date-format_date : (t : Date) → IsDate t → parse_date (format_date t) ≡ some t
unfolding parse_date format_date
parse_date-format_date t h =
    rw
      (
        is_digit_mod (t.year / 1000),
        is_digit_mod (t.year / 100),
        is_digit_mod (t.year / 10),
        is_digit_mod t.year,
        is_digit_mod (t.month / 10),
        is_digit_mod t.month,
        is_digit_mod (t.day / 10),
        is_digit_mod t.day,
      )
      (rw
        (
          read_year t.year (omega arith),
          read_two t.month (omega arith),
          read_two t.day (omega (arith, days_in_le t.month t.year)),
        )
        (ground arith))

no_year_zero :
    (t : Date)
    → 1 ≤ t.year
    → t.year ≤ 9999
    → bytes_eq (take 4 (format_date t)) (codes "0000") ≡ false
unfolding format_date bytes_eq
no_year_zero t low high = ground arith

year_zero : (t : Date) → t.year ≡ 0 → bytes_eq (take 4 (format_date t)) (codes "0000") ≡ true
unfolding format_date bytes_eq
year_zero t h = ground arith

date_is_valid_complete : (t : Date) → IsDate t → date_is_valid (format_date t) ≡ true
unfolding date_is_valid
date_is_valid_complete t h =
    rw (no_year_zero t h.0 h.1, parse_date-format_date t h) (bytes_eq_refl (format_date t))

-- The ranges that time.Parse has checked.
abbrev InRange : Date → Type 0
InRange t =
    (t.year ≤ 9999)
    × (1 ≤ t.month)
    × (t.month ≤ 12)
    × (1 ≤ t.day)
    × (t.day ≤ days_in t.month t.year)

parse_date-InRange : (value : Bytes) (t : Date) → parse_date value ≡ some t → InRange t
parse_date-InRange (y1 ∷ y2 ∷ y3 ∷ y4 ∷ s1 ∷ m1 ∷ m2 ∷ s2 ∷ d1 ∷ d2 ∷ []) t h =
    let ranges = parse_date_ranges y1 y2 y3 y4 s1 m1 m2 s2 d1 d2 t h in
    let read = parse_date-Reads y1 y2 y3 y4 s1 m1 m2 s2 d1 d2 t h in
    (omega arith, ranges.0, ranges.1, ranges.2, ranges.3)
parse_date-InRange _ t h = absurd (unfold parse_date in (cc h))

accepted_parse :
    (value : Bytes)
    → date_is_valid value ≡ true
    → (t : Date) × (parse_date value ≡ some t) × (bytes_eq (take 4 value) (codes "0000") ≡ false)
unfolding date_is_valid
accepted_parse value h = ground arith

date_is_valid_sound :
    (value : Bytes) → date_is_valid value ≡ true → (t : Date) × IsDate t × (value ≡ format_date t)
date_is_valid_sound value h =
    let (t, parsed, not_zero) = accepted_parse value h in
    let written = format_date-parse_date value t parsed in
    let starts : bytes_eq (take 4 (format_date t)) (codes "0000") ≡ false = rw written not_zero in
    (t, ground (arith, parse_date-InRange value t parsed, year_zero t), sym written)

-- NewDateScalar accepts exactly the texts that a date of the calendar from year 1 to year 9999 is
-- written as.
pub date_is_valid_iff :
    (value : Bytes)
    → (date_is_valid value ≡ true) ↔ ((t : Date) × IsDate t × (value ≡ format_date t))
date_is_valid_iff value = (date_is_valid_sound value, complete)
  where
    complete : (t : Date) × IsDate t × (value ≡ format_date t) → date_is_valid value ≡ true
    complete (t, h, e) = rw e (date_is_valid_complete t h)
