-- ===== src/Calendar/Dates.antt =====
-- Days, dates and their text: Time.Date, Time.Weekday, Time.Format and time.Parse with the layouts
-- that internal/tasks/rules.go names.
use ccdash.Prelude.{
  ℕ, zero, suc, ◌+◌, ◌-◌, ◌*◌, ◌/◌, ◌%◌, Bool, true, false, ◌&&◌, ◌||◌, not, List, [], ◌∷◌, ◌++◌,
  Option, none, some, Text, ltb, leb, ◌==◌, if◌then◌else◌,
}

unfoldable pub is_leap : ℕ → Bool
is_leap y = (y % 4 == 0) && (not (y % 100 == 0) || (y % 400 == 0))

-- The days before 1 January of a year.
unfoldable pub year_start : ℕ → ℕ
year_start y = 365 * y + (y + 3) / 4 + (y + 399) / 400 - (y + 99) / 100

unfoldable pub month_lengths : Bool → List ℕ
month_lengths leap =
    31 ∷ (if leap then 29 else 28) ∷ 31 ∷ 30 ∷ 31 ∷ 30 ∷ 31 ∷ 31 ∷ 30 ∷ 31 ∷ 30 ∷ 31 ∷ []

-- The last year up to `k` that has begun by day `n`. The cases of an `elim` wait.
unfoldable pub year_upto : ℕ → ℕ → ℕ
year_upto zero n = 0
year_upto (suc k) n = elim (leb (year_start (suc k)) n) [ true ↦ suc k | false ↦ year_upto k n ]

unfoldable pub year_of : ℕ → ℕ
year_of n = year_upto (n / 365) n

pub record Date : Type 0 where
  pub year : ℕ
  pub month : ℕ
  pub day : ℕ

-- The month, from `m` on, and the day in it, of the day `n` counted from 0 at the start of `m`.
unfoldable pub find_month : List ℕ → ℕ → ℕ → ℕ × ℕ
find_month [] m n = (m, n + 1)
find_month (len ∷ lens) m n = if ltb n len then (m, n + 1) else find_month lens (m + 1) (n - len)

-- Time.Date
unfoldable pub date_of : ℕ → Date
date_of n =
    let y = year_of n in
    let md = find_month (month_lengths (is_leap y)) 1 (n - year_start y) in
    record { year = y; month = md.0; day = md.1 }

unfoldable pub sum_first : ℕ → List ℕ → ℕ
sum_first zero lens = 0
sum_first (suc k) [] = 0
sum_first (suc k) (len ∷ lens) = len + sum_first k lens

unfoldable pub nth_or : List ℕ → ℕ → ℕ → ℕ
nth_or [] k d = d
nth_or (x ∷ xs) zero d = x
nth_or (x ∷ xs) (suc k) d = nth_or xs k d

unfoldable pub month_length : ℕ → ℕ → ℕ
month_length y m = nth_or (month_lengths (is_leap y)) (m - 1) 0

-- time.Date at midnight, for a date that is in range.
unfoldable pub day_of : Date → ℕ
day_of d =
    year_start d.year + sum_first (d.month - 1) (month_lengths (is_leap d.year)) + (d.day - 1)

unfoldable pub digit : ℕ → ℕ
digit n = b'0' + n % 10

-- Two digits, and four, as the layouts 01, 02 and 2006 print them (years from 0 to 9999).
unfoldable pub two_digits : ℕ → Text
two_digits n = digit (n / 10) ∷ digit n ∷ []

unfoldable pub four_digits : ℕ → Text
four_digits n = digit (n / 1000) ∷ digit (n / 100) ∷ digit (n / 10) ∷ digit n ∷ []

-- DateString of a day: Format("2006-01-02").
unfoldable pub date_string : ℕ → Text
date_string n =
    let d = date_of n in
    four_digits d.year ++ (b'-' ∷ two_digits d.month ++ (b'-' ∷ two_digits d.day))

unfoldable pub is_digit : ℕ → Bool
is_digit c = leb b'0' c && leb c b'9'

unfoldable pub number : ℕ → ℕ → ℕ
number a b = (a - b'0') * 10 + (b - b'0')

-- The day of a year, a month and a day of the month that time.Parse has read.
unfoldable pub checked_day : ℕ → ℕ → ℕ → Option ℕ
checked_day y m d =
    if leb 1 m && leb m 12 && leb 1 d && leb d (month_length y m)
    then some (day_of (record { year = y; month = m; day = d }))
    else none

-- parseDate: four digits, two and two, joined by dashes, that name a day of the calendar.
unfoldable pub parse_date : Text → Option ℕ
parse_date (a ∷ b ∷ c ∷ d ∷ sep ∷ e ∷ f ∷ sep' ∷ g ∷ h ∷ []) =
    if is_digit a
      && is_digit b
      && is_digit c
      && is_digit d
      && (sep == b'-')
      && is_digit e
      && is_digit f
      && (sep' == b'-')
      && is_digit g
      && is_digit h
    then checked_day (number a b * 100 + number c d) (number e f) (number g h)
    else none
parse_date _ = none

-- A local time: its day, the time of day, and the zone's offset from UTC in minutes.
pub record Time : Type 0 where
  pub date : ℕ
  pub hour : ℕ
  pub minute : ℕ
  pub second : ℕ
  pub west : Bool
  pub offset : ℕ

unfoldable pub zone_text : Bool → ℕ → Text
zone_text west zero = b'Z' ∷ []
zone_text west (suc k) =
    let m = suc k in
    (if west then b'-' else b'+') ∷ two_digits (m / 60) ++ (b':' ∷ two_digits (m % 60))

-- Stamp: Format(time.RFC3339).
unfoldable pub stamp : Time → Text
stamp t =
    date_string t.date
    ++ (b'T' ∷ two_digits t.hour
        ++ (b':' ∷ two_digits t.minute
            ++ (b':' ∷ two_digits t.second ++ zone_text t.west t.offset)))

-- Monday is 0 and Sunday is 6.
unfoldable pub monday_index : ℕ → ℕ
monday_index n = (n + 5) % 7

-- Where this unfolds, every function above does.
unfoldable pub runs : Unit {0}
unfolding is_leap year_start month_lengths year_upto year_of find_month date_of sum_first nth_or
    month_length day_of digit two_digits four_digits date_string is_digit number checked_day
    parse_date zone_text stamp monday_index
runs = tt
