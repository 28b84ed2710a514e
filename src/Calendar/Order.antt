-- ===== src/Calendar/Order.antt =====
-- The order of dates, of their texts and of the days.
use ccdash.Prelude.{
  ℕ, zero, suc, ◌+◌, ◌-◌, ◌/◌, ◌%◌, ◌≤◌, ◌<◌, ◌≡◌, refl, Bool, true, false, ◌&&◌, ◌||◌, List, [],
  ◌∷◌, ◌++◌, arith, ltb, ◌==◌, Text, text_lt,
}
use ccdash.Calendar.Dates.{
  Date, date_of, day_of, is_leap, month_lengths, year_start, year_of, sum_first, nth_or,
  date_string, two_digits, four_digits, digit,
}
use ccdash.Calendar.Years.{year_start-suc, year_of-bounds}
use ccdash.Calendar.RoundTrip.{
  IsDate, date_of-IsDate, day_of-date_of, month_length-le, in_year, in_month,
}

text_lt-two_digits :
    (a b : ℕ) (x y : Text)
    → a < 100
    → b < 100
    → text_lt (two_digits a ++ x) (two_digits b ++ y) ≡ (ltb a b || ((a == b) && text_lt x y))
unfolding text_lt two_digits digit
text_lt-two_digits a b x y h k = ground arith

four_digits-two_digits :
    (a : ℕ) (x : Text)
    → a < 10000
    → four_digits a ++ x ≡ two_digits (a / 100) ++ (two_digits (a % 100) ++ x)
unfolding four_digits two_digits digit
four_digits-two_digits a x h = ground arith

text_lt-four_digits :
    (a b : ℕ) (x y : Text)
    → a < 10000
    → b < 10000
    → text_lt (four_digits a ++ x) (four_digits b ++ y) ≡ (ltb a b || ((a == b) && text_lt x y))
text_lt-four_digits a b x y h k =
    rw
      (
        four_digits-two_digits a x h,
        four_digits-two_digits b y k,
        text_lt-two_digits (a / 100) (b / 100) (two_digits (a % 100) ++ x)
            (two_digits (b % 100) ++ y) (omega arith) (omega arith),
        text_lt-two_digits (a % 100) (b % 100) x y (omega arith) (omega arith),
      )
      (ground arith)

text_lt-dash : (x y : Text) → text_lt (b'-' ∷ x) (b'-' ∷ y) ≡ text_lt x y
unfolding text_lt
text_lt-dash x y = refl

text_lt-two_digits_end :
    (a b : ℕ) → a < 100 → b < 100 → text_lt (two_digits a) (two_digits b) ≡ ltb a b
unfolding text_lt two_digits digit
text_lt-two_digits_end a b h k = ground arith

-- The order of two dates, part by part.
before : Date → Date → Bool
before d e =
    ltb d.year e.year
    || ((d.year == e.year) && (ltb d.month e.month || ((d.month == e.month) && ltb d.day e.day)))

sum_first-step :
    (lens : List ℕ) (j k : ℕ) → j < k → sum_first j lens + nth_or lens j 0 ≤ sum_first k lens
unfolding sum_first nth_or
sum_first-step [] j zero h = absurd (omega arith)
sum_first-step [] zero (suc k) h = omega arith
sum_first-step [] (suc j) (suc k) h = omega arith
sum_first-step (x ∷ xs) j zero h = absurd (omega arith)
sum_first-step (x ∷ xs) zero (suc k) h = omega arith
sum_first-step (x ∷ xs) (suc j) (suc k) h = omega (arith, sum_first-step xs j k (omega arith))

year_start-step : (y z : ℕ) → suc y ≤ z → year_start (suc y) ≤ year_start z
unfolding year_start
year_start-step y z h = omega arith

later_year : (d e : Date) → IsDate d → d.year < e.year → day_of d < day_of e
unfolding day_of
later_year d e v h =
    omega (arith, in_year d v, year_start-suc d.year, year_start-step d.year e.year h)

later_month :
    (y m n a b : ℕ)
    → m < n
    → a < nth_or (month_lengths (is_leap y)) m 0
    → year_start y + sum_first m (month_lengths (is_leap y)) + a
      < year_start y + sum_first n (month_lengths (is_leap y)) + b
later_month y m n a b h k = omega (arith, sum_first-step (month_lengths (is_leap y)) m n h)

before_same_year :
    (y : ℕ) (d e : Date)
    → d.year ≡ y
    → e.year ≡ y
    → IsDate d
    → IsDate e
    → d.month < e.month
    → day_of d < day_of e
unfolding day_of
before_same_year y d e p q v w h =
    let k : d.day - 1 < nth_or (month_lengths (is_leap y)) (d.month - 1) 0 =
      rw (← p) (in_month d v) in
    rw (p, q)
      (later_month y (d.month - 1) (e.month - 1) (d.day - 1) (e.day - 1)
        (omega (arith, v.month_from)) k)

before_same_month :
    (y m : ℕ) (d e : Date)
    → d.year ≡ y
    → e.year ≡ y
    → d.month ≡ m
    → e.month ≡ m
    → IsDate d
    → d.day < e.day
    → day_of d < day_of e
unfolding day_of
before_same_month y m d e p q a b v h = rw (p, q, a, b) (omega (arith, v.day_from))

before-lt : (d e : Date) → IsDate d → IsDate e → before d e ≡ true → day_of d < day_of e
unfolding before
before-lt d e v w h =
    ground
      (arith, later_year d e v, before_same_year e.year d e, before_same_month e.year e.month d e)

before_total : (d e : Date) → before d e ≡ false → before e d ≡ false → d ≡ e
unfolding before
before_total d e h k = ground arith

before-ltb : (m n : ℕ) → before (date_of m) (date_of n) ≡ ltb m n
before-ltb m n = ground (
  arith,
  before-lt (date_of m) (date_of n) (date_of-IsDate m) (date_of-IsDate n),
  before-lt (date_of n) (date_of m) (date_of-IsDate n) (date_of-IsDate m),
  before_total (date_of m) (date_of n),
  day_of-date_of m,
  day_of-date_of n,
)

-- The texts of two days in the years 0 to 9999 are in the order of the days.
pub text_lt-date_string :
    (m n : ℕ)
    → (date_of m).year < 10000
    → (date_of n).year < 10000
    → text_lt (date_string m) (date_string n) ≡ ltb m n
unfolding date_string
text_lt-date_string m n h k =
    rw
      (
        text_lt-four_digits (date_of m).year (date_of n).year _ _ h k,
        text_lt-dash,
        text_lt-two_digits (date_of m).month (date_of n).month _ _
            (omega (arith, (date_of-IsDate m).month_to))
            (omega (arith, (date_of-IsDate n).month_to)),
        text_lt-dash,
        text_lt-two_digits_end (date_of m).day (date_of n).day
            (omega (
              arith,
              (date_of-IsDate m).day_to,
              month_length-le (date_of m).year (date_of m).month,
            ))
            (omega (
              arith,
              (date_of-IsDate n).day_to,
              month_length-le (date_of n).year (date_of n).month,
            )),
      )
      (unfold before in before-ltb m n)

-- The first day after the years that the layout 2006 can print.
abbrev pub day_limit : ℕ
day_limit = 3652425

pub year-lt : (n : ℕ) → n < day_limit → (date_of n).year < 10000
unfolding date_of year_start
year-lt n h = omega (arith, year_of-bounds n, year_start-step 9999 (year_of n))
