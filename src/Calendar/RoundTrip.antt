-- ===== src/Calendar/RoundTrip.antt =====
-- Dates and days determine each other, and the text of a day is read back.
use ccdash.Prelude.{
  ℕ, zero, suc, ◌+◌, ◌-◌, ◌*◌, ◌/◌, ◌≤◌, ◌<◌, ◌≡◌, refl, sym, ◌∙◌, Bool, true, false, ◌&&◌, List,
  [], ◌∷◌, ◌++◌, arith, ◌==◌, length, ap, All, if◌then◌else◌, some, Option, Text, none,
}
use ccdash.Calendar.Dates.{
  Date, date_of, day_of, month_length, is_leap, month_lengths, year_start, year_of, sum_first,
  nth_or, date_string, parse_date, two_digits, four_digits, digit, is_digit, number, checked_day,
}
use ccdash.Calendar.Years.{year_start-suc, year_of-bounds, year_of_unique}
use ccdash.Calendar.Months.{
  Split, find_month-sum_first, find_month-Split, lt-sum_first, year_length,
}

-- The date is one of the calendar.
pub record IsDate (d : Date) : Type 0 where
  pub month_from : 1 ≤ d.month
  pub month_to : d.month ≤ 12
  pub day_from : 1 ≤ d.day
  pub day_to : d.day ≤ month_length d.year d.month

split_of : (n : ℕ) → Split (month_lengths (is_leap (year_of n))) 1 (n - year_start (year_of n))
split_of n = find_month-Split (month_lengths (is_leap (year_of n))) 1 (n - year_start (year_of n)) (
    ground (arith, year_of-bounds n, year_start-suc (year_of n), year_length (is_leap (year_of n))))

length-months : (leap : Bool) → length (month_lengths leap) ≡ 12
unfolding month_lengths
length-months true = refl
length-months false = refl

-- The date of a day, from its split.
date_of-split :
    (n : ℕ)
    → date_of n ≡ record { year = year_of n; month = 1 + (split_of n).0; day = (split_of n).1 + 1 }
unfolding date_of
date_of-split n =
    let (k, d, a, b, c, e) = split_of n in
    ap (λ (md : ℕ × ℕ). record { year = year_of n; month = md.0; day = md.1 }) e

pub date_of-IsDate : (n : ℕ) → IsDate (date_of n)
unfolding month_length
date_of-IsDate n =
    let (k, d, a, b, c, e) = split_of n in
    let at : 1 + k - 1 ≡ k = omega arith in
    rw (date_of-split n) (record {
      month_from = omega arith;
      month_to = omega (arith, length-months (is_leap (year_of n)));
      day_from = omega arith;
      day_to = rw at (omega arith);
    })

-- The date of a day is the date of no other.
pub day_of-date_of : (n : ℕ) → day_of (date_of n) ≡ n
unfolding day_of
day_of-date_of n =
    let (k, d, a, b, c, e) = split_of n in
    let at : 1 + k - 1 ≡ k = omega arith in
    rw (date_of-split n) (rw at (omega (arith, year_of-bounds n)))

module _ (d : Date) (v : IsDate d) where
  abbrev pub lens : List ℕ
  lens = month_lengths (is_leap d.year)

  pub in_month : d.day - 1 < nth_or lens (d.month - 1) 0
  unfolding month_length
  in_month = omega (arith, v.day_from, v.day_to)

  pub in_year : sum_first (d.month - 1) lens + (d.day - 1) < (if is_leap d.year then 366 else 365)
  in_year =
      rw (← year_length (is_leap d.year)) (lt-sum_first lens (d.month - 1) (d.day - 1) in_month)

  year_of-day_of : year_of (day_of d) ≡ d.year
  unfolding day_of
  year_of-day_of =
      year_of_unique (day_of d) d.year (omega arith) (omega (arith, year_start-suc d.year, in_year))

  -- The day of a date is the day of no other.
  pub date_of-day_of : date_of (day_of d) ≡ d
  unfolding date_of
  date_of-day_of =
      let e : day_of d - year_start d.year ≡ sum_first (d.month - 1) lens + (d.day - 1) =
        unfold day_of in omega arith in
      rw (year_of-day_of, e)
        (rw (find_month-sum_first lens 1 (d.month - 1) (d.day - 1) in_month)
          (ground (arith, v.month_from, v.day_from)))

digit-is_digit : (n : ℕ) → is_digit (digit n) ≡ true
unfolding digit is_digit
digit-is_digit n = ground arith

number-two_digits : (n : ℕ) → n < 100 → number (digit (n / 10)) (digit n) ≡ n
unfolding digit number
number-two_digits n h = omega arith

number-four_digits :
    (n : ℕ)
    → n < 10000
    → number (digit (n / 1000)) (digit (n / 100)) * 100 + number (digit (n / 10)) (digit n) ≡ n
unfolding digit number
number-four_digits n h = omega arith

checked_day-IsDate : (d : Date) → IsDate d → checked_day d.year d.month d.day ≡ some (day_of d)
unfolding checked_day
checked_day-IsDate d v = ground (arith, v.month_from, v.month_to, v.day_from, v.day_to)

nth_or-le : (b : ℕ) (xs : List ℕ) (k : ℕ) → All (λ x. x ≤ b) xs → nth_or xs k 0 ≤ b
unfolding nth_or
nth_or-le b [] k h = omega arith
nth_or-le b (x ∷ xs) zero h = h.0
nth_or-le b (x ∷ xs) (suc k) h = nth_or-le b xs k h.1

lengths-le : (leap : Bool) → All (λ x. x ≤ 31) (month_lengths leap)
unfolding month_lengths
lengths-le true = omega arith
lengths-le false = omega arith

pub month_length-le : (y m : ℕ) → month_length y m ≤ 31
unfolding month_length
month_length-le y m = nth_or-le 31 (month_lengths (is_leap y)) (m - 1) (lengths-le (is_leap y))

-- The text of a date of the years 0 to 9999 is read back as its day.
parse_date-digits :
    (d : Date)
    → IsDate d
    → d.year < 10000
    → parse_date (four_digits d.year ++ (b'-' ∷ two_digits d.month ++ (b'-' ∷ two_digits d.day)))
      ≡ some (day_of d)
unfolding parse_date two_digits four_digits
parse_date-digits d v h = simp digit-is_digit (
    rw
      (
        number-four_digits d.year h,
        number-two_digits d.month (omega (arith, v.month_to)),
        number-two_digits d.day (omega (arith, v.day_to, month_length-le d.year d.month)),
      )
      (checked_day-IsDate d v))

-- The text of a day in the years 0 to 9999 is read back as that day.
pub parse_date-date_string :
    (n : ℕ) → (date_of n).year < 10000 → parse_date (date_string n) ≡ some n
unfolding date_string
parse_date-date_string n h =
    parse_date-digits (date_of n) (date_of-IsDate n) h ∙ ap some (day_of-date_of n)

two_digits-number :
    (a b : ℕ) → is_digit a ≡ true → is_digit b ≡ true → two_digits (number a b) ≡ a ∷ b ∷ []
unfolding two_digits digit number is_digit
two_digits-number a b h k = ground arith

four_digits-number :
    (a b c d : ℕ)
    → is_digit a ≡ true
    → is_digit b ≡ true
    → is_digit c ≡ true
    → is_digit d ≡ true
    → four_digits (number a b * 100 + number c d) ≡ a ∷ b ∷ c ∷ d ∷ []
unfolding four_digits digit number is_digit
four_digits-number a b c d h k l m = ground arith

checked_day-some :
    (y m d : ℕ) (n : ℕ)
    → checked_day y m d ≡ some n
    → IsDate (record { year = y; month = m; day = d })
      × (day_of (record { year = y; month = m; day = d }) ≡ n)
unfolding checked_day
checked_day-some y m d n h = ground arith

-- What a text that is read as a day consists of.
pub record Reads (s : Text) (n : ℕ) : Type 0 where
  pub date : Date
  pub is_date : IsDate date
  pub year_fits : date.year < 10000
  pub day_is : day_of date ≡ n
  pub text_is :
      s ≡ four_digits date.year ++ (b'-' ∷ two_digits date.month ++ (b'-' ∷ two_digits date.day))

parse_date-shape :
    (a b c d e f g h n : ℕ)
    → is_digit a ≡ true
    → is_digit b ≡ true
    → is_digit c ≡ true
    → is_digit d ≡ true
    → is_digit e ≡ true
    → is_digit f ≡ true
    → is_digit g ≡ true
    → is_digit h ≡ true
    → checked_day (number a b * 100 + number c d) (number e f) (number g h) ≡ some n
    → Reads (a ∷ b ∷ c ∷ d ∷ b'-' ∷ e ∷ f ∷ b'-' ∷ g ∷ h ∷ []) n
parse_date-shape a b c d e f g h n ia ib ic id ie if_ ig ih k =
    let (v, q) = checked_day-some _ _ _ n k in
    record {
      date = record { year = number a b * 100 + number c d; month = number e f; day = number g h };
      is_date = v;
      year_fits = unfold number is_digit in ground arith;
      day_is = q;
      text_is = rw (
        four_digits-number a b c d ia ib ic id,
        two_digits-number e f ie if_,
        two_digits-number g h ig ih,
      );
    }

parse_guard :
    (a b c d e f g h : Bool) (sep sep' : ℕ) (r : Option ℕ) (n : ℕ)
    → (if a && b && c && d && (sep == b'-') && e && f && (sep' == b'-') && g && h then r else none)
      ≡ some n
    → (a ≡ true)
      × (b ≡ true)
      × (c ≡ true)
      × (d ≡ true)
      × (sep ≡ b'-')
      × (e ≡ true)
      × (f ≡ true)
      × (sep' ≡ b'-')
      × (g ≡ true)
      × (h ≡ true)
      × (r ≡ some n)
parse_guard a b c d e f g h sep sep' r n k = ground arith

pub parse_date-Reads : (s : Text) (n : ℕ) → parse_date s ≡ some n → Reads s n
unfolding parse_date
parse_date-Reads (a ∷ b ∷ c ∷ d ∷ sep ∷ e ∷ f ∷ sep' ∷ g ∷ h ∷ []) n k =
    let (ia, ib, ic, id, es, ie, if_, es', ig, ih, r) =
      parse_guard (is_digit a) (is_digit b) (is_digit c) (is_digit d) (is_digit e) (is_digit f)
        (is_digit g) (is_digit h) sep sep' _ n k in
    rw (es, es') (parse_date-shape a b c d e f g h n ia ib ic id ie if_ ig ih r)
parse_date-Reads _ n k = cc

-- A text that is read as a day is the text of that day.
pub date_string-parse_date : (s : Text) (n : ℕ) → parse_date s ≡ some n → date_string n ≡ s
unfolding date_string
date_string-parse_date s n k =
    let r = parse_date-Reads s n k in
    let e : date_of n ≡ r.date = rw (← r.day_is) (date_of-day_of r.date r.is_date) in
    rw e (sym r.text_is)
