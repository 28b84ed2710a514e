-- ===== src/Calendar/Years.antt =====
-- Years: every day lies in one year.
use ccdash.Prelude.{ℕ, zero, suc, ◌+◌, ◌*◌, ◌/◌, ◌≤◌, ◌<◌, ◌≡◌, arith, if◌then◌else◌}
use ccdash.Calendar.Dates.{is_leap, year_start, year_upto, year_of}

-- A year has 366 days or 365.
pub year_start-suc : (y : ℕ) → year_start (suc y) ≡ year_start y + (if is_leap y then 366 else 365)
unfolding year_start is_leap
year_start-suc y = ground arith

pub year_start-le : (y k : ℕ) → 365 * y ≤ year_start y
unfolding year_start
year_start-le y k = omega arith

year_start_mono : (y k : ℕ) → year_start y ≤ year_start (y + k)
unfolding year_start
year_start_mono y k = omega arith

year_upto-le : (k n : ℕ) → year_start (year_upto k n) ≤ n
unfolding year_upto
year_upto-le zero n = unfold year_start in omega arith
year_upto-le (suc k) n = ground (arith, year_upto-le k n)

lt-year_upto : (k n : ℕ) → n < year_start (suc k) → n < year_start (suc (year_upto k n))
unfolding year_upto
lt-year_upto zero n h = h
lt-year_upto (suc k) n h = ground (arith, lt-year_upto k n)

below_estimate : (n : ℕ) → n < year_start (suc (n / 365))
unfolding year_start
below_estimate n = omega arith

-- The year of a day has begun by that day and is not over.
pub year_of-bounds : (n : ℕ) → (year_start (year_of n) ≤ n) × (n < year_start (suc (year_of n)))
unfolding year_of
year_of-bounds n = (year_upto-le (n / 365) n, lt-year_upto (n / 365) n (below_estimate n))

ordered : (y z : ℕ) → suc y ≤ z → year_start (suc y) ≤ year_start z
unfolding year_start
ordered y z h = omega arith

-- Years do not overlap.
pub year_of_unique : (n y : ℕ) → year_start y ≤ n → n < year_start (suc y) → year_of n ≡ y
year_of_unique n y h k =
    grind (arith, year_of-bounds n, ordered y (year_of n), ordered (year_of n) y)
