-- ===== src/Calendar/Months.antt =====
-- Months: a day of the year as a month and a day in it.
use ccdash.Prelude.{
  ℕ, zero, suc, ◌+◌, ◌-◌, ◌<◌, ◌≡◌, refl, Bool, true, false, List, [], ◌∷◌, arith, ltb, length, ap,
  inl, inr, Bool-cases, if◌then◌else◌,
}
use ccdash.Calendar.Dates.{month_lengths, find_month, sum_first, nth_or}

-- A day within the year is found in the month that it was counted from.
pub find_month-sum_first :
    (lens : List ℕ) (m k d : ℕ)
    → d < nth_or lens k 0
    → find_month lens m (sum_first k lens + d) ≡ (m + k, d + 1)
unfolding find_month sum_first nth_or
find_month-sum_first [] m k d h = absurd (omega arith)
find_month-sum_first (len ∷ lens) m zero d h = ground arith
find_month-sum_first (len ∷ lens) m (suc k) d h =
    let rest : find_month lens (m + 1) (len + sum_first k lens + d - len) ≡ (m + suc k, d + 1) =
      let e : len + sum_first k lens + d - len ≡ sum_first k lens + d = omega arith in
      let e' : m + suc k ≡ m + 1 + k = omega arith in
      rw (e, e') (find_month-sum_first lens (m + 1) k d h) in
    ground (arith, rest)

-- A month and a day of it, counted from 0, that a day of the year is split into.
abbrev pub Split : List ℕ → ℕ → ℕ → Type 0
Split lens m n =
    (k : ℕ) × (d : ℕ) × (k < length lens)
    × (d < nth_or lens k 0)
    × (sum_first k lens + d ≡ n)
    × (find_month lens m n ≡ (m + k, d + 1))

next_Split :
    (len : ℕ) (lens : List ℕ) (m n : ℕ)
    → ltb n len ≡ false
    → Split lens (m + 1) (n - len)
    → Split (len ∷ lens) m n
unfolding find_month sum_first nth_or
next_Split len lens m n h (k, d, a, b, c, e) =
    (suc k, d, omega arith, b, ground arith, rw (h, e) (ap (λ (j : ℕ). (j, d + 1)) (omega arith)))

pub find_month-Split : (lens : List ℕ) (m n : ℕ) → n < sum_first (length lens) lens → Split lens m n
unfolding find_month sum_first nth_or
find_month-Split [] m n h = absurd (omega arith)
find_month-Split (len ∷ lens) m n h = elim (Bool-cases (ltb n len)) [
  | inl here ↦ (
    0,
    n,
    omega arith,
    ground arith,
    omega arith,
    rw here (ap (λ (j : ℕ). (j, n + 1)) (omega arith)),
  )
  | inr later ↦
      next_Split len lens m n later (find_month-Split lens (m + 1) (n - len) (ground arith))
]

pub year_length :
    (leap : Bool)
    → sum_first (length (month_lengths leap)) (month_lengths leap) ≡ (if leap then 366 else 365)
unfolding sum_first month_lengths
year_length true = refl
year_length false = refl

pub lt-sum_first :
    (lens : List ℕ) (k d : ℕ)
    → d < nth_or lens k 0
    → sum_first k lens + d < sum_first (length lens) lens
unfolding sum_first nth_or
lt-sum_first [] k d h = absurd (omega arith)
lt-sum_first (len ∷ lens) zero d h = omega arith
lt-sum_first (len ∷ lens) (suc k) d h = omega (arith, lt-sum_first lens k d h)
