-- ===== src/Calendar/Tests.antt =====
-- Days that internal/tasks names in its tests, and each theorem on dates at such a day.
use ccdash.Prelude.{◌≡◌, refl, some, none, codes, arith}
use ccdash.Calendar.Dates.{runs, date_string, parse_date}
use ccdash.Calendar.RoundTrip.{parse_date-date_string}
use ccdash.Calendar.Order.{year-lt}

leap_day : parse_date (codes "2024-02-29") ≡ some 739310
unfolding runs
leap_day = refl

no_leap_day : parse_date (codes "2100-02-29") ≡ none
unfolding runs
no_leap_day = refl

parse_date-date_string_example : parse_date (date_string 740241) ≡ some 740241
parse_date-date_string_example = parse_date-date_string 740241 (year-lt 740241 (omega arith))
