-- ===== src/Tasks/Heading.antt =====
-- internal/tasks/rules.go: the titles of the buckets, with their dates.
use ccdash.Prelude.{
  ℕ, ◌+◌, ◌-◌, ◌≡◌, arith, [], ◌∷◌, ◌++◌, Text, codes, false, ltb, get_elem?, is_empty, none, some,
  if◌then◌else◌,
}
use ccdash.Calendar.{Time, date_of, digit, two_digits, monday_index}
use ccdash.Tasks.Task.{Bucket, today, tomorrow, week, nextweek, later, unplanned, finished}
use ccdash.Tasks.Plan.{next_business_day, next_monday, bucket_of_day}
use ccdash.Tasks.Plan.Words.{next_business_day_lem}

unfoldable pub bucket_label : Bucket → Text
bucket_label today = codes "今日"
bucket_label tomorrow = codes "明日"
bucket_label week = codes "今週中"
bucket_label nextweek = codes "来週"
bucket_label later = codes "再来週以降"
bucket_label unplanned = codes "未定"
bucket_label finished = codes "完了"

-- %d of a month or a day of it, which are below 100.
unfoldable pub small_decimal : ℕ → Text
small_decimal n = if ltb n 10 then digit n ∷ [] else two_digits n

unfoldable pub weekday_name : ℕ → Text
weekday_name d =
    elim (get_elem?
      (codes "月" ∷ codes "火" ∷ codes "水" ∷ codes "木" ∷ codes "金" ∷ codes "土" ∷ codes "日" ∷ [])
      (monday_index d)) [ none ↦ [] | some name ↦ name ]

unfoldable pub short_date : ℕ → Text
short_date d =
    small_decimal (date_of d).month
    ++ (codes "/" ++ (small_decimal (date_of d).day ++ (codes " " ++ weekday_name d)))

-- The first day that the heading of "next week" names.
unfoldable pub nextweek_start : ℕ → ℕ
nextweek_start day =
    let s = next_business_day day + 1 in if ltb (next_monday day) s then s else next_monday day

unfoldable pub span : Bucket → ℕ → Text
span today day = short_date day
span tomorrow day = short_date (next_business_day day)
span week day = codes "〜" ++ short_date (next_monday day - 3)
span nextweek day =
    short_date (nextweek_start day) ++ (codes "〜" ++ short_date (next_monday day + 4))
span later day = short_date (next_monday day + 7) ++ codes "〜"
span unplanned day = []
span finished day = []

unfoldable pub heading : Bucket → Time → Text
heading b now =
    let s = span b now.date in
    if is_empty s then bucket_label b else bucket_label b ++ (codes "（" ++ (s ++ codes "）"))

-- The first and the last day that the heading of next week names are days of that bucket, and no
-- earlier day is; and the first day that the heading of later names is a day of that bucket.
pub nextweek_start-bucket_of_day :
    (day : ℕ)
    → (bucket_of_day day (nextweek_start day) ≡ nextweek)
      × (bucket_of_day day (next_monday day + 4) ≡ nextweek)
      × (bucket_of_day day (next_monday day + 7) ≡ later)
      × ((d : ℕ) → bucket_of_day day d ≡ nextweek → ltb d (nextweek_start day) ≡ false)
unfolding nextweek_start bucket_of_day next_monday monday_index
nextweek_start-bucket_of_day day = (
  ground (arith, next_business_day_lem day),
  ground (arith, next_business_day_lem day),
  ground (arith, next_business_day_lem day),
  λ d h. ground (arith, next_business_day_lem day),
)
