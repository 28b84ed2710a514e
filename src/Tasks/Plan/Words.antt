-- ===== src/Tasks/Plan/Words.antt =====
-- What the words of a plan mean: the bucket that each leads to, and that an accepted plan is stable.
use ccdash.Prelude.{
  ℕ, ◌+◌, ◌≤◌, ◌<◌, ◌≡◌, refl, ◌∙◌, ap, inl, inr, false, ◌&&◌, not, map, arith, Text, codes,
  text_eq, trim_space, to_lower, is_empty, ltb, leb, ◌==◌, if◌then◌else◌, Result, ok, err, ◌>>=◌,
  Bool-cases,
}
use ccdash.Calendar.{
  Time, four_digits, date_string, monday_index, day_limit, year-lt, parse_date-date_string,
}
use ccdash.Tasks.Task.{Task, Bucket, today, tomorrow, week, nextweek, is_finished}
use ccdash.Tasks.Plan.{
  Error, friday_passed, is_weekend, skip_weekend, next_business_day, next_monday, this_friday,
  parse_plan, bucket_of_day, bucket_of,
}

-- The next business day in terms of the day of the week.
pub next_business_day_lem :
    (d : ℕ)
    → next_business_day d
      ≡ (if monday_index d == 4 then d + 3 else if monday_index d == 5 then d + 2 else d + 1)
unfolding next_business_day skip_weekend is_weekend monday_index
next_business_day_lem d = ground arith

-- The next business day is after the day, is not a Saturday or a Sunday, and every day in between
-- is.
pub next_business_day-first :
    (d : ℕ)
    → (d < next_business_day d)
      × (is_weekend (next_business_day d) ≡ false)
      × ((e : ℕ) → (ltb d e && ltb e (next_business_day d) && not (is_weekend e)) ≡ false)
unfolding is_weekend monday_index
next_business_day-first d = (
  ground (arith, next_business_day_lem d),
  ground (arith, next_business_day_lem d),
  λ e. ground (arith, next_business_day_lem d),
)

date_string-ne-empty : (d : ℕ) → is_empty (date_string d) ≡ false
unfolding date_string four_digits
date_string-ne-empty d = refl

bucket_of-planned :
    (t : Task) (now : Time) (d : ℕ)
    → is_finished t.status ≡ false
    → d < day_limit
    → bucket_of (record t { plan = date_string d }) now ≡ bucket_of_day now.date d
unfolding bucket_of
bucket_of-planned t now d open_ h =
    rw (open_, date_string-ne-empty d, parse_date-date_string d (year-lt d h))

-- The word that a text is read as.
abbrev pub word_of : Text → Text
word_of v = trim_space (map to_lower v)

-- The words that a plan may be given by.
pub data PlanWord : Type 0 where
  today_word tomorrow_word week_word nextweek_word : PlanWord

abbrev pub spelling : PlanWord → Text
spelling today_word = codes "today"
spelling tomorrow_word = codes "tomorrow"
spelling week_word = codes "week"
spelling nextweek_word = codes "nextweek"

-- The bucket that a word leads to on a day of the week, counted from Monday.
abbrev pub bucket_named : PlanWord → ℕ → Result Error Bucket
bucket_named today_word weekday = ok today
bucket_named tomorrow_word weekday = ok tomorrow
bucket_named week_word weekday =
    if leb 5 weekday
    then err friday_passed
    else ok (if weekday == 4 then today else if weekday == 3 then tomorrow else week)
bucket_named nextweek_word weekday = ok (if leb 4 weekday then tomorrow else nextweek)

-- Where a task stands once it has the plan that a text gives.
abbrev pub landing : Text → Task → Time → Result Error Bucket
landing v t now = do p ← parse_plan v now; ok (bucket_of (record t { plan = p }) now)

module _ (t : Task) (now : Time) (v : Text) (open_ : is_finished t.status ≡ false)
    (room : now.date + 14 ≤ day_limit) where
  lands_on :
      (b : Bucket) (d : ℕ)
      → d < day_limit
      → parse_plan v now ≡ ok (date_string d)
      → bucket_of_day now.date d ≡ b
      → landing v t now ≡ ok b
  lands_on b d h e k = rw e (ap ok (bucket_of-planned t now d open_ h ∙ k))

  parse_tomorrow :
      word_of v ≡ codes "tomorrow"
      → parse_plan v now ≡ ok (date_string (next_business_day now.date))
  unfolding parse_plan text_eq
  parse_tomorrow e = rw e

  parse_week :
      word_of v ≡ codes "week"
      → parse_plan v now ≡ (
          if ltb (this_friday now.date) now.date
          then err friday_passed
          else ok (date_string (this_friday now.date)))
  unfolding parse_plan text_eq
  parse_week e = rw e

  today_lands : word_of v ≡ codes "today" → landing v t now ≡ ok today
  today_lands e =
      lands_on today now.date (omega arith) (unfold parse_plan text_eq in rw e)
        (unfold bucket_of_day in ground arith)

  tomorrow_lands : word_of v ≡ codes "tomorrow" → landing v t now ≡ ok tomorrow
  tomorrow_lands e =
      lands_on tomorrow (next_business_day now.date)
        (ground (arith, next_business_day_lem now.date)) (unfold parse_plan text_eq in rw e)
        (unfold bucket_of_day in ground (arith, next_business_day_lem now.date))

  friday_lands :
      word_of v ≡ codes "week"
      → monday_index now.date ≤ 4
      → landing v t now
        ≡ ok (
            if monday_index now.date == 4
            then today
            else if monday_index now.date == 3
            then tomorrow
            else week)
  unfolding this_friday
  friday_lands e h =
      lands_on
        (if monday_index now.date == 4
          then today
          else if monday_index now.date == 3
          then tomorrow
          else week)
        (this_friday now.date) (omega arith) (unfold parse_plan text_eq in rw e (ground arith))
        (unfold bucket_of_day next_monday in ground (arith, next_business_day_lem now.date))

  nextweek_lands :
      word_of v ≡ codes "nextweek"
      → landing v t now ≡ ok (if leb 4 (monday_index now.date) then tomorrow else nextweek)
  unfolding next_monday
  nextweek_lands e =
      lands_on (if leb 4 (monday_index now.date) then tomorrow else nextweek) (next_monday now.date)
        (omega arith) (unfold parse_plan text_eq in rw e)
        (unfold bucket_of_day monday_index in ground (arith, next_business_day_lem now.date))

  weekend_refused :
      word_of v ≡ codes "week"
      → 5 ≤ monday_index now.date
      → 2 ≤ now.date
      → landing v t now ≡ err friday_passed
  unfolding parse_plan text_eq this_friday
  weekend_refused e h k = rw e (ground arith)

-- On an unfinished task, from day 2 to two weeks before the year 10000, each plan word leads to the
-- bucket that it names on this day of the week, tomorrow's and today's where they come first, and
-- "week" is refused at the weekend.
pub landing-bucket_named :
    (w : PlanWord) (v : Text) (t : Task) (now : Time)
    → word_of v ≡ spelling w
    → is_finished t.status ≡ false
    → 2 ≤ now.date
    → now.date + 14 ≤ day_limit
    → landing v t now ≡ bucket_named w (monday_index now.date)
landing-bucket_named today_word v t now e open_ h k = today_lands t now v open_ k e
landing-bucket_named tomorrow_word v t now e open_ h k = tomorrow_lands t now v open_ k e
landing-bucket_named week_word v t now e open_ h k =
    elim (Bool-cases (leb 5 (monday_index now.date))) [
      | inl weekend ↦ rw weekend (weekend_refused t now v open_ k e (ground arith) h)
      | inr weekday ↦ rw weekday (friday_lands t now v open_ k e (ground arith))
    ]
landing-bucket_named nextweek_word v t now e open_ h k = nextweek_lands t now v open_ k e
