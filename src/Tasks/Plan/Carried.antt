-- ===== src/Tasks/Plan/Carried.antt =====
-- Which plans are carried over, and the order of the buckets of planned tasks.
use ccdash.Prelude.{
  ℕ, ◌≤◌, ◌<◌, ◌≡◌, refl, false, ◌∷◌, some, arith, Text, is_empty, ltb, if◌then◌else◌, text_lt,
}
use ccdash.Calendar.{
  Time, date_string, parse_date, date_of, day_limit, year-lt, parse_date-Reads,
  date_string-parse_date, text_lt-date_string, date_of-day_of,
}
use ccdash.Tasks.Task.{
  Task, Bucket, today, tomorrow, week, nextweek, later, unplanned, finished, is_finished,
}
use ccdash.Tasks.Plan.{bucket_of_day, bucket_of, carried_over}

-- The place of a bucket in the display order.
unfoldable pub rank : Bucket → ℕ
rank today = 0
rank tomorrow = 1
rank week = 2
rank nextweek = 3
rank later = 4
rank unplanned = 5
rank finished = 6

-- A later plan does not stand in an earlier bucket.
pub rank-bucket_of_day_mono :
    (day d e : ℕ) → d ≤ e → rank (bucket_of_day day d) ≤ rank (bucket_of_day day e)
unfolding rank bucket_of_day
rank-bucket_of_day_mono day d e h = ground arith

year_of_read : (s : Text) (d : ℕ) → parse_date s ≡ some d → (date_of d).year < 10000
year_of_read s d h =
    let r = parse_date-Reads s d h in rw (← r.day_is, date_of-day_of r.date r.is_date) r.year_fits

nonempty_of_read : (s : Text) (d : ℕ) → parse_date s ≡ some d → is_empty s ≡ false
unfolding parse_date
nonempty_of_read (c ∷ s) d h = refl
nonempty_of_read _ d h = cc

-- For an unfinished task whose plan is read as a day, before the year 10000, the test for a
-- carried-over plan, which compares texts, holds exactly if that day is before this one; the task
-- then stands in today's bucket, and else in the bucket of its day.
pub carried_over-ltb :
    (t : Task) (now : Time) (d : ℕ)
    → is_finished t.status ≡ false
    → parse_date t.plan ≡ some d
    → now.date < day_limit
    → (carried_over t now ≡ ltb d now.date)
      × (bucket_of t now ≡ (if carried_over t now then today else bucket_of_day now.date d))
unfolding carried_over bucket_of
carried_over-ltb t now d open_ h k =
    let e : text_lt t.plan (date_string now.date) ≡ ltb d now.date =
      rw (← date_string-parse_date t.plan d h)
        (text_lt-date_string d now.date (year_of_read t.plan d h) (year-lt now.date k)) in
    rw (open_, nonempty_of_read t.plan d h, e, h) (refl, unfold bucket_of_day in ground arith)
