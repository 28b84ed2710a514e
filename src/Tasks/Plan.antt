-- ===== src/Tasks/Plan.antt =====
-- internal/tasks/rules.go: the days that a plan's words name, and the buckets of the list.
pub mod Words
pub mod Carried
use ccdash.Prelude.{
  ℕ, zero, suc, ◌+◌, ◌-◌, ◌≤◌, Bool, true, false, ◌&&◌, ◌||◌, not, List, [], ◌∷◌, ◌++◌, map, Option,
  none, some, arith, Text, codes, text_eq, text_lt, trim_space, to_lower, is_empty, ltb, leb, ◌==◌,
  if◌then◌else◌, Result, ok, err, Bool-cases,
}
use ccdash.Calendar.{Time, date_string, parse_date, monday_index, date_of}
use ccdash.Tasks.Task.{
  Task, Status, Bucket, today, tomorrow, week, nextweek, later, unplanned, finished, is_finished,
}

-- The errors of internal/tasks.
pub data Error : Type 0 where
  no_title bad_priority bad_new_status bad_status : Error
  bad_due bad_plan : Text → Error
  friday_passed finished_task no_reason planned_by_hand : Error
  not_archivable : ℕ → Status → Error

unfoldable pub is_weekend : ℕ → Bool
is_weekend d = leb 5 (monday_index d)

-- The loop of NextBusinessDay, with the rounds that are left.
unfoldable pub skip_weekend : ℕ → ℕ → ℕ
skip_weekend zero d = d
skip_weekend (suc rounds) d = elim (is_weekend d) [ true ↦ skip_weekend rounds (d + 1) | false ↦ d ]

unfoldable pub next_business_day : ℕ → ℕ
next_business_day d = skip_weekend 7 (d + 1)

unfoldable pub next_monday : ℕ → ℕ
next_monday d = d + (7 - monday_index d)

unfoldable pub this_friday : ℕ → ℕ
this_friday d = d + 4 - monday_index d

unfoldable pub parse_plan : Text → Time → Result Error Text
parse_plan v now =
    let day = now.date in
    let word = trim_space (map to_lower v) in
    if text_eq word (codes "") || text_eq word (codes "none")
    then ok []
    else if text_eq word (codes "today")
    then ok (date_string day)
    else if text_eq word (codes "tomorrow")
    then ok (date_string (next_business_day day))
    else if text_eq word (codes "week")
    then (if ltb (this_friday day) day
        then err friday_passed
        else ok (date_string (this_friday day)))
    else if text_eq word (codes "nextweek")
    then ok (date_string (next_monday day))
    else elim (parse_date (trim_space v)) [ none ↦ err (bad_plan v) | some d ↦ ok (date_string d) ]

unfoldable pub valid_date : Text → Bool
valid_date s = if is_empty s then true else elim (parse_date s) [ none ↦ false | some d ↦ true ]

-- Where an unfinished task planned for day `d` stands on day `day`.
unfoldable pub bucket_of_day : ℕ → ℕ → Bucket
bucket_of_day day d =
    let nm = next_monday day in
    if leb d day
    then today
    else if leb d (next_business_day day)
    then tomorrow
    else if ltb d nm
    then week
    else if ltb d (nm + 7)
    then nextweek
    else later

unfoldable pub bucket_of : Task → Time → Bucket
bucket_of t now =
    if is_finished t.status
    then (if text_eq t.done_on (date_string now.date) then today else finished)
    else if is_empty t.plan
    then unplanned
    else elim (parse_date t.plan) [ none ↦ unplanned | some d ↦ bucket_of_day now.date d ]

unfoldable pub carried_over : Task → Time → Bool
carried_over t now =
    not (is_finished t.status) && (not (is_empty t.plan) && text_lt t.plan (date_string now.date))
