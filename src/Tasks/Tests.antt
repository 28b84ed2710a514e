-- ===== src/Tasks/Tests.antt =====
-- A list of three tasks and two proposals for it, on 2026-09-17 (a Thursday): runs of internal/tasks on
-- them, and each theorem on tasks at such a list.
use mathlib.Core.List.{Perm}
use ccdash.Prelude.{
  err, text_eq, contains, ◌≡◌, refl, Bool, true, false, List, [], ◌∷◌, map, none, some, arith, Text,
  codes, text_eq, text_lt, trim_space, to_lower, trim_left, trim_right, is_space, contains, pos, ok,
  All, IsSorted, sort_stable, insert_stable, get_elem?, ◌<◌,
}
use ccdash.Calendar.{Time, runs, parse_date, monday_index}
use ccdash.Tasks.Task.{
  Task, TaskNote, todo, doing, done, unset, by_manual, source_claude, valid_status, is_finished,
  status_eq, status_label,
}
use ccdash.Tasks.Plan.{next_business_day, is_weekend, parse_plan, skip_weekend, valid_date}
use ccdash.Tasks.Plan.Words.{
  landing, landing-bucket_named, bucket_named, tomorrow_word, word_of, spelling,
}
use ccdash.Tasks.Edit.{replan}
use ccdash.Tasks.Heading.{
  heading, bucket_label, span, short_date, small_decimal, weekday_name, nextweek_start,
}
use ccdash.Tasks.Task.{nextweek}
use ccdash.Tasks.Plan.{next_monday}
use ccdash.Tasks.Context.{Finders, context_task, listed, last_20, drop}
use ccdash.Tasks.Context.Fixed.{plan_fixed_today-replan}
use ccdash.Tasks.Timeline.{add_note, add_notes, filled_in, clip, take}
use ccdash.Tasks.Timeline.Refs.{IsTimeline}
use ccdash.Tasks.Edit.{
  Input, new_task, new_priority, new_status, dedup, plan_by_for, set_status, restatus, status_note,
  status_text, or_todo, in_brackets,
}
use ccdash.Tasks.Patch.{Patch, apply}
use ccdash.Tasks.Sound.{IsSound}
use ccdash.Tasks.Sound.Edits.{apply-IsSound}
use ccdash.Tasks.Order.{sort, shown_before, with_bucket}
use ccdash.Tasks.Order.Sorted.{sort-IsSorted}
use ccdash.Tasks.Merge.{
  ProposalTask, merge, merge_all, merge_one, merge_known, merge_unknown, merge_new, merge_existing,
  merge_notes, merge_status, merge_replan, merge_details, wanted_status, index_keys, lookup, touch,
  input_of, known_or_none, with_plan,
}
use ccdash.Tasks.Merge.Whole.{KeptAt, merge-KeptAt}
use ccdash.Tasks.Merge.Sound.{merge-IsSound}
use ccdash.Tasks.Merge.Unsaved.{merge_unsaved, is_saved}
use ccdash.Tasks.Import.{LegacyFile, ImportOptions, plan_import}
use ccdash.Tasks.Import.Converted.{AllConverted, plan_import-AllConverted}

abbrev thursday : Time
thursday = record { date = 740241; hour = 9; minute = 30; second = 0; west = false; offset = 540 }

abbrev begun : Task
begun = record {
  id = 1;
  key = codes "report";
  title = codes "Write the report";
  priority = pos 2;
  status = doing;
  plan = codes "2026-09-16";
  plan_by = by_manual;
  plan_on = codes "2026-09-17";
  due = [];
  project = codes "ccdash";
  note = [];
  links = [];
  source = source_claude;
  created_on = codes "2026-09-14";
  done_on = [];
  order = none;
  archived = false;
  updated_at = 0;
  timeline = [];
  sessions = [];
  bucket = none;
}

abbrev over : Task
over = record begun {
  id = 2;
  key = codes "review";
  status = done;
  done_on = codes "2026-09-15";
  archived = true;
}

abbrev other_task : Task
other_task = record begun { id = 3; key = codes "mail"; priority = pos 1; plan = [] }

abbrev tasks : List Task
tasks = begun ∷ over ∷ other_task ∷ []

abbrev told : TaskNote
told = record {
  at = codes "2026-09-17T08:00:00+09:00";
  source = [];
  text = codes " asked for a draft ";
  link = [];
  ref = [];
}

abbrev for_begun : ProposalTask
for_begun = record {
  key = codes "report";
  title = codes "Another title";
  priority = pos 1;
  plan = [];
  due = codes "2026-09-30";
  project = [];
  note = [];
  links = codes "https://example.org" ∷ [];
  done_flag = true;
  status = unset;
  timeline = told ∷ [];
  replan_to = none;
}

abbrev proposals : List ProposalTask
proposals =
    for_begun
    ∷ record for_begun { key = codes "review"; done_flag = false; status = todo }
    ∷ record for_begun { key = codes "new"; done_flag = false }
    ∷ []

abbrev no_project : Text → Bool
no_project project = false

thursday_is : parse_date (codes "2026-09-17") ≡ some 740241
unfolding runs
thursday_is = refl

begun-IsSound : IsSound begun
unfolding trim_space trim_left trim_right is_space valid_status is_finished
begun-IsSound = record {
  title = refl;
  priority = refl;
  status = refl;
  archived = refl;
  done_on = refl;
  timeline = record { refs = tt; times = tt };
}

over-IsSound : IsSound over
unfolding trim_space trim_left trim_right is_space valid_status is_finished
over-IsSound = record {
  title = refl;
  priority = refl;
  status = refl;
  archived = refl;
  done_on = refl;
  timeline = record { refs = tt; times = tt };
}

other_task-IsSound : IsSound other_task
unfolding trim_space trim_left trim_right is_space valid_status is_finished
other_task-IsSound = record {
  title = refl;
  priority = refl;
  status = refl;
  archived = refl;
  done_on = refl;
  timeline = record { refs = tt; times = tt };
}

merge-KeptAt_example : KeptAt thursday 1 over (merge tasks proposals no_project thursday)
merge-KeptAt_example = merge-KeptAt tasks proposals no_project thursday 1 over refl

merge-IsSound_example : All IsSound (merge tasks proposals no_project thursday).tasks
merge-IsSound_example =
    merge-IsSound tasks proposals no_project thursday
      (begun-IsSound, (over-IsSound, (other_task-IsSound, tt)))

abbrev patch : Patch
patch = record {
  title = some (codes " Send the report ");
  key = none;
  priority = some (pos 1);
  due = none;
  project = none;
  note = none;
  status = some done;
  plan = some (codes "tomorrow");
  auto = false;
  why = [];
  add_links = codes "https://example.org" ∷ [];
  remove_links = [];
  add_sessions = [];
  remove_sessions = [];
  archived = some true;
  source = [];
}

apply-IsSound_example : IsSound (apply begun patch thursday).task
apply-IsSound_example = apply-IsSound begun patch thursday begun-IsSound

sort-IsSorted_example :
    Perm (sort tasks thursday) (map (with_bucket thursday) tasks)
    × IsSorted shown_before (sort tasks thursday)
sort-IsSorted_example = sort-IsSorted tasks thursday

abbrev input : Input
input = record {
  key = codes "call";
  title = codes " Call the bank ";
  priority = pos 0;
  status = unset;
  plan = codes "tomorrow";
  due = [];
  project = [];
  note = [];
  links = [];
  sessions = [];
  source = [];
}

filled_in_twice : filled_in told ≡ filled_in (filled_in told)
unfolding filled_in trim_space trim_left trim_right is_space
filled_in_twice = refl

begun-IsTimeline : IsTimeline begun.timeline
begun-IsTimeline = record { refs = tt; times = tt }

tomorrow_read : word_of (codes " Tomorrow") ≡ spelling tomorrow_word
unfolding trim_space trim_left trim_right is_space to_lower
tomorrow_read = refl

begun_open : is_finished begun.status ≡ false
unfolding is_finished
begun_open = refl

begun_planned : parse_date begun.plan ≡ some 740240
unfolding runs
begun_planned = refl

landing-bucket_named_example :
    landing (codes " Tomorrow") begun thursday ≡ bucket_named tomorrow_word (monday_index 740241)
landing-bucket_named_example =
    landing-bucket_named tomorrow_word (codes " Tomorrow") begun thursday tomorrow_read begun_open
      (omega arith) (omega arith)

abbrev file : LegacyFile
file = record { tasks = tasks; next_id = 2; last_timeline_sync = [] }

abbrev options : ImportOptions
options = record { map_to = (codes "ccdash", codes "dash") ∷ []; unmapped = [] }

plan_import-AllConverted_example :
    let p = (plan_import file options no_project thursday).0 in
    AllConverted options no_project thursday tasks p.converted × All (λ t. t.id < p.next_id) tasks
plan_import-AllConverted_example =
    plan_import-AllConverted file options no_project thursday
      (omega arith, (omega arith, (omega arith, tt)))

abbrev call : Task
call = record {
  id = 0;
  key = codes "call";
  title = codes "Call the bank";
  priority = pos 3;
  status = todo;
  plan = codes "2026-09-18";
  plan_by = by_manual;
  plan_on = codes "2026-09-17";
  due = [];
  project = [];
  note = [];
  links = [];
  source = source_claude;
  created_on = codes "2026-09-17";
  done_on = [];
  order = none;
  archived = false;
  updated_at = 0;
  timeline = [];
  sessions = [];
  bucket = none;
}

call_made : new_task input thursday ≡ ok call
unfolding new_task new_priority new_status valid_status status_eq parse_plan valid_date plan_by_for
    dedup next_business_day skip_weekend is_weekend trim_space trim_left trim_right is_space
    to_lower text_eq runs
call_made = refl

other_task_unsaved : is_saved 2 (merge tasks proposals no_project thursday).changed ≡ false
unfolding merge merge_all merge_one merge_known merge_unknown merge_new merge_existing merge_notes
    merge_status merge_replan merge_details wanted_status index_keys lookup touch input_of
    known_or_none with_plan add_notes add_note filled_in clip take set_status restatus status_note
    status_text or_todo in_brackets status_label is_finished new_task new_priority new_status
    valid_status status_eq parse_plan valid_date plan_by_for dedup trim_space trim_left trim_right
    is_space to_lower text_eq text_lt contains sort_stable insert_stable runs
other_task_unsaved = refl

merge_unsaved_example :
    get_elem? (merge tasks proposals no_project thursday).tasks 2 ≡ get_elem? tasks 2
merge_unsaved_example =
    merge_unsaved tasks proposals no_project thursday 2 (omega arith) other_task_unsaved

abbrev finders : Finders
finders = record {
  slack_thread = λ link. none;
  jira_in = λ text. [];
  prs_in = λ text. [];
  decimal = λ n. b'0' ∷ [];
}

begun-listed : listed begun ≡ true
unfolding listed is_finished
begun-listed = refl

plan_differs : text_eq (codes "2026-09-21") begun.plan ≡ false
unfolding text_eq
plan_differs = refl

plan_fixed_today-replan_example :
    (context_task finders thursday begun).plan_fixed_today
    ≡ (elim (replan begun (codes "2026-09-21") (codes "late") true source_claude thursday) [
      | err e ↦ true
      | ok r ↦ false
    ])
plan_fixed_today-replan_example =
    plan_fixed_today-replan finders begun (codes "2026-09-21") (codes "late") source_claude thursday
      begun-listed plan_differs refl

abbrev known_note : TaskNote
known_note = record told { source = source_claude; text = codes "asked"; ref = codes "slack:C1:1" }

abbrev noted_task : Task
noted_task = record begun { timeline = known_note ∷ [] }

ref_known :
    contains (context_task finders thursday noted_task).known_refs (filled_in known_note).ref ≡ true
unfolding context_task last_20 drop contains text_eq filled_in trim_space trim_left trim_right
    is_space
ref_known = refl

-- On a Friday next week begins with the Tuesday.
friday_heading : heading nextweek (record thursday { date = 740242 }) ≡ codes "来週（9/22 火〜9/25 金）"
unfolding heading bucket_label span short_date small_decimal weekday_name nextweek_start
    next_business_day skip_weekend is_weekend next_monday runs
friday_heading = refl
