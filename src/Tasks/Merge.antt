-- ===== src/Tasks/Merge.antt =====
-- internal/tasks/sync.go: the merge that an automated sync goes through. A pointer to a task is its
-- place in the list of all tasks; a new task gets the next place.
pub mod Kept
pub mod Whole
pub mod Unsaved
pub mod Sound
use ccdash.Prelude.{
  ℕ, zero, suc, ◌+◌, Bool, true, false, ◌&&◌, ◌||◌, not, List, [], ◌∷◌, ◌++◌, Option, none, some,
  Text, text_eq, trim_space, is_empty, length, get_elem?, set, any, ltb, ◌==◌, if◌then◌else◌, ℤ,
  Result, ok, err, is_some,
}
use ccdash.Calendar.{Time, date_string}
use ccdash.Tasks.Task.{
  Task, TaskNote, Status, unset, done, cancelled, valid_status, status_eq, is_finished, source_auto,
  by_auto,
}
use ccdash.Tasks.Plan.{Error, parse_plan, valid_date}
use ccdash.Tasks.Timeline.{add_notes}
use ccdash.Tasks.Edit.{Input, new_task, dedup, set_status, replan}

pub record ProposalReplan : Type 0 where
  pub plan : Text
  pub why : Text

pub record ProposalTask : Type 0 where
  pub key : Text
  pub title : Text
  pub priority : ℤ
  pub plan : Text
  pub due : Text
  pub project : Text
  pub note : Text
  pub links : List Text
  pub done_flag : Bool
  pub status : Status
  pub timeline : List TaskNote
  pub replan_to : Option ProposalReplan

-- The lines of the summary, before they are put into words.
pub data Report : Type 0 where
  added : Text → Report
  noted : Text → ℕ → Report
  restatused : Text → Status → Status → Report
  replanned : Text → Text → Text → Report
  updated : Text → Report
  skipped_date : Text → Text → Report
  skipped : Text → Error → Report
  unknown_project : Text → Text → Report
  not_added : Text → Error → Report

unfoldable pub wanted_status : ProposalTask → Status
wanted_status p = if p.done_flag then done else if valid_status p.status then p.status else unset

-- What a proposal does to a task that is there: the task, whether it is to be saved, the reports.
pub record Change : Type 0 where
  pub task : Task
  pub touched : Bool
  pub reports : List Report

unfoldable pub merge_notes : ProposalTask → Task → Change × ℕ
merge_notes pt t =
    let (t', n) = add_notes t pt.timeline in
    if ltb 0 n
    then (record { task = t'; touched = true; reports = noted t.title n ∷ [] }, n)
    else (record { task = t'; touched = false; reports = [] }, n)

unfoldable pub merge_status : ProposalTask → ℕ → Time → Task → Change
merge_status pt n now t =
    let s = wanted_status pt in
    if not (status_eq s unset)
      && not (status_eq s t.status)
      && not (is_finished t.status)
      && (status_eq s done || ltb 0 n)
    then record {
      task = set_status t s [] source_auto now;
      touched = true;
      reports = restatused t.title t.status s ∷ [];
    }
    else record { task = t; touched = false; reports = [] }

unfoldable pub merge_replan : Option ProposalReplan → Time → Task → Change
merge_replan none now t = record { task = t; touched = false; reports = [] }
merge_replan (some rp) now t =
    if is_finished t.status
    then record { task = t; touched = false; reports = [] }
    else elim (parse_plan rp.plan now) [
      | err e ↦ record { task = t; touched = false; reports = skipped_date t.title rp.plan ∷ [] }
      | ok plan ↦
          if text_eq plan t.plan
          then record { task = t; touched = false; reports = [] }
          else elim (replan t plan (trim_space rp.why) true source_auto now) [
            | err e ↦ record { task = t; touched = false; reports = skipped t.title e ∷ [] }
            | ok r ↦ record {
              task = r.0;
              touched = true;
              reports = replanned t.title t.plan plan ∷ [];
            }
          ]
    ]

unfoldable pub merge_details : ProposalTask → Task → Change
merge_details pt t =
    let d = trim_space pt.due in
    let move = not (is_empty d) && not (text_eq d t.due) && valid_date d in
    let links = dedup t.links pt.links in
    let more = not (length links == length t.links) in
    if move || more
    then record {
      task = record t { due = if move then d else t.due; links = links };
      touched = true;
      reports = updated t.title ∷ [];
    }
    else record { task = t; touched = false; reports = [] }

-- The next step on the same task.
abbrev pub then_merge : Change → (Task → Change) → Change
then_merge c f =
    let d = f c.task in
    record { task = d.task; touched = c.touched || d.touched; reports = c.reports ++ d.reports }

unfoldable pub merge_existing : ProposalTask → Time → Task → Change
merge_existing pt now t =
    let (notes, n) = merge_notes pt t in
    let status = then_merge notes (merge_status pt n now) in
    let plan = then_merge status (merge_replan pt.replan_to now) in
    then_merge plan (merge_details pt)

-- The project that a new task keeps.
unfoldable pub known_or_none : (Text → Bool) → Text → Text
known_or_none known project = if known project then project else []

unfoldable pub input_of : ProposalTask → (Text → Bool) → Input
input_of pt known = record {
  key = trim_space pt.key;
  title = pt.title;
  priority = pt.priority;
  status = wanted_status pt;
  plan = [];
  due = pt.due;
  project = known_or_none known (trim_space pt.project);
  note = pt.note;
  links = pt.links;
  sessions = [];
  source = source_auto;
}

unfoldable pub with_plan : Text → Time → Task → Task
with_plan v now t = elim (parse_plan v now) [
  | err e ↦ t
  | ok plan ↦
      if is_empty plan
      then t
      else record t { plan = plan; plan_by = by_auto; plan_on = date_string now.date }
]

-- The task that a proposal adds.
unfoldable pub merge_new : ProposalTask → (Text → Bool) → Time → Result Error Task
merge_new pt known now = elim (new_task (input_of pt known) now) [
  | err e ↦ err e
  | ok t ↦ ok (add_notes (with_plan pt.plan now t) pt.timeline).0
]

unfoldable pub project_reports : ProposalTask → (Text → Bool) → List Report
project_reports pt known =
    let project = trim_space pt.project in
    if not (is_empty project) && not (known project)
    then unknown_project pt.title project ∷ []
    else []

-- The variables of Merge; `changed` holds the places of the tasks to save, in order.
pub record State : Type 0 where
  pub tasks : List Task
  pub by_key : List (Text × ℕ)
  pub changed : List ℕ
  pub reports : List Report

-- The last assignment to a key stands first.
unfoldable pub lookup : Text → List (Text × ℕ) → Option ℕ
lookup k [] = none
lookup k ((j, i) ∷ m) = if text_eq j k then some i else lookup k m

unfoldable pub index_keys : ℕ → List Task → List (Text × ℕ) → List (Text × ℕ)
index_keys i [] m = m
index_keys i (t ∷ ts) m = index_keys (suc i) ts (if is_empty t.key then m else (t.key, i) ∷ m)

unfoldable pub touch : ℕ → List ℕ → List ℕ
touch i is = if any (λ j. j == i) is then is else is ++ i ∷ []

unfoldable pub merge_known : ProposalTask → Time → ℕ → State → State
merge_known pt now i s = elim (get_elem? s.tasks i) [
  | none ↦ s
  | some t ↦
      let c = merge_existing pt now t in
      record s {
        tasks = set s.tasks i c.task;
        changed = if c.touched then touch i s.changed else s.changed;
        reports = s.reports ++ c.reports;
      }
]

unfoldable pub merge_unknown : ProposalTask → (Text → Bool) → Time → State → State
merge_unknown pt known now s =
    if is_finished (wanted_status pt) then s else elim (merge_new pt known now) [
      | err e ↦ record s {
        reports = s.reports ++ (project_reports pt known ++ not_added pt.title e ∷ []);
      }
      | ok t ↦ record {
        tasks = s.tasks ++ t ∷ [];
        by_key = (trim_space pt.key, length s.tasks) ∷ s.by_key;
        changed = touch (length s.tasks) s.changed;
        reports = s.reports ++ (project_reports pt known ++ added t.title ∷ []);
      }
    ]

-- One round of the loop.
unfoldable pub merge_one : ProposalTask → (Text → Bool) → Time → State → State
merge_one pt known now s =
    let key = trim_space pt.key in
    if is_empty key || is_empty (trim_space pt.title) then s else elim (lookup key s.by_key) [
      | some i ↦ merge_known pt now i s
      | none ↦ merge_unknown pt known now s
    ]

unfoldable pub merge_all : List ProposalTask → (Text → Bool) → Time → State → State
merge_all [] known now s = s
merge_all (pt ∷ pts) known now s = merge_all pts known now (merge_one pt known now s)

unfoldable pub merge : List Task → List ProposalTask → (Text → Bool) → Time → State
merge all pts known now =
    merge_all pts known now
      (record { tasks = all; by_key = index_keys 0 all []; changed = []; reports = [] })
