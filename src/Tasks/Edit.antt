-- ===== src/Tasks/Edit.antt =====
-- internal/tasks/edit.go: new tasks, and edits with their timeline entries.
use ccdash.Prelude.{
  Bool, true, false, ◌&&◌, ◌||◌, not, List, [], ◌∷◌, ◌++◌, Option, none, some, Text, codes, text_eq,
  trim_space, is_empty, contains, if◌then◌else◌, ℤ, pos, is_between, int_eq, Result, ok, err, ◌>>=◌,
}
use ccdash.Calendar.{Time, date_string, stamp}
use ccdash.Tasks.Task.{
  Task, TaskNote, Status, unset, todo, done, cancelled, valid_status, status_eq, status_label,
  is_finished, source_claude, source_auto, by_manual, by_auto,
}
use ccdash.Tasks.Plan.{
  Error, no_title, bad_priority, bad_new_status, bad_due, finished_task, no_reason, planned_by_hand,
  parse_plan, valid_date,
}
use ccdash.Tasks.Timeline.{add_note}

-- The loop of dedup.
unfoldable pub dedup : List Text → List Text → List Text
dedup out [] = out
dedup out (v ∷ add) =
    let w = trim_space v in
    dedup (if not (is_empty w) && not (contains out w) then out ++ w ∷ [] else out) add

pub record Input : Type 0 where
  pub key : Text
  pub title : Text
  pub priority : ℤ
  pub status : Status
  pub plan : Text
  pub due : Text
  pub project : Text
  pub note : Text
  pub links : List Text
  pub sessions : List Text
  pub source : Text

unfoldable pub plan_by_for : Text → Text
plan_by_for source = if text_eq source source_auto then by_auto else by_manual

-- The checks of New on the priority, the status and the due date, each with its default.
unfoldable pub new_priority : ℤ → Result Error ℤ
new_priority p =
    let q = if int_eq p (pos 0) then pos 3 else p in
    if is_between 1 4 q then ok q else err bad_priority

unfoldable pub new_status : Status → Result Error Status
new_status s =
    let r = if status_eq s unset then todo else s in
    if not (valid_status r) || status_eq r done || status_eq r cancelled
    then err bad_new_status
    else ok r

unfoldable pub new_task : Input → Time → Result Error Task
new_task i now = do
  title ← (if is_empty (trim_space i.title) then err no_title else ok (trim_space i.title))
  priority ← new_priority i.priority
  status ← new_status i.status
  due ←
      (if valid_date (trim_space i.due)
        then ok (trim_space i.due)
        else err (bad_due (trim_space i.due)))
  let source = if is_empty i.source then source_claude else i.source
  plan ← parse_plan i.plan now
  ok (record {
    id = 0;
    key = trim_space i.key;
    title = title;
    priority = priority;
    status = status;
    plan = plan;
    plan_by = if is_empty plan then [] else plan_by_for source;
    plan_on = if is_empty plan then [] else date_string now.date;
    due = due;
    project = trim_space i.project;
    note = i.note;
    links = dedup [] i.links;
    source = source;
    created_on = date_string now.date;
    done_on = [];
    order = none;
    archived = false;
    updated_at = 0;
    timeline = [];
    sessions = dedup [] i.sessions;
    bucket = none;
  })

unfoldable pub or_todo : Status → Status
or_todo unset = todo
or_todo s = s

unfoldable pub in_brackets : Text → Text
in_brackets why = if is_empty why then [] else codes "（" ++ (why ++ codes "）")

unfoldable pub status_text : Status → Status → Text → Text → Text
status_text before status why source =
    codes "状態を「"
    ++ (status_label before
        ++ (codes "」から「"
            ++ (status_label status
                ++ (codes "」"
                    ++ ((if text_eq source source_auto then codes "に自動で変更" else codes "に変更")
                        ++ in_brackets why)))))

-- The entry that SetStatus appends.
unfoldable pub status_note : Status → Status → Text → Text → Time → TaskNote
status_note before status why source now = record {
  at = stamp now;
  source = source;
  text = status_text before status why source;
  link = [];
  ref = source ++ (codes ":status:" ++ stamp now);
}

-- The task that SetStatus gives that entry to.
unfoldable pub restatus : Task → Status → Time → Task
restatus t status now =
    if is_finished status
    then record t { status = status; done_on = date_string now.date }
    else record t { status = status; done_on = []; archived = false }

unfoldable pub set_status : Task → Status → Text → Text → Time → Task
set_status t status why source now =
    (add_note (restatus t status now) (status_note (or_todo t.status) status why source now)).0

unfoldable pub or_unset : Text → Text
or_unset s = if is_empty s then codes "未定" else s

unfoldable pub plan_note : Text → Text → Text → Bool → Text → Time → TaskNote
plan_note before plan why auto source now = record {
  at = stamp now;
  source = source;
  text =
      codes "やる日を「"
      ++ (or_unset before
          ++ (codes "」から「"
              ++ (or_unset plan
                  ++ (codes "」"
                      ++ ((if auto then codes "に自動で変更" else codes "に変更") ++ in_brackets why)))));
  link = [];
  ref = source ++ (codes ":plan:" ++ stamp now);
}

-- Why an automated replan is refused.
unfoldable pub auto_refusal : Task → Text → Time → Option Error
auto_refusal t why now =
    if is_finished t.status
    then some finished_task
    else if is_empty why
    then some no_reason
    else if text_eq t.plan_by by_manual && text_eq t.plan_on (date_string now.date)
    then some planned_by_hand
    else none

-- The move itself.
unfoldable pub moved_plan : Task → Text → Text → Bool → Text → Time → Task
moved_plan t plan why auto source now =
    let by = if auto then by_auto else by_manual in
    let src = if auto then source_auto else source in
    let t' = record t { plan = plan; order = none; plan_on = date_string now.date; plan_by = by } in
    if auto || not (is_empty why)
    then (add_note t' (plan_note t.plan plan why auto src now)).0
    else t'

-- Whether the plan moved, beside the task; an error leaves the task alone.
unfoldable pub replan : Task → Text → Text → Bool → Text → Time → Result Error (Task × Bool)
replan t plan why auto source now =
    if text_eq plan t.plan
    then ok (t, false)
    else elim (if auto then auto_refusal t why now else none) [
      | some e ↦ err e
      | none ↦ ok (moved_plan t plan why auto source now, true)
    ]
