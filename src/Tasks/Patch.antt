-- ===== src/Tasks/Patch.antt =====
-- Apply of internal/tasks/edit.go: a partial edit of a task in place. A step that fails leaves what the
-- steps before it did.
use ccdash.Prelude.{
  Bool, true, false, ◌||◌, not, List, [], Option, none, some, Text, text_eq, trim_space, is_empty,
  contains, length, select, ◌==◌, if◌then◌else◌, ℤ, is_between, int_eq, ok, err,
}
use ccdash.Calendar.{Time}
use ccdash.Tasks.Task.{Task, Status, valid_status, status_eq, is_finished, source_claude}
use ccdash.Tasks.Plan.{
  Error, no_title, bad_priority, bad_status, bad_due, not_archivable, parse_plan, valid_date,
}
use ccdash.Tasks.Edit.{dedup, set_status, replan}

pub record Patch : Type 0 where
  pub title : Option Text
  pub key : Option Text
  pub priority : Option ℤ
  pub due : Option Text
  pub project : Option Text
  pub note : Option Text
  pub status : Option Status
  pub plan : Option Text
  pub auto : Bool
  pub why : Text
  pub add_links : List Text
  pub remove_links : List Text
  pub add_sessions : List Text
  pub remove_sessions : List Text
  pub archived : Option Bool
  pub source : Text

-- The task as it stands, whether anything changed, and the error that stopped the edit.
pub record Outcome : Type 0 where
  pub task : Task
  pub changed : Bool
  pub failed : Option Error

abbrev pub checked : Bool → Error → Option Error → Option Error
checked true e rest = rest
checked false e rest = some e

-- The checks before the first change.
unfoldable pub refusal : Patch → Option Error
refusal p =
    checked (elim p.title [ none ↦ true | some v ↦ not (is_empty (trim_space v)) ]) no_title
      (checked (elim p.priority [ none ↦ true | some n ↦ is_between 1 4 n ]) bad_priority
        (checked (elim p.due [ none ↦ true | some v ↦ valid_date (trim_space v) ])
          (bad_due (elim p.due [ none ↦ [] | some v ↦ v ]))
          (checked (elim p.status [ none ↦ true | some s ↦ valid_status s ]) bad_status none)))

-- The value that `set` gives a field.
unfoldable pub patched : Bool → Text → Option Text → Text
patched trim old none = old
patched trim old (some v) = if trim then trim_space v else v

unfoldable pub patched_priority : ℤ → Option ℤ → ℤ
patched_priority old none = old
patched_priority old (some n) = n

unfoldable pub edit_fields : Task → Patch → Outcome
unfolding patched patched_priority
edit_fields t p =
    let title = patched true t.title p.title in
    let key = patched true t.key p.key in
    let due = patched true t.due p.due in
    let project = patched true t.project p.project in
    let note = patched false t.note p.note in
    let priority = patched_priority t.priority p.priority in
    record {
      task = record t {
        title = title;
        key = key;
        due = due;
        project = project;
        note = note;
        priority = priority;
      };
      changed =
          not (text_eq t.title title)
          || not (text_eq t.key key)
          || not (text_eq t.due due)
          || not (text_eq t.project project)
          || not (text_eq t.note note)
          || not (int_eq t.priority priority);
      failed = none;
    }

-- The next step, unless one has failed.
abbrev pub then_edit : Outcome → (Task → Outcome) → Outcome
then_edit o f = elim o.failed [
  | some e ↦ o
  | none ↦ let next = f o.task in record next { changed = o.changed || next.changed }
]

abbrev pub unchanged : Task → Outcome
unchanged t = record { task = t; changed = false; failed = none }

unfoldable pub edit_status : Option Status → Text → Text → Time → Task → Outcome
edit_status none why source now t = unchanged t
edit_status (some s) why source now t =
    if status_eq s t.status
    then unchanged t
    else record { task = set_status t s why source now; changed = true; failed = none }

unfoldable pub edit_plan : Option Text → Text → Bool → Text → Time → Task → Outcome
edit_plan none why auto source now t = unchanged t
edit_plan (some v) why auto source now t = elim (parse_plan v now) [
  | err e ↦ record { task = t; changed = false; failed = some e }
  | ok plan ↦ elim (replan t plan why auto source now) [
    | err e ↦ record { task = t; changed = false; failed = some e }
    | ok r ↦ record { task = r.0; changed = r.1; failed = none }
  ]
]

-- Entries added, then entries removed; and whether either changed the number of them.
unfoldable pub edit_list : List Text → List Text → List Text → List Text × Bool
edit_list have add remove =
    let more = dedup have add in
    let kept = select (λ l. not (contains remove l)) more in
    (kept, not (length more == length have) || not (length kept == length more))

unfoldable pub edit_lists : Patch → Task → Outcome
unfolding edit_list
edit_lists p t =
    let (links, l) = edit_list t.links p.add_links p.remove_links in
    let (sessions, s) = edit_list t.sessions p.add_sessions p.remove_sessions in
    record {
      task = record t { links = links; sessions = sessions };
      changed = l || s;
      failed = none;
    }

unfoldable pub edit_archived : Option Bool → Task → Outcome
edit_archived none t = unchanged t
edit_archived (some true) t =
    if t.archived
    then unchanged t
    else if is_finished t.status
    then record { task = record t { archived = true }; changed = true; failed = none }
    else record { task = t; changed = false; failed = some (not_archivable t.id t.status) }
edit_archived (some false) t =
    if t.archived
    then record { task = record t { archived = false }; changed = true; failed = none }
    else unchanged t

unfoldable pub apply : Task → Patch → Time → Outcome
apply t p now =
    let source = if is_empty p.source then source_claude else p.source in
    let why = trim_space p.why in
    elim (refusal p) [
      | some e ↦ record { task = t; changed = false; failed = some e }
      | none ↦
          let fields = edit_fields t p in
          let status = then_edit fields (edit_status p.status why source now) in
          let plan = then_edit status (edit_plan p.plan why p.auto source now) in
          let lists = then_edit plan (edit_lists p) in then_edit lists (edit_archived p.archived)
    ]
