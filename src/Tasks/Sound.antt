-- ===== src/Tasks/Sound.antt =====
-- The invariant of a stored task, and that every way to make or edit one keeps it.
pub mod Edits
use ccdash.Prelude.{
  ℕ, ◌≡◌, refl, sym, ap, ◌∙◌, inl, inr, Bool, true, false, ◌&&◌, ◌||◌, not, List, [], ◌∷◌, Option,
  none, some, arith, Text, text_eq, trim_space, trim_space_idem, is_empty, ℤ, is_between,
  if◌then◌else◌, Result, ok, err, Bool-cases, Result-cases, Option-cases,
}
use ccdash.Calendar.{Time, date_string, four_digits}
use ccdash.Tasks.Task.{
  Task, TaskNote, Status, valid_status, status_eq, status_eq_iff, is_finished, unset, todo, done,
  cancelled,
}
use ccdash.Tasks.Plan.{parse_plan, valid_date}
use ccdash.Tasks.Timeline.{add_note, add_notes}
use ccdash.Tasks.Timeline.Refs.{IsTimeline, add_note-IsTimeline}
use ccdash.Tasks.Edit.{
  Input, new_task, new_priority, new_status, set_status, restatus, replan, moved_plan, auto_refusal,
}

-- A title, a priority from 1 to 4, one of the five statuses; only a finished task is archived and has a
-- day on which it was finished; and a timeline in order with no entry twice.
pub record IsSound (t : Task) : Type 0 where
  pub title : is_empty (trim_space t.title) ≡ false
  pub priority : is_between 1 4 t.priority ≡ true
  pub status : valid_status t.status ≡ true
  pub archived : t.archived && not (is_finished t.status) ≡ false
  pub done_on : is_empty t.done_on ≡ not (is_finished t.status)
  pub timeline : IsTimeline t.timeline

-- Everything but the timeline stays.
add_note-rest :
    (t : Task) (n : TaskNote) → (add_note t n).0 ≡ record t { timeline = (add_note t n).0.timeline }
unfolding add_note
add_note-rest t n = ground arith

pub add_note-IsSound : (t : Task) (n : TaskNote) → IsSound t → IsSound (add_note t n).0
add_note-IsSound t n v =
    let e = add_note-rest t n in
    record {
      title = rw e v.title;
      priority = rw e v.priority;
      status = rw e v.status;
      archived = rw e v.archived;
      done_on = rw e v.done_on;
      timeline = add_note-IsTimeline t n v.timeline;
    }

pub add_notes-IsSound : (t : Task) (ns : List TaskNote) → IsSound t → IsSound (add_notes t ns).0
unfolding add_notes
add_notes-IsSound t [] v = v
add_notes-IsSound t (n ∷ ns) v = add_notes-IsSound (add_note t n).0 ns (add_note-IsSound t n v)

day-ne-empty : (d : ℕ) → is_empty (date_string d) ≡ false
unfolding date_string four_digits
day-ne-empty d = refl

restatus-IsSound :
    (t : Task) (s : Status) (now : Time)
    → valid_status s ≡ true
    → IsSound t
    → IsSound (restatus t s now)
unfolding restatus
restatus-IsSound t s now ok_ v = elim (Bool-cases (is_finished s)) [
  | inl over ↦ rw over (record {
    title = v.title;
    priority = v.priority;
    status = ok_;
    archived = ground arith;
    done_on = rw over (day-ne-empty now.date);
    timeline = v.timeline;
  })
  | inr open_ ↦ rw open_ (record {
    title = v.title;
    priority = v.priority;
    status = ok_;
    archived = refl;
    done_on = rw open_;
    timeline = v.timeline;
  })
]

pub set_status-IsSound :
    (t : Task) (s : Status) (why source : Text) (now : Time)
    → valid_status s ≡ true
    → IsSound t
    → IsSound (set_status t s why source now)
unfolding set_status
set_status-IsSound t s why source now ok_ v =
    add_note-IsSound (restatus t s now) _ (restatus-IsSound t s now ok_ v)

pub moved_plan-IsSound :
    (t : Task) (plan why : Text) (auto : Bool) (source : Text) (now : Time)
    → IsSound t
    → IsSound (moved_plan t plan why auto source now)
unfolding moved_plan
moved_plan-IsSound t plan why auto source now v = elim (Bool-cases (auto || not (is_empty why))) [
  | inl told ↦ rw told (
      add_note-IsSound _ _ (record {
        title = v.title;
        priority = v.priority;
        status = v.status;
        archived = v.archived;
        done_on = v.done_on;
        timeline = v.timeline;
      }))
  | inr quiet ↦ rw quiet (record {
    title = v.title;
    priority = v.priority;
    status = v.status;
    archived = v.archived;
    done_on = v.done_on;
    timeline = v.timeline;
  })
]

pub replan-IsSound :
    (t : Task) (plan why : Text) (auto : Bool) (source : Text) (now : Time) (r : Task × Bool)
    → replan t plan why auto source now ≡ ok r
    → IsSound t
    → IsSound r.0
unfolding replan
replan-IsSound t plan why auto source now r h v = elim (Bool-cases (text_eq plan t.plan)) [
  | inl same ↦ let e : t ≡ r.0 = ground arith in rw (← e) v
  | inr other ↦
      let e : moved_plan t plan why auto source now ≡ r.0 = ground arith in
      rw (← e) (moved_plan-IsSound t plan why auto source now v)
]

new_priority-between : (p q : ℤ) → new_priority p ≡ ok q → is_between 1 4 q ≡ true
unfolding new_priority
new_priority-between p q h = ground arith

new_status-open :
    (s r : Status) → new_status s ≡ ok r → (valid_status r ≡ true) × (is_finished r ≡ false)
unfolding new_status valid_status is_finished status_eq
new_status-open unset r h = ground arith
new_status-open todo r h = ground arith
new_status-open _ r h = ground arith

-- What New has checked of the task that it makes.
record Checked (i : Input) (t : Task) : Type 0 where
  title : is_empty (trim_space i.title) ≡ false
  title_is : t.title ≡ trim_space i.title
  priority : new_priority i.priority ≡ ok t.priority
  status : new_status i.status ≡ ok t.status
  archived : t.archived ≡ false
  done_on : t.done_on ≡ []
  timeline : t.timeline ≡ []

new_task-Checked : (i : Input) (now : Time) (t : Task) → new_task i now ≡ ok t → Checked i t
unfolding new_task
new_task-Checked i now t h = ground arith

-- A task that New makes without an error is sound and not finished.
pub new_task-IsSound :
    (i : Input) (now : Time) (t : Task)
    → new_task i now ≡ ok t
    → IsSound t × (is_finished t.status ≡ false)
new_task-IsSound i now t h =
    let c = new_task-Checked i now t h in
    let (valid, open_) = new_status-open i.status t.status c.status in
    (
      record {
        title = rw (c.title_is, trim_space_idem) c.title;
        priority = new_priority-between i.priority t.priority c.priority;
        status = valid;
        archived = rw c.archived;
        done_on = rw (c.done_on, open_);
        timeline = rw c.timeline (record { refs = tt; times = tt });
      },
      open_,
    )
