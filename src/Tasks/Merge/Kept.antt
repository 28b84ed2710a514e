-- ===== src/Tasks/Merge/Kept.antt =====
-- What the person has decided survives a merge, one task at a time.
use ccdash.Prelude.{
  ℕ, ◌≡◌, refl, ◌∙◌, inl, inr, Bool, true, false, ◌&&◌, ◌||◌, List, [], ◌∷◌, Option, none, some,
  arith, Text, text_eq, trim_space, if◌then◌else◌, ok, Bool-cases, Result-cases,
}
use ccdash.Calendar.{Time, date_string}
use ccdash.Tasks.Task.{Task, TaskNote, Status, is_finished, source_auto, by_manual}
use ccdash.Tasks.Timeline.{add_note, add_notes}
use ccdash.Tasks.Plan.{parse_plan}
use ccdash.Tasks.Edit.{set_status, restatus, replan, moved_plan, auto_refusal}
use ccdash.Tasks.Merge.{
  ProposalTask, ProposalReplan, merge_notes, wanted_status, merge_status, merge_replan,
  merge_details, merge_existing,
}

-- The person has set the plan on this day.
abbrev pub planned_today : Task → Time → Bool
planned_today t now = text_eq t.plan_by by_manual && text_eq t.plan_on (date_string now.date)

abbrev pub is_fixed : Task → Time → Bool
is_fixed t now = is_finished t.status || planned_today t now

-- `u` is `t` after a merge: its title, priority, note and the like are kept, its status and the day it
-- was finished where it is finished, and its plan where it is finished or planned by hand today.
pub record Keeps (now : Time) (t u : Task) : Type 0 where
  pub id : u.id ≡ t.id
  pub key : u.key ≡ t.key
  pub title : u.title ≡ t.title
  pub priority : u.priority ≡ t.priority
  pub project : u.project ≡ t.project
  pub note : u.note ≡ t.note
  pub sessions : u.sessions ≡ t.sessions
  pub status : u.status ≡ (if is_finished t.status then t.status else u.status)
  pub done_on : u.done_on ≡ (if is_finished t.status then t.done_on else u.done_on)
  pub plan : u.plan ≡ (if is_fixed t now then t.plan else u.plan)
  pub plan_by : u.plan_by ≡ (if is_fixed t now then t.plan_by else u.plan_by)
  pub plan_on : u.plan_on ≡ (if is_fixed t now then t.plan_on else u.plan_on)

pub Keeps-refl : (now : Time) (t : Task) → Keeps now t t
Keeps-refl now t = ground arith

pub Keeps-trans : (now : Time) (t u v : Task) → Keeps now t u → Keeps now u v → Keeps now t v
Keeps-trans now t u v h k = ground arith

add_note-Keeps : (now : Time) (t : Task) (n : TaskNote) → Keeps now t (add_note t n).0
unfolding add_note
add_note-Keeps now t n = ground arith

add_notes-Keeps : (now : Time) (t : Task) (ns : List TaskNote) → Keeps now t (add_notes t ns).0
unfolding add_notes
add_notes-Keeps now t [] = Keeps-refl now t
add_notes-Keeps now t (n ∷ ns) =
    Keeps-trans now _ _ _ (add_note-Keeps now t n) (add_notes-Keeps now (add_note t n).0 ns)

merge_notes-Keeps :
    (pt : ProposalTask) (now : Time) (t : Task) → Keeps now t (merge_notes pt t).0.task
unfolding merge_notes
merge_notes-Keeps pt now t = ground (arith, add_notes-Keeps now t pt.timeline)

restatus-Keeps :
    (s : Status) (now : Time) (t : Task)
    → is_finished t.status ≡ false
    → Keeps now t (restatus t s now)
unfolding restatus
restatus-Keeps s now t h = ground arith

set_status-Keeps :
    (s : Status) (why source : Text) (now : Time) (t : Task)
    → is_finished t.status ≡ false
    → Keeps now t (set_status t s why source now)
unfolding set_status
set_status-Keeps s why source now t h =
    Keeps-trans now _ _ _ (restatus-Keeps s now t h) (add_note-Keeps now (restatus t s now) _)

merge_status-Keeps :
    (pt : ProposalTask) (n : ℕ) (now : Time) (t : Task) → Keeps now t (merge_status pt n now t).task
unfolding merge_status
merge_status-Keeps pt n now t =
    ground (arith, set_status-Keeps (wanted_status pt) [] source_auto now t, Keeps-refl now t)

moved_plan-Keeps :
    (t : Task) (plan why source : Text) (now : Time)
    → is_fixed t now ≡ false
    → Keeps now t (moved_plan t plan why true source now)
unfolding moved_plan
moved_plan-Keeps t plan why source now h =
    Keeps-trans now t _ _ (ground arith) (add_note-Keeps now _ _)

open_to_auto :
    (t : Task) (why : Text) (now : Time) → auto_refusal t why now ≡ none → is_fixed t now ≡ false
unfolding auto_refusal
open_to_auto t why now h = ground arith

replan-Keeps :
    (t : Task) (plan why source : Text) (now : Time) (r : Task × Bool)
    → replan t plan why true source now ≡ ok r
    → Keeps now t r.0
unfolding replan
replan-Keeps t plan why source now r h =
    ground (arith, Keeps-refl now t, open_to_auto t why now, moved_plan-Keeps t plan why source now)

merge_replan-Keeps :
    (rp : Option ProposalReplan) (now : Time) (t : Task) → Keeps now t (merge_replan rp now t).task
unfolding merge_replan
merge_replan-Keeps none now t = Keeps-refl now t
merge_replan-Keeps (some rp) now t = elim (Bool-cases (is_finished t.status)) [
  | inl over ↦ rw over (Keeps-refl now t)
  | inr open_ ↦ rw open_ (elim (Result-cases (parse_plan rp.plan now)) [
    | inr (e, bad) ↦ rw (bad, merge_replan) (Keeps-refl now t)
    | inl (plan, good) ↦
        rw (good, merge_replan)
          (elim (Bool-cases (text_eq plan t.plan)) [
            | inl same ↦ rw same (Keeps-refl now t)
            | inr other ↦
                rw other
                  (elim (Result-cases (replan t plan (trim_space rp.why) true source_auto now)) [
                    | inl (r, done) ↦
                        rw (done, merge_replan)
                          (replan-Keeps t plan (trim_space rp.why) source_auto now r done)
                    | inr (e, refused) ↦ rw (refused, merge_replan) (Keeps-refl now t)
                  ])
          ])
  ])
]

merge_details-Keeps :
    (pt : ProposalTask) (now : Time) (t : Task) → Keeps now t (merge_details pt t).task
unfolding merge_details
merge_details-Keeps pt now t = ground arith

pub merge_existing-Keeps :
    (pt : ProposalTask) (now : Time) (t : Task) → Keeps now t (merge_existing pt now t).task
unfolding merge_existing
merge_existing-Keeps pt now t = Keeps-trans now _ _ _ (merge_notes-Keeps pt now t) (
    Keeps-trans now _ _ _ (merge_status-Keeps pt _ now _) (
      Keeps-trans now _ _ _ (merge_replan-Keeps pt.replan_to now _) (merge_details-Keeps pt now _)))

add_note_untouched : (t : Task) (n : TaskNote) → (add_note t n).1 ≡ false → (add_note t n).0 ≡ t
unfolding add_note
add_note_untouched t n h = ground arith

add_notes_untouched :
    (t : Task) (ns : List TaskNote) → (add_notes t ns).1 ≡ 0 → (add_notes t ns).0 ≡ t
unfolding add_notes
add_notes_untouched t [] h = refl
add_notes_untouched t (n ∷ ns) h = elim (Bool-cases (add_note t n).1) [
  | inl new ↦ absurd (ground (arith))
  | inr old ↦
      let e : (add_note t n).0 ≡ t = add_note_untouched t n old in
      let k : (add_notes (add_note t n).0 ns).1 ≡ 0 = ground arith in
      add_notes_untouched (add_note t n).0 ns k ∙ e
]

merge_notes_untouched :
    (pt : ProposalTask) (t : Task)
    → (merge_notes pt t).0.touched ≡ false
    → (merge_notes pt t).0.task ≡ t
unfolding merge_notes
merge_notes_untouched pt t h = ground (arith, add_notes_untouched t pt.timeline)

merge_status_untouched :
    (pt : ProposalTask) (n : ℕ) (now : Time) (t : Task)
    → (merge_status pt n now t).touched ≡ false
    → (merge_status pt n now t).task ≡ t
unfolding merge_status
merge_status_untouched pt n now t h = ground arith

merge_replan_untouched :
    (rp : Option ProposalReplan) (now : Time) (t : Task)
    → (merge_replan rp now t).touched ≡ false
    → (merge_replan rp now t).task ≡ t
unfolding merge_replan
merge_replan_untouched none now t h = refl
merge_replan_untouched (some rp) now t h = ground arith

merge_details_untouched :
    (pt : ProposalTask) (t : Task)
    → (merge_details pt t).touched ≡ false
    → (merge_details pt t).task ≡ t
unfolding merge_details
merge_details_untouched pt t h = ground arith

-- A task that is not to be saved has not changed.
pub merge_existing_untouched :
    (pt : ProposalTask) (now : Time) (t : Task)
    → (merge_existing pt now t).touched ≡ false
    → (merge_existing pt now t).task ≡ t
unfolding merge_existing
merge_existing_untouched pt now t h = ground (
  arith,
  merge_notes_untouched pt t,
  merge_status_untouched pt (merge_notes pt t).1 now (merge_notes pt t).0.task,
  merge_replan_untouched pt.replan_to now
      (merge_status pt (merge_notes pt t).1 now (merge_notes pt t).0.task).task,
  merge_details_untouched pt
      (merge_replan pt.replan_to now
        (merge_status pt (merge_notes pt t).1 now (merge_notes pt t).0.task).task).task,
)
