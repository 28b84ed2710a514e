-- ===== src/Tasks/Merge/Sound.antt =====
-- A merge keeps every task sound, and what it adds is sound.
use ccdash.Prelude.{
  ℕ, zero, suc, ◌≡◌, inl, inr, subst, Bool, true, false, ◌||◌, List, [], ◌∷◌, ◌++◌, Option, none,
  some, arith, Text, text_eq, trim_space, is_empty, get_elem?, set, All, if_intro, ok, Bool-cases,
  Result-cases, Option-cases,
}
use ccdash.Calendar.{Time}
use ccdash.Tasks.Task.{Task, unset, valid_status, status_eq, is_finished, source_auto}
use ccdash.Tasks.Plan.{parse_plan}
use ccdash.Tasks.Timeline.{add_notes}
use ccdash.Tasks.Edit.{new_task, replan}
use ccdash.Tasks.Sound.{
  IsSound, add_notes-IsSound, set_status-IsSound, replan-IsSound, new_task-IsSound,
}
use ccdash.Tasks.Merge.{
  ProposalTask, ProposalReplan, Change, State, wanted_status, merge_notes, merge_status,
  merge_replan, merge_details, merge_existing, input_of, with_plan, merge_new, merge_known,
  merge_unknown, merge_one, merge_all, merge, lookup,
}

wanted_status-valid :
    (pt : ProposalTask)
    → status_eq (wanted_status pt) unset ≡ false
    → valid_status (wanted_status pt) ≡ true
unfolding wanted_status valid_status status_eq
wanted_status-valid pt h = ground arith

merge_notes-IsSound : (pt : ProposalTask) (t : Task) → IsSound t → IsSound (merge_notes pt t).0.task
unfolding merge_notes
merge_notes-IsSound pt t v =
    let w = add_notes-IsSound t pt.timeline v in
    if_intro (λ (c : Change × ℕ). IsSound c.0.task) _ (λ _. w) (λ _. w)

merge_status-IsSound :
    (pt : ProposalTask) (n : ℕ) (now : Time) (t : Task)
    → IsSound t
    → IsSound (merge_status pt n now t).task
unfolding merge_status
merge_status-IsSound pt n now t v =
    if_intro (λ (c : Change). IsSound c.task) _
      (λ h.
        set_status-IsSound t (wanted_status pt) [] source_auto now
          (wanted_status-valid pt (ground arith)) v)
      (λ _. v)

merge_replan-IsSound :
    (rp : Option ProposalReplan) (now : Time) (t : Task)
    → IsSound t
    → IsSound (merge_replan rp now t).task
unfolding merge_replan
merge_replan-IsSound none now t v = v
merge_replan-IsSound (some rp) now t v = elim (Bool-cases (is_finished t.status)) [
  | inl over ↦ simp over v
  | inr open_ ↦ simp open_ (elim (Result-cases (parse_plan rp.plan now)) [
    | inr (e, bad) ↦ rw (bad, merge_replan) v
    | inl (plan, good) ↦
        rw (good, merge_replan)
          (elim (Bool-cases (text_eq plan t.plan)) [
            | inl same ↦ simp same v
            | inr other ↦
                simp other
                  (elim (Result-cases (replan t plan (trim_space rp.why) true source_auto now)) [
                    | inl (r, moved) ↦
                        rw (moved, merge_replan)
                          (replan-IsSound t plan (trim_space rp.why) true source_auto now r moved v)
                    | inr (e, refused) ↦ rw (refused, merge_replan) v
                  ])
          ])
  ])
]

merge_details-IsSound :
    (pt : ProposalTask) (t : Task) → IsSound t → IsSound (merge_details pt t).task
unfolding merge_details
merge_details-IsSound pt t v = ground arith

pub merge_existing-IsSound :
    (pt : ProposalTask) (now : Time) (t : Task) → IsSound t → IsSound (merge_existing pt now t).task
unfolding merge_existing
merge_existing-IsSound pt now t v = merge_details-IsSound pt _ (
    merge_replan-IsSound pt.replan_to now _
      (merge_status-IsSound pt _ now _ (merge_notes-IsSound pt t v)))

with_plan-IsSound : (v : Text) (now : Time) (t : Task) → IsSound t → IsSound (with_plan v now t)
unfolding with_plan
with_plan-IsSound v now t w = elim (Result-cases (parse_plan v now)) [
  | inr (e, bad) ↦ rw (bad, with_plan) w
  | inl (plan, good) ↦
      rw (good, with_plan)
        (elim (Bool-cases (is_empty plan)) [
          | inl clear ↦ simp clear w
          | inr set_ ↦ simp set_ (record {
            title = w.title;
            priority = w.priority;
            status = w.status;
            archived = w.archived;
            done_on = w.done_on;
            timeline = w.timeline;
          })
        ])
]

merge_new-IsSound :
    (pt : ProposalTask) (known : Text → Bool) (now : Time) (t : Task)
    → merge_new pt known now ≡ ok t
    → IsSound t
unfolding merge_new
merge_new-IsSound pt known now t h = elim (Result-cases (new_task (input_of pt known) now)) [
  | inr (e, bad) ↦ absurd (ground arith)
  | inl (u, good) ↦
      let e : (add_notes (with_plan pt.plan now u) pt.timeline).0 ≡ t = ground arith in
      subst IsSound e (
        add_notes-IsSound _ pt.timeline
          (with_plan-IsSound pt.plan now u (new_task-IsSound (input_of pt known) now u good).0))
]

All-set :
    (ts : List Task) (i : ℕ) (t : Task) → All IsSound ts → IsSound t → All IsSound (set ts i t)
All-set [] i t h v = tt
All-set (x ∷ ts) zero t h v = (v, h.1)
All-set (x ∷ ts) (suc i) t h v = (h.0, All-set ts i t h.1 v)

All-append_one :
    (ts : List Task) (t : Task) → All IsSound ts → IsSound t → All IsSound (ts ++ t ∷ [])
All-append_one [] t h v = (v, tt)
All-append_one (x ∷ ts) t h v = (h.0, All-append_one ts t h.1 v)

All-get : (ts : List Task) (i : ℕ) (t : Task) → get_elem? ts i ≡ some t → All IsSound ts → IsSound t
All-get [] i t e h = cc
All-get (x ∷ ts) zero t e h = let k : x ≡ t = ground arith in subst IsSound k h.0
All-get (x ∷ ts) (suc i) t e h = All-get ts i t e h.1

merge_unknown-IsSound :
    (pt : ProposalTask) (known : Text → Bool) (now : Time) (s : State)
    → All IsSound s.tasks
    → All IsSound (merge_unknown pt known now s).tasks
unfolding merge_unknown
merge_unknown-IsSound pt known now s h = elim (Bool-cases (is_finished (wanted_status pt))) [
  | inl over ↦ rw over h
  | inr open_ ↦ elim (Result-cases (merge_new pt known now)) [
    | inr (e, bad) ↦ rw (open_, bad, merge_unknown) h
    | inl (t, good) ↦
        rw (open_, good, merge_unknown)
          (All-append_one s.tasks t h (merge_new-IsSound pt known now t good))
  ]
]

merge_known-IsSound :
    (pt : ProposalTask) (now : Time) (j : ℕ) (s : State)
    → All IsSound s.tasks
    → All IsSound (merge_known pt now j s).tasks
unfolding merge_known
merge_known-IsSound pt now j s h = elim (Option-cases (get_elem? s.tasks j)) [
  | inl gone ↦ rw (gone, merge_known) h
  | inr (t, found) ↦
      rw (found, merge_known)
        (All-set s.tasks j _ h (merge_existing-IsSound pt now t (All-get s.tasks j t found h)))
]

merge_one-IsSound :
    (pt : ProposalTask) (known : Text → Bool) (now : Time) (s : State)
    → All IsSound s.tasks
    → All IsSound (merge_one pt known now s).tasks
unfolding merge_one
merge_one-IsSound pt known now s h =
    elim (Bool-cases (is_empty (trim_space pt.key) || is_empty (trim_space pt.title))) [
      | inl void ↦ rw void h
      | inr full ↦ elim (Option-cases (lookup (trim_space pt.key) s.by_key)) [
        | inl new ↦ rw (full, new, merge_one) (merge_unknown-IsSound pt known now s h)
        | inr (j, old) ↦ rw (full, old, merge_one) (merge_known-IsSound pt now j s h)
      ]
    ]

merge_all-IsSound :
    (pts : List ProposalTask) (known : Text → Bool) (now : Time) (s : State)
    → All IsSound s.tasks
    → All IsSound (merge_all pts known now s).tasks
unfolding merge_all
merge_all-IsSound [] known now s h = h
merge_all-IsSound (pt ∷ pts) known now s h =
    merge_all-IsSound pts known now (merge_one pt known now s) (merge_one-IsSound pt known now s h)

-- If every task of the list is sound (a title, a priority from 1 to 4, one of the five statuses,
-- archived only if finished, a day of finishing exactly if finished, a timeline in order of time
-- without a ref twice), so is every task after a merge, the added ones included.
pub merge-IsSound :
    (all : List Task) (pts : List ProposalTask) (known : Text → Bool) (now : Time)
    → All IsSound all
    → All IsSound (merge all pts known now).tasks
unfolding merge
merge-IsSound all pts known now h = merge_all-IsSound pts known now _ h
