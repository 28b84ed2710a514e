-- ===== src/Tasks/Sound/Edits.antt =====
-- Apply and the merge keep every task sound.
use ccdash.Prelude.{
  ◌≡◌, refl, inl, inr, Bool, true, false, not, Option, none, some, arith, Text, trim_space,
  trim_space_idem, is_empty, ℤ, is_between, Bool-cases, Result-cases, Option-cases,
}
use ccdash.Calendar.{Time}
use ccdash.Tasks.Task.{Task, Status, valid_status, status_eq, is_finished}
use ccdash.Tasks.Plan.{parse_plan}
use ccdash.Tasks.Edit.{replan}
use ccdash.Tasks.Patch.{
  Patch, Outcome, refusal, patched, patched_priority, edit_fields, then_edit, edit_status,
  edit_plan, edit_lists, edit_archived, apply,
}
use ccdash.Tasks.Sound.{IsSound, set_status-IsSound, replan-IsSound}

-- What the checks before the first change have found.
record Passed (t : Task) (p : Patch) : Type 0 where
  title : is_empty (trim_space (patched true t.title p.title)) ≡ false
  priority : is_between 1 4 (patched_priority t.priority p.priority) ≡ true

title_passed :
    (old : Text) (o : Option Text)
    → is_empty (trim_space old) ≡ false
    → (elim o [ none ↦ true | some v ↦ not (is_empty (trim_space v)) ]) ≡ true
    → is_empty (trim_space (patched true old o)) ≡ false
unfolding patched
title_passed old none h k = h
title_passed old (some v) h k = rw trim_space_idem (ground arith)

priority_passed :
    (old : ℤ) (o : Option ℤ)
    → is_between 1 4 old ≡ true
    → (elim o [ none ↦ true | some n ↦ is_between 1 4 n ]) ≡ true
    → is_between 1 4 (patched_priority old o) ≡ true
unfolding patched_priority
priority_passed old none h k = h
priority_passed old (some n) h k = k

refusal-Passed : (t : Task) (p : Patch) → IsSound t → refusal p ≡ none → Passed t p
unfolding refusal
refusal-Passed t p v h = record {
  title = title_passed t.title p.title v.title (ground arith);
  priority = priority_passed t.priority p.priority v.priority (ground arith);
}

edit_fields-IsSound :
    (t : Task) (p : Patch) → IsSound t → refusal p ≡ none → IsSound (edit_fields t p).task
unfolding edit_fields
edit_fields-IsSound t p v h =
    let c = refusal-Passed t p v h in
    record {
      title = c.title;
      priority = c.priority;
      status = v.status;
      archived = v.archived;
      done_on = v.done_on;
      timeline = v.timeline;
    }

then_edit-IsSound :
    (o : Outcome) (f : Task → Outcome)
    → IsSound o.task
    → ((t : Task) → IsSound t → IsSound (f t).task)
    → IsSound (then_edit o f).task
then_edit-IsSound o f v k = elim (Option-cases o.failed) [
  | inl going ↦ rw (going, then_edit) (k o.task v)
  | inr (e, stopped) ↦ rw (stopped, then_edit) v
]

status_checked :
    (p : Patch) (s : Status) → refusal p ≡ none → p.status ≡ some s → valid_status s ≡ true
unfolding refusal
status_checked p s h k = ground arith

edit_status-IsSound :
    (o : Option Status) (why source : Text) (now : Time) (t : Task)
    → ((s : Status) → o ≡ some s → valid_status s ≡ true)
    → IsSound t
    → IsSound (edit_status o why source now t).task
unfolding edit_status
edit_status-IsSound none why source now t k v = v
edit_status-IsSound (some s) why source now t k v = elim (Bool-cases (status_eq s t.status)) [
  | inl same ↦ rw same v
  | inr other ↦ rw other (set_status-IsSound t s why source now (k s refl) v)
]

edit_plan-IsSound :
    (o : Option Text) (why : Text) (auto : Bool) (source : Text) (now : Time) (t : Task)
    → IsSound t
    → IsSound (edit_plan o why auto source now t).task
unfolding edit_plan
edit_plan-IsSound none why auto source now t v = v
edit_plan-IsSound (some w) why auto source now t v = elim (Result-cases (parse_plan w now)) [
  | inr (e, bad) ↦ rw (bad, edit_plan) v
  | inl (plan, good) ↦ elim (Result-cases (replan t plan why auto source now)) [
    | inr (e, refused) ↦ rw (good, edit_plan, refused, edit_plan) v
    | inl (r, moved) ↦
        rw (good, edit_plan, moved, edit_plan) (replan-IsSound t plan why auto source now r moved v)
  ]
]

edit_lists-IsSound : (p : Patch) (t : Task) → IsSound t → IsSound (edit_lists p t).task
unfolding edit_lists
edit_lists-IsSound p t v = record {
  title = v.title;
  priority = v.priority;
  status = v.status;
  archived = v.archived;
  done_on = v.done_on;
  timeline = v.timeline;
}

edit_archived-IsSound : (o : Option Bool) (t : Task) → IsSound t → IsSound (edit_archived o t).task
unfolding edit_archived
edit_archived-IsSound none t v = v
edit_archived-IsSound (some true) t v = elim (Bool-cases t.archived) [
  | inl old ↦ simp old v
  | inr new ↦ simp new (elim (Bool-cases (is_finished t.status)) [
    | inr open_ ↦ simp open_ v
    | inl over ↦ simp over (record {
      title = v.title;
      priority = v.priority;
      status = v.status;
      archived = rw over;
      done_on = v.done_on;
      timeline = v.timeline;
    })
  ])
]
edit_archived-IsSound (some false) t v = elim (Bool-cases t.archived) [
  | inl old ↦ simp old (record {
    title = v.title;
    priority = v.priority;
    status = v.status;
    archived = refl;
    done_on = v.done_on;
    timeline = v.timeline;
  })
  | inr new ↦ simp new v
]

-- From a sound task, an edit leaves a sound task, whether it succeeds, changes nothing, or stops
-- half-way with an error.
pub apply-IsSound : (t : Task) (p : Patch) (now : Time) → IsSound t → IsSound (apply t p now).task
unfolding apply
apply-IsSound t p now v = elim (Option-cases (refusal p)) [
  | inr (e, refused) ↦ rw (refused, apply) v
  | inl passed ↦
      rw (passed, apply)
        (then_edit-IsSound _ (edit_archived p.archived)
          (then_edit-IsSound _ (edit_lists p)
            (then_edit-IsSound _ (edit_plan p.plan (trim_space p.why) p.auto _ now)
              (then_edit-IsSound _ (edit_status p.status (trim_space p.why) _ now)
                (edit_fields-IsSound t p v passed)
                (λ u w.
                  edit_status-IsSound p.status _ _ now u (λ s k. status_checked p s passed k) w))
              (λ u w. edit_plan-IsSound p.plan _ p.auto _ now u w))
            (λ u w. edit_lists-IsSound p u w))
          (λ u w. edit_archived-IsSound p.archived u w))
]
