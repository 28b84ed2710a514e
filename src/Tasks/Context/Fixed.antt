-- ===== src/Tasks/Context/Fixed.antt =====
-- What the context tells a run, against what the merge then does.
use ccdash.Prelude.{
  ℕ, zero, suc, ◌≡◌, refl, sym, ◌∙◌, true, false, List, [], ◌∷◌, map, arith, Text, text_eq,
  is_empty, contains, ok, err,
}
use ccdash.Calendar.{Time}
use ccdash.Tasks.Task.{Task, TaskNote}
use ccdash.Tasks.Timeline.{add_note, filled_in, has_ref}
use ccdash.Tasks.Edit.{replan, auto_refusal}
use ccdash.Tasks.Context.{Finders, context_task, listed, last_20, drop}

-- For a task that is listed, a plan other than its own and a reason that is not empty, the context
-- says that the plan is fixed today exactly if an automated replan of the task is refused.
pub plan_fixed_today-replan :
    (find : Finders) (t : Task) (plan why source : Text) (now : Time)
    → listed t ≡ true
    → text_eq plan t.plan ≡ false
    → is_empty why ≡ false
    → (context_task find now t).plan_fixed_today
      ≡ elim (replan t plan why true source now) [ err e ↦ true | ok r ↦ false ]
unfolding context_task listed replan auto_refusal
plan_fixed_today-replan find t plan why source now h k l = ground arith

contains-drop :
    (n : ℕ) (refs : List Text) (r : Text) → contains (drop n refs) r ≡ true → contains refs r ≡ true
unfolding drop contains
contains-drop zero refs r h = h
contains-drop (suc n) [] r h = h
contains-drop (suc n) (x ∷ refs) r h = ground (arith, contains-drop n refs r)

contains-has_ref : (es : List TaskNote) (r : Text) → contains (map (λ e. e.ref) es) r ≡ has_ref r es
unfolding contains
contains-has_ref [] r = refl
contains-has_ref (e ∷ es) r = ground (arith, contains-has_ref es r)

add_note_known :
    (t : Task) (n : TaskNote)
    → has_ref (filled_in n).ref t.timeline ≡ true
    → add_note t n ≡ (t, false)
unfolding add_note
add_note_known t n h = ground arith

-- An entry whose ref, filled in, is one of the refs that the context lists for a task is not added
-- to that task, which stays as it is.
pub known_refs-add_note :
    (find : Finders) (now : Time) (t : Task) (n : TaskNote)
    → contains (context_task find now t).known_refs (filled_in n).ref ≡ true
    → add_note t n ≡ (t, false)
unfolding context_task last_20
known_refs-add_note find now t n h =
    let known : has_ref (filled_in n).ref t.timeline ≡ true =
      sym (contains-has_ref t.timeline (filled_in n).ref)
      ∙ contains-drop _ (map (λ e. e.ref) t.timeline) (filled_in n).ref h in
    add_note_known t n known
