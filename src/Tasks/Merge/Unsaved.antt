-- ===== src/Tasks/Merge/Unsaved.antt =====
-- What a merge does not list to be saved has not changed.
use ccdash.Prelude.{
  ℕ, zero, suc, ◌≤◌, ◌<◌, ◌≡◌, refl, ap, ◌∙◌, inl, inr, Bool, false, ◌||◌, List, [], ◌∷◌, ◌++◌,
  some, arith, Text, trim_space, is_empty, length, length-set, length-append, get_elem?, set, any,
  ◌==◌, if◌then◌else◌, Bool-cases, Result-cases, Option-cases,
}
use ccdash.Calendar.{Time}
use ccdash.Tasks.Task.{Task, is_finished}
use ccdash.Tasks.Merge.{
  ProposalTask, State, merge_existing, merge_new, merge_known, merge_unknown, merge_one, merge_all,
  merge, touch, lookup, wanted_status,
}
use ccdash.Tasks.Merge.Kept.{merge_existing_untouched}
use ccdash.Tasks.Merge.Whole.{get_elem?-set}

abbrev pub is_saved : ℕ → List ℕ → Bool
is_saved i = any (λ j. j == i)

is_saved-append : (i j : ℕ) (js : List ℕ) → is_saved i (js ++ j ∷ []) ≡ is_saved i js || (j == i)
is_saved-append i j [] = ground arith
is_saved-append i j (k ∷ js) = ground (arith, is_saved-append i j js)

is_saved-touch : (i j : ℕ) (js : List ℕ) → is_saved i (touch j js) ≡ is_saved i js || (j == i)
unfolding touch
is_saved-touch i j js = elim (Bool-cases (is_saved j js)) [
  | inl old ↦ rw old (elim (Bool-cases (j == i)) [
    | inl same ↦ let e : j ≡ i = ground arith in rw (← e) (ground arith)
    | inr other ↦ ground arith
  ])
  | inr new ↦ rw new (is_saved-append i j js)
]

get_elem?-append_lt :
    (ts us : List Task) (i : ℕ) → i < length ts → get_elem? (ts ++ us) i ≡ get_elem? ts i
get_elem?-append_lt [] us i h = absurd (omega arith)
get_elem?-append_lt (x ∷ ts) us zero h = refl
get_elem?-append_lt (x ∷ ts) us (suc i) h = get_elem?-append_lt ts us i (omega arith)

set_same : (ts : List Task) (i : ℕ) (t : Task) → get_elem? ts i ≡ some t → set ts i t ≡ ts
set_same [] i t h = refl
set_same (x ∷ ts) zero t h = ground arith
set_same (x ∷ ts) (suc i) t h = ap (λ r. x ∷ r) (set_same ts i t h)

-- After the round `s'` holds at place `i` what it held before it, unless the place is to be saved.
record Rests (i : ℕ) (s s' : State) : Type 0 where
  before : is_saved i s.changed ≡ false
  same : get_elem? s'.tasks i ≡ get_elem? s.tasks i

Rests-refl : (i : ℕ) (s : State) → is_saved i s.changed ≡ false → Rests i s s
Rests-refl i s h = record { before = h; same = refl }

merge_known-Rests :
    (pt : ProposalTask) (now : Time) (j i : ℕ) (s : State)
    → is_saved i (merge_known pt now j s).changed ≡ false
    → Rests i s (merge_known pt now j s)
unfolding merge_known
merge_known-Rests pt now j i s h = elim (Option-cases (get_elem? s.tasks j)) [
  | inl gone ↦ rw (gone, merge_known) (Rests-refl i s (rw (gone, merge_known) at h))
  | inr (v, found) ↦ rw (found, merge_known) (found_Rests v found (rw (found, merge_known) at h))
]
  where
    found_Rests :
        (v : Task)
        → get_elem? s.tasks j ≡ some v
        → is_saved i (if (merge_existing pt now v).touched then touch j s.changed else s.changed)
          ≡ false
        → Rests i s (record s {
          tasks = set s.tasks j (merge_existing pt now v).task;
          changed = if (merge_existing pt now v).touched then touch j s.changed else s.changed;
          reports = s.reports ++ (merge_existing pt now v).reports;
        })
    found_Rests v found k = elim (Bool-cases (merge_existing pt now v).touched) [
      | inl new ↦ record {
        before = ground (arith, is_saved-touch i j s.changed);
        same = ground (
          arith,
          is_saved-touch i j s.changed,
          get_elem?-set s.tasks j i (merge_existing pt now v).task,
        );
      }
      | inr old ↦ record {
        before = ground arith;
        same = rw (merge_existing_untouched pt now v old, set_same s.tasks j v found);
      }
    ]

merge_unknown-Rests :
    (pt : ProposalTask) (known : Text → Bool) (now : Time) (i : ℕ) (s : State)
    → i < length s.tasks
    → is_saved i (merge_unknown pt known now s).changed ≡ false
    → Rests i s (merge_unknown pt known now s)
unfolding merge_unknown
merge_unknown-Rests pt known now i s lt h = elim (Bool-cases (is_finished (wanted_status pt))) [
  | inl over ↦ rw over (Rests-refl i s (rw over at h))
  | inr open_ ↦ elim (Result-cases (merge_new pt known now)) [
    | inr (e, bad) ↦
        rw (open_, bad, merge_unknown)
          (record { before = (rw (open_, bad, merge_unknown) at h); same = refl })
    | inl (v, good) ↦
        rw (open_, good, merge_unknown)
          (record {
            before = ground (
              arith,
              is_saved-touch i (length s.tasks) s.changed,
              (rw (open_, good, merge_unknown) at h),
            );
            same = get_elem?-append_lt s.tasks (v ∷ []) i lt;
          })
  ]
]

merge_one-Rests :
    (pt : ProposalTask) (known : Text → Bool) (now : Time) (i : ℕ) (s : State)
    → i < length s.tasks
    → is_saved i (merge_one pt known now s).changed ≡ false
    → Rests i s (merge_one pt known now s)
unfolding merge_one
merge_one-Rests pt known now i s lt h =
    elim (Bool-cases (is_empty (trim_space pt.key) || is_empty (trim_space pt.title))) [
      | inl void ↦ rw void (Rests-refl i s (rw void at h))
      | inr full ↦ elim (Option-cases (lookup (trim_space pt.key) s.by_key)) [
        | inl new ↦
            rw (full, new, merge_one)
              (merge_unknown-Rests pt known now i s lt (rw (full, new, merge_one) at h))
        | inr (j, old) ↦
            rw (full, old, merge_one)
              (merge_known-Rests pt now j i s (rw (full, old, merge_one) at h))
      ]
    ]

length-merge_known :
    (pt : ProposalTask) (now : Time) (j : ℕ) (s : State)
    → length (merge_known pt now j s).tasks ≡ length s.tasks
unfolding merge_known
length-merge_known pt now j s = elim (Option-cases (get_elem? s.tasks j)) [
  | inl gone ↦ rw (gone, merge_known)
  | inr (v, found) ↦ rw (found, merge_known) (length-set s.tasks j (merge_existing pt now v).task)
]

le-merge_unknown :
    (pt : ProposalTask) (known : Text → Bool) (now : Time) (s : State)
    → length s.tasks ≤ length (merge_unknown pt known now s).tasks
unfolding merge_unknown
le-merge_unknown pt known now s = elim (Bool-cases (is_finished (wanted_status pt))) [
  | inl over ↦ rw over (omega arith)
  | inr open_ ↦ elim (Result-cases (merge_new pt known now)) [
    | inr (e, bad) ↦ rw (open_, bad, merge_unknown) (omega arith)
    | inl (v, good) ↦
        rw (open_, good, merge_unknown) (omega (arith, length-append s.tasks (v ∷ [])))
  ]
]

-- No round drops a task.
le-merge_one :
    (pt : ProposalTask) (known : Text → Bool) (now : Time) (s : State)
    → length s.tasks ≤ length (merge_one pt known now s).tasks
unfolding merge_one
le-merge_one pt known now s =
    elim (Bool-cases (is_empty (trim_space pt.key) || is_empty (trim_space pt.title))) [
      | inl void ↦ rw void (omega arith)
      | inr full ↦ elim (Option-cases (lookup (trim_space pt.key) s.by_key)) [
        | inl new ↦ rw (full, new, merge_one) (le-merge_unknown pt known now s)
        | inr (j, old) ↦ rw (full, old, merge_one) (omega (arith, length-merge_known pt now j s))
      ]
    ]

merge_all-Rests :
    (pts : List ProposalTask) (known : Text → Bool) (now : Time) (i : ℕ) (s : State)
    → i < length s.tasks
    → is_saved i (merge_all pts known now s).changed ≡ false
    → Rests i s (merge_all pts known now s)
unfolding merge_all
merge_all-Rests [] known now i s lt h = Rests-refl i s h
merge_all-Rests (pt ∷ pts) known now i s lt h =
    let s' = merge_one pt known now s in
    let later = merge_all-Rests pts known now i s' (omega (arith, le-merge_one pt known now s)) h in
    let first = merge_one-Rests pt known now i s lt later.before in
    record { before = first.before; same = later.same ∙ first.same }

-- A task of the list that the merge does not list to be saved is after the merge as it was before
-- it.
pub merge_unsaved :
    (all : List Task) (pts : List ProposalTask) (known : Text → Bool) (now : Time) (i : ℕ)
    → i < length all
    → is_saved i (merge all pts known now).changed ≡ false
    → get_elem? (merge all pts known now).tasks i ≡ get_elem? all i
unfolding merge
merge_unsaved all pts known now i lt h = (merge_all-Rests pts known now i _ lt h).same
