-- ===== src/Tasks/Merge/Whole.antt =====
-- The whole merge: every task that was there keeps what the person has decided, a task that is not to be
-- saved is as it was, and the tasks of keys that the proposal does not name are left alone.
use ccdash.Prelude.{
  ℕ, zero, suc, ◌≡◌, refl, inl, inr, Bool, ◌||◌, List, [], ◌∷◌, ◌++◌, none, some, arith, Text,
  trim_space, is_empty, get_elem?, set, ◌==◌, if◌then◌else◌, Bool-cases, Result-cases, Option-cases,
}
use ccdash.Calendar.{Time}
use ccdash.Tasks.Task.{Task, is_finished}
use ccdash.Tasks.Merge.{
  ProposalTask, State, merge_existing, merge_new, merge_known, merge_unknown, merge_one, merge_all,
  merge, lookup, wanted_status,
}
use ccdash.Tasks.Merge.Kept.{Keeps, Keeps-refl, Keeps-trans, merge_existing-Keeps}

pub get_elem?-set :
    (ts : List Task) (i j : ℕ) (v : Task)
    → get_elem? (set ts i v) j ≡ (
        if i == j
        then (elim (get_elem? ts j) [ none ↦ none | some t ↦ some v ])
        else get_elem? ts j)
get_elem?-set [] i j v = ground arith
get_elem?-set (t ∷ ts) zero zero v = refl
get_elem?-set (t ∷ ts) zero (suc j) v = ground arith
get_elem?-set (t ∷ ts) (suc i) zero v = ground arith
get_elem?-set (t ∷ ts) (suc i) (suc j) v = ground (arith, get_elem?-set ts i j v)

get_elem?-append_some :
    (ts us : List Task) (i : ℕ) (t : Task)
    → get_elem? ts i ≡ some t
    → get_elem? (ts ++ us) i ≡ some t
get_elem?-append_some [] us i t h = cc
get_elem?-append_some (x ∷ ts) us zero t h = h
get_elem?-append_some (x ∷ ts) us (suc i) t h = get_elem?-append_some ts us i t h

-- The task at a place is still there, with what the person has decided.
abbrev pub KeptAt : Time → ℕ → Task → State → Type 0
KeptAt now i t s = (u : Task) × (get_elem? s.tasks i ≡ some u) × Keeps now t u

known-KeptAt :
    (pt : ProposalTask) (now : Time) (i : ℕ) (t u v : Task) (ts : List Task)
    → get_elem? ts i ≡ some u
    → get_elem? ts i ≡ some v
    → Keeps now t u
    → (w : Task) × (get_elem? (set ts i (merge_existing pt now v).task) i ≡ some w) × Keeps now t w
known-KeptAt pt now i t u v ts at found k =
    let e : v ≡ u = ground arith in
    let c = (merge_existing pt now v).task in
    (
      c,
      ground (arith, get_elem?-set ts i i c),
      Keeps-trans now t v c (rw e k) (merge_existing-Keeps pt now v),
    )

merge_known-KeptAt :
    (pt : ProposalTask) (now : Time) (j i : ℕ) (t : Task) (s : State)
    → KeptAt now i t s
    → KeptAt now i t (merge_known pt now j s)
unfolding merge_known
merge_known-KeptAt pt now j i t s (u, at, k) = elim (Option-cases (get_elem? s.tasks j)) [
  | inl gone ↦ rw (gone, merge_known) (u, at, k)
  | inr (v, found) ↦
      rw (found, merge_known)
        (elim (Bool-cases (j == i)) [
          | inl same ↦
              let e : j ≡ i = ground arith in
              rw e (known-KeptAt pt now i t u v s.tasks at (rw (← e) found) k)
          | inr other ↦
              (u, ground (arith, get_elem?-set s.tasks j i (merge_existing pt now v).task), k)
        ])
]

merge_unknown-KeptAt :
    (pt : ProposalTask) (known : Text → Bool) (now : Time) (i : ℕ) (t : Task) (s : State)
    → KeptAt now i t s
    → KeptAt now i t (merge_unknown pt known now s)
unfolding merge_unknown
merge_unknown-KeptAt pt known now i t s (u, at, k) =
    elim (Bool-cases (is_finished (wanted_status pt))) [
      | inl over ↦ rw over (u, at, k)
      | inr open_ ↦ rw open_ (elim (Result-cases (merge_new pt known now)) [
        | inr (e, bad) ↦ rw (bad, merge_unknown) (u, at, k)
        | inl (v, good) ↦
            rw (good, merge_unknown) (u, get_elem?-append_some s.tasks (v ∷ []) i u at, k)
      ])
    ]

merge_one-KeptAt :
    (pt : ProposalTask) (known : Text → Bool) (now : Time) (i : ℕ) (t : Task) (s : State)
    → KeptAt now i t s
    → KeptAt now i t (merge_one pt known now s)
unfolding merge_one
merge_one-KeptAt pt known now i t s h =
    elim (Bool-cases (is_empty (trim_space pt.key) || is_empty (trim_space pt.title))) [
      | inl void ↦ rw void h
      | inr full ↦ rw full (elim (Option-cases (lookup (trim_space pt.key) s.by_key)) [
        | inl new ↦ rw (new, merge_one) (merge_unknown-KeptAt pt known now i t s h)
        | inr (j, old) ↦ rw (old, merge_one) (merge_known-KeptAt pt now j i t s h)
      ])
    ]

merge_all-KeptAt :
    (pts : List ProposalTask) (known : Text → Bool) (now : Time) (i : ℕ) (t : Task) (s : State)
    → KeptAt now i t s
    → KeptAt now i t (merge_all pts known now s)
unfolding merge_all
merge_all-KeptAt [] known now i t s h = h
merge_all-KeptAt (pt ∷ pts) known now i t s h =
    merge_all-KeptAt pts known now i t (merge_one pt known now s)
      (merge_one-KeptAt pt known now i t s h)

-- Whatever the proposal, a task of the list is still at its place after the merge, with its id,
-- key, title, priority, project, note and sessions; if it was finished it has its status and the
-- day it was finished, and if it was finished or its plan was set by hand on this day it has its
-- plan, and who set the plan and when.
pub merge-KeptAt :
    (all : List Task) (pts : List ProposalTask) (known : Text → Bool) (now : Time) (i : ℕ)
    (t : Task)
    → get_elem? all i ≡ some t
    → KeptAt now i t (merge all pts known now)
unfolding merge
merge-KeptAt all pts known now i t h = merge_all-KeptAt pts known now i t _ (t, h, Keeps-refl now t)
