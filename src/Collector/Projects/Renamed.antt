-- ===== src/Collector/Projects/Renamed.antt =====
-- internal/db/db.go: what a renamed or merged project leaves.
use ccdash.Prelude.{
  ℕ, ◌+◌, ◌≡◌, refl, sym, ap, subst, ◌∙◌, inl, inr, Bool, false, ◌||◌, List, [], ◌∷◌, Text, text_eq,
  text_eq_iff, text_eq_sym, text_eq_refl, is_empty, All, if◌then◌else◌, Bool-cases, ok,
  ok-injective, ok-ne-err, true-ne-false, arith,
}
use ccdash.Hub.State.Sound.{Apart}
use ccdash.Collector.Rows.{Row}
use ccdash.Collector.Projects.{
  ProjectRow, Projects, has_project, rename_row, delete_project, move_sessions, move_tasks,
  rename_project,
}

-- How many sessions are in a project.
unfoldable pub sessions_in : Text → List Row → ℕ
sessions_in name [] = 0
sessions_in name (r ∷ rows) = (if text_eq r.project name then 1 else 0) + sessions_in name rows

-- Two names that differ.
module _ (from to : Text) (differ : text_eq from to ≡ false) where
  move_sessions-to :
      (rows : List Row)
      → sessions_in to (move_sessions from to rows) ≡ sessions_in from rows + sessions_in to rows
  unfolding sessions_in move_sessions
  move_sessions-to [] = omega arith
  move_sessions-to (r ∷ rows) =
      let ih = move_sessions-to rows in
      elim (Bool-cases (text_eq r.project from)) [
        | inl mine ↦
            let away : text_eq r.project to ≡ false =
              ap (λ (x : Text). text_eq x to) ((text_eq_iff r.project from).0 mine) ∙ differ in
            rw (mine, away) (rw (text_eq_refl to) (omega (arith, ih)))
        | inr other ↦ rw other (omega (arith, ih))
      ]

  move_sessions-from : (rows : List Row) → sessions_in from (move_sessions from to rows) ≡ 0
  unfolding sessions_in move_sessions
  move_sessions-from [] = refl
  move_sessions-from (r ∷ rows) =
      let ih = move_sessions-from rows in
      elim (Bool-cases (text_eq r.project from)) [
        | inl mine ↦ rw (mine, text_eq_sym to from, differ) (omega (arith, ih))
        | inr other ↦ rw (other, other) (omega (arith, ih))
      ]

  move_sessions-other :
      (name : Text) (rows : List Row)
      → text_eq from name ≡ false
      → text_eq to name ≡ false
      → sessions_in name (move_sessions from to rows) ≡ sessions_in name rows
  unfolding sessions_in move_sessions
  move_sessions-other name [] f t = refl
  move_sessions-other name (r ∷ rows) f t =
      let ih = move_sessions-other name rows f t in
      elim (Bool-cases (text_eq r.project from)) [
        | inl mine ↦
            let away : text_eq r.project name ≡ false =
              ap (λ (x : Text). text_eq x name) ((text_eq_iff r.project from).0 mine) ∙ f in
            rw (mine, t, away) (omega (arith, ih))
        | inr other ↦ rw other (omega (arith, ih))
      ]

  has_project-rename_row : (ps : List ProjectRow) → has_project from (rename_row from to ps) ≡ false
  unfolding rename_row
  has_project-rename_row [] = refl
  has_project-rename_row (p ∷ ps) = elim (Bool-cases (text_eq p.name from)) [
    | inl mine ↦ rw (mine, text_eq_sym to from, differ) (has_project-rename_row ps)
    | inr other ↦ rw (other, other) (has_project-rename_row ps)
  ]

has_project-delete_project :
    (name : Text) (ps : List ProjectRow) → has_project name (delete_project name ps) ≡ false
unfolding delete_project
has_project-delete_project name [] = refl
has_project-delete_project name (p ∷ ps) = elim (Bool-cases (text_eq p.name name)) [
  | inl mine ↦ rw mine (has_project-delete_project name ps)
  | inr other ↦ rw (other, other) (has_project-delete_project name ps)
]

abbrev pub same_project : ProjectRow → ProjectRow → Bool
same_project a b = text_eq a.name b.name

All-delete_project :
    (P : ProjectRow → Type 0) (name : Text) (ps : List ProjectRow)
    → All P ps
    → All P (delete_project name ps)
unfolding delete_project
All-delete_project P name [] h = tt
All-delete_project P name (p ∷ ps) h = elim (Bool-cases (text_eq p.name name)) [
  | inl mine ↦ rw mine (All-delete_project P name ps h.1)
  | inr other ↦ rw other (h.0, All-delete_project P name ps h.1)
]

Apart-delete_project :
    (name : Text) (ps : List ProjectRow)
    → Apart same_project ps
    → Apart same_project (delete_project name ps)
unfolding delete_project
Apart-delete_project name [] h = tt
Apart-delete_project name (p ∷ ps) h = elim (Bool-cases (text_eq p.name name)) [
  | inl mine ↦ rw mine (Apart-delete_project name ps h.1)
  | inr other ↦ rw other (
    All-delete_project (λ y. same_project p y ≡ false) name ps h.0,
    Apart-delete_project name ps h.1,
  )
]

-- The renamed row is apart from every other, since none had its new name.
All-rename_row :
    (from to name : Text) (ps : List ProjectRow)
    → text_eq name to ≡ false
    → All (λ (y : ProjectRow). text_eq name y.name ≡ false) ps
    → All (λ (y : ProjectRow). text_eq name y.name ≡ false) (rename_row from to ps)
unfolding rename_row
All-rename_row from to name [] d h = tt
All-rename_row from to name (p ∷ ps) d h = elim (Bool-cases (text_eq p.name from)) [
  | inl mine ↦ rw mine (d, All-rename_row from to name ps d h.1)
  | inr other ↦ rw other (h.0, All-rename_row from to name ps d h.1)
]

rename_row-none :
    (from to : Text) (ps : List ProjectRow)
    → All (λ (y : ProjectRow). text_eq from y.name ≡ false) ps
    → rename_row from to ps ≡ ps
unfolding rename_row
rename_row-none from to [] h = refl
rename_row-none from to (p ∷ ps) h =
    rw (text_eq_sym p.name from, h.0) (ap (λ x. p ∷ x) (rename_row-none from to ps h.1))

All-has_project :
    (name : Text) (ps : List ProjectRow)
    → has_project name ps ≡ false
    → All (λ (y : ProjectRow). text_eq name y.name ≡ false) ps
All-has_project name [] h = tt
All-has_project name (p ∷ ps) h = elim (Bool-cases (text_eq p.name name)) [
  | inl mine ↦ absurd (true-ne-false (rw mine at h))
  | inr other ↦ (text_eq_sym name p.name ∙ other, All-has_project name ps (rw other at h))
]

other_fresh :
    (name : Text) (p : ProjectRow) (ps : List ProjectRow)
    → has_project name (p ∷ ps) ≡ false
    → has_project name ps ≡ false
other_fresh name p ps h = elim (Bool-cases (text_eq p.name name)) [
  | inl mine ↦ absurd (true-ne-false (rw mine at h))
  | inr other ↦ rw other at h
]

Apart-rename_row :
    (from to : Text) (ps : List ProjectRow)
    → has_project to ps ≡ false
    → Apart same_project ps
    → Apart same_project (rename_row from to ps)
unfolding rename_row
Apart-rename_row from to [] fresh h = tt
Apart-rename_row from to (p ∷ ps) fresh h =
    let (first, rest) = All-has_project to (p ∷ ps) fresh in
    elim (Bool-cases (text_eq p.name from)) [
      | inl mine ↦
          let gone =
            subst (λ (x : Text). All (λ (y : ProjectRow). text_eq x y.name ≡ false) ps)
              ((text_eq_iff p.name from).0 mine) h.0 in
          rw (mine, rename_row-none from to ps gone) (rest, h.1)
      | inr other ↦ rw other (
        All-rename_row from to p.name ps (text_eq_sym p.name to ∙ first) h.0,
        Apart-rename_row from to ps (other_fresh to p ps fresh) h.1,
      )
    ]

-- The projects and sessions after a renaming, told from those before.
pub record IsRenamed (from to : Text) (d d' : Projects) : Type 0 where
  pub joined : sessions_in to d'.sessions ≡ sessions_in from d.sessions + sessions_in to d.sessions
  pub emptied : sessions_in from d'.sessions ≡ 0
  pub kept :
      (name : Text)
      → text_eq from name ≡ false
      → text_eq to name ≡ false
      → sessions_in name d'.sessions ≡ sessions_in name d.sessions
  pub gone : has_project from d'.projects ≡ false
  pub apart : Apart same_project d'.projects

renamed_rows :
    (from to : Text) (ps : List ProjectRow)
    → text_eq from to ≡ false
    → Apart same_project ps
    → (let after = if has_project to ps then delete_project from ps else rename_row from to ps in
        (has_project from after ≡ false) × Apart same_project after)
renamed_rows from to ps differ h = elim (Bool-cases (has_project to ps)) [
  | inl merges ↦ rw merges (has_project-delete_project from ps, Apart-delete_project from ps h)
  | inr fresh ↦
      rw fresh (has_project-rename_row from to differ ps, Apart-rename_row from to ps fresh h)
]

rename_project-ok :
    (from to : Text) (d d' : Projects)
    → text_eq from to ≡ false
    → rename_project from to d ≡ ok d'
    → d' ≡ record {
      projects =
          if has_project to d.projects
          then delete_project from d.projects
          else rename_row from to d.projects;
      sessions = move_sessions from to d.sessions;
      task_projects = move_tasks from to d.task_projects;
      tasks_rev = d.tasks_rev + 1;
    }
unfolding rename_project
rename_project-ok from to d d' differ h = elim (Bool-cases (is_empty from || is_empty to)) [
  | inl nameless ↦ absurd (ok-ne-err (sym (rw (nameless) at h)))
  | inr named ↦ sym (ok-injective (rw (named, differ) at h))
]

-- Where the projects have different names, a renaming from one name to another that has no error
-- leaves the sessions of both in the new one, none in the old one and every other project with as
-- many as before; no project has the old name, and the names still differ, also where a project of
-- the new name was there.
pub rename_project-IsRenamed :
    (from to : Text) (d d' : Projects)
    → text_eq from to ≡ false
    → Apart same_project d.projects
    → rename_project from to d ≡ ok d'
    → IsRenamed from to d d'
rename_project-IsRenamed from to d d' differ apart h =
    let (gone, after) = renamed_rows from to d.projects differ apart in
    subst (IsRenamed from to d) (sym (rename_project-ok from to d d' differ h)) (record {
      joined = move_sessions-to from to differ d.sessions;
      emptied = move_sessions-from from to differ d.sessions;
      kept = λ name f t. move_sessions-other from to differ name d.sessions f t;
      gone = gone;
      apart = after;
    })
