-- ===== src/Collector/Projects.antt =====
-- internal/db/db.go: the projects and their order. The table of the projects is a list of rows; a
-- transaction that fails changes nothing, and a statement succeeds. The colors that model.PickColor draws
-- are an argument.
pub mod Renamed
use ccdash.Prelude.{
  ℕ, zero, suc, ◌+◌, ◌-◌, min, Bool, true, false, ◌&&◌, ◌||◌, not, List, [], ◌∷◌, ◌++◌, Option,
  none, some, Text, text_eq, text_lt, is_empty, contains, ltb, leb, ◌==◌, if◌then◌else◌,
  sort_stable, map, Result, ok, err, ◌>>=◌, select, any, length,
}
use ccdash.Collector.Rows.{Row}

-- A place in the order is a number of either sign, kept as how far it is above and below 0.
pub record ProjectRow : Type 0 where
  pub name : Text
  pub color : Text
  pub above : ℕ
  pub below : ℕ

pub data ProjectError : Type 0 where
  no_project names_required : ProjectError

abbrev pub ord_lt : ProjectRow → ProjectRow → Bool
ord_lt a b = ltb (a.above + b.below) (b.above + a.below)

abbrev ord_eq : ProjectRow → ProjectRow → Bool
ord_eq a b = (a.above + b.below) == (b.above + a.below)

-- ORDER BY COALESCE(p.ord, 0), p.name
unfoldable pub project_before : ProjectRow → ProjectRow → Bool
project_before a b = ord_lt a b || (ord_eq a b && text_lt a.name b.name)

-- The names of ListProjects.
unfoldable pub project_names : List ProjectRow → List Text
unfolding project_before
project_names ps = map (λ (p : ProjectRow). p.name) (sort_stable project_before ps)

-- The names that are asked for, each once; the first that is not known is an error.
unfoldable pub asked_order : List Text → List Text → List Text → Result ProjectError (List Text)
unfolding contains
asked_order known [] seen = ok seen
asked_order known (n ∷ names) seen =
    let rest = asked_order known names (if contains seen n then seen else seen ++ n ∷ []) in
    if not (contains known n) then err no_project else rest

-- Those that were not asked for follow.
unfoldable pub others : List Text → List Text → List Text
unfolding contains
others asked [] = []
others asked (n ∷ names) =
    let rest = others asked names in if contains asked n then rest else n ∷ rest

unfoldable pub set_ord : Text → ℕ → List ProjectRow → List ProjectRow
set_ord name i [] = []
set_ord name i (p ∷ ps) =
    (if text_eq p.name name then record p { above = i; below = 0 } else p) ∷ set_ord name i ps

-- UPDATE projects SET ord = ? WHERE name = ?, one after the other
unfoldable pub renumber : ℕ → List Text → List ProjectRow → List ProjectRow
unfolding set_ord
renumber i [] ps = ps
renumber i (n ∷ names) ps = renumber (suc i) names (set_ord n i ps)

unfoldable pub set_project_order :
    List Text → List ProjectRow → Result ProjectError (List ProjectRow)
unfolding project_names asked_order others renumber
set_project_order names ps =
    let known = project_names ps in
    asked_order known names [] >>= λ order. ok (renumber 0 (order ++ others order known) ps)

-- The last place of the name, which stands once.
unfoldable pub place_of : Text → List Text → Option ℕ
place_of name [] = none
place_of name (n ∷ names) =
    let rest = place_of name names in
    elim rest [ some i ↦ some (suc i) | none ↦ if text_eq n name then some 0 else none ]

unfoldable pub insert_at : ℕ → Text → List Text → List Text
insert_at zero name names = name ∷ names
insert_at (suc i) name [] = name ∷ []
insert_at (suc i) name (n ∷ names) = n ∷ insert_at i name names

unfoldable pub remove_at : ℕ → List Text → List Text
remove_at i [] = []
remove_at zero (n ∷ names) = names
remove_at (suc i) (n ∷ names) = n ∷ remove_at i names

-- A delta is how far up and how far down; one of them is 0.
unfoldable pub moved_to : ℕ → ℕ → ℕ → ℕ → ℕ
moved_to len at down up = min ((at + down) - up) (len - 1)

unfoldable pub move_project : Text → ℕ → ℕ → List ProjectRow → Result ProjectError (List ProjectRow)
unfolding project_names place_of insert_at remove_at moved_to set_project_order
move_project name down up ps =
    let names = project_names ps in
    elim (place_of name names) [
      | none ↦ err no_project
      | some at ↦
          let to = moved_to (length names) at down up in
          if to == at then ok ps else set_project_order (insert_at to name (remove_at at names)) ps
    ]

abbrev pub has_project : Text → List ProjectRow → Bool
has_project name = any (λ (p : ProjectRow). text_eq p.name name)

unfoldable pub rename_row : Text → Text → List ProjectRow → List ProjectRow
rename_row from to [] = []
rename_row from to (p ∷ ps) =
    (if text_eq p.name from then record p { name = to } else p) ∷ rename_row from to ps

unfoldable pub delete_project : Text → List ProjectRow → List ProjectRow
delete_project name [] = []
delete_project name (p ∷ ps) =
    let rest = delete_project name ps in if text_eq p.name name then rest else p ∷ rest

-- UPDATE sessions SET project = ? WHERE project = ?
unfoldable pub move_sessions : Text → Text → List Row → List Row
move_sessions from to [] = []
move_sessions from to (r ∷ rows) =
    (if text_eq r.project from then record r { project = to } else r) ∷ move_sessions from to rows

-- The projects, the sessions, of each task its project, and the revision of the tasks.
pub record Projects : Type 0 where
  pub projects : List ProjectRow
  pub sessions : List Row
  pub task_projects : List Text
  pub tasks_rev : ℕ

unfoldable pub move_tasks : Text → Text → List Text → List Text
move_tasks from to [] = []
move_tasks from to (t ∷ tasks) = (if text_eq t from then to else t) ∷ move_tasks from to tasks

unfoldable pub rename_project : Text → Text → Projects → Result ProjectError Projects
unfolding rename_row delete_project move_sessions move_tasks
rename_project from to d =
    if is_empty from || is_empty to
    then err names_required
    else if text_eq from to
    then ok d
    else ok (record {
      projects =
          if has_project to d.projects
          then delete_project from d.projects
          else rename_row from to d.projects;
      sessions = move_sessions from to d.sessions;
      task_projects = move_tasks from to d.task_projects;
      tasks_rev = d.tasks_rev + 1;
    })

-- MIN(ord) of the table, and 0 where it is empty, less 1.
unfoldable pub least_ord : List ProjectRow → Option (ℕ × ℕ)
least_ord [] = none
least_ord (p ∷ ps) = elim (least_ord ps) [
  | none ↦ some (p.above, p.below)
  | some (a, b) ↦ if ltb (p.above + b) (a + p.below) then some (p.above, p.below) else some (a, b)
]

unfoldable pub newest_ord : List ProjectRow → ℕ × ℕ
unfolding least_ord
newest_ord ps = elim (least_ord ps) [ none ↦ (0, 1) | some (a, b) ↦ (a, b + 1) ]

unfoldable pub ensure_project : Text → Text → List ProjectRow → List ProjectRow
unfolding newest_ord
ensure_project name color ps =
    if has_project name ps
    then ps
    else (let at = newest_ord ps in
        ps ++ record { name = name; color = color; above = at.0; below = at.1 } ∷ [])
