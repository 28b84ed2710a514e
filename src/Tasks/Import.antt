-- ===== src/Tasks/Import.antt =====
-- internal/tasks/legacy.go: the plan of an import of a tasks.json. A map is a list of pairs, the last
-- assignment first; the projects to create and those with no decision are lists without repeats, which
-- the program sorts.
pub mod Converted
pub mod Named
use ccdash.Prelude.{
  ℕ, ◌+◌, ◌%◌, ◌^◌, ltb, max, suc, Bool, true, false, ◌&&◌, not, List, [], ◌∷◌, ◌++◌, Option, none,
  some, Text, codes, text_eq, text_lt, trim_space, is_empty, contains, length, ℤ, pos, is_between,
  sort_stable, ◌==◌, if◌then◌else◌,
}
use ccdash.Calendar.{Time, date_string}
use ccdash.Tasks.Task.{Task, Status, todo, valid_status, is_finished}
use ccdash.Tasks.Timeline.{add_notes}

pub record LegacyFile : Type 0 where
  pub tasks : List Task
  pub next_id : ℕ
  pub last_timeline_sync : Text

pub record ImportOptions : Type 0 where
  pub map_to : List (Text × Text)
  pub unmapped : Text

unfoldable pub find : Text → List (Text × Text) → Option Text
find k [] = none
find k ((j, v) ∷ m) = if text_eq j k then some v else find k m

-- What an old project becomes; `none` where there is no decision.
unfoldable pub decide_project : ImportOptions → (Text → Bool) → Text → Option Text
decide_project opt exists old = elim (find old opt.map_to) [
  | some new ↦ some (trim_space new)
  | none ↦
      if exists old
      then some (trim_space old)
      else if text_eq opt.unmapped (codes "create")
      then some (trim_space old)
      else if text_eq opt.unmapped (codes "drop")
      then some []
      else none
]

-- The variables of the first loop.
pub record Projects : Type 0 where
  pub mapping : List (Text × Text)
  pub create : List Text
  pub undecided : List Text
  pub seen : List Text

unfoldable pub plan_project : ImportOptions → (Text → Bool) → Projects → Task → Projects
plan_project opt exists p t =
    let old = trim_space t.project in
    if is_empty old
    then p
    else if contains p.seen old
    then p
    else elim (decide_project opt exists old) [
      | none ↦ record p { undecided = p.undecided ++ old ∷ []; seen = old ∷ p.seen }
      | some new ↦ record p {
        mapping = (old, new) ∷ p.mapping;
        create =
            if not (is_empty new) && not (exists new) && not (contains p.create new)
            then p.create ++ new ∷ []
            else p.create;
        seen = old ∷ p.seen;
      }
    ]

unfoldable pub plan_projects : ImportOptions → (Text → Bool) → Projects → List Task → Projects
plan_projects opt exists p [] = p
plan_projects opt exists p (t ∷ ts) = plan_projects opt exists (plan_project opt exists p t) ts

unfoldable pub project_of : List (Text × Text) → Text → Text
project_of m project = elim (find (trim_space project) m) [ none ↦ [] | some new ↦ new ]

-- Finished before today.
unfoldable pub to_archive : Task → Status → Time → Bool
to_archive t status now = is_finished status && text_lt t.done_on (date_string now.date)

unfoldable pub known_status : Status → Status
known_status s = if valid_status s then s else todo

-- A task of the file before its timeline is filled in.
unfoldable pub cleaned : List (Text × Text) → Time → Task → Task
cleaned m now t = record t {
  project = project_of m t.project;
  priority = if is_between 1 4 t.priority then t.priority else pos 4;
  status = known_status t.status;
  archived = if to_archive t (known_status t.status) now then true else t.archived;
  timeline = [];
}

-- The body of the second loop.
unfoldable pub convert : List (Text × Text) → Time → Task → Task
convert m now t = record ((add_notes (cleaned m now t) t.timeline).0) { bucket = none }

unfoldable pub convert_all : List (Text × Text) → Time → List Task → List Task
convert_all m now [] = []
convert_all m now (t ∷ ts) = convert m now t ∷ convert_all m now ts

unfoldable pub max_id : List Task → ℕ
max_id [] = 0
max_id (t ∷ ts) = max t.id (max_id ts)

-- The int64 maxID + 1. Where it wraps round it is negative, so NextID, which is not, wins the max against
-- it as it does against 0.
unfoldable pub id_after : ℕ → ℕ
id_after n = let next = (n + 1) % 2 ^ 64 in if ltb next (2 ^ 63) then next else 0

unfoldable pub count_archived : List Task → Time → ℕ
count_archived [] now = 0
count_archived (t ∷ ts) now =
    let rest = count_archived ts now in
    if to_archive t (known_status t.status) now then suc rest else rest

pub record ImportPlan : Type 0 where
  pub projects : List (Text × Text)
  pub create : List Text
  pub unmapped : List Text
  pub tasks : ℕ
  pub archived : ℕ
  pub next_id : ℕ
  pub last_sync : Text
  pub converted : List Task

-- The plan, and whether it stands: it is refused where a project has no decision.
unfoldable pub plan_import : LegacyFile → ImportOptions → (Text → Bool) → Time → ImportPlan × Bool
plan_import f opt exists now =
    let p =
      plan_projects opt exists (record { mapping = []; create = []; undecided = []; seen = [] })
        f.tasks in
    let converted = convert_all p.mapping now f.tasks in
    (
      record {
        projects = p.mapping;
        create = sort_stable text_lt p.create;
        unmapped = sort_stable text_lt p.undecided;
        tasks = length converted;
        archived = count_archived f.tasks now;
        next_id = max f.next_id (id_after (max_id f.tasks));
        last_sync = f.last_timeline_sync;
        converted = converted;
      },
      length p.undecided == 0,
    )
