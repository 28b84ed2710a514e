-- ===== src/Tasks/Import/Converted.antt =====
-- What an import makes of the tasks of the file.
use ccdash.Prelude.{
  ℕ, ◌+◌, ◌-◌, ◌^◌, text_lt, ◌<◌, ◌≡◌, refl, sym, ap, ◌∙◌, Bool, true, false, ◌||◌, List, [], ◌∷◌,
  none, arith, Text, is_between, All, if◌then◌else◌,
}
use ccdash.Calendar.{Time, date_string}
use ccdash.Tasks.Task.{Task, TaskNote, Status, done, cancelled, is_finished, valid_status}
use ccdash.Tasks.Timeline.{add_note, add_notes}
use ccdash.Tasks.Timeline.Refs.{IsTimeline, add_notes-IsTimeline}
use ccdash.Tasks.Import.{
  LegacyFile, ImportOptions, project_of, to_archive, known_status, cleaned, convert, convert_all,
  max_id, plan_import, id_after,
}
use ccdash.Tasks.Import.Named.{named, plan_projects-named}

add_note-same :
    (t : Task) (n : TaskNote) → (add_note t n).0 ≡ record t { timeline = (add_note t n).0.timeline }
unfolding add_note
add_note-same t n = ground arith

add_notes-same :
    (t : Task) (ns : List TaskNote)
    → (add_notes t ns).0 ≡ record t { timeline = (add_notes t ns).0.timeline }
unfolding add_notes
add_notes-same t [] = refl
add_notes-same t (n ∷ ns) = ground (arith, add_note-same t n, add_notes-same (add_note t n).0 ns)

-- Done or cancelled, and on a day before today.
abbrev is_past : Status → Text → Time → Bool
is_past done day now = text_lt day (date_string now.date)
is_past cancelled day now = text_lt day (date_string now.date)
is_past _ day now = false

to_archive-is_past :
    (t : Task) (s : Status) (now : Time) → to_archive t s now ≡ is_past s t.done_on now
unfolding to_archive is_finished
to_archive-is_past t s now = ground arith

-- A converted task: what holds of it whatever the file said.
pub record IsConverted (opt : ImportOptions) (exists : Text → Bool) (now : Time) (t u : Task)
    : Type 0 where
  pub id : u.id ≡ t.id
  pub key : u.key ≡ t.key
  pub title : u.title ≡ t.title
  pub project : u.project ≡ named opt exists t.project
  pub priority : is_between 1 4 u.priority ≡ true
  pub status : valid_status u.status ≡ true
  pub archived : u.archived ≡ (t.archived || is_past u.status t.done_on now)
  pub timeline : IsTimeline u.timeline
  pub bucket : u.bucket ≡ none

convert-IsConverted :
    (opt : ImportOptions) (exists : Text → Bool) (m : List (Text × Text)) (now : Time) (t : Task)
    → project_of m t.project ≡ named opt exists t.project
    → IsConverted opt exists now t (convert m now t)
unfolding convert cleaned
convert-IsConverted opt exists m now t told =
    let e = add_notes-same (cleaned m now t) t.timeline in
    record {
      id = ap (λ u. u.id) e;
      key = ap (λ u. u.key) e;
      title = ap (λ u. u.title) e;
      project = ap (λ u. u.project) e ∙ told;
      priority = ap (λ u. is_between 1 4 u.priority) e ∙ ground arith;
      status =
          ap (λ u. valid_status u.status) e ∙ (unfold known_status valid_status in ground arith);
      archived =
          ap (λ u. u.archived) e
          ∙ cases_archived t.archived (to_archive t (known_status t.status) now)
          ∙ ap (λ b. t.archived || b)
              (to_archive-is_past t (known_status t.status) now
                ∙ sym (ap (λ u. is_past u.status t.done_on now) e));
      timeline =
          add_notes-IsTimeline (cleaned m now t) t.timeline (record { refs = tt; times = tt });
      bucket = refl;
    }
  where
    cases_archived : (a b : Bool) → (if b then true else a) ≡ (a || b)
    cases_archived a b = ground arith

-- Task by task, the converted list is the file's.
abbrev pub AllConverted : ImportOptions → (Text → Bool) → Time → List Task → List Task → Type 0
AllConverted opt exists now [] [] = Unit
AllConverted opt exists now [] (u ∷ us) = ⊥
AllConverted opt exists now (t ∷ ts) [] = ⊥
AllConverted opt exists now (t ∷ ts) (u ∷ us) =
    IsConverted opt exists now t u × AllConverted opt exists now ts us

convert_all-AllConverted :
    (opt : ImportOptions) (exists : Text → Bool) (m : List (Text × Text)) (now : Time)
    (ts : List Task)
    → All (λ t. project_of m t.project ≡ named opt exists t.project) ts
    → AllConverted opt exists now ts (convert_all m now ts)
unfolding convert_all
convert_all-AllConverted opt exists m now [] h = tt
convert_all-AllConverted opt exists m now (t ∷ ts) h =
    (convert-IsConverted opt exists m now t h.0, convert_all-AllConverted opt exists m now ts h.1)

max_id-lt : (n : ℕ) (ts : List Task) → 0 < n → All (λ t. t.id < n) ts → max_id ts < n
unfolding max_id
max_id-lt n [] positive h = positive
max_id-lt n (t ∷ ts) positive h = omega (arith, h.0, max_id-lt n ts positive h.1)

ids_below : (n : ℕ) (ts : List Task) → max_id ts < n → All (λ t. t.id < n) ts
unfolding max_id
ids_below n [] h = tt
ids_below n (t ∷ ts) h = (omega arith, ids_below n ts (omega arith))

-- Where it does not wrap round, the id after is the next number.
id_after_lem : (n : ℕ) → n + 1 < 2 ^ 63 → id_after n ≡ n + 1
unfolding id_after
id_after_lem n h = ground arith

-- If every id of the file is below 2^63 - 1, the plan of an import holds the file's tasks in order,
-- each with its id, key and title, the project that the options name for its own (the one it is
-- mapped to, else itself where it exists or is to be created, else none), a priority from 1 to 4,
-- one of the five statuses, archived if it was or if it is done or cancelled from before today, a
-- timeline in order without a ref twice, and no bucket; and the next id is above every id of the
-- file.
pub plan_import-AllConverted :
    (f : LegacyFile) (opt : ImportOptions) (exists : Text → Bool) (now : Time)
    → All (λ t. t.id < 2 ^ 63 - 1) f.tasks
    → let p = (plan_import f opt exists now).0 in
      AllConverted opt exists now f.tasks p.converted × All (λ t. t.id < p.next_id) f.tasks
unfolding plan_import
plan_import-AllConverted f opt exists now bounded =
    let most = max_id-lt (2 ^ 63 - 1) f.tasks (omega arith) bounded in
    let next = id_after_lem (max_id f.tasks) (omega arith) in
    (
      convert_all-AllConverted opt exists _ now f.tasks (plan_projects-named opt exists f.tasks),
      ids_below _ f.tasks (omega (arith, next)),
    )
