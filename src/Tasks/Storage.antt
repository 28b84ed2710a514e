-- ===== src/Tasks/Storage.antt =====
-- internal/db/tasks.go: the operations on the stored list, each in one transaction. The statements that
-- SQLite runs, and the projects of internal/db/db.go, are a parameter. The time in milliseconds, `ms`,
-- comes with the time.
pub mod Transactions
use ccdash.Prelude.{
  ℕ, zero, suc, ◌+◌, ◌-◌, Bool, true, false, ◌&&◌, ◌||◌, not, List, [], ◌∷◌, Option, none, some,
  Text, codes, is_empty, contains, length, get_elem?, ◌==◌, ltb, if◌then◌else◌, Result, ok, err,
  ◌>>=◌,
}
use ccdash.Calendar.{Time, stamp}
use ccdash.Tasks.Task.{Task, TaskNote}
use ccdash.Tasks.Plan.{Error}
use ccdash.Tasks.Timeline.{add_note}
use ccdash.Tasks.Edit.{Input, new_task}
use ccdash.Tasks.Patch.{Patch, apply}
use ccdash.Tasks.Merge.{ProposalTask, Report, merge}
use ccdash.Tasks.Import.{LegacyFile, ImportOptions, ImportPlan, plan_import}

pub data Failure : Type 0 where
  statement : Text → Failure
  refused : Error → Failure
  not_found : Text → Failure
  no_task : ℕ → Failure
  list_not_empty : ℕ → Failure
  no_decision : List Text → Failure

-- The statements on the tables, and what internal/db/db.go does for the projects. `commit` gets the
-- database as it was before the transaction and as the transaction has it, and says what is stored then,
-- also where it fails.
pub record Tables (Db : Type 0) : Type 0 where
  pub select_all : Db → Result Failure (List Task)
  pub select_by : Text → Db → Result Failure (List Task)
  pub insert_task : Task → ℕ → Db → Result Failure (Db × ℕ)
  pub upsert_task : Task → ℕ → Db → Result Failure Db
  pub insert_event : ℕ → TaskNote → Db → Result Failure Db
  pub delete_links : ℕ → Db → Result Failure Db
  pub insert_link : ℕ → Text → ℕ → Db → Result Failure Db
  pub set_order : ℕ → ℕ → ℕ → Db → Result Failure (Db × ℕ)
  pub count : Db → Result Failure ℕ
  pub continue_after : ℕ → Db → Result Failure Db
  pub set_meta : Text → Text → Db → Result Failure Db
  pub bump_rev : Db → Result Failure Db
  pub commit : Db → Db → Db × Option Failure
  pub projects : Db → Result Failure (List Text)
  pub ensure_project : Text → Db → Result Failure Db

-- What an operation leaves: the database, the value that it returns with or without an error, the error.
pub record Done (Db A : Type 0) : Type 0 where
  pub db : Db
  pub value : A
  pub failed : Option Failure

module _ {Db : Type 0} (sql : Tables Db) where
  unfoldable pub load_one : Text → Db → Result Failure Task
  load_one ident db = elim (sql.select_by ident db) [
    | err e ↦ err e
    | ok ts ↦ elim (get_elem? ts 0) [ none ↦ err (not_found ident) | some t ↦ ok t ]
  ]

  unfoldable pub save_events : ℕ → List TaskNote → Db → Result Failure Db
  save_events id [] db = ok db
  save_events id (n ∷ ns) db = do db' ← sql.insert_event id n db; save_events id ns db'

  unfoldable pub save_links : ℕ → ℕ → List Text → Db → Result Failure Db
  save_links id ms [] db = ok db
  save_links id ms (s ∷ ss) db = do db' ← sql.insert_link id s ms db; save_links id (ms + 1) ss db'

  -- The row of a task: a task of id 0 gets a new one.
  unfoldable pub save_row : Task → ℕ → Db → Result Failure (Db × Task)
  save_row t ms db =
      if t.id == 0
      then (do r ← sql.insert_task t ms db; ok (r.0, record t { id = r.1 }))
      else (do db' ← sql.upsert_task t ms db; ok (db', t))

  unfoldable pub save_task : Task → ℕ → Db → Result Failure (Db × Task)
  unfolding save_events save_links save_row
  save_task t ms db = do
    r ← save_row t ms db
    db1 ← save_events r.1.id t.timeline r.0
    db2 ← sql.delete_links r.1.id db1
    db3 ← save_links r.1.id ms t.sessions db2
    ok (db3, r.1)

  unfoldable pub save_all : List Task → ℕ → Db → Result Failure Db
  save_all [] ms db = ok db
  save_all (t ∷ ts) ms db = do r ← save_task t ms db; save_all ts ms r.0

  -- The end of a transaction. Where nothing is committed, the deferred Rollback makes SQLite forget what
  -- the transaction has written.
  unfoldable pub end_tx : {A : Type 0} → Db → A × Result Failure (Db × Bool) → Done Db A
  end_tx db (a, err e) = record { db = db; value = a; failed = some e }
  end_tx db (a, ok (db', false)) = record { db = db; value = a; failed = none }
  end_tx db (a, ok (db', true)) = elim (sql.bump_rev db') [
    | err e ↦ record { db = db; value = a; failed = some e }
    | ok db'' ↦ let c = sql.commit db db'' in record { db = c.0; value = a; failed = c.1 }
  ]

  unfoldable pub in_tx : {A : Type 0} → (Db → A × Result Failure (Db × Bool)) → Db → Done Db A
  in_tx fn db = end_tx db (fn db)

  unfoldable pub ensure_projects : List Text → Db → Result Failure Db
  ensure_projects [] db = ok db
  ensure_projects (n ∷ ns) db =
      if is_empty n
      then ensure_projects ns db
      else (do db' ← sql.ensure_project n db; ensure_projects ns db')

  -- The task as it is to be saved, where it has changed.
  unfoldable pub saved : Task → ℕ → Db → Option Task × Result Failure (Db × Bool)
  saved t ms db = elim (save_task t ms db) [
    | err e ↦ (some t, err e)
    | ok r ↦ (some r.1, ok (r.0, true))
  ]

  -- The transaction of UpdateTask.
  unfoldable pub update_tx : Text → Patch → Time → ℕ → Db → Option Task × Result Failure (Db × Bool)
  update_tx ident p now ms db = elim (load_one ident db) [
    | err e ↦ (none, err e)
    | ok t ↦
        let o = apply t p now in
        elim o.failed [
          | some e ↦ (some o.task, err (refused e))
          | none ↦ if o.changed then saved o.task ms db else (some o.task, ok (db, false))
        ]
  ]

  -- The transaction of AddTaskNote.
  unfoldable pub note_tx :
      Text → TaskNote → Time → ℕ → Db → Option Task × Result Failure (Db × Bool)
  note_tx ident n now ms db = elim (load_one ident db) [
    | err e ↦ (none, err e)
    | ok t ↦
        let r = add_note t (if is_empty n.at then record n { at = stamp now } else n) in
        if r.1 then saved r.0 ms db else (some r.0, ok (db, false))
  ]

  -- The loop of OrderTasks, with the place of the first of the ids.
  unfoldable pub place_all : ℕ → List ℕ → ℕ → Db → Result Failure Db
  place_all i [] ms db = ok db
  place_all i (id ∷ ids) ms db = do
    r ← sql.set_order id i ms db
    db' ← (if r.1 == 0 then err (no_task id) else ok r.0)
    place_all (i + 1) ids ms db'

  unfoldable pub order_tasks : List ℕ → ℕ → Db → Done Db (Unit {0})
  order_tasks [] ms db = record { db = db; value = tt; failed = none }
  order_tasks (id ∷ ids) ms db =
      in_tx (λ db. (tt, do db' ← place_all 1 (id ∷ ids) ms db; ok (db', true))) db

  unfoldable pub chosen : List Task → List ℕ → List Task
  chosen ts [] = []
  chosen ts (i ∷ is) = elim (get_elem? ts i) [ none ↦ chosen ts is | some t ↦ t ∷ chosen ts is ]

  unfoldable pub set_sync : Text → Db → Result Failure Db
  set_sync at db = if is_empty at then ok db else sql.set_meta (codes "last_sync") at db

  -- The transaction of SyncTasks.
  unfoldable pub sync_tx :
      List ProposalTask
      → Text
      → Bool
      → (Text → Bool)
      → Time
      → ℕ
      → Db
      → List Report × Result Failure (Db × Bool)
  sync_tx pts synced_at dry known now ms db = elim (sql.select_all db) [
    | err e ↦ ([], err e)
    | ok all ↦
        let s = merge all pts known now in
        (
          s.reports,
          do
            db1 ← save_all (chosen s.tasks s.changed) ms db
            db2 ← set_sync synced_at db1
            ok (db2, not dry && (ltb 0 (length s.changed) || not (is_empty synced_at))),
        )
  ]

  unfoldable pub sync_tasks :
      List ProposalTask → Text → Bool → Time → ℕ → Db → Done Db (List Report)
  sync_tasks pts synced_at dry now ms db = elim (sql.projects db) [
    | err e ↦ record { db = db; value = []; failed = some e }
    | ok names ↦ in_tx (sync_tx pts synced_at dry (contains names) now ms) db
  ]

  -- The transaction of ImportTasks. The next id is at least 1, unless an id of the file is 2^63 - 1.
  unfoldable pub import_tx : ImportPlan → ℕ → Db → Unit {0} × Result Failure (Db × Bool)
  import_tx plan ms db = (
    tt,
    do
      n ← sql.count db
      _ ← (if ltb 0 n then err (list_not_empty n) else ok n)
      db1 ← save_all plan.converted ms db
      db2 ← sql.continue_after (plan.next_id - 1) db1
      db3 ← set_sync plan.last_sync db2
      ok (db3, true),
  )

  -- The projects that a committed operation points at are made afterwards.
  unfoldable pub then_ensure : {A : Type 0} → (A → List Text) → Done Db A → Done Db A
  then_ensure names d = elim d.failed [
    | some e ↦ d
    | none ↦ elim (ensure_projects (names d.value) d.db) [
      | err e ↦ record d { failed = some e }
      | ok db' ↦ record d { db = db' }
    ]
  ]

  -- UpdateTask, without the task that it reads back at the end.
  unfoldable pub update_task : Text → Patch → Time → ℕ → Db → Done Db (Option Task)
  update_task ident p now ms db =
      let d = in_tx (update_tx ident p now ms) db in
      elim p.project [
        | none ↦ d
        | some v ↦ then_ensure (λ o. elim o [ none ↦ [] | some t ↦ t.project ∷ [] ]) d
      ]

  unfoldable pub import_tasks :
      LegacyFile → ImportOptions → Bool → Time → ℕ → Db → Done Db (Option ImportPlan)
  import_tasks f opt dry now ms db = elim (sql.projects db) [
    | err e ↦ record { db = db; value = none; failed = some e }
    | ok names ↦
        let (plan, stands) = plan_import f opt (contains names) now in
        if not stands
        then record { db = db; value = some plan; failed = some (no_decision plan.unmapped) }
        else if dry
        then record { db = db; value = some plan; failed = none }
        else let d = in_tx (import_tx plan ms) db in
          let e = then_ensure (λ _. plan.create) d in
          record { db = e.db; value = some plan; failed = e.failed }
  ]
