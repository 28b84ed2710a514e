-- ===== src/Tasks/StorageTests.antt =====
-- The operations of internal/db/tasks.go on tables in memory, a list of tasks and the rev, whose commit
-- fails where `broken` says so.
use ccdash.Prelude.{
  ℕ, suc, ◌≡◌, refl, Bool, true, false, List, [], ◌∷◌, ◌++◌, map, none, some, codes, text_eq,
  select, length, ok, ◌==◌, if◌then◌else◌,
}
use ccdash.Calendar.{Time}
use ccdash.Tasks.Task.{Task, todo, unset, source_claude}
use ccdash.Prelude.{pos}
use ccdash.Tasks.Patch.{Patch}
use ccdash.Tasks.Merge.{ProposalTask, merge, merge_all}
use ccdash.Tasks.Storage.{
  Tables, statement, not_found, load_one, save_all, chosen, set_sync, end_tx, in_tx, update_tx,
  sync_tx, sync_tasks,
}
use ccdash.Tasks.Storage.Transactions.{sync_tasks_dry}

abbrev Memory : Type 0
Memory = List Task × ℕ

abbrev tables : Bool → Tables Memory
tables broken = record {
  select_all = λ db. ok db.0;
  select_by = λ ident db. ok (select (λ t. text_eq t.key ident) db.0);
  insert_task =
      λ t ms db. ok ((db.0 ++ record t { id = suc (length db.0) } ∷ [], db.1), suc (length db.0));
  upsert_task = λ t ms db. ok (map (λ u. if u.id == t.id then t else u) db.0, db.1);
  insert_event = λ id n db. ok db;
  delete_links = λ id db. ok db;
  insert_link = λ id s ms db. ok db;
  set_order = λ id i ms db. ok (db, 1);
  count = λ db. ok (length db.0);
  continue_after = λ n db. ok db;
  set_meta = λ k v db. ok db;
  bump_rev = λ db. ok (db.0, suc db.1);
  commit = λ db db'. if broken then (db, some (statement (codes "disk"))) else (db', none);
  projects = λ db. ok [];
  ensure_project = λ n db. ok db;
}

abbrev thursday : Time
thursday = record { date = 740241; hour = 9; minute = 30; second = 0; west = false; offset = 540 }

abbrev stored : Task
stored = record {
  id = 1;
  key = codes "report";
  title = codes "Write the report";
  priority = pos 2;
  status = todo;
  plan = [];
  plan_by = [];
  plan_on = [];
  due = [];
  project = [];
  note = [];
  links = [];
  source = source_claude;
  created_on = codes "2026-09-14";
  done_on = [];
  order = none;
  archived = false;
  updated_at = 0;
  timeline = [];
  sessions = [];
  bucket = none;
}

abbrev proposal : ProposalTask
proposal = record {
  key = codes "report";
  title = codes "Write the report";
  priority = pos 1;
  plan = [];
  due = codes "2026-09-30";
  project = [];
  note = [];
  links = [];
  done_flag = true;
  status = unset;
  timeline = [];
  replan_to = none;
}

abbrev archiving : Patch
archiving = record {
  title = none;
  key = none;
  priority = none;
  due = none;
  project = none;
  note = none;
  status = none;
  plan = none;
  auto = false;
  why = [];
  add_links = [];
  remove_links = [];
  add_sessions = [];
  remove_sessions = [];
  archived = some true;
  source = [];
}

abbrev memory : Memory
memory = (stored ∷ [], 4)

missing_fails :
    (in_tx
      (tables false)
      (update_tx (tables false) (codes "mail") archiving thursday 0)
      memory).failed
    ≡ some (not_found (codes "mail"))
unfolding in_tx end_tx update_tx load_one text_eq
missing_fails = refl

commit_fails :
    (sync_tasks (tables true) [] (codes "2026-09-17T09:30:00+09:00") false thursday 0 memory).failed
    ≡ some (statement (codes "disk"))
unfolding sync_tasks sync_tx in_tx end_tx save_all chosen set_sync merge merge_all
commit_fails = refl

sync_tasks_dry_example :
    ((sync_tasks (tables false) (proposal ∷ []) [] true thursday 0 memory).db ≡ memory)
    × ((sync_tasks (tables false) (proposal ∷ []) [] true thursday 0 memory).value
        ≡ (sync_tasks (tables false) (proposal ∷ []) [] false thursday 0 memory).value)
sync_tasks_dry_example = sync_tasks_dry (tables false) (proposal ∷ []) [] thursday 0 memory
