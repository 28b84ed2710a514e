-- ===== src/Tasks/Storage/Transactions.antt =====
-- What a transaction leaves of the database, and what a dry run reports.
use ccdash.Prelude.{
  ℕ, ◌≡◌, refl, sym, ◌∙◌, ◌>>=◌, inl, inr, Bool, true, false, List, Text, Result, ok, err, arith,
  contains, Result-cases,
}
use ccdash.Calendar.{Time}
use ccdash.Tasks.Merge.{ProposalTask, merge}
use ccdash.Tasks.Storage.{
  Failure, Tables, end_tx, in_tx, sync_tx, sync_tasks, save_all, chosen, set_sync,
}

module _ {Db : Type 0} (sql : Tables Db) where
  end_tx_value :
      {A : Type 0} (db : Db) (r : A × Result Failure (Db × Bool)) → (end_tx sql db r).value ≡ r.0
  unfolding end_tx
  end_tx_value db (a, err e) = refl
  end_tx_value db (a, ok (db', false)) = refl
  end_tx_value db (a, ok (db', true)) = ground arith

  -- No change is reported.
  abbrev IsQuiet : Result Failure (Db × Bool) → Type 0
  IsQuiet (err e) = Unit
  IsQuiet (ok c) = c.1 ≡ false

  end_tx_unchanged :
      {A : Type 0} (db : Db) (a : A) (r : Result Failure (Db × Bool))
      → IsQuiet r
      → (end_tx sql db (a, r)).db ≡ db
  unfolding end_tx
  end_tx_unchanged db a (err e) h = refl
  end_tx_unchanged db a (ok (db', false)) h = refl
  end_tx_unchanged db a (ok (db', true)) h = cc

  sync_tx_dry :
      (pts : List ProposalTask) (synced_at : Text) (known : Text → Bool) (now : Time) (ms : ℕ)
      (db : Db)
      → (end_tx sql db (sync_tx sql pts synced_at true known now ms db)).db ≡ db
  unfolding sync_tx
  sync_tx_dry pts synced_at known now ms db = elim (Result-cases (sql.select_all db)) [
    | inr (e, bad) ↦ rw (bad, sync_tx) (unfold end_tx in refl)
    | inl (all, good) ↦
        rw (good, sync_tx)
          (let s = merge all pts known now in
            end_tx_unchanged db s.reports _
              (never (save_all sql (chosen sql s.tasks s.changed) ms db) (set_sync sql synced_at)))
  ]
    where
      never :
          (r : Result Failure Db) (f : Db → Result Failure Db)
          → IsQuiet (do db1 ← r; db2 ← f db1; ok (db2, false))
      never (err e) f = tt
      never (ok db1) f = elim (Result-cases (f db1)) [
        | inr (e, bad) ↦ rw bad tt
        | inl (db2, good) ↦ rw good refl
      ]

  sync_tx_value :
      (pts : List ProposalTask) (synced_at : Text) (known : Text → Bool) (now : Time) (ms : ℕ)
      (db : Db)
      → (sync_tx sql pts synced_at true known now ms db).0
        ≡ (sync_tx sql pts synced_at false known now ms db).0
  unfolding sync_tx
  sync_tx_value pts synced_at known now ms db = elim (Result-cases (sql.select_all db)) [
    | inr (e, bad) ↦ rw (bad, sync_tx)
    | inl (all, good) ↦ rw (good, sync_tx)
  ]

  -- Whatever the statements on the tables do, a dry run of a sync leaves the database as it is, and
  -- reports what the same sync reports that is no dry run.
  pub sync_tasks_dry :
      (pts : List ProposalTask) (synced_at : Text) (now : Time) (ms : ℕ) (db : Db)
      → ((sync_tasks sql pts synced_at true now ms db).db ≡ db)
        × ((sync_tasks sql pts synced_at true now ms db).value
            ≡ (sync_tasks sql pts synced_at false now ms db).value)
  unfolding sync_tasks in_tx
  sync_tasks_dry pts synced_at now ms db = elim (Result-cases (sql.projects db)) [
    | inr (e, bad) ↦ rw (bad, sync_tasks) (refl, refl)
    | inl (names, good) ↦
        rw (good, sync_tasks)
          (
            sync_tx_dry pts synced_at (contains names) now ms db,
            end_tx_value db _
                ∙ sync_tx_value pts synced_at (contains names) now ms db
                ∙ sym (end_tx_value db _),
          )
  ]
