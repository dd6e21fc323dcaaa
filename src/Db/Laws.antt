-- ===== src/Db/Laws.antt =====
-- An update whose error is ignored is the rewriting of its table, whether the row is there or not.
use tuixiu.Db.Exec.{ok, Exec, err, Fault}
use tuixiu.Prelude.{String, ◌≡◌, inl, inr, Option-cases, modify_of_find-none, some, refl}
use tuixiu.Db.Types.{Issue, Task, Step, Run, Db}
use tuixiu.Db.Tables.{
  find_step, find_task, find_issue, find_run, update_step, update_task, update_issue, update_run,
  on_step, on_task, on_issue, on_run, transaction,
}

pub update_step-on_step :
    (id : String) (f : Step → Step) (db : Db) → (update_step id f db).1 ≡ on_step id f db
unfolding update_step
update_step-on_step id f db = elim (Option-cases (find_step id db)) [
  | inl e ↦ rw (e, update_step, modify_of_find-none _ f db.steps e)
  | inr (s, e) ↦ rw (e, update_step)
]

pub update_task-on_task :
    (id : String) (f : Task → Task) (db : Db) → (update_task id f db).1 ≡ on_task id f db
unfolding update_task
update_task-on_task id f db = elim (Option-cases (find_task id db)) [
  | inl e ↦ rw (e, update_task, modify_of_find-none _ f db.tasks e)
  | inr (t, e) ↦ rw (e, update_task)
]

pub update_issue-on_issue :
    (id : String) (f : Issue → Issue) (db : Db) → (update_issue id f db).1 ≡ on_issue id f db
unfolding update_issue
update_issue-on_issue id f db = elim (Option-cases (find_issue id db)) [
  | inl e ↦ rw (e, update_issue, modify_of_find-none _ f db.issues e)
  | inr (i, e) ↦ rw (e, update_issue)
]

pub update_run-on_run :
    (id : String) (f : Run → Run) (db : Db) → (update_run id f db).1 ≡ on_run id f db
unfolding update_run
update_run-on_run id f db = elim (Option-cases (find_run id db)) [
  | inl e ↦ rw (e, update_run, modify_of_find-none _ f db.runs e)
  | inr (r, e) ↦ rw (e, update_run)
]

pub update_step-found :
    (id : String) (f : Step → Step) (db : Db) {row : Step}
    → find_step id db ≡ some row
    → update_step id f db ≡ (ok (f row), on_step id f db)
unfolding update_step
update_step-found id f db e = rw (e, update_step)

pub update_task-found :
    (id : String) (f : Task → Task) (db : Db) {row : Task}
    → find_task id db ≡ some row
    → update_task id f db ≡ (ok (f row), on_task id f db)
unfolding update_task
update_task-found id f db e = rw (e, update_task)

pub transaction_ok :
    {A : Type 0} (m : Exec A) {db after : Db} {a : A}
    → m db ≡ (ok a, after)
    → transaction m db ≡ (ok a, after)
unfolding transaction
transaction_ok m p = rw (p, transaction) (rw p refl)

pub transaction_err :
    {A : Type 0} (m : Exec A) {db after : Db} {e : Fault}
    → m db ≡ (err e, after)
    → transaction m db ≡ (err e, db)
unfolding transaction
transaction_err m p = rw (p, transaction) refl
