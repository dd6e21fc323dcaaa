-- ===== src/Db/Tables.antt =====
-- `findUnique`, `update`, `updateMany` and `create` on the tables.
use tuixiu.Prelude.{
  ℕ, String, Option, none, some, List, [], ◌∷◌, ◌++◌, ◌&&◌, ltb, ◌==◌, find, select, modify,
  order_by,
}
use tuixiu.Db.Types.{Project, Issue, Task, Step, Run, Event, Db}
use tuixiu.Db.Exec.{Fault, missing_row, Exec, ok, err, require}

abbrev pub find_project : String → Db → Option Project
find_project id db = find (λ p. p.id == id) db.projects

abbrev pub find_issue : String → Db → Option Issue
find_issue id db = find (λ i. i.id == id) db.issues

abbrev pub find_task : String → Db → Option Task
find_task id db = find (λ t. t.id == id) db.tasks

abbrev pub find_step : String → Db → Option Step
find_step id db = find (λ s. s.id == id) db.steps

abbrev pub find_run : String → Db → Option Run
find_run id db = find (λ r. r.id == id) db.runs

-- `step.update({ where: { id }, data })`
unfoldable pub update_step : String → (Step → Step) → Exec Step
update_step id f db = elim (find_step id db) [
  | none ↦ (err missing_row, db)
  | some s ↦ (ok (f s), record db { steps = modify (λ r. r.id == id) f db.steps })
]

unfoldable pub update_task : String → (Task → Task) → Exec Task
update_task id f db = elim (find_task id db) [
  | none ↦ (err missing_row, db)
  | some t ↦ (ok (f t), record db { tasks = modify (λ r. r.id == id) f db.tasks })
]

unfoldable pub update_issue : String → (Issue → Issue) → Exec Issue
update_issue id f db = elim (find_issue id db) [
  | none ↦ (err missing_row, db)
  | some i ↦ (ok (f i), record db { issues = modify (λ r. r.id == id) f db.issues })
]

unfoldable pub update_run : String → (Run → Run) → Exec Run
update_run id f db = elim (find_run id db) [
  | none ↦ (err missing_row, db)
  | some r ↦ (ok (f r), record db { runs = modify (λ r. r.id == id) f db.runs })
]

abbrev pub add_event : Event → Db → Db
add_event e db = record db { events = db.events ++ e ∷ [] }

abbrev pub find_issue_or : Fault → String → Exec Issue
find_issue_or e id db = require e (find_issue id db) db

abbrev pub find_task_or : Fault → String → Exec Task
find_task_or e id db = require e (find_task id db) db

abbrev pub find_step_or : Fault → String → Exec Step
find_step_or e id db = require e (find_step id db) db

-- `include: { steps: { orderBy: { order: "asc" } } }`
unfoldable pub steps_of : String → Db → List Step
steps_of task_id db = order_by (λ s. s.order) (select (λ s. s.task_id == task_id) db.steps)

-- `step.updateMany({ where: { taskId, order: { gt } }, data })`
unfoldable pub update_steps_after : String → ℕ → (Step → Step) → Db → Db
update_steps_after task_id order f db = record db {
  steps = modify (λ s. s.task_id == task_id && ltb order s.order) f db.steps;
}

-- `$transaction(m)`: a throw leaves the database as it was
unfoldable pub transaction : {A : Type 0} → Exec A → Exec A
transaction m db = let (r, after) = m db in elim r [ ok a ↦ (ok a, after) | err e ↦ (err e, db) ]

-- `update({ where: { id }, data }).catch(() => {})`: a row that is not there is let be
abbrev pub on_step : String → (Step → Step) → Db → Db
on_step id f db = record db { steps = modify (λ r. r.id == id) f db.steps }

abbrev pub on_task : String → (Task → Task) → Db → Db
on_task id f db = record db { tasks = modify (λ r. r.id == id) f db.tasks }

abbrev pub on_issue : String → (Issue → Issue) → Db → Db
on_issue id f db = record db { issues = modify (λ r. r.id == id) f db.issues }

abbrev pub on_run : String → (Run → Run) → Db → Db
on_run id f db = record db { runs = modify (λ r. r.id == id) f db.runs }
