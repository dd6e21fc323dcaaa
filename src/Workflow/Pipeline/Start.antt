-- ===== src/Workflow/Pipeline/Start.antt =====
-- A start keeps the stage, with the current step under way, and binds the run to it.
use tuixiu.Prelude.{
  ℕ, String, none, some, List, ◌∷◌, ◌++◌, ◌≡◌, refl, sym, ap, ◌==◌, eq_refl, modify, find_id,
  find_self, find-modify_found, DistinctIds-modify, Bool-cases, inl, inr, subst, find-append_none,
}
use tuixiu.Db.Types.{StepStatus, Run, Task, Step, Db}
use tuixiu.Db.Tables.{steps_of, find_step, find_task, find_run}
use tuixiu.Workflow.Engine.{
  StartStepBody, has_override, overridden, started_step, started_task, run_of_start, start_step,
  new_run,
}
use tuixiu.Workflow.Engine.Start.{with_overrides, stored_overrides, start_effect, start_step-ready}
use tuixiu.Workflow.Progress.{bound_run}
use tuixiu.Workflow.Progress.Advance.{HasDistinctSteps, bound_run-found}
use tuixiu.Workflow.Pipeline.Rows.{
  Stage, KeepsPlace, steps_of-modify_current, steps_of-modify_at, stage_found, stage_owned,
}

pub started : Step → StartStepBody → Step
started step body = started_step step body (with_overrides step body)

KeepsPlace-overridden : (step : Step) (body : StartStepBody) → KeepsPlace (overridden step body)
KeepsPlace-overridden step body = record { id = λ s. refl; task_id = λ s. refl; order = λ s. refl }

KeepsPlace-started : (step : Step) (body : StartStepBody) → KeepsPlace (started_step step body)
KeepsPlace-started step body = record { id = λ s. refl; task_id = λ s. refl; order = λ s. refl }

with_overrides-id : (step : Step) (body : StartStepBody) → (with_overrides step body).id ≡ step.id
with_overrides-id step body = elim (Bool-cases (has_override body)) [
  | inl h ↦ rw h refl
  | inr h ↦ rw h refl
]

module _ (task_id : String) (before : List Step) (step : Step) (after : List Step)
    (body : StartStepBody) (db : Db) (rows : steps_of task_id db ≡ before ++ step ∷ after)
    (distinct : HasDistinctSteps db) where
  overridden_rows :
      (steps_of task_id (stored_overrides step body db)
        ≡ before ++ with_overrides step body ∷ after)
      × HasDistinctSteps (stored_overrides step body db)
  overridden_rows = elim (Bool-cases (has_override body)) [
    | inl h ↦ rw h (
      steps_of-modify_current task_id before step after db rows distinct (overridden step body)
          (KeepsPlace-overridden step body),
      DistinctIds-modify (λ s. s.id) _ (overridden step body) db.steps (λ s. refl) distinct,
    )
    | inr h ↦ rw h (rows, distinct)
  ]

  started_rows :
      (run_id : String) (now : ℕ) (task : Task)
      → let db' = start_effect run_id now task step body db in
        (steps_of task_id db' ≡ before ++ started step body ∷ after) × HasDistinctSteps db'
  unfolding steps_of started
  started_rows run_id now task =
      let (rows', distinct') = overridden_rows in
      (
        steps_of-modify_at task_id before (with_overrides step body) after
            (stored_overrides step body db) rows' distinct' step.id (started_step step body)
            (with_overrides-id step body) (KeepsPlace-started step body),
        DistinctIds-modify (λ s. s.id) _ (started_step step body)
            (stored_overrides step body db).steps (λ s. refl) distinct',
      )

-- The start of the current step of a stage, by a run whose id is new.
module _ {task_id : String} {before : List Step} {step : Step} {after : List Step} {db : Db}
    (run_id : String) (now : ℕ) (body : StartStepBody) (stage : Stage task_id before step after db)
    (ready : step.status ≡ StepStatus.ready) where
  found_step : find_step step.id db ≡ some step
  found_step = stage_found task_id before step after db stage.rows stage.distinct

  found_task : find_task step.task_id db ≡ some stage.task
  found_task =
      subst (λ i. find_task i db ≡ some stage.task)
        (sym (stage_owned task_id before step after db stage.rows stage.distinct)) stage.has_task

  -- the tables behind the start
  abbrev pub effect : Db
  effect = start_effect run_id now stage.task step body db

  pub start-effect : (start_step run_id now step.id body db).1 ≡ effect
  start-effect =
      ap (λ r. r.1) (start_step-ready run_id now step.id body db found_step found_task ready)

  started_id : (started step body).id ≡ step.id
  unfolding started
  started_id = with_overrides-id step body

  pub Stage-effect : Stage task_id before (started step body) after effect
  Stage-effect =
      let (rows, distinct) =
        started_rows task_id before step after body db stage.rows stage.distinct run_id now
          stage.task in
      record {
        task = started_task step stage.task;
        has_task =
            subst
              (λ i.
                find_task task_id
                  (record db { tasks = modify (λ t. t.id == i) (started_task step) db.tasks })
                ≡ some (started_task step stage.task))
              (sym (find_id (λ (t : Task). t.id) task_id db.tasks stage.has_task))
              (find-modify_found (λ t. t.id) task_id (started_task step) db.tasks (λ t. refl)
                stage.has_task);
        points = ap some (sym started_id);
        rows = rows;
        distinct = distinct;
        done = stage.done;
        waiting = stage.waiting;
      }

  abbrev pub run : Run
  run = run_of_start run_id now stage.task step body db

  pub bound_run-effect :
      find_run run_id db ≡ none
      → bound_run run_id effect ≡ some (run, Stage-effect.task, started step body)
  unfolding new_run Stage-effect
  bound_run-effect new =
      bound_run-found run_id stage.task.id step.id effect
        (find-append_none (λ r. r.id == run_id) db.runs run new (eq_refl run_id)) refl refl
        (find-modify_found (λ t. t.id) stage.task.id (started_task step) db.tasks (λ t. refl)
          (find_self (λ (t : Task). t.id) task_id db.tasks stage.has_task))
        (subst (λ i. find_step i effect ≡ some (started step body)) started_id
          (stage_found task_id before (started step body) after effect Stage-effect.rows
            Stage-effect.distinct))
