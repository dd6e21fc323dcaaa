-- ===== src/Workflow/Pipeline/Complete.antt =====
-- The completion of the current step moves the task to its next stage, or ends it.
use tuixiu.Prelude.{
  ℕ, String, Option, some, List, [], ◌∷◌, ◌++◌, ◌≡◌, refl, sym, ◌∙◌, ◌==◌, subst, find, modify, All,
  find_id, find-modify_found, DistinctIds-modify, DistinctIds-middle, head_or_none,
}
use mathlib.Core.List.{append_assoc}
use tuixiu.Json.{Value}
use tuixiu.Db.Types.{TaskStatus, StepStatus, Run, Task, Step, Db}
use tuixiu.Db.Tables.{steps_of}
use tuixiu.Workflow.Progress.{
  completed, bound_run, next_after, set_step, advance_task_from_run_terminal,
}
use tuixiu.Workflow.Progress.Advance.{
  HasDistinctSteps, artifacts-rows, advance_task_from_run_terminal-completed, complete_step-next,
}
use tuixiu.Workflow.Pipeline.Rows.{
  Stage, KeepsPlace, steps_of-modify_current, stage_distinct, next_after-middle,
}

abbrev pub with_status : StepStatus → Step → Step
with_status status s = record s { status = status }

pub KeepsPlace-with_status : (status : StepStatus) → KeepsPlace (with_status status)
KeepsPlace-with_status status = record { id = λ s. refl; task_id = λ s. refl; order = λ s. refl }

pub All-concat :
    (P : Step → Type 0) (xs : List Step) {x : Step} → All P xs → P x → All P (xs ++ x ∷ [])
All-concat P [] h p = (p, tt)
All-concat P (y ∷ ys) h p = (h.0, All-concat P ys h.1 p)

module _ (task_id : String) (before : List Step) (step next : Step) (rest : List Step) (db : Db)
    (rows : steps_of task_id db ≡ before ++ step ∷ next ∷ rest)
    (distinct : HasDistinctSteps db) where
  closed : Db
  closed = set_step step.id StepStatus.completed db

  closed_rows :
      steps_of task_id closed
      ≡ (before ++ with_status StepStatus.completed step ∷ []) ++ next ∷ rest
  unfolding closed
  closed_rows =
      steps_of-modify_current task_id before step (next ∷ rest) db rows distinct
        (with_status StepStatus.completed) (KeepsPlace-with_status StepStatus.completed)
      ∙ sym (append_assoc before (with_status StepStatus.completed step ∷ []) (next ∷ rest))

  closed_distinct : HasDistinctSteps closed
  unfolding closed
  closed_distinct =
      DistinctIds-modify (λ s. s.id) _ (with_status StepStatus.completed) db.steps (λ s. refl)
        distinct

  pub opened_rows :
      let db' = set_step next.id StepStatus.ready (set_step step.id StepStatus.completed db) in
      (steps_of task_id db'
        ≡ (before ++ with_status StepStatus.completed step ∷ [])
          ++ with_status StepStatus.ready next ∷ rest)
      × HasDistinctSteps db'
  unfolding closed
  opened_rows = (
    steps_of-modify_current task_id (before ++ with_status StepStatus.completed step ∷ []) next rest
        closed closed_rows closed_distinct (with_status StepStatus.ready)
        (KeepsPlace-with_status StepStatus.ready),
    DistinctIds-modify (λ s. s.id) _ (with_status StepStatus.ready) closed.steps (λ s. refl)
        closed_distinct,
  )

module _ {task_id : String} {before : List Step} {step : Step} {after : List Step} {db : Db}
    (stage : Stage task_id before step after db) where
  pub task_key : stage.task.id ≡ task_id
  task_key = find_id (λ (t : Task). t.id) task_id db.tasks stage.has_task

  pub follows : next_after step.id (steps_of stage.task.id db) ≡ head_or_none after
  follows =
      subst (λ i. next_after step.id (steps_of i db) ≡ head_or_none after) (sym task_key)
        (rw stage.rows (
          next_after-middle before step after
            (DistinctIds-middle (λ s. s.id) before step after
              (stage_distinct task_id before step after db stage.rows stage.distinct)).0))

  -- the task's row after a rewriting by its own id
  pub task_row :
      (f : Task → Task)
      → ((t : Task) → (f t).id ≡ t.id)
      → find (λ t. t.id == task_id) (modify (λ t. t.id == stage.task.id) f db.tasks)
        ≡ some (f stage.task)
  task_row f keeps =
      subst
        (λ i.
          find (λ t. t.id == task_id) (modify (λ t. t.id == i) f db.tasks) ≡ some (f stage.task))
        (sym task_key) (find-modify_found (λ t. t.id) task_id f db.tasks keeps stage.has_task)

module _ (json_parse : List ℕ → Option Value) (index_text : ℕ → String) where
  pub Stage-complete_next :
      (run_id : String) (message : Option String) {task_id : String} {before : List Step}
      {step next : Step} {rest : List Step} {db : Db} {run : Run}
      (stage : Stage task_id before step (next ∷ rest) db)
      → bound_run run_id db ≡ some (run, stage.task, step)
      → Stage task_id
          (before ++ with_status StepStatus.completed step ∷ [])
          (with_status StepStatus.ready next)
          rest
          (advance_task_from_run_terminal json_parse index_text run_id completed message db).1
  unfolding steps_of
  Stage-complete_next run_id message {task_id} {before} {step} {next} {rest} {db} {run} stage
        bound =
      let (same_steps, same_tasks, _) = artifacts-rows json_parse index_text run step db in
      let (rows, distinct) =
        opened_rows task_id before step next rest db stage.rows stage.distinct in
      rw (advance_task_from_run_terminal-completed json_parse index_text run_id message db bound) (
        rw
          (complete_step-next json_parse index_text run stage.task step (steps_of stage.task.id db)
            db (follows stage) stage.waiting.0)
          (record {
            task = record (stage.task) {
              status = TaskStatus.running;
              current_step_id = some next.id;
            };
            has_task = rw same_tasks (task_row stage _ (λ t. refl));
            points = refl;
            rows = rw same_steps rows;
            distinct = rw same_steps distinct;
            done = All-concat _ before stage.done refl;
            waiting = stage.waiting.1;
          }))
