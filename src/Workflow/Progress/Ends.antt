-- ===== src/Workflow/Progress/Ends.antt =====
-- What a failed, a cancelled and a blocked run leave in the tables.
use tuixiu.Prelude.{
  ℕ, String, Option, none, some, List, ◌≡◌, ◌≢◌, refl, sym, find-modify_self, find-modify_found,
  find-modify_ne, inl, inr, is_empty, Bool-cases,
}
use mathlib.Core.Option
use tuixiu.Json.{Value}
use tuixiu.Db.Types.{IssueStatus, TaskStatus, StepStatus, Issue, Task, Step, Run, Db}
use tuixiu.Db.Tables.{find_step, find_task, find_issue}
use tuixiu.Workflow.Progress.{
  set_step, set_task, set_issue, note_failure, failed, cancelled, handled, bound_run, fail_task,
  cancel_task, advance_task_from_run_terminal,
}
use tuixiu.Workflow.Progress.Advance.{bound_run-rows}

-- The step, its task and its issue have the statuses, and the other steps are as they were.
pub record Closed (step : Step) (task : Task) (s : StepStatus) (t : TaskStatus) (i : IssueStatus)
    (before after : Db) : Type 0 where
  pub of_step : find_step step.id after ≡ some (record step { status = s })
  pub of_others : (id : String) → id ≢ step.id → find_step id after ≡ find_step id before
  pub of_task : find_task task.id after ≡ some (record task { status = t })
  pub of_issue :
      find_issue task.issue_id after
      ≡ Option.map {A = Issue} (λ x. record x { status = i }) (find_issue task.issue_id before)
  pub runs : after.runs ≡ before.runs

set_all-Closed :
    (step : Step) (task : Task) (s : StepStatus) (t : TaskStatus) (i : IssueStatus) (db : Db)
    → find_step step.id db ≡ some step
    → find_task task.id db ≡ some task
    → Closed step task s t i db
        (set_issue task.issue_id i (set_task task.id t (set_step step.id s db)))
set_all-Closed step task s t i db has_step has_task = record {
  of_step = find-modify_found (λ s. s.id) step.id _ db.steps (λ s. refl) has_step;
  of_others =
      λ id other. find-modify_ne (λ s. s.id) step.id id _ db.steps (λ s. refl) (λ e. other (sym e));
  of_task = find-modify_found (λ t. t.id) task.id _ db.tasks (λ t. refl) has_task;
  of_issue = find-modify_self (λ i. i.id) task.issue_id _ db.issues (λ i. refl);
  runs = refl;
}

note_failure-Closed :
    (run_id : String) (step : Step) (task : Task) (message : Option String) (s : StepStatus)
    (t : TaskStatus) (i : IssueStatus) {before after : Db}
    → Closed step task s t i before after
    → Closed step task s t i before (note_failure run_id task step message after)
note_failure-Closed run_id step task none s t i c = c
note_failure-Closed run_id step task (some m) s t i c = elim (Bool-cases (is_empty m)) [
  | inl silent ↦ rw silent c
  | inr said ↦ rw said (record {
    of_step = c.of_step;
    of_others = c.of_others;
    of_task = c.of_task;
    of_issue = c.of_issue;
    runs = c.runs;
  })
]

module _ (json_parse : List ℕ → Option Value) (index_text : ℕ → String) where
  -- When a bound run fails, with or without a message, the answer names the task and the step, the
  -- step, the task and the issue become failed, and every other step and all runs stay as they were.
  pub advance_task_from_run_terminal-failed :
      (run_id : String) (message : Option String) (db : Db) {run : Run} {task : Task} {step : Step}
      → bound_run run_id db ≡ some (run, task, step)
      → let (answer, after) =
          advance_task_from_run_terminal json_parse index_text run_id failed message db in
        (answer ≡ handled task.id step.id)
        × Closed step task StepStatus.failed TaskStatus.failed IssueStatus.failed db after
  unfolding advance_task_from_run_terminal fail_task
  advance_task_from_run_terminal-failed run_id message db {run} {task} {step} bound =
      let (has_task, has_step) = bound_run-rows run_id db bound in
      rw (bound, advance_task_from_run_terminal)
        (
          refl,
          note_failure-Closed run_id step task message _ _ _
              (set_all-Closed step task _ _ _ db has_step has_task),
        )

  -- When a bound run is cancelled, the answer names the task and the step, the step, the task and
  -- the issue become cancelled, and every other step and all runs stay as they were.
  pub advance_task_from_run_terminal-cancelled :
      (run_id : String) (message : Option String) (db : Db) {run : Run} {task : Task} {step : Step}
      → bound_run run_id db ≡ some (run, task, step)
      → let (answer, after) =
          advance_task_from_run_terminal json_parse index_text run_id cancelled message db in
        (answer ≡ handled task.id step.id)
        × Closed step task StepStatus.cancelled TaskStatus.cancelled IssueStatus.cancelled db after
  unfolding advance_task_from_run_terminal cancel_task
  advance_task_from_run_terminal-cancelled run_id message db {run} {task} {step} bound =
      let (has_task, has_step) = bound_run-rows run_id db bound in
      rw (bound, advance_task_from_run_terminal)
        (refl, set_all-Closed step task _ _ _ db has_step has_task)
