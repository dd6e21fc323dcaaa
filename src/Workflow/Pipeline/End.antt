-- ===== src/Workflow/Pipeline/End.antt =====
-- The completion of the last step ends the task, and settles its issue.
use mathlib.Core.Option.{some_inj}
use tuixiu.Prelude.{
  ℕ, String, Option, none, some, Bool, List, [], ◌≡◌, refl, sym, ap, ◌∙◌, ◌==◌, find, modify, All,
  order_by, last_or_none, last_or_none-modify, order_by-modify, find-modify_self, Option-cases, inl,
  inr, if◌then◌else◌, ◌<|◌, find-modify_found,
}
use mathlib.Core.Option
use tuixiu.Json.{Value}
use tuixiu.Db.Types.{IssueStatus, TaskStatus, StepStatus, Issue, Run, Task, Step, Db}
use tuixiu.Db.Tables.{steps_of, find_task, find_issue}
use tuixiu.Workflow.Progress.{
  completed, bound_run, next_after, set_step, set_task, set_issue, maybe_create_agent_artifacts,
  complete_step, finish_task, last_step_kind, issue_status_on_task_completed,
  advance_task_from_run_terminal,
}
use tuixiu.Workflow.Progress.Advance.{artifacts-rows, advance_task_from_run_terminal-completed}
use tuixiu.Workflow.Pipeline.Rows.{Stage, steps_of-modify, steps_of-modify_current}
use tuixiu.Workflow.Pipeline.Complete.{
  with_status, KeepsPlace-with_status, All-concat, follows, task_row, task_key,
}

-- Every step is completed, so is the task, and the issue has the status that the last step gives.
pub record Ended (task_id : String) (db : Db) : Type 0 where
  pub task : Task
  pub has_task : find_task task_id db ≡ some task
  pub status : task.status ≡ TaskStatus.completed
  pub done : All (λ s. s.status ≡ StepStatus.completed) (steps_of task_id db)
  pub settled :
      (i : Issue)
      → find_issue task.issue_id db ≡ some i
      → i.status ≡ issue_status_on_task_completed (steps_of task_id db)

last_step_kind-modify :
    (p : Step → Bool) (f : Step → Step) (steps : List Step)
    → ((s : Step) → (f s).order ≡ s.order)
    → ((s : Step) → (f s).kind ≡ s.kind)
    → last_step_kind (modify p f steps) ≡ last_step_kind steps
unfolding last_step_kind
last_step_kind-modify p f steps order kind =
    ap (λ o. o <| "")
      (ap (λ xs. Option.map (λ (s : Step). s.kind) (last_or_none xs))
          (order_by-modify (λ s. s.order) p f steps order)
        ∙ last_or_none-modify (λ s. s.kind) p f (order_by (λ s. s.order) steps) kind)

issue_status-modify :
    (p : Step → Bool) (f : Step → Step) (steps : List Step)
    → ((s : Step) → (f s).order ≡ s.order)
    → ((s : Step) → (f s).kind ≡ s.kind)
    → issue_status_on_task_completed (modify p f steps) ≡ issue_status_on_task_completed steps
unfolding issue_status_on_task_completed
issue_status-modify p f steps order kind =
    ap (λ k. if k == "pr.merge" then IssueStatus.done else IssueStatus.pending)
      (last_step_kind-modify p f steps order kind)

found_status :
    (id : String) (status : IssueStatus) (issues : List Issue) (i : Issue)
    → find (λ r. r.id == id) (modify (λ r. r.id == id) (λ r. record r { status = status }) issues)
      ≡ some i
    → i.status ≡ status
found_status id status issues i h = elim (Option-cases (find (λ r. r.id == id) issues)) [
  | inl e ↦
      let lost =
        find-modify_self (λ (r : Issue). r.id) id (λ r. record r { status = status }) issues
          (λ r. refl) in
      absurd (cc (lost, ap (Option.map {A = Issue} (λ r. record r { status = status })) e))
  | inr (x, e) ↦
      let found =
        find-modify_found (λ (r : Issue). r.id) id (λ r. record r { status = status }) issues
          (λ r. refl) e in
      sym (ap (λ r. r.status) (some_inj.0 (sym found ∙ h)))
]

module _ (json_parse : List ℕ → Option Value) (index_text : ℕ → String) where
  complete_step-last :
      (run : Run) (task : Task) (step : Step) (steps : List Step) (db : Db)
      → next_after step.id steps ≡ none
      → complete_step json_parse index_text run task step steps db
        ≡ set_issue task.issue_id (issue_status_on_task_completed steps) (
            set_task task.id TaskStatus.completed (
              set_step step.id StepStatus.completed
                (maybe_create_agent_artifacts json_parse index_text run step db)))
  unfolding complete_step finish_task
  complete_step-last run task step steps db last = rw (last, complete_step)

  pub Stage-complete_last :
      (run_id : String) (message : Option String) {task_id : String} {before : List Step}
      {step : Step} {db : Db} {run : Run} (stage : Stage task_id before step [] db)
      → bound_run run_id db ≡ some (run, stage.task, step)
      → Ended task_id
          (advance_task_from_run_terminal json_parse index_text run_id completed message db).1
  unfolding steps_of
  Stage-complete_last run_id message {task_id} {before} {step} {db} {run} stage bound =
      let (same_steps, same_tasks, same_issues) =
        artifacts-rows json_parse index_text run step db in
      rw (advance_task_from_run_terminal-completed json_parse index_text run_id message db bound) (
        rw (complete_step-last run stage.task step (steps_of stage.task.id db) db (follows stage))
          (record {
            task = record (stage.task) { status = TaskStatus.completed };
            has_task = rw same_tasks (task_row stage _ (λ t. refl));
            status = refl;
            done = rw same_steps (
                rw
                  (steps_of-modify_current task_id before step [] db stage.rows stage.distinct
                    (with_status StepStatus.completed)
                    (KeepsPlace-with_status StepStatus.completed))
                  (All-concat _ before stage.done refl));
            settled = λ i h.
                found_status stage.task.issue_id _ _ i h
                ∙ ap (λ id. issue_status_on_task_completed (steps_of id db)) (task_key stage)
                ∙ sym (
                    rw same_steps (
                      rw
                        (steps_of-modify task_id _ (with_status StepStatus.completed) db
                          (KeepsPlace-with_status StepStatus.completed))
                        (issue_status-modify _ (with_status StepStatus.completed)
                          (steps_of task_id db) (λ s. refl) (λ s. refl))));
          }))
