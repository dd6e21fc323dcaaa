-- ===== src/Workflow/Engine/Start.antt =====
-- Starting a step.
use tuixiu.Db.Laws.{update_step-found, update_task-found}
use tuixiu.Prelude.{
  ℕ, String, some, ◌≡◌, refl, inl, inr, Bool-cases, find_self, find-modify_found, if◌then◌else◌,
  modify, ◌==◌,
}
use tuixiu.Db.Types.{StepStatus, Task, Step, Db}
use tuixiu.Db.Exec.{ok, bind_ok, require-some, not_ready}
use tuixiu.Db.Tables.{find_step, find_task, on_step, on_task, on_issue}
use tuixiu.Workflow.Engine.{
  StartStepBody, has_override, overridden, store_overrides, run_of_start, add_run, started_step,
  started_task, started_issue, start_step, next_attempt, if_ready,
}

-- The step with the overrides of the request, which are stored only if there are any.
abbrev pub with_overrides : Step → StartStepBody → Step
with_overrides step body = if has_override body then overridden step body step else step

abbrev pub stored_overrides : Step → StartStepBody → Db → Db
stored_overrides step body db = record db {
  steps =
      if has_override body
      then modify (λ r. r.id == step.id) (overridden step body) db.steps
      else db.steps;
}

-- What a start writes.
abbrev pub start_effect : String → ℕ → Task → Step → StartStepBody → Db → Db
start_effect run_id now task step body db = on_issue task.issue_id (started_issue step body) (
    on_task task.id (started_task step) (
      on_step step.id (started_step step body)
        (add_run (run_of_start run_id now task step body db) (stored_overrides step body db))))

store_overrides_lem :
    (step : Step) (body : StartStepBody) (db : Db)
    → find_step step.id db ≡ some step
    → store_overrides step body db ≡ (ok tt, stored_overrides step body db)
store_overrides_lem step body db e = elim (Bool-cases (has_override body)) [
  | inl h ↦ rw h (bind_ok _ _ (update_step-found step.id (overridden step body) db e) refl)
  | inr h ↦ rw h refl
]

stored_step :
    (step : Step) (body : StartStepBody) (db : Db)
    → find_step step.id db ≡ some step
    → find_step step.id (stored_overrides step body db) ≡ some (with_overrides step body)
stored_step step body db e = elim (Bool-cases (has_override body)) [
  | inl h ↦ rw h (find-modify_found (λ s. s.id) step.id _ db.steps (λ s. refl) e)
  | inr h ↦ rw h e
]

pub start_step-ready :
    (run_id : String) (now : ℕ) (step_id : String) (body : StartStepBody) (db : Db) {task : Task}
    {step : Step}
    → find_step step_id db ≡ some step
    → find_task step.task_id db ≡ some task
    → step.status ≡ StepStatus.ready
    → start_step run_id now step_id body db ≡ (
      ok (
        started_task step task,
        started_step step body (with_overrides step body),
        run_of_start run_id now task step body db,
      ),
      start_effect run_id now task step body db,
    )
unfolding start_step next_attempt
start_step-ready run_id now step_id body db {task} {step} has_step has_task ready =
    let found = find_self (λ (s : Step). s.id) step_id db.steps has_step in
    let found_task = find_self (λ (t : Task). t.id) step.task_id db.tasks has_task in
    bind_ok _ _ (require-some _ _ has_step) (
      bind_ok _ _ (require-some _ _ has_task) (
        bind_ok _ _ (require-some not_ready {o = if_ready step.status} _ (rw ready refl)) (
          bind_ok _ _ (store_overrides_lem step body db found) (
            bind_ok _ _ refl (
              bind_ok _ _ refl (
                bind_ok _ _ (update_step-found step.id _ _ (stored_step step body db found)) (
                  bind_ok _ _ (update_task-found task.id _ _ found_task)
                    (bind_ok _ _ refl refl))))))))
