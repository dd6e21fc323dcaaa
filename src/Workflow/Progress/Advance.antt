-- ===== src/Workflow/Progress/Advance.antt =====
-- What the end of a run leaves in the tables, row by row.
use tuixiu.Prelude.{
  ℕ, String, Option, some, List, ◌∷◌, ◌≡◌, refl, sym, ◌≢◌, Bool-cases, Option-cases, inl, inr, [],
  find_self, ◌==◌, eq_iff, arith, All, DistinctIds, All-select, All-order_by, All-find_self,
  DistinctIds-select, DistinctIds-order_by, find-modify_self, find-modify_found, ◌∙◌,
  find-modify_ne,
}
use mathlib.Core.Option
use tuixiu.Json.{Value}
use tuixiu.Db.Types.{IssueStatus, TaskStatus, StepStatus, Issue, Task, Step, Run, Db}
use tuixiu.Db.Tables.{on_task, steps_of, find_step, find_task, find_issue, find_run}
use tuixiu.Workflow.Progress.{
  bound_to, set_step, set_issue, completed, handled, bound_run, next_after, go_to_step,
  complete_step, maybe_create_agent_artifacts, agent_artifact, advance_task_from_run_terminal,
}

abbrev pub HasDistinctSteps : Db → Type 0
HasDistinctSteps db = DistinctIds (λ (s : Step). s.id) db.steps

-- The step behind another is another row of the list.
next_after-mem :
    (P : Step → Type 0) (id : String) (steps : List Step) {next : Step}
    → All P steps
    → DistinctIds (λ (s : Step). s.id) steps
    → next_after id steps ≡ some next
    → P next × (next.id ≢ id)
unfolding next_after
next_after-mem P id [] h d e = cc
next_after-mem P id (s ∷ []) {next} h d e = ground arith
next_after-mem P id (s ∷ r ∷ rest) {next} h d e = elim (Bool-cases (s.id == id)) [
  | inl same ↦
      let found : r ≡ next = ground arith in
      let key : s.id ≡ id = (eq_iff s.id id).0 same in rw (← found, ← key) (h.1.0, d.0.0)
  | inr other ↦ next_after-mem P id (r ∷ rest) h.1 d.1 (ground arith)
]

pub All-steps_of :
    (P : Step → Type 0) (id : String) (db : Db) → All P db.steps → All P (steps_of id db)
unfolding steps_of
All-steps_of P id db h = All-order_by P _ _ (All-select P _ db.steps h)

pub DistinctIds-steps_of :
    (id : String) (db : Db)
    → HasDistinctSteps db
    → DistinctIds (λ (s : Step). s.id) (steps_of id db)
unfolding steps_of
DistinctIds-steps_of id db d =
    DistinctIds-order_by (λ s. s.id) _ _ (DistinctIds-select (λ s. s.id) _ db.steps d)

pub next_after-steps_of :
    (task_id id : String) (db : Db) {next : Step}
    → HasDistinctSteps db
    → next_after id (steps_of task_id db) ≡ some next
    → (find_step next.id db ≡ some next) × (next.id ≢ id)
next_after-steps_of task_id id db d e =
    next_after-mem (λ s. find_step s.id db ≡ some s) id (steps_of task_id db)
      (All-steps_of _ task_id db (All-find_self (λ s. s.id) db.steps d))
      (DistinctIds-steps_of task_id db d) e

bound_to-rows :
    (r : Run) (task_id step_id : Option String) (db : Db) {run : Run} {task : Task} {step : Step}
    → bound_to r task_id step_id db ≡ some (run, task, step)
    → (find_task task.id db ≡ some task) × (find_step step.id db ≡ some step)
unfolding bound_to
bound_to-rows r (some i) (some j) db {task} {step} h = ground (
  arith,
  find_self (λ (t : Task). t.id) i db.tasks {x = task},
  find_self (λ (s : Step). s.id) j db.steps {x = step},
)
bound_to-rows r _ _ db h = ground arith

-- A bound run's task and step are rows of the tables.
pub bound_run-rows :
    (run_id : String) (db : Db) {run : Run} {task : Task} {step : Step}
    → bound_run run_id db ≡ some (run, task, step)
    → (find_task task.id db ≡ some task) × (find_step step.id db ≡ some step)
unfolding bound_run
bound_run-rows run_id db h = elim (Option-cases (find_run run_id db)) [
  | inl e ↦ ground arith
  | inr (r, e) ↦ bound_to-rows r r.task_id r.step_id db (rw (e, bound_run) at h)
]

pub bound_run-found :
    (run_id task_id step_id : String) (db : Db) {run : Run} {task : Task} {step : Step}
    → find_run run_id db ≡ some run
    → run.task_id ≡ some task_id
    → run.step_id ≡ some step_id
    → find_task task_id db ≡ some task
    → find_step step_id db ≡ some step
    → bound_run run_id db ≡ some (run, task, step)
unfolding bound_run
bound_run-found run_id task_id step_id db has_run of_task of_step has_task has_step =
    rw (has_run, bound_run)
      (rw (of_task, of_step) (rw (has_task, bound_to) (rw (has_step, bound_to))))

module _ (json_parse : List ℕ → Option Value) (index_text : ℕ → String) where
  -- The artifacts of an agent are events, and change nothing else.
  pub artifacts-rows :
      (run : Run) (step : Step) (db : Db)
      → let after = maybe_create_agent_artifacts json_parse index_text run step db in
        (after.steps ≡ db.steps) × (after.tasks ≡ db.tasks) × (after.issues ≡ db.issues)
  unfolding maybe_create_agent_artifacts
  artifacts-rows run step db =
      elim (Option-cases (agent_artifact json_parse index_text run step db)) [
        | inl e ↦ rw (e, maybe_create_agent_artifacts) (refl, refl, refl)
        | inr (x, e) ↦ rw (e, maybe_create_agent_artifacts) (refl, refl, refl)
      ]

  pub advance_task_from_run_terminal-completed :
      (run_id : String) (message : Option String) (db : Db) {run : Run} {task : Task} {step : Step}
      → bound_run run_id db ≡ some (run, task, step)
      → advance_task_from_run_terminal json_parse index_text run_id completed message db ≡ (
        handled task.id step.id,
        complete_step json_parse index_text run task step (steps_of task.id db) db,
      )
  unfolding advance_task_from_run_terminal
  advance_task_from_run_terminal-completed run_id message db bound =
      rw (bound, advance_task_from_run_terminal)

  pub complete_step-next :
      (run : Run) (task : Task) (step : Step) (steps : List Step) (db : Db) {next : Step}
      → next_after step.id steps ≡ some next
      → next.status ≡ StepStatus.pending
      → complete_step json_parse index_text run task step steps db
        ≡ set_issue task.issue_id IssueStatus.running (
            on_task task.id
              (λ t. record t { status = TaskStatus.running; current_step_id = some next.id })
              (set_step next.id StepStatus.ready (
                set_step step.id StepStatus.completed
                  (maybe_create_agent_artifacts json_parse index_text run step db))))
  unfolding complete_step go_to_step
  complete_step-next run task step steps db follows pending =
      rw (follows, complete_step) (rw (pending, go_to_step))

  -- When a bound run completes and a step that is pending follows the run's step in the order of the
  -- task, and step ids are distinct, the answer names the task and the step, the step becomes
  -- completed and the next one ready, every other step stays as it was, and the task runs at the
  -- next step with its issue running.
  pub advance_task_from_run_terminal-next :
      (run_id : String) (message : Option String) (db : Db) {run : Run} {task : Task}
      {step next : Step}
      → HasDistinctSteps db
      → bound_run run_id db ≡ some (run, task, step)
      → next_after step.id (steps_of task.id db) ≡ some next
      → next.status ≡ StepStatus.pending
      → let (answer, after) =
          advance_task_from_run_terminal json_parse index_text run_id completed message db in
        (answer ≡ handled task.id step.id)
        × (find_step step.id after ≡ some (record step { status = StepStatus.completed }))
        × (find_step next.id after ≡ some (record next { status = StepStatus.ready }))
        × ((id : String) → id ≢ step.id → id ≢ next.id → find_step id after ≡ find_step id db)
        × (find_task task.id after
            ≡ some (record task { status = TaskStatus.running; current_step_id = some next.id }))
        × (find_issue task.issue_id after
            ≡ Option.map {A = Issue}
                (λ i. record i { status = IssueStatus.running })
                (find_issue task.issue_id db))
  advance_task_from_run_terminal-next run_id message db {run} {task} {step} {next} d bound follows
        pending =
      let (same_steps, same_tasks, same_issues) = artifacts-rows run step db in
      let (has_task, has_step) = bound_run-rows run_id db bound in
      let (has_next, other) = next_after-steps_of task.id step.id db d follows in
      rw (advance_task_from_run_terminal-completed run_id message db bound) (
        rw (complete_step-next run task step (steps_of task.id db) db follows pending) (
          rw (same_steps, same_tasks, same_issues)
            (
              refl,
              find-modify_ne (λ s. s.id) next.id step.id _ _ (λ s. refl) other
                  ∙ find-modify_found (λ s. s.id) step.id _ db.steps (λ s. refl) has_step,
              find-modify_found (λ s. s.id) next.id _ _ (λ s. refl)
                  (find-modify_ne (λ s. s.id) step.id next.id _ db.steps (λ s. refl)
                      (λ e. other (sym e))
                    ∙ has_next),
              λ id ns nn.
                  find-modify_ne (λ s. s.id) next.id id _ _ (λ s. refl) (λ e. nn (sym e))
                  ∙ find-modify_ne (λ s. s.id) step.id id _ db.steps (λ s. refl) (λ e. ns (sym e)),
              find-modify_found (λ t. t.id) task.id _ db.tasks (λ t. refl) has_task,
              find-modify_self (λ i. i.id) task.issue_id _ db.issues (λ i. refl),
            )))
