-- ===== src/Workflow/Pipeline/Drive.antt =====
-- Driving a task: each round starts the step that the task points at, and reports that its run has
-- completed. The rounds are as many as the steps that are left, so that no fuel is needed.
use tuixiu.Workflow.Progress.Advance.{advance_task_from_run_terminal-completed}
use tuixiu.Prelude.{
  ℕ, suc, String, Option, none, some, List, [], ◌∷◌, ◌++◌, ◌≡◌, refl, sym, ap, ◌∙◌, ◌==◌, find,
  length, All, DistinctIds, Option-cases, inl, inr, arith, eq_iff, find-append_other, subst,
}
use tuixiu.Json.{Value}
use tuixiu.Db.Types.{StepStatus, Run, Task, Step, Db}
use tuixiu.Db.Tables.{find_task, find_run}
use tuixiu.Workflow.Engine.{StartStepBody, start_step, new_run}
use tuixiu.Workflow.Progress.{
  completed, advance_task_from_run_terminal, go_to_step, finish_task, complete_step, agent_artifact,
  maybe_create_agent_artifacts,
}
use tuixiu.Workflow.Pipeline.Rows.{Stage}
use tuixiu.Workflow.Pipeline.Start.{
  started, start-effect, Stage-effect, bound_run-effect, effect, run,
}
use tuixiu.Workflow.Pipeline.Complete.{Stage-complete_next, with_status}
use tuixiu.Workflow.Pipeline.End.{Ended, Stage-complete_last}

-- a start: the id of the run that it creates, and the request
abbrev pub StartRequest : Type 0
StartRequest = String × StartStepBody

module _ (json_parse : List ℕ → Option Value) (index_text : ℕ → String) where
  -- the run of the step that the task points at is created, and it completes
  unfoldable pub round : String → StartRequest → Db → Db
  round task_id (run_id, body) db = elim (find_task task_id db) [
    | none ↦ db
    | some task ↦ elim task.current_step_id [
      | none ↦ db
      | some step_id ↦
          (advance_task_from_run_terminal json_parse index_text run_id completed none
            (start_step run_id 0 step_id body db).1).1
    ]
  ]

  unfoldable pub drive : String → List StartRequest → Db → Db
  drive task_id [] db = db
  drive task_id (request ∷ rest) db = drive task_id rest (round task_id request db)

  artifacts-runs :
      (run : Run) (step : Step) (db : Db)
      → (maybe_create_agent_artifacts json_parse index_text run step db).runs ≡ db.runs
  unfolding maybe_create_agent_artifacts
  artifacts-runs run step db =
      elim (Option-cases (agent_artifact json_parse index_text run step db)) [
        | inl e ↦ rw (e, maybe_create_agent_artifacts) refl
        | inr (x, e) ↦ rw (e, maybe_create_agent_artifacts) refl
      ]

  complete_step-runs :
      (run : Run) (task : Task) (step : Step) (steps : List Step) (db : Db)
      → (complete_step json_parse index_text run task step steps db).runs ≡ db.runs
  unfolding complete_step go_to_step finish_task
  complete_step-runs run task step steps db = ground (arith, artifacts-runs run step db)

abbrev pub IsFresh : List StartRequest → List Run → Type 0
IsFresh requests runs =
    All (λ r. find (λ (run : Run). run.id == r.0) runs ≡ none) requests
    × DistinctIds (λ (r : StartRequest). r.0) requests

IsFresh-next :
    (r : StartRequest) (rest : List StartRequest) (runs : List Run) (run : Run)
    → run.id ≡ r.0
    → IsFresh (r ∷ rest) runs
    → IsFresh rest (runs ++ run ∷ [])
IsFresh-next r [] runs run same fresh = (tt, tt)
IsFresh-next r (s ∷ rest) runs run same fresh =
    let (later, distinct) =
      IsFresh-next r rest runs run same ((fresh.0.0, fresh.0.1.1), (fresh.1.0.1, fresh.1.1.1)) in
    (
      (
        find-append_other (λ x. x.id == s.0) runs run fresh.0.1.0
            (ground (arith, eq_iff run.id s.0, fresh.1.0.0)),
        later,
      ),
      fresh.1.1,
    )

module _ (json_parse : List ℕ → Option Value) (index_text : ℕ → String) where
  round-found :
      (task_id run_id step_id : String) (body : StartStepBody) (db : Db) {task : Task}
      → find_task task_id db ≡ some task
      → task.current_step_id ≡ some step_id
      → round json_parse index_text task_id (run_id, body) db
        ≡ (advance_task_from_run_terminal json_parse index_text run_id completed none
            (start_step run_id 0 step_id body db).1).1
  unfolding round
  round-found task_id run_id step_id body db has_task points =
      rw (has_task, round) (rw (points, round))

  round-stage :
      {task_id : String} {before : List Step} {step : Step} {after : List Step} {db : Db}
      (run_id : String) (body : StartStepBody) (stage : Stage task_id before step after db)
      (ready : step.status ≡ StepStatus.ready)
      → round json_parse index_text task_id (run_id, body) db
        ≡ (advance_task_from_run_terminal json_parse index_text run_id completed none
            (effect run_id 0 body stage ready)).1
  round-stage {task_id} {step} {db} run_id body stage ready =
      round-found task_id run_id step.id body db stage.has_task stage.points
      ∙ ap (λ d. (advance_task_from_run_terminal json_parse index_text run_id completed none d).1)
          (start-effect run_id 0 body stage ready)

  round-runs :
      {task_id : String} {before : List Step} {step : Step} {after : List Step} {db : Db}
      (run_id : String) (body : StartStepBody) (stage : Stage task_id before step after db)
      (ready : step.status ≡ StepStatus.ready)
      → find_run run_id db ≡ none
      → (round json_parse index_text task_id (run_id, body) db).runs
        ≡ db.runs ++ run run_id 0 body stage ready ∷ []
  round-runs run_id body stage ready new = rw (round-stage run_id body stage ready) (
      rw
        (advance_task_from_run_terminal-completed json_parse index_text run_id none _
          (bound_run-effect run_id 0 body stage ready new))
        (complete_step-runs json_parse index_text _ _ _ _ _))

  pub drive_stage-Ended :
      (after : List Step) (requests : List StartRequest) {task_id : String} {before : List Step}
      {step : Step} {db : Db}
      → Stage task_id before step after db
      → step.status ≡ StepStatus.ready
      → length requests ≡ suc (length after)
      → IsFresh requests db.runs
      → Ended task_id (drive json_parse index_text task_id requests db)
  unfolding drive new_run
  drive_stage-Ended after [] stage ready count fresh = absurd (omega arith)
  drive_stage-Ended [] (r ∷ []) stage ready count fresh = rw (round-stage r.0 r.1 stage ready) (
      Stage-complete_last json_parse index_text r.0 none (Stage-effect r.0 0 r.1 stage ready)
        (bound_run-effect r.0 0 r.1 stage ready fresh.0.0))
  drive_stage-Ended [] (r ∷ s ∷ rest) stage ready count fresh = absurd (omega arith)
  drive_stage-Ended (next ∷ after) (r ∷ rest) {task_id} {before} {step} stage ready count fresh =
      let moved =
        subst
          (Stage task_id (before ++ with_status StepStatus.completed (started step r.1) ∷ [])
            (with_status StepStatus.ready next) after)
          (sym (round-stage r.0 r.1 stage ready))
          (Stage-complete_next json_parse index_text r.0 none (Stage-effect r.0 0 r.1 stage ready)
            (bound_run-effect r.0 0 r.1 stage ready fresh.0.0)) in
      drive_stage-Ended after rest moved refl (omega arith)
        (rw (round-runs r.0 r.1 stage ready fresh.0.0) (IsFresh-next r rest _ _ refl fresh))
