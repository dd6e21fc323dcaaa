-- ===== src/Acp/Once.antt =====
-- A run is finalized once.
use mathlib.Core.Option.{some_inj}
use tuixiu.Db.Tables.{find_run, steps_of}
use tuixiu.Acp.Finalize.{
  finalize_run_if_running, Finalized, finalized_rows, end_run, nothing_done, is_running,
  completed_run,
}
use tuixiu.Db.Types.{Run, Step, Task, Db, StepStatus, RunStatus}
use tuixiu.Json.{Value}
use tuixiu.Workflow.Progress.{
  handled, not_handled, TerminalOutcome, maybe_create_agent_artifacts, go_to_step, complete_step,
  advance_task_from_run_terminal, finish_task, Advanced, agent_artifact, is_pending, next_after,
  bound_run, set_step,
}
use tuixiu.Prelude.{
  ℕ, String, Option, none, some, Bool, true, false, List, refl, ◌≡◌, Option-cases, Bool-cases, inl,
  inr, ◌∙◌, ap, sym, subst, find, ◌==◌, find-modify_found, if◌then◌else◌,
}

module _ (json_parse : List ℕ → Option Value) (index_text : ℕ → String) where
  artifacts-runs :
      (run : Run) (step : Step) (db : Db)
      → (maybe_create_agent_artifacts json_parse index_text run step db).runs ≡ db.runs
  unfolding maybe_create_agent_artifacts
  artifacts-runs run step db =
      elim (Option-cases (agent_artifact json_parse index_text run step db)) [
        | inl e ↦ rw (e, maybe_create_agent_artifacts) refl
        | inr (x, e) ↦ rw (e, maybe_create_agent_artifacts) refl
      ]

  go_to_step-runs : (task : Task) (next : Step) (db : Db) → (go_to_step task next db).runs ≡ db.runs
  unfolding go_to_step
  go_to_step-runs task next db = elim (Bool-cases (is_pending next.status)) [
    | inl opens ↦ rw (opens, go_to_step) refl
    | inr open_already ↦ rw (open_already, go_to_step) refl
  ]

  complete_step-runs :
      (run : Run) (task : Task) (step : Step) (steps : List Step) (db : Db)
      → (complete_step json_parse index_text run task step steps db).runs ≡ db.runs
  unfolding complete_step finish_task
  complete_step-runs run task step steps db = elim (Option-cases (next_after step.id steps)) [
    | inl last ↦ rw (last, complete_step) (artifacts-runs run step db)
    | inr (next, follows) ↦
        rw (follows, complete_step)
          (go_to_step-runs task next (
              set_step step.id StepStatus.completed
                (maybe_create_agent_artifacts json_parse index_text run step db))
            ∙ artifacts-runs run step db)
  ]

  advance-runs :
      (run_id : String) (message : Option String) (db : Db)
      → (advance_task_from_run_terminal json_parse index_text run_id TerminalOutcome.completed
          message db).1.runs
        ≡ db.runs
  unfolding advance_task_from_run_terminal
  advance-runs run_id message db = elim (Option-cases (bound_run run_id db)) [
    | inl e ↦ rw (e, advance_task_from_run_terminal) refl
    | inr ((run, task, step), e) ↦
        rw (e, advance_task_from_run_terminal)
          (complete_step-runs run task step (steps_of task.id db) db)
  ]

  module _ (suppress_issue_status_update suppress_pm_auto_advance : Run → Bool) where
    abbrev finalize : String → Db → Finalized × Db
    finalize =
        finalize_run_if_running suppress_issue_status_update suppress_pm_auto_advance json_parse
          index_text

    review_keeps :
        (run : Run) (advanced : Advanced) (db : Db)
        → (finalized_rows suppress_issue_status_update suppress_pm_auto_advance json_parse
            index_text run advanced db).runs
          ≡ db.runs
    review_keeps run (handled _ _) db = refl
    review_keeps run not_handled db = elim (Bool-cases (suppress_issue_status_update run)) [
      | inl kept ↦ rw kept refl
      | inr reviewed ↦ rw reviewed refl
    ]

    idle :
        (run_id : String) (db : Db)
        → ((run : Run) → find_run run_id db ≡ some run → is_running run.status ≡ false)
        → finalize run_id db ≡ (nothing_done, db)
    unfolding finalize_run_if_running
    idle run_id db h = elim (Option-cases (find_run run_id db)) [
      | inl e ↦ rw (e, finalize_run_if_running) refl
      | inr (run, e) ↦ rw (e, h run e, finalize_run_if_running) refl
    ]

    still_idle :
        (run_id : String) (db : Db)
        → ((run : Run) → find_run run_id db ≡ some run → is_running run.status ≡ false)
        → let once = (finalize run_id db).1 in finalize run_id once ≡ (nothing_done, once)
    still_idle run_id db h =
        let same = ap (λ r. r.1) (idle run_id db h) in
        subst (λ d. finalize run_id d ≡ (nothing_done, d)) (sym same) (idle run_id db h)

    end_run-runs :
        (run_id : String) (run : Run) (db : Db)
        → (end_run suppress_issue_status_update suppress_pm_auto_advance json_parse index_text
            run_id run db).1.runs
          ≡ (completed_run suppress_issue_status_update suppress_pm_auto_advance json_parse
              index_text run_id db).runs
    unfolding end_run
    end_run-runs run_id run db =
        let marked =
          completed_run suppress_issue_status_update suppress_pm_auto_advance json_parse index_text
            run_id db in
        let (advanced, after) =
          advance_task_from_run_terminal json_parse index_text run_id TerminalOutcome.completed none
            marked in
        review_keeps run advanced after ∙ advance-runs run_id none marked

    finalized_running :
        (run_id : String) (db : Db) {run : Run}
        → find_run run_id db ≡ some run
        → is_running run.status ≡ true
        → finalize run_id db
          ≡ end_run suppress_issue_status_update suppress_pm_auto_advance json_parse index_text
              run_id run db
    unfolding finalize_run_if_running
    finalized_running run_id db found running = rw (found, running, finalize_run_if_running) refl

    -- A run that is found is found finalized.
    pub finalize_run_if_running-found :
        (run_id : String) (db : Db) {run : Run}
        → find_run run_id db ≡ some run
        → find_run run_id (finalize run_id db).1
          ≡ some
              (if is_running run.status then record run { status = RunStatus.completed } else run)
    unfolding finalize_run_if_running
    finalize_run_if_running-found run_id db {run} e = elim (Bool-cases (is_running run.status)) [
      | inr off ↦ rw (e, off, finalize_run_if_running) e
      | inl on ↦
          rw (on, finalized_running run_id db e on)
            (ap (find (λ (r : Run). r.id == run_id)) (end_run-runs run_id run db)
              ∙ find-modify_found (λ (r : Run). r.id) run_id
                  (λ r. record r { status = RunStatus.completed }) db.runs (λ r. refl) e)
    ]

    -- Finalizing a run a second time writes nothing, sends nothing and does not call the project's
    -- manager.
    pub finalize_run_if_running-once :
        (run_id : String) (db : Db)
        → let once = (finalize run_id db).1 in finalize run_id once ≡ (nothing_done, once)
    finalize_run_if_running-once run_id db = elim (Option-cases (find_run run_id db)) [
      | inl e ↦ still_idle run_id db (λ run e'. absurd (cc (sym e ∙ e')))
      | inr (run, e) ↦ elim (Bool-cases (is_running run.status)) [
        | inr off ↦
            still_idle run_id db
              (λ r e'. ap (λ (x : Run). is_running x.status) (some_inj.0 (sym e' ∙ e)) ∙ off)
        | inl on ↦
            let ended = finalized_running run_id db e on in
            let found =
              ap (find (λ (r : Run). r.id == run_id)) (end_run-runs run_id run db)
              ∙ find-modify_found (λ (r : Run). r.id) run_id
                  (λ r. record r { status = RunStatus.completed }) db.runs (λ r. refl) e in
            subst (λ d. finalize run_id d ≡ (nothing_done, d)) (sym (ap (λ r. r.1) ended))
              (idle run_id _
                (λ r e'. ap (λ (x : Run). is_running x.status) (some_inj.0 (sym e' ∙ found))))
      ]
    ]
