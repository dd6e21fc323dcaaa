-- ===== src/Acp/Finalize.antt =====
-- The end of a run whose prompt has been answered. The load of the agent is not modelled.
use tuixiu.Db.Tables.{on_run, find_run}
use tuixiu.Json.{Value}
use tuixiu.Workflow.Dispatch.{TaskNotice, notice_of}
use tuixiu.Db.Types.{RunStatus, IssueStatus, Db, Run}
use tuixiu.Workflow.Progress.{
  handled, not_handled, TerminalOutcome, Advanced, advance_task_from_run_terminal,
}
use tuixiu.Prelude.{
  ℕ, String, Option, none, some, Bool, true, false, List, modify, ◌==◌, ◌&&◌, if◌then◌else◌, not,
}

-- What is sent and started after the run's end: the message for the clients and whether the project's
-- manager is called.
pub record Finalized : Type 0 where
  pub notice : Option TaskNotice
  pub calls_pm : Bool

abbrev pub is_running : RunStatus → Bool
is_running RunStatus.running = true
is_running _ = false

abbrev pub issue_is_running : IssueStatus → Bool
issue_is_running IssueStatus.running = true
issue_is_running _ = false

-- `issue.updateMany({ where: { id, status: "running" }, data: { status: "reviewing" } })`
abbrev pub review_issue : String → Db → Db
review_issue id db = record db {
  issues =
      modify (λ i. i.id == id && issue_is_running i.status)
        (λ i. record i { status = IssueStatus.reviewing }) db.issues;
}

abbrev pub nothing_done : Finalized
nothing_done = record { notice = none; calls_pm = false }

-- The two flags of the run's metadata, of which the rows here keep only the step.
module _ (suppress_issue_status_update suppress_pm_auto_advance : Run → Bool)
    (json_parse : List ℕ → Option Value) (index_text : ℕ → String) where
  abbrev pub finalized_rows : Run → Advanced → Db → Db
  finalized_rows run (handled _ _) db = db
  finalized_rows run not_handled db =
      if suppress_issue_status_update run then db else review_issue run.issue_id db

  abbrev pub completed_run : String → Db → Db
  completed_run run_id db = on_run run_id (λ r. record r { status = RunStatus.completed }) db

  -- the end of a run that is running
  unfoldable pub end_run : String → Run → Db → Finalized × Db
  end_run run_id run db =
      let (advanced, after) =
        advance_task_from_run_terminal json_parse index_text run_id TerminalOutcome.completed none
          (completed_run run_id db) in
      (
        record {
          notice = elim advanced [ handled _ _ ↦ notice_of none run | not_handled ↦ none ];
          calls_pm = not (suppress_pm_auto_advance run);
        },
        finalized_rows run advanced after,
      )

  unfoldable pub finalize_run_if_running : String → Db → Finalized × Db
  finalize_run_if_running run_id db = elim (find_run run_id db) [
    | none ↦ (nothing_done, db)
    | some run ↦ if is_running run.status then end_run run_id run db else (nothing_done, db)
  ]
