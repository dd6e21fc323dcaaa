-- ===== src/Workflow/Dispatch.antt =====
-- backend/src/modules/workflow/executionDispatch.ts: starting a run with the executor of its type. The
-- load of an agent, which a failure takes back, is not modelled.
pub mod Failed
use tuixiu.Executors.System.{start_system_execution}
use tuixiu.Db.Types.{ExecutorType}
use tuixiu.Workflow.Progress.{handled, not_handled}
use tuixiu.Db.Tables.{on_run, find_run}
use tuixiu.Workflow.Progress.{Advanced, handled, advance_task_from_run_terminal, TerminalOutcome}
use tuixiu.Db.Exec.{Exec, ◌>>◌, pure, ok, err, throw, thrown, ◌>>=◌}
use tuixiu.Executors.{Services, start_human_execution, start_ci_execution}
use tuixiu.Db.Types.{Run, RunStatus, Db}
use tuixiu.Prelude.{
  ℕ, String, Option, none, some, Bool, true, false, if◌then◌else◌, is_empty, ◌&&◌, not,
}

pub data DispatchReply : Type 0 where
  dispatched : DispatchReply
  undispatched : (error : String) → DispatchReply

-- a `task_updated` message for the clients
pub record TaskNotice : Type 0 where
  pub issue_id : String
  pub task_id : String
  pub step_id : Option String
  pub run_id : String
  pub reason : Option String

-- the answer, the message that is sent, and the task that is advanced afterwards
pub record Dispatch : Type 0 where
  pub reply : DispatchReply
  pub notice : Option TaskNotice
  pub advances : Option (String × String)

abbrev quiet : DispatchReply → Dispatch
quiet reply = record { reply = reply; notice = none; advances = none }

abbrev pub notice_of : Option String → Run → Option TaskNotice
notice_of reason run = elim run.task_id [
  | none ↦ none
  | some task_id ↦
      if is_empty task_id
      then none
      else some (record {
        issue_id = run.issue_id;
        task_id = task_id;
        step_id = run.step_id;
        run_id = run.id;
        reason = reason;
      })
]

abbrev advance_of : Bool → Run → Option (String × String)
advance_of executed run = elim run.task_id [
  | none ↦ none
  | some task_id ↦ if executed && not (is_empty task_id) then some (run.issue_id, task_id) else none
]

module _ (services : Services) (has_acp : Bool) (approval_id : String) (now : ℕ) where
  -- the answer of the executor
  abbrev ran : Dispatch → Exec (Unit {0}) → Exec Dispatch
  ran reply m = m >> pure reply

  unfoldable pub execute : String → Run → Exec Dispatch
  execute run_id run = elim run.executor_type [
    | ExecutorType.agent ↦
        if has_acp
        then ran (quiet dispatched) (services.start_acp_agent_execution run_id)
        else throw (thrown "acpTunnel 未配置")
    | ExecutorType.human ↦ ran (quiet dispatched) (start_human_execution run_id)
    | ExecutorType.ci ↦ ran (quiet dispatched) (start_ci_execution run_id)
    | ExecutorType.system ↦ start_system_execution services approval_id now run_id >>= λ executed.
        pure (record {
          reply = dispatched;
          notice = notice_of none run;
          advances = advance_of executed run;
        })
  ]

  abbrev pub executor_failed : String → Run → Run
  executor_failed message r = record r {
    status = RunStatus.failed;
    failure_reason = some "executor_failed";
    error_message = some message;
  }

  abbrev is_handled : Advanced → Bool
  is_handled not_handled = false
  is_handled (handled _ _) = true

  -- what a throw of the executor leaves
  unfoldable pub after_failure : String → Run → String → Db → Dispatch × Db
  after_failure run_id run message db =
      let failed_run = on_run run_id (executor_failed message) db in
      let (advanced, after) =
        advance_task_from_run_terminal services.json_parse services.index_text run_id
          TerminalOutcome.failed (some message) failed_run in
      (
        record {
          reply = undispatched message;
          notice = if is_handled advanced then notice_of (some "executor_failed") run else none;
          advances = none;
        },
        after,
      )

  unfoldable pub dispatch_execution_for_run : String → Db → Dispatch × Db
  dispatch_execution_for_run run_id db = elim (find_run run_id db) [
    | none ↦ (quiet (undispatched "Run 不存在"), db)
    | some run ↦
        let (result, after) = execute run_id run db in
        elim result [
          | ok reply ↦ (reply, after)
          | err fault ↦ after_failure run_id run (services.fault_text fault) after
        ]
  ]
