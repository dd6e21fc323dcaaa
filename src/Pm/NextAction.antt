-- ===== src/Pm/NextAction.antt =====
-- backend/src/modules/pm/pmNextAction.ts: what to do next about an issue. Tasks and events are in
-- their tables in the order of creation.
pub mod Laws
use tuixiu.Prelude.{
  ℕ, String, Option, none, some, Bool, true, false, List, [], ◌∷◌, ◌++◌, ◌==◌, ◌&&◌, ◌||◌, is_empty,
  trim, find, select, take, newest_first, last_or_none, head_or_none, if◌then◌else◌, ◌<|◌, ◌<|>◌,
}
use mathlib.Core.Option
use Prim.Native.String
use tuixiu.Json.{Value, prop, as_string}
use tuixiu.Db.Types.{
  IssueStatus, ExecutorType, RunStatus, TaskStatus, StepStatus, ApprovalAction, ApprovalStatus,
  Approval, Project, Issue, Task, Step, Run, Event, Db,
}
use tuixiu.Db.Tables.{find_issue, find_run, find_step, steps_of}
use tuixiu.Approvals.{ApprovalSummary, to_approval_summary}

pub data NextActionSource : Type 0 where
  approval task auto_review issue fallback : NextActionSource

pub record StepView : Type 0 where
  pub id : String
  pub key : String
  pub kind : String
  pub status : StepStatus
  pub executor_type : ExecutorType

pub record RunView : Type 0 where
  pub id : String
  pub status : RunStatus

pub record PmNextAction : Type 0 where
  pub issue_id : String
  pub action : String
  pub reason : String
  pub source : NextActionSource
  pub task_id : Option String
  pub step : Option StepView
  pub run : Option RunView
  pub approval : Option ApprovalSummary

pub data NextActionReply : Type 0 where
  bad_request not_found : NextActionReply
  next_action : PmNextAction → NextActionReply

abbrev action_text : ApprovalAction → String
action_text ApprovalAction.merge_pr = "merge_pr"
action_text ApprovalAction.create_pr = "create_pr"
action_text ApprovalAction.publish_artifact = "publish_artifact"

abbrev pub is_terminal_task_status : TaskStatus → Bool
is_terminal_task_status TaskStatus.completed = true
is_terminal_task_status TaskStatus.failed = true
is_terminal_task_status TaskStatus.cancelled = true
is_terminal_task_status _ = false

abbrev pub is_running : TaskStatus → Bool
is_running TaskStatus.running = true
is_running _ = false

abbrev pub is_blocked : TaskStatus → Bool
is_blocked TaskStatus.blocked = true
is_blocked _ = false

abbrev pub is_pending : TaskStatus → Bool
is_pending TaskStatus.pending = true
is_pending _ = false

unfoldable pub pick_active_task : List Task → Option Task
pick_active_task tasks =
    find (λ t. is_running t.status) tasks
    <|> find (λ t. is_blocked t.status) tasks
    <|> find (λ t. is_pending t.status) tasks
    <|> head_or_none tasks

unfoldable pub pick_current_step : Task → List Step → Option Step
pick_current_step t steps = elim t.current_step_id [
  | none ↦ none
  | some id ↦ if is_empty id then none else find (λ s. s.id == id) steps
]

abbrev text_is_some : String → Option String → Bool
text_is_some expected none = false
text_is_some expected (some s) = s == expected

unfoldable pub pick_latest_run_for_step : List Run → String → String → Option Run
pick_latest_run_for_step runs task_id step_id = head_or_none (
    newest_first (λ r. r.started_at)
      (select (λ r. text_is_some task_id r.task_id && text_is_some step_id r.step_id) runs))

abbrev reversed : {A : Type 0} → List A → List A
reversed [] = []
reversed (x ∷ xs) = reversed xs ++ x ∷ []

abbrev pub tasks_of_issue : String → Db → List Task
tasks_of_issue id db = take 10 (reversed (select (λ t. t.issue_id == id) db.tasks))

abbrev pub runs_of_issue : String → Db → List Run
runs_of_issue id db =
    take 20 (newest_first (λ r. r.started_at) (select (λ r. r.issue_id == id) db.runs))

abbrev run_is_of : String → String → Db → Bool
run_is_of run_id issue_id db = elim (find_run run_id db) [
  | none ↦ false
  | some r ↦ r.issue_id == issue_id
]

abbrev is_pending_approval : ApprovalStatus → Bool
is_pending_approval ApprovalStatus.pending = true
is_pending_approval _ = false

unfoldable pub pending_approval : String → Db → Option Approval
pending_approval id db = head_or_none (
    newest_first (λ a. a.created_at)
      (select (λ a. is_pending_approval a.status && run_is_of a.run_id id db) db.approvals))

abbrev pub step_view : Step → StepView
step_view s = record {
  id = s.id;
  key = s.key;
  kind = s.kind;
  status = s.status;
  executor_type = s.executor_type;
}

abbrev run_view : Run → RunView
run_view r = record { id = r.id; status = r.status }

module _ (to_iso : ℕ → String) (admin_token : Option Project → String) where
  unfoldable pub approval_next_action : String → Db → Option PmNextAction
  approval_next_action id db = elim (pending_approval id db) [
    | none ↦ none
    | some a ↦ elim (find_run a.run_id db) [
      | none ↦ none
      | some run ↦ elim (to_approval_summary to_iso admin_token (some a) run db) [
        | none ↦ none
        | some summary ↦ some (record {
          issue_id = id;
          action = "approve_action";
          reason = String.◌++◌ "存在待审批动作：" (action_text summary.action);
          source = approval;
          task_id = run.task_id;
          step = elim run.step_id [ none ↦ none | some s ↦ Option.map step_view (find_step s db) ];
          run = some (record { id = summary.run_id; status = run.status });
          approval = some summary;
        })
      ]
    ]
  ]

-- what is said of a task
pub record Advice : Type 0 where
  pub action : String
  pub reason : String

abbrev kind_or_unknown : String → String
kind_or_unknown kind = if is_empty kind then "unknown" else kind

abbrev blocked_advice : Advice
blocked_advice = record {
  action = "handle_blocked_task";
  reason = "Task 已被打回/阻塞：请根据评审意见修复，必要时回滚到指定 Step 或进行重规划（correct-course）";
}

abbrev waiting_advice : ExecutorType → String → Advice
waiting_advice ExecutorType.human kind = record {
  action = "submit_human_step";
  reason = String.◌++◌ "当前步骤需要人工处理：" (kind_or_unknown kind);
}
waiting_advice _ kind = record {
  action = "check_approvals";
  reason = String.◌++◌ "当前步骤需要人工确认/审批（通常是受控动作）：" (kind_or_unknown kind);
}

abbrev ready_advice : ExecutorType → String → Advice
ready_advice ExecutorType.human kind = record {
  action = "start_human_step";
  reason = String.◌++◌ "当前步骤已就绪，等待人工开始/提交：" kind;
}
ready_advice _ kind = record { action = "start_step"; reason = String.◌++◌ "当前步骤已就绪，可启动执行：" kind }

unfoldable pub step_advice : Step → Option Advice
step_advice s = elim s.status [
  | StepStatus.blocked ↦ some blocked_advice
  | StepStatus.waiting_ci ↦ some (record { action = "wait_ci"; reason = "当前步骤正在等待 CI/测试结果回写" })
  | StepStatus.waiting_human ↦ some (waiting_advice s.executor_type s.kind)
  | StepStatus.ready ↦ some (ready_advice s.executor_type s.kind)
  | StepStatus.running ↦
      some (record {
        action = "wait_running";
        reason = String.◌++◌ "当前步骤执行中：" (kind_or_unknown s.kind);
      })
  | _ ↦ none
]

unfoldable pub task_advice : Task → Option Step → Option Advice
task_advice t step =
    if is_blocked t.status
    then some blocked_advice
    else elim step [ none ↦ none | some s ↦ step_advice s ]

abbrev pub latest_run_of : List Run → Task → Option Step → Option Run
latest_run_of runs t none = none
latest_run_of runs t (some s) =
    if is_empty s.id then none else pick_latest_run_for_step runs t.id s.id

unfoldable pub task_next_action : String → Db → Option PmNextAction
task_next_action id db = elim (pick_active_task (tasks_of_issue id db)) [
  | none ↦ none
  | some t ↦
      let step = pick_current_step t (steps_of t.id db) in
      let advised : Option PmNextAction = elim (task_advice t step) [
        | none ↦ none
        | some advice ↦ some (record {
          issue_id = id;
          action = advice.action;
          reason = advice.reason;
          source = task;
          task_id = some t.id;
          step = Option.map step_view step;
          run = Option.map run_view (latest_run_of (runs_of_issue id db) t step);
          approval = none;
        })
      ] in
      if is_terminal_task_status t.status then none else advised
]

abbrev plain_action : String → String → String → NextActionSource → PmNextAction
plain_action id action reason source = record {
  issue_id = id;
  action = action;
  reason = reason;
  source = source;
  task_id = none;
  step = none;
  run = none;
  approval = none;
}

unfoldable pub issue_next_action : String → Issue → Option PmNextAction
issue_next_action id i = elim i.status [
  | IssueStatus.pending ↦
      some (plain_action id "pm_dispatch" "Issue 仍在需求池（pending）：可由 PM 分析并分配/启动（或等待自动化）" issue)
  | _ ↦ none
]

unfoldable pub review_next_action : String → Db → Option PmNextAction
review_next_action id db =
    let reported = last_or_none (
      select (λ (e : Event). e.type == "pm.auto_review.reported" && run_is_of e.run_id id db)
        db.events) in
    let recommendation = prop "recommendation" (Option.map (λ (e : Event). e.payload) reported) in
    let action = trim (as_string (prop "nextAction" recommendation) <| "") in
    let reason = trim (as_string (prop "reason" recommendation) <| "") in
    if is_empty action && is_empty reason
    then none
    else some (
        plain_action id (if is_empty action then "none" else action)
          (if is_empty reason then "auto-review 未给出原因" else reason) auto_review)

abbrev fallback_next_action : String → PmNextAction
fallback_next_action id = plain_action id "none" "暂无可自动推断的下一步（可能需要创建 Task、补充信息或人工决策）" fallback

module _ (to_iso : ℕ → String) (admin_token : Option Project → String) where
  unfoldable pub get_pm_next_action_for_issue : String → Db → NextActionReply
  get_pm_next_action_for_issue issue_id db =
      let id = trim issue_id in
      if is_empty id then bad_request else elim (find_issue id db) [
        | none ↦ not_found
        | some i ↦ next_action (
            approval_next_action to_iso admin_token id db
              <|> task_next_action id db
              <|> issue_next_action id i
              <|> review_next_action id db
            <| fallback_next_action id)
      ]
