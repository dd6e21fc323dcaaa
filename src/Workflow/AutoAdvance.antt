-- ===== src/Workflow/AutoAdvance.antt =====
-- backend/src/modules/workflow/taskAutoAdvance.ts: starting the next step of a task by itself. The
-- queue of an issue runs its jobs one after the other.
pub mod Guards
use tuixiu.Prelude.{
  ℕ, String, Option, none, some, Bool, true, false, List, [], ◌∷◌, ◌==◌, ◌&&◌, ◌||◌, not, is_empty,
  trim, find, if◌then◌else◌, ◌<|◌, ◌<|>◌,
}
use tuixiu.Json.{Value, str, null, obj, end, field}
use tuixiu.Db.Types.{
  ExecutorType, TaskStatus, StepStatus, EventSource, Project, Issue, Task, Step, Run, Event, Db,
}
use tuixiu.Db.Exec.{Exec, Result, ok, err}
use tuixiu.Db.Tables.{find_task, find_issue, find_project, steps_of, add_event}
use tuixiu.Workflow.Engine.{
  normalize_executor_type, executor_text, empty_body, start_step, if_ready, branch_protection_of,
}
use tuixiu.Pm.Policy.{PmPolicy, get_pm_policy_from_branch_protection}

pub data AutoAdvanceTrigger : Type 0 where
  task_created step_completed task_rolled_back ci_completed manual : AutoAdvanceTrigger

-- which of the optional dependencies are given, and `isPmAutomationEnabled()`
pub record Capabilities : Type 0 where
  pub enabled : Bool
  pub acp : Bool
  pub create_workspace : Bool

pub record Broadcast : Type 0 where
  pub issue_id : String
  pub task_id : String
  pub step_id : String
  pub run_id : String

abbrev trigger_text : AutoAdvanceTrigger → String
trigger_text task_created = "task_created"
trigger_text step_completed = "step_completed"
trigger_text task_rolled_back = "task_rolled_back"
trigger_text ci_completed = "ci_completed"
trigger_text manual = "manual"

abbrev pub is_terminal_task_status : TaskStatus → Bool
is_terminal_task_status TaskStatus.blocked = true
is_terminal_task_status TaskStatus.completed = true
is_terminal_task_status TaskStatus.failed = true
is_terminal_task_status TaskStatus.cancelled = true
is_terminal_task_status _ = false

abbrev trimmed_or_empty : Option String → String
trimmed_or_empty s = trim (s <| "")

abbrev pub has_workspace_for_non_agent : Task → Bool
has_workspace_for_non_agent t =
    not (is_empty (trimmed_or_empty t.workspace_path))
    && not (is_empty (trimmed_or_empty t.branch_name))

-- the executor of a step, an agent where it is none that is known
unfoldable pub executor_of : Step → ExecutorType
executor_of s = normalize_executor_type (some (executor_text s.executor_type)) <| ExecutorType.agent

-- Whether the executor can do the step now. A human's step is not started.
unfoldable pub can_execute : Capabilities → Task → ExecutorType → Bool
can_execute deps t ExecutorType.human = false
can_execute deps t ExecutorType.agent =
    deps.acp && (has_workspace_for_non_agent t || deps.create_workspace)
can_execute deps t _ = has_workspace_for_non_agent t

abbrev pub is_ready : StepStatus → Bool
is_ready StepStatus.ready = true
is_ready _ = false

-- the current step, where the task's `currentStepId` is a text that is not empty
unfoldable pub current_step : Task → Db → Option Step
current_step t db = elim t.current_step_id [
  | none ↦ none
  | some id ↦ if is_empty id then none else find (λ s. s.id == id) (steps_of t.id db)
]

unfoldable pub project_of_task : Task → Db → Option Project
project_of_task t db = elim (find_issue t.issue_id db) [
  | none ↦ none
  | some i ↦ find_project i.project_id db
]

abbrev started_event : String → AutoAdvanceTrigger → String → String → Event
started_event run_id trigger task_id step_id = record {
  run_id = run_id;
  source = EventSource.system;
  type = "task.auto_advance.started";
  payload = obj (
      field "trigger" (str (trigger_text trigger))
        (field "taskId" (str task_id) (field "stepId" (str step_id) end)));
}

-- the schema of policies, and the dependency `dispatchExecutionForRun`
module _ (parse_policy : Option Value → Option PmPolicy) (policy_json : PmPolicy → Value)
    (dispatch_execution_for_run : String → Exec (Unit {0})) where
  abbrev pub allowed_by_policy : Task → Step → Db → Bool
  allowed_by_policy t s db =
      let policy =
        (get_pm_policy_from_branch_protection parse_policy policy_json
          (branch_protection_of (project_of_task t db))).0 in
      not (trim s.kind == "pr.create" && not policy.automation.auto_create_pr)

  -- the step to start, past every guard
  unfoldable pub step_to_start : Capabilities → String → String → Db → Option Step
  step_to_start deps issue_id task_id db = elim (find_task task_id db) [
    | none ↦ none
    | some t ↦ elim (current_step t db) [
      | none ↦ none
      | some s ↦
          if t.issue_id == issue_id
            && not (is_terminal_task_status t.status)
            && is_ready s.status
            && allowed_by_policy t s db
            && can_execute deps t (executor_of s)
          then some s
          else none
    ]
  ]

  abbrev after_start :
      AutoAdvanceTrigger → String → String → Step → Task × Step × Run → Exec (Option Broadcast)
  after_start trigger issue_id task_id s (task, step, run) db =
      let noted =
        if is_empty run.id then db else add_event (started_event run.id trigger task_id s.id) db in
      let (dispatched, after) = dispatch_execution_for_run run.id noted in
      elim dispatched [
        | err e ↦ (err e, after)
        | ok u ↦ (
          ok (
              some (record {
                issue_id = issue_id;
                task_id = task_id;
                step_id = s.id;
                run_id = run.id;
              })),
          after,
        )
      ]

  -- A refused start is logged and dropped.
  abbrev pub start_and_dispatch :
      String → ℕ → AutoAdvanceTrigger → String → String → Step → Exec (Option Broadcast)
  start_and_dispatch run_id now trigger issue_id task_id s db =
      let (started, after) = start_step run_id now s.id empty_body db in
      elim started [
        | err e ↦ (ok none, after)
        | ok result ↦ after_start trigger issue_id task_id s result after
      ]

  unfoldable pub auto_advance_task_once :
      Capabilities → String → ℕ → AutoAdvanceTrigger → String → String → Exec (Option Broadcast)
  auto_advance_task_once deps run_id now trigger raw_issue_id raw_task_id db =
      let issue_id = trim raw_issue_id in
      let task_id = trim raw_task_id in
      if not deps.enabled || is_empty issue_id || is_empty task_id
      then (ok none, db)
      else elim (step_to_start deps issue_id task_id db) [
        | none ↦ (ok none, db)
        | some s ↦ start_and_dispatch run_id now trigger issue_id task_id s db
      ]
