-- ===== src/Workflow/Progress.antt =====
-- backend/src/modules/workflow/taskProgress.ts: what the end of a run does to its task.
pub mod Advance
pub mod Ends
pub mod Rewritten
use tuixiu.Prelude.{
  ℕ, suc, String, Option, none, some, Bool, true, false, List, [], ◌∷◌, ◌==◌, ◌&&◌, ◌||◌, is_empty,
  trim, codes, take, select, last_or_none, head_or_none, order_by, last_chars, if◌then◌else◌, ◌<|◌,
}
use tuixiu.Json
use mathlib.Core.Option
use tuixiu.Json.{Value, null, bool, str, arr, obj, Items, nil, cons, Fields, end, field, is_object}
use tuixiu.Db.Types.{
  IssueStatus, ExecutorType, TaskStatus, StepStatus, EventSource, Task, Step, Run, Event, Db,
}
use tuixiu.Db.Tables.{
  find_task, find_step, find_run, on_step, on_task, on_issue, steps_of, add_event,
}
use tuixiu.Runs.AgentOutput.{extract_agent_text_from_events, extract_tagged_code_block}

pub data TerminalOutcome : Type 0 where
  completed failed cancelled : TerminalOutcome

pub data Advanced : Type 0 where
  not_handled : Advanced
  handled : (task_id step_id : String) → Advanced

abbrev system_event : String → String → Value → Event
system_event run_id type payload = record {
  run_id = run_id;
  source = EventSource.system;
  type = type;
  payload = payload;
}

abbrev pub is_agent : ExecutorType → Bool
is_agent ExecutorType.agent = true
is_agent _ = false

-- `parsed.key ?? fallback`
abbrev prop_or : String → Fields → Value → Value
prop_or key fields fallback = elim (Json.get key fields) [
  | none ↦ fallback
  | some v ↦ elim v [ null ↦ fallback | other ↦ other ]
]

-- `JSON.parse`, where `none` is a throw, and the text of an array's index
module _ (json_parse : List ℕ → Option Value) (index_text : ℕ → String) where
  -- `{ ...v }`
  abbrev spread_items : ℕ → Items → Fields
  spread_items i nil = end
  spread_items i (cons v rest) = field (index_text i) v (spread_items (suc i) rest)

  spread : Value → Fields
  spread (obj fields) = fields
  spread (arr items) = spread_items 0 items
  spread _ = end

  -- the JSON of the tagged block, if it is an object or an array
  tagged_json : String → String → Option Value
  tagged_json tag text = elim (extract_tagged_code_block (codes text) tag) [
    | none ↦ none
    | some block ↦ elim (json_parse block) [
      | none ↦ none
      | some v ↦ if is_object v then some v else none
    ]
  ]

  ci_result : String → Value
  unfolding tagged_json
  ci_result text = elim (tagged_json "CI_RESULT_JSON" text) [
    | none ↦ obj (field "passed" (bool true) (field "raw" (str (last_chars 4000 text)) end))
    | some v ↦ v
  ]

  report : String → String → Value
  unfolding tagged_json spread
  report kind text = elim (tagged_json "REPORT_JSON" text) [
    | none ↦ obj (field "kind" (str kind) (field "markdown" (str text) end))
    | some v ↦
        let parsed = spread v in
        obj (
          Json.set "markdown" (prop_or "markdown" parsed (str text))
            (Json.set "kind" (prop_or "kind" parsed (str kind)) parsed))
  ]

  -- the event that the output of an agent's run gives, if any
  unfoldable pub agent_artifact : Run → Step → Db → Option Event
  unfolding ci_result report
  agent_artifact run step db =
      let kind = trim step.kind in
      let text =
        extract_agent_text_from_events (take 5000 (select (λ e. e.run_id == run.id) db.events)) in
      if is_agent run.executor_type
        && (kind == "prd.generate" || kind == "code.review" || kind == "test.run")
      then (if is_empty (trim text)
          then none
          else some (
              if kind == "test.run"
              then system_event run.id "agent.ci_result" (ci_result text)
              else system_event run.id "agent.report"
                  (report (if kind == "prd.generate" then "prd" else "review") text)))
      else none

  unfoldable pub maybe_create_agent_artifacts : Run → Step → Db → Db
  maybe_create_agent_artifacts run step db = elim (agent_artifact run step db) [
    | none ↦ db
    | some e ↦ add_event e db
  ]

unfoldable pub last_step_kind : List Step → String
last_step_kind steps = Option.map (λ s. s.kind) (last_or_none (order_by (λ s. s.order) steps)) <| ""

unfoldable pub issue_status_on_task_completed : List Step → IssueStatus
issue_status_on_task_completed steps =
    if last_step_kind steps == "pr.merge" then IssueStatus.done else IssueStatus.pending

-- `steps[idx + 1]`, where `idx` is the first index with the id
unfoldable pub next_after : String → List Step → Option Step
next_after id [] = none
next_after id (s ∷ rest) = if s.id == id then head_or_none rest else next_after id rest

unfoldable pub bound_to : Run → Option String → Option String → Db → Option (Run × Task × Step)
bound_to run (some task_id) (some step_id) db = elim (find_task task_id db) [
  | none ↦ none
  | some task ↦ elim (find_step step_id db) [ none ↦ none | some step ↦ some (run, task, step) ]
]
bound_to run _ _ db = none

-- the run with the task and the step that it is bound to
unfoldable pub bound_run : String → Db → Option (Run × Task × Step)
unfolding bound_to
bound_run run_id db = elim (find_run run_id db) [
  | none ↦ none
  | some run ↦ bound_to run run.task_id run.step_id db
]

abbrev pub set_step : String → StepStatus → Db → Db
set_step id status = on_step id (λ s. record s { status = status })

abbrev pub set_task : String → TaskStatus → Db → Db
set_task id status = on_task id (λ t. record t { status = status })

abbrev pub set_issue : String → IssueStatus → Db → Db
set_issue id status = on_issue id (λ i. record i { status = status })

abbrev step_failed : String → Task → Step → String → Event
step_failed run_id task step message = system_event run_id "task.step.failed" (
    obj (
      field "taskId" (str task.id)
        (field "stepId" (str step.id) (field "error" (str message) end))))

-- the event of a failure with a message
abbrev note_failure : String → Task → Step → Option String → Db → Db
note_failure run_id task step none db = db
note_failure run_id task step (some m) db =
    if is_empty m then db else add_event (step_failed run_id task step m) db

unfoldable pub fail_task : String → Task → Step → Option String → Db → Db
fail_task run_id task step message db = note_failure run_id task step message (
    set_issue task.issue_id IssueStatus.failed
      (set_task task.id TaskStatus.failed (set_step step.id StepStatus.failed db)))

unfoldable pub cancel_task : Task → Step → Db → Db
cancel_task task step db =
    set_issue task.issue_id IssueStatus.cancelled
      (set_task task.id TaskStatus.cancelled (set_step step.id StepStatus.cancelled db))

abbrev pub is_pending : StepStatus → Bool
is_pending StepStatus.pending = true
is_pending _ = false

unfoldable pub go_to_step : Task → Step → Db → Db
go_to_step task next db =
    let opened = if is_pending next.status then set_step next.id StepStatus.ready db else db in
    set_issue task.issue_id IssueStatus.running (
      on_task task.id
        (λ t. record t { status = TaskStatus.running; current_step_id = some next.id }) opened)

unfoldable pub finish_task : Task → List Step → Db → Db
finish_task task steps db =
    set_issue task.issue_id (issue_status_on_task_completed steps)
      (set_task task.id TaskStatus.completed db)

module _ (json_parse : List ℕ → Option Value) (index_text : ℕ → String) where
  -- `steps` are those that were read with the run, before anything was written
  unfoldable pub complete_step : Run → Task → Step → List Step → Db → Db
  complete_step run task step steps db =
      let closed =
        set_step step.id StepStatus.completed
          (maybe_create_agent_artifacts json_parse index_text run step db) in
      elim (next_after step.id steps) [
        | some next ↦ go_to_step task next closed
        | none ↦ finish_task task steps closed
      ]

  unfoldable pub advance_task_from_run_terminal :
      String → TerminalOutcome → Option String → Db → Advanced × Db
  advance_task_from_run_terminal run_id outcome message db = elim (bound_run run_id db) [
    | none ↦ (not_handled, db)
    | some (run, task, step) ↦ (
      handled task.id step.id,
      elim outcome [
        | failed ↦ fail_task run_id task step message db
        | cancelled ↦ cancel_task task step db
        | completed ↦ complete_step run task step (steps_of task.id db) db
      ],
    )
  ]

abbrev task_blocked : String → Task → Step → String → String → Event
task_blocked run_id task step code message = system_event run_id "task.blocked" (
    obj (
      field "taskId" (str task.id) (
        field "stepId" (str step.id) (
          field "reason" (obj (field "code" (str code) (field "message" (str message) end))) end))))

unfoldable pub set_task_blocked_from_run : String → String → String → Db → Advanced × Db
set_task_blocked_from_run run_id code message db = elim (bound_run run_id db) [
  | none ↦ (not_handled, db)
  | some (run, task, step) ↦ (
    handled task.id step.id,
    add_event (task_blocked run_id task step code message)
        (set_issue task.issue_id IssueStatus.reviewing (set_task task.id TaskStatus.blocked db)),
  )
]
