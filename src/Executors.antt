-- ===== src/Executors.antt =====
-- backend/src/executors: what starting a run of a human, of the CI or of the system does. The agents'
-- executor is a parameter, as are the calls of the repository hosts.
pub mod System
pub mod Waiting
pub mod Done
mod Tests
use Prim.Native.String.{◌++◌ as cat}
use mathlib.Core.Option
use tuixiu.Db.Tables.{find_run, add_event, find_step}
use tuixiu.Pm.Policy.{PmPolicy}
use tuixiu.Db.Types.{Run, Step, Event, EventSource, Project}
use tuixiu.Json.{Value, obj, field, str, optional, end}
use tuixiu.Db.Exec.{Exec, Fault, thrown, err, ok}
use tuixiu.Prelude.{
  ℕ, String, Option, none, some, Bool, true, false, List, [], ◌∷◌, if◌then◌else◌, is_empty, ◌||◌,
}

-- the `error` of a call that has no success
pub record CallError : Type 0 where
  pub code : String
  pub message : String
  pub details : Option String

-- the text `code: message` with which the executors throw
unfoldable pub error_text : CallError → String
error_text e = cat e.code (cat ": " e.message)

-- `planArtifactPublish`: the path of the file, or an error
pub data PlanReply : Type 0 where
  planned : (path : String) → PlanReply
  unplanned : CallError → PlanReply

-- a call whose success is `none`
abbrev pub Attempt : Type 0
Attempt = Exec (Option CallError)

-- What the executors call outside their own files and those that are modelled.
pub record Services : Type 0 where
  pub parse_policy : Option Value → Option PmPolicy
  pub policy_json : PmPolicy → Value
  pub json_parse : List ℕ → Option Value
  pub index_text : ℕ → String
  pub to_iso : ℕ → String
  pub admin_token : Option Project → String
  pub fault_text : Fault → String
  pub create_review_request_for_run : String → Attempt
  pub plan_artifact_publish : String → Exec PlanReply
  pub publish_artifact : String → Attempt
  pub start_acp_agent_execution : String → Exec (Unit {0})

abbrev system_event : String → String → Value → Event
system_event run_id type payload = record {
  run_id = run_id;
  source = EventSource.system;
  type = type;
  payload = payload;
}

-- the ids of the task and the step of a run, where both are there
abbrev pub bound_ids : Run → Option (String × String)
bound_ids run = elim run.task_id [
  | none ↦ none
  | some task_id ↦ elim run.step_id [
    | none ↦ none
    | some step_id ↦ if is_empty task_id || is_empty step_id then none else some (task_id, step_id)
  ]
]

abbrev no_such_run : Fault
no_such_run = thrown "Run 不存在"

-- the event that tells the people that a step waits for them
abbrev pub action_required : String → String → String → Option Step → Event
action_required run_id task_id step_id step = system_event run_id "human.action_required" (
    obj (
      field "taskId" (str task_id) (
        field "stepId" (str step_id)
          (optional "stepKey" (Option.map (λ (s : Step). str s.key) step) end))))

unfoldable pub start_human_execution : String → Exec (Unit {0})
start_human_execution run_id db = elim (find_run run_id db) [
  | none ↦ (err no_such_run, db)
  | some run ↦ elim (bound_ids run) [
    | none ↦ (ok tt, db)
    | some (task_id, step_id) ↦
        (ok tt, add_event (action_required run_id task_id step_id (find_step step_id db)) db)
  ]
]

abbrev pub ci_waiting : String → String → String → Event
ci_waiting run_id task_id step_id =
    system_event run_id "ci.waiting"
      (obj (field "taskId" (str task_id) (field "stepId" (str step_id) end)))

unfoldable pub start_ci_execution : String → Exec (Unit {0})
start_ci_execution run_id db = elim (find_run run_id db) [
  | none ↦ (err no_such_run, db)
  | some run ↦ elim (bound_ids run) [
    | none ↦ (ok tt, db)
    | some (task_id, step_id) ↦ (ok tt, add_event (ci_waiting run_id task_id step_id) db)
  ]
]
