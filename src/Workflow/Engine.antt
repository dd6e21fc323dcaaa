-- ===== src/Workflow/Engine.antt =====
-- backend/src/modules/workflow/taskEngine.ts: creating a task from a template, starting a step, and
-- going back to a step. Generated ids are arguments.
pub mod Start
pub mod Create
pub mod Refused
pub mod Rollback
pub mod Attempts
use tuixiu.Prelude.{
  ℕ, suc, ◌+◌, String, Option, none, some, List, [], ◌∷◌, ◌++◌, ◌==◌, is_empty, trim, codes, same,
  folded, find, select, max, eqb, is_some, ◌&&◌, ◌||◌, if◌then◌else◌, ◌<|◌, ◌<|>◌, Bool,
}
use Prim.Native.String
use tuixiu.Json.{Value, null, is_object}
use tuixiu.Db.Types.{
  IssueStatus, ExecutorType, RunStatus, TaskStatus, SandboxStatus, StepStatus, Project, Task, Step,
  Run, Db, Issue,
}
use tuixiu.Db.Exec.{
  Exec, bad_request, not_found, bad_template, bad_step, not_ready, thrown, ◌>>=◌, ◌>>◌, pure, write,
  gets, require,
}
use tuixiu.Db.Tables.{
  find_project, update_step, update_task, on_issue, find_issue_or, find_task_or, find_step_or,
  steps_of, update_steps_after, transaction,
}
use tuixiu.Workflow.Templates.{TaskTemplateStep, TaskTemplate}
use tuixiu.Workflow.Resolver.{
  Overrides, normalize_task_track, infer_task_track_from_template_key,
  resolve_task_template_for_project,
}

abbrev executor_of_codes : List ℕ → Option ExecutorType
executor_of_codes v =
    if same v (codes "agent")
    then some ExecutorType.agent
    else if same v (codes "ci")
    then some ExecutorType.ci
    else if same v (codes "human")
    then some ExecutorType.human
    else if same v (codes "system")
    then some ExecutorType.system
    else none

unfoldable pub normalize_executor_type : Option String → Option ExecutorType
normalize_executor_type value = executor_of_codes (folded (value <| ""))

-- the text of an enum value, as the client returns it
abbrev pub executor_text : ExecutorType → String
executor_text ExecutorType.agent = "agent"
executor_text ExecutorType.ci = "ci"
executor_text ExecutorType.human = "human"
executor_text ExecutorType.system = "system"

unfoldable pub to_issue_status_from_step_status : StepStatus → IssueStatus
to_issue_status_from_step_status StepStatus.waiting_ci = IssueStatus.reviewing
to_issue_status_from_step_status StepStatus.waiting_human = IssueStatus.reviewing
to_issue_status_from_step_status StepStatus.failed = IssueStatus.failed
to_issue_status_from_step_status StepStatus.cancelled = IssueStatus.cancelled
to_issue_status_from_step_status _ = IssueStatus.running

pub record CreateTaskBody : Type 0 where
  pub template_key : String
  pub track : Option String

pub record StartStepBody : Type 0 where
  pub executor_type : Option String
  pub role_key : Option String
  pub params : Option Value

abbrev pub empty_body : StartStepBody
empty_body = record { executor_type = none; role_key = none; params = none }

-- `template.steps.map((s, idx) => ...)`, from the index `idx`
unfoldable pub number_steps : (ℕ → String) → String → ℕ → List TaskTemplateStep → List Step
number_steps step_id task_id idx [] = []
number_steps step_id task_id idx (s ∷ rest) =
    record {
      id = step_id idx;
      task_id = task_id;
      key = s.key;
      kind = s.kind;
      order = idx + 1;
      status = if eqb idx 0 then StepStatus.ready else StepStatus.pending;
      executor_type = s.executor_type;
      role_key = s.role_key;
      params = s.params;
    }
    ∷ number_steps step_id task_id (suc idx) rest

-- `steps[0]?.id`, refused where it is missing or empty
abbrev pub first_step_id : List Step → Option String
first_step_id [] = none
first_step_id (s ∷ rest) = if is_empty s.id then none else some s.id

unfoldable pub base_branch_of : Option Project → String
base_branch_of none = "main"
base_branch_of (some p) =
    let branch = trim p.default_branch in if is_empty branch then "main" else branch

abbrev pub branch_protection_of : Option Project → Value
branch_protection_of none = null
branch_protection_of (some p) = p.branch_protection

abbrev pub insert_task : Task → List Step → Db → Db
insert_task t steps db = record db { tasks = db.tasks ++ t ∷ []; steps = db.steps ++ steps }

unfoldable pub create_task_tx : Task → List Step → String → Exec (Task × List Step)
create_task_tx t steps first = do
  write (insert_task t steps)
  updated ← update_task t.id (λ r. record r { current_step_id = some first })
  ordered ← gets (steps_of t.id)
  pure (updated, ordered)

-- the task's row as it is created, before it points at its first step
unfoldable pub new_task : String → String → CreateTaskBody → Option Project → TaskTemplate → Task
new_task task_id issue_id body project template = record {
  id = task_id;
  issue_id = issue_id;
  template_key = template.key;
  track =
      normalize_task_track body.track
      <|> template.track
      <|> infer_task_track_from_template_key template.key;
  status = TaskStatus.pending;
  current_step_id = none;
  base_branch = some (base_branch_of project);
  workspace_type = none;
  workspace_path = none;
  branch_name = none;
}

module _ (safe_parse : Value → Option Overrides) where
  unfoldable pub create_task_from_template :
      String → (ℕ → String) → String → CreateTaskBody → Exec (Task × List Step)
  create_task_from_template task_id step_id issue_id body = do
    let template_key = trim body.template_key
    issue ← find_issue_or not_found issue_id
    project ← gets (find_project issue.project_id)
    resolved ←
        require bad_template
          (resolve_task_template_for_project safe_parse template_key (branch_protection_of project))
    template_steps ← require (thrown "TypeError") resolved.template.steps
    let steps = number_steps step_id task_id 0 template_steps
    first ← require bad_template (first_step_id steps)
    transaction
        (create_task_tx (new_task task_id issue_id body project resolved.template) steps first)

unfoldable pub rollback_task_to_step : String → String → Exec (Task × List Step)
rollback_task_to_step task_id raw_step_id = do
  let step_id = trim raw_step_id
  require bad_request (if is_empty step_id then none else some tt)
  task ← find_task_or not_found task_id
  steps ← gets (steps_of task.id)
  target ← require not_found (find (λ s. s.id == step_id) steps)
  require bad_step (if eqb target.order 0 then none else some tt)
  write (update_steps_after task.id target.order (λ s. record s { status = StepStatus.pending }))
  update_step target.id (λ s. record s { status = StepStatus.ready })
  updated ←
      update_task task.id
        (λ t. record t { status = TaskStatus.running; current_step_id = some target.id })
  ordered ← gets (steps_of task.id)
  write (on_issue updated.issue_id (λ i. record i { status = IssueStatus.running }))
  pure (updated, ordered)

unfoldable pub max_attempt : List Run → Option ℕ
max_attempt [] = none
max_attempt (r ∷ rest) =
    some (elim (max_attempt rest) [ none ↦ r.attempt | some n ↦ max r.attempt n ])

-- `findFirst({ where: { stepId }, orderBy: { attempt: "desc" } })`, and one more
unfoldable pub next_attempt : String → Db → ℕ
next_attempt step_id db =
    elim (max_attempt (select (λ r. (r.step_id <| "") == step_id && is_some r.step_id) db.runs)) [
      | none ↦ 1
      | some n ↦ n + 1
    ]

abbrev pub step_status_on_start : ExecutorType → StepStatus
step_status_on_start ExecutorType.ci = StepStatus.waiting_ci
step_status_on_start ExecutorType.human = StepStatus.waiting_human
step_status_on_start _ = StepStatus.running

abbrev pub run_status_on_start : ExecutorType → RunStatus
run_status_on_start ExecutorType.ci = RunStatus.waiting_ci
run_status_on_start _ = RunStatus.running

-- backend/src/utils/sandbox.ts
abbrev pub default_sandbox_keepalive_ttl_seconds : ℕ
default_sandbox_keepalive_ttl_seconds = 1800

unfoldable pub derive_sandbox_instance_name : String → String
derive_sandbox_instance_name run_id = String.◌++◌ "tuixiu-run-" (trim run_id)

abbrev for_agent : {A : Type 0} → ExecutorType → A → Option A
for_agent ExecutorType.agent a = some a
for_agent _ a = none

abbrev object_or_none : Option Value → Option Value
object_or_none none = none
object_or_none (some v) = if is_object v then some v else none

abbrev trimmed : Option String → Option String
trimmed none = none
trimmed (some s) = some (trim s)

abbrev non_empty : Option String → Option String
non_empty none = none
non_empty (some s) = if is_empty s then none else some s

-- the run that `startStep` creates
unfoldable pub new_run :
    String → ℕ → Task → Step → ExecutorType → Option String → Option Value → ℕ → Run
new_run run_id now task step executor role_key params attempt = record {
  id = run_id;
  issue_id = task.issue_id;
  executor_type = executor;
  task_id = some task.id;
  step_id = some step.id;
  attempt = attempt;
  status = run_status_on_start executor;
  started_at = now;
  workspace_type = task.workspace_type;
  workspace_path = task.workspace_path;
  branch_name = task.branch_name;
  sandbox_instance_name = for_agent executor (derive_sandbox_instance_name run_id);
  keepalive_ttl_seconds = for_agent executor default_sandbox_keepalive_ttl_seconds;
  sandbox_status = for_agent executor SandboxStatus.creating;
  scm_pr_number = none;
  scm_pr_url = none;
  scm_ci_status = none;
  failure_reason = none;
  error_message = none;
  acp_session_id = none;
  acp_session_state = none;
  metadata = some (record {
    key = step.key;
    kind = step.kind;
    executor_type = executor;
    role_key = role_key;
    params = params;
  });
}

unfoldable pub chosen_executor : Step → StartStepBody → ExecutorType
chosen_executor step body =
    normalize_executor_type body.executor_type
      <|> normalize_executor_type (some (executor_text step.executor_type))
    <| ExecutorType.agent

abbrev pub chosen_role : Step → StartStepBody → Option String
chosen_role step body = trimmed body.role_key <|> step.role_key

abbrev pub chosen_params : Step → StartStepBody → Option Value
chosen_params step body = object_or_none body.params <|> step.params

unfoldable pub has_override : StartStepBody → Bool
has_override body =
    is_some (normalize_executor_type body.executor_type)
    || is_some body.role_key
    || is_some body.params

abbrev pub overridden : Step → StartStepBody → Step → Step
overridden step body s = record s {
  executor_type = chosen_executor step body;
  role_key = non_empty (chosen_role step body);
  params = chosen_params step body <|> s.params;
}

abbrev store_overrides : Step → StartStepBody → Exec (Unit {0})
store_overrides step body =
    if has_override body then (do update_step step.id (overridden step body); pure tt) else pure tt

abbrev pub run_of_start : String → ℕ → Task → Step → StartStepBody → Db → Run
run_of_start run_id now task step body db =
    new_run run_id now task step (chosen_executor step body) (chosen_role step body)
      (chosen_params step body) (next_attempt step.id db)

abbrev pub add_run : Run → Db → Db
add_run run db = record db { runs = db.runs ++ run ∷ [] }

abbrev pub started_step : Step → StartStepBody → Step → Step
started_step step body s = record s { status = step_status_on_start (chosen_executor step body) }

abbrev pub started_task : Step → Task → Task
started_task step t = record t { status = TaskStatus.running; current_step_id = some step.id }

abbrev pub started_issue : Step → StartStepBody → Issue → Issue
started_issue step body i = record i {
  status = to_issue_status_from_step_status (step_status_on_start (chosen_executor step body));
}

abbrev pub if_ready : StepStatus → Option (Unit {0})
if_ready StepStatus.ready = some tt
if_ready _ = none

unfoldable pub start_step : String → ℕ → String → StartStepBody → Exec (Task × Step × Run)
start_step run_id now step_id body = do
  step ← find_step_or not_found step_id
  task ← find_task_or bad_step step.task_id
  require not_ready (if_ready step.status)
  store_overrides step body
  run ← gets (run_of_start run_id now task step body)
  write (add_run run)
  updated_step ← update_step step.id (started_step step body)
  updated_task ← update_task task.id (started_task step)
  write (on_issue task.issue_id (started_issue step body))
  pure (updated_task, updated_step, run)
