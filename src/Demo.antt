-- ===== src/Demo.antt =====
-- Rows that the tests and the examples share: an issue with a task of two steps, whose first is ready.
use tuixiu.Executors.{Services, planned}
use tuixiu.Pm.Policy.{PmPolicy, default_pm_policy}
use tuixiu.Db.Exec.{ok, err, thrown}
use tuixiu.Json.{obj, field, end, bool}
use tuixiu.Db.Types.{ApprovalAction}
use tuixiu.Prelude.{ℕ, zero, String, Option, none, some, [], ◌∷◌, ◌≡◌, ◌≢◌, ap, ◌==◌, true, false}
use tuixiu.Json.{Value, null}
use tuixiu.Db.Types.{
  IssueStatus, ExecutorType, TaskTrack, RunStatus, TaskStatus, StepStatus, ArtifactType, Project,
  Issue, Task, Step, Run, Artifact, Db,
}
use tuixiu.Workflow.Resolver.{Overrides}

abbrev pub demo_issue : Issue
demo_issue = record {
  id = "i1";
  project_id = "p1";
  external_provider = some "GitHub";
  external_number = some 7;
  title = "T";
  status = IssueStatus.pending;
}

abbrev pub demo_project : Project
demo_project = record {
  id = "p1";
  repo_url = "https://example.org/r";
  default_branch = " dev ";
  branch_protection = null;
}

abbrev pub demo_step : String → ℕ → StepStatus → ExecutorType → Step
demo_step id order status executor = record {
  id = id;
  task_id = "t1";
  key = "k";
  kind = "dev.implement";
  order = order;
  status = status;
  executor_type = executor;
  role_key = none;
  params = none;
}

abbrev pub first_step : Step
first_step = demo_step "a" 1 StepStatus.ready ExecutorType.agent

abbrev pub second_step : Step
second_step = demo_step "b" 2 StepStatus.pending ExecutorType.human

abbrev pub demo_task : Task
demo_task = record {
  id = "t1";
  issue_id = "i1";
  template_key = "quick.test.only";
  track = some TaskTrack.quick;
  status = TaskStatus.running;
  current_step_id = some "a";
  base_branch = some "dev";
  workspace_type = none;
  workspace_path = some "/w";
  branch_name = some "b";
}

abbrev pub demo_run : Run
demo_run = record {
  id = "r0";
  issue_id = "i1";
  executor_type = ExecutorType.agent;
  task_id = some "t1";
  step_id = some "a";
  attempt = 1;
  status = RunStatus.running;
  started_at = 5;
  workspace_type = none;
  workspace_path = none;
  branch_name = none;
  sandbox_instance_name = none;
  keepalive_ttl_seconds = none;
  sandbox_status = none;
  scm_pr_number = none;
  scm_pr_url = some " https://example.org/pr/1 ";
  scm_ci_status = none;
  failure_reason = none;
  error_message = none;
  metadata = none;
  acp_session_id = none;
  acp_session_state = none;
}

abbrev pub demo_artifact : Artifact
demo_artifact = record {
  id = "x1";
  run_id = "r0";
  created_at = 1;
  type = ArtifactType.report;
  content = null;
}

-- no task yet
abbrev pub bare_db : Db
bare_db = record {
  projects = demo_project ∷ [];
  issues = demo_issue ∷ [];
  tasks = [];
  steps = [];
  runs = [];
  events = [];
  approvals = [];
  artifacts = [];
}

-- the task, and a run of its first step
abbrev pub demo_db : Db
demo_db = record {
  projects = demo_project ∷ [];
  issues = demo_issue ∷ [];
  tasks = demo_task ∷ [];
  steps = first_step ∷ second_step ∷ [];
  runs = demo_run ∷ [];
  events = [];
  approvals = [];
  artifacts = demo_artifact ∷ [];
}

abbrev pub refuse_all : Value → Option Overrides
refuse_all v = none

abbrev pub step_ids : ℕ → String
step_ids zero = "a"
step_ids n = "b"

pub b_not_a : ◌≢◌ {A = String} "b" "a"
b_not_a e = let same : false ≡ true = ap (λ s. s == "a") e in absurd (cc (same))

pub r2_not_r1 : ◌≢◌ {A = String} "r2" "r1"
r2_not_r1 e = let same : false ≡ true = ap (λ s. s == "r1") e in absurd (cc (same))

-- A policy that asks for the approval of pull requests and holds a directory for sensitive.
abbrev pub strict_policy : PmPolicy
strict_policy = record default_pm_policy {
  automation = record (default_pm_policy.automation) { auto_review = false };
  require_for_actions = ApprovalAction.create_pr ∷ ApprovalAction.merge_pr ∷ [];
  sensitive_paths = "secret/**" ∷ [];
}

abbrev pub strict_parse : Option Value → Option PmPolicy
strict_parse (some (bool true)) = some strict_policy
strict_parse _ = none

abbrev pub strict_json : PmPolicy → Value
strict_json p = bool true

-- Services that refuse every call of a host, and plan a path in the sensitive directory.
abbrev pub demo_services : Services
demo_services = record {
  parse_policy = strict_parse;
  policy_json = strict_json;
  json_parse = λ s. none;
  index_text = λ i. "";
  to_iso = λ n. "";
  admin_token = λ p. "";
  fault_text = λ f. "fault";
  create_review_request_for_run = λ id db. (ok none, db);
  plan_artifact_publish = λ id db. (ok (planned "secret/x.md"), db);
  publish_artifact = λ id db. (ok none, db);
  start_acp_agent_execution = λ id db. (err (thrown "no agent"), db);
}

abbrev pub system_step : String → Step
system_step kind = record first_step { kind = kind; executor_type = ExecutorType.system }

-- a task whose first step is the system's, in a project with the strict policy
abbrev pub system_db : String → Db
system_db kind = record demo_db {
  projects =
      record demo_project { branch_protection = obj (field "pmPolicy" (bool true) end) } ∷ [];
  steps = system_step kind ∷ [];
}
