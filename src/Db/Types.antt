-- ===== src/Db/Types.antt =====
-- The enums and rows of backend/prisma/schema.prisma, with the columns that the modelled code uses.
use tuixiu.Prelude.{ℕ, String, Option, List}
use tuixiu.Json.{Number, Value, Fields}

pub data IssueStatus : Type 0 where
  pending running reviewing done failed cancelled : IssueStatus

pub data ExecutorType : Type 0 where
  agent ci human system : ExecutorType

pub data RunStatus : Type 0 where
  pending running waiting_ci completed failed cancelled : RunStatus

pub data TaskStatus : Type 0 where
  pending running blocked completed failed cancelled : TaskStatus

pub data TaskTrack : Type 0 where
  quick planning enterprise : TaskTrack

pub data SandboxStatus : Type 0 where
  creating running stopped missing error : SandboxStatus

pub data ScmCiStatus : Type 0 where
  pending passed failed : ScmCiStatus

pub data StepStatus : Type 0 where
  pending ready running waiting_ci waiting_human blocked completed failed cancelled : StepStatus

pub data ApprovalAction : Type 0 where
  merge_pr create_pr publish_artifact : ApprovalAction

pub data ApprovalStatus : Type 0 where
  pending approved rejected executing executed failed : ApprovalStatus

pub StepStatus-discrete : Discrete StepStatus
StepStatus-discrete = hlevel

pub TaskStatus-discrete : Discrete TaskStatus
TaskStatus-discrete = hlevel

pub record Project : Type 0 where
  pub id : String
  pub repo_url : String
  pub default_branch : String
  pub branch_protection : Value

pub record Issue : Type 0 where
  pub id : String
  pub project_id : String
  pub external_provider : Option String
  pub external_number : Option ℕ
  pub title : String
  pub status : IssueStatus

pub record Task : Type 0 where
  pub id : String
  pub issue_id : String
  pub template_key : String
  pub track : Option TaskTrack
  pub status : TaskStatus
  pub current_step_id : Option String
  pub base_branch : Option String
  pub workspace_type : Option String
  pub workspace_path : Option String
  pub branch_name : Option String

pub record Step : Type 0 where
  pub id : String
  pub task_id : String
  pub key : String
  pub kind : String
  pub order : ℕ
  pub status : StepStatus
  pub executor_type : ExecutorType
  pub role_key : Option String
  pub params : Option Value

-- the `metadata.step` that `startStep` stores
pub record StepSnapshot : Type 0 where
  pub key : String
  pub kind : String
  pub executor_type : ExecutorType
  pub role_key : Option String
  pub params : Option Value

pub record Run : Type 0 where
  pub id : String
  pub issue_id : String
  pub executor_type : ExecutorType
  pub task_id : Option String
  pub step_id : Option String
  pub attempt : ℕ
  pub status : RunStatus
  pub started_at : ℕ
  pub workspace_type : Option String
  pub workspace_path : Option String
  pub branch_name : Option String
  pub sandbox_instance_name : Option String
  pub keepalive_ttl_seconds : Option ℕ
  pub sandbox_status : Option SandboxStatus
  pub scm_pr_number : Option Number
  pub scm_pr_url : Option String
  pub scm_ci_status : Option ScmCiStatus
  pub failure_reason : Option String
  pub error_message : Option String
  pub metadata : Option StepSnapshot
  pub acp_session_id : Option String
  pub acp_session_state : Option Fields

pub data EventSource : Type 0 where
  acp gitlab system user : EventSource

pub record Event : Type 0 where
  pub run_id : String
  pub source : EventSource
  pub type : String
  pub payload : Value

pub record Approval : Type 0 where
  pub id : String
  pub run_id : String
  pub created_at : ℕ
  pub action : ApprovalAction
  pub status : ApprovalStatus
  pub requested_by : Option String
  pub requested_at : Option ℕ
  pub decided_by : Option String
  pub decided_at : Option ℕ
  pub reason : Option String
  pub payload : Value

pub data ArtifactType : Type 0 where
  branch pr patch report ci_result : ArtifactType

pub record Artifact : Type 0 where
  pub id : String
  pub run_id : String
  pub created_at : ℕ
  pub type : ArtifactType
  pub content : Value

pub record Db : Type 0 where
  pub projects : List Project
  pub issues : List Issue
  pub tasks : List Task
  pub steps : List Step
  pub runs : List Run
  pub events : List Event
  pub approvals : List Approval
  pub artifacts : List Artifact
