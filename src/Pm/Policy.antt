-- ===== src/Pm/Policy.antt =====
-- backend/src/modules/pm/pmPolicy.ts and backend/src/modules/workflow/taskTemplatePolicy.ts: the
-- values that a project keeps in its `branchProtection` column, each under a key of its own.
pub mod Laws
use tuixiu.Prelude.{
  String, Option, none, some, Bool, true, false, List, [], ◌∷◌, ◌==◌, find, modify,
}
use tuixiu.Json
use tuixiu.Json.{Value, obj, end, field, as_record}
use tuixiu.Db.Types.{ApprovalAction, Project, Db}
use tuixiu.Db.Tables.{find_project}
use tuixiu.Workflow.Templates.{TaskTemplate}
use tuixiu.Workflow.Resolver.{TemplateSource, default, project, Overrides}

pub data MergeMethod : Type 0 where
  merge squash rebase : MergeMethod

pub record Automation : Type 0 where
  pub auto_start_issue : Bool
  pub auto_review : Bool
  pub auto_create_pr : Bool
  pub auto_request_merge_approval : Bool
  pub auto_merge : Bool
  pub merge_method : MergeMethod
  pub ci_gate : Bool

-- a value that `pmPolicyV1Schema` gives
pub record PmPolicy : Type 0 where
  pub automation : Automation
  pub require_for_actions : List ApprovalAction
  pub escalate_on_sensitive_paths : List ApprovalAction
  pub sensitive_paths : List String

abbrev pub default_pm_policy : PmPolicy
default_pm_policy = record {
  automation = record {
    auto_start_issue = true;
    auto_review = true;
    auto_create_pr = true;
    auto_request_merge_approval = true;
    auto_merge = false;
    merge_method = squash;
    ci_gate = true;
  };
  require_for_actions = ApprovalAction.merge_pr ∷ [];
  escalate_on_sensitive_paths = ApprovalAction.create_pr ∷ ApprovalAction.publish_artifact ∷ [];
  sensitive_paths = [];
}

pub data PolicyError : Type 0 where
  not_found bad_value : PolicyError

pub data PolicyReply (A : Type 0) : Type 0 where
  granted : A → PolicyReply A
  declined : PolicyError → PolicyReply A

abbrev pub set_branch_protection : String → Value → Db → Db
set_branch_protection id v db = record db {
  projects = modify (λ p. p.id == id) (λ p. record p { branch_protection = v }) db.projects;
}

-- `isRecord(existing) ? { ...existing, [key]: v } : { [key]: v }`
unfoldable pub with_key : String → Value → Value → Value
with_key key v (obj fields) = obj (Json.set key v fields)
with_key key v _ = obj (field key v end)

-- `isRecord(v) ? v[key] : undefined`
unfoldable pub at_key : String → Value → Option Value
at_key key (obj fields) = Json.get key fields
at_key key _ = none

-- `safeParse` of the policy's schema, and the JSON of what it gives
module _ (parse_policy : Option Value → Option PmPolicy) (policy_json : PmPolicy → Value) where
  unfoldable pub get_pm_policy_from_branch_protection : Value → PmPolicy × TemplateSource
  get_pm_policy_from_branch_protection (obj fields) =
      elim (parse_policy (Json.get "pmPolicy" fields)) [
        | none ↦ (default_pm_policy, default)
        | some policy ↦ (policy, project)
      ]
  get_pm_policy_from_branch_protection _ = (default_pm_policy, default)

  unfoldable pub get_pm_policy_for_project : String → Db → PolicyReply (PmPolicy × TemplateSource)
  get_pm_policy_for_project project_id db = elim (find_project project_id db) [
    | none ↦ declined not_found
    | some p ↦ granted (get_pm_policy_from_branch_protection p.branch_protection)
  ]

  unfoldable pub set_pm_policy_for_project : String → Value → Db → PolicyReply PmPolicy × Db
  set_pm_policy_for_project project_id value db = elim (parse_policy (some value)) [
    | none ↦ (declined bad_value, db)
    | some policy ↦ elim (find_project project_id db) [
      | none ↦ (declined not_found, db)
      | some p ↦ (
        granted policy,
        set_branch_protection project_id
            (with_key "pmPolicy" (policy_json policy) p.branch_protection) db,
      )
    ]
  ]

-- the same for `taskTemplateOverridesSchema`
module _ (parse_templates : Option Value → Option Overrides)
    (templates_json : Overrides → Value) where
  unfoldable pub get_task_templates_for_project :
      String → Db → PolicyReply (Overrides × TemplateSource)
  get_task_templates_for_project project_id db = elim (find_project project_id db) [
    | none ↦ declined not_found
    | some p ↦ elim (parse_templates (at_key "taskTemplates" p.branch_protection)) [
      | none ↦ granted ([], default)
      | some templates ↦ granted (templates, project)
    ]
  ]

  unfoldable pub set_task_templates_for_project : String → Value → Db → PolicyReply Overrides × Db
  set_task_templates_for_project project_id value db = elim (parse_templates (some value)) [
    | none ↦ (declined bad_value, db)
    | some templates ↦ elim (find_project project_id db) [
      | none ↦ (declined not_found, db)
      | some p ↦ (
        granted templates,
        set_branch_protection project_id
            (with_key "taskTemplates" (templates_json templates) p.branch_protection) db,
      )
    ]
  ]
