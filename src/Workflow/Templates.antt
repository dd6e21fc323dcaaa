-- ===== src/Workflow/Templates.antt =====
-- backend/src/modules/workflow/taskTemplates.ts: the built-in templates and their lookup.
use tuixiu.Prelude.{
  String, Option, none, some, Bool, false, List, [], ◌∷◌, ◌++◌, map, ◌==◌, is_empty, trim, find,
  if◌then◌else◌, ◌<|◌,
}
use tuixiu.Json.{Value, str, obj, field, end}
use tuixiu.Db.Types.{ExecutorType, TaskTrack}

pub record TaskTemplateStep : Type 0 where
  pub key : String
  pub kind : String
  pub executor_type : ExecutorType
  pub role_key : Option String
  pub params : Option Value

-- `steps` is absent only in a template that is made from an inherited property, see Resolver
pub record TaskTemplate : Type 0 where
  pub key : String
  pub display_name : String
  pub description : Option String
  pub track : Option TaskTrack
  pub deprecated : Bool
  pub steps : Option (List TaskTemplateStep)

abbrev plain_step : String → String → ExecutorType → TaskTemplateStep
plain_step k kind executor = record {
  key = k;
  kind = kind;
  executor_type = executor;
  role_key = none;
  params = none;
}

abbrev with_param : TaskTemplateStep → String → String → TaskTemplateStep
with_param s name value = record s { params = some (obj (field name (str value) end)) }

abbrev pub admin_session_steps : List TaskTemplateStep
admin_session_steps = plain_step "session.interactive" "session.interactive" ExecutorType.agent ∷ []

abbrev pub dev_full_steps : List TaskTemplateStep
dev_full_steps =
    plain_step "dev.implement" "dev.implement" ExecutorType.agent
    ∷ with_param (plain_step "test.run" "test.run" ExecutorType.agent) "mode" "dual"
    ∷ with_param (plain_step "code.review.ai" "code.review" ExecutorType.agent) "mode" "ai"
    ∷ with_param (plain_step "code.review.human" "code.review" ExecutorType.human) "mode" "human"
    ∷ plain_step "pr.create" "pr.create" ExecutorType.system
    ∷ plain_step "ci.gate" "ci.gate" ExecutorType.ci
    ∷ plain_step "merge" "pr.merge" ExecutorType.human
    ∷ []

abbrev pub prd_only_steps : List TaskTemplateStep
prd_only_steps =
    plain_step "prd.generate" "prd.generate" ExecutorType.agent
    ∷ plain_step "prd.review" "prd.review" ExecutorType.human
    ∷ with_param (plain_step "prd.publish" "report.publish" ExecutorType.system) "kind" "prd"
    ∷ []

abbrev pub test_only_steps : List TaskTemplateStep
test_only_steps =
    with_param (plain_step "test.run" "test.run" ExecutorType.agent) "mode" "dual"
    ∷ with_param (plain_step "test.publish" "report.publish" ExecutorType.system) "kind" "test"
    ∷ []

abbrev pub pr_review_steps : List TaskTemplateStep
pr_review_steps =
    with_param (plain_step "pr.review.ai" "code.review" ExecutorType.agent) "mode" "ai"
    ∷ with_param (plain_step "pr.review.publish" "report.publish" ExecutorType.system) "kind"
        "review"
    ∷ []

abbrev built_in : String → String → Option String → TaskTrack → List TaskTemplateStep → TaskTemplate
built_in k name description track steps = record {
  key = k;
  display_name = name;
  description = description;
  track = some track;
  deprecated = false;
  steps = some steps;
}

abbrev pub task_templates : List TaskTemplate
task_templates =
    built_in "quick.admin.session" "Quick：管理员会话（交互式 Session）"
      (some "创建一个独立分支/worktree，用于与 Agent 像 CLI 一样持续对话协作（不依赖 Issue 流程）") TaskTrack.quick
      admin_session_steps
    ∷ built_in "quick.dev.full" "Quick：开发全流程（实现→测试→评审→PR→CI→合并）" none TaskTrack.quick dev_full_steps
    ∷ built_in "planning.prd.dev.full" "Planning：PRD→开发全流程（PRD→实现→测试→评审→PR→CI→合并）"
        (some "会先生成/评审/发布 PRD（提交到当前分支），随后进入开发全流程；PRD 会与后续代码一起进入同一个 PR。") TaskTrack.planning
        (prd_only_steps ++ dev_full_steps)
    ∷ built_in "planning.prd.only" "Planning：PRD（生成→评审→发布）" none TaskTrack.planning prd_only_steps
    ∷ built_in "quick.test.only" "Quick：测试（运行→发布）" none TaskTrack.quick test_only_steps
    ∷ built_in "quick.pr.review" "Quick：PR 评审（AI→发布）"
        (some "用于评审外部 Pull Request：在 workspace 拉取并检出 PR 后，执行对抗式评审并发布评审报告。") TaskTrack.quick
        pr_review_steps
    ∷ built_in "enterprise.dev.full" "Enterprise：开发全流程（更强门禁/审计预留）"
        (some "（预留）与 quick.dev.full 步骤一致，用于需要更强合规/审计策略的任务轨道。") TaskTrack.enterprise dev_full_steps
    ∷ []

unfoldable pub get_task_template : String → Option TaskTemplate
get_task_template key =
    let k = trim key in if is_empty k then none else find (λ t. t.key == k) task_templates

pub record StepListing : Type 0 where
  pub key : String
  pub kind : String
  pub executor_type : ExecutorType

pub record TemplateListing : Type 0 where
  pub key : String
  pub display_name : String
  pub description : String
  pub track : Option TaskTrack
  pub deprecated : Bool
  pub steps : List StepListing

abbrev listing : TaskTemplate → TemplateListing
listing t = record {
  key = t.key;
  display_name = t.display_name;
  description = t.description <| "";
  track = t.track;
  deprecated = t.deprecated;
  steps =
      map (λ s. record { key = s.key; kind = s.kind; executor_type = s.executor_type })
        (t.steps <| []);
}

unfoldable pub list_task_templates : List TemplateListing
list_task_templates = map listing task_templates
