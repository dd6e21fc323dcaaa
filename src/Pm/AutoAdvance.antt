-- ===== src/Pm/AutoAdvance.antt =====
-- backend/src/modules/pm/pmAutoAdvance.ts: what the project's manager does by itself when a run or its
-- CI is done. The jobs of an issue are queued and run one after the other.
pub mod Guarded
use tuixiu.Executors.System.{includes}
use tuixiu.Db.Tables.{find_issue, add_event, find_project, find_run}
use tuixiu.Approvals.{
  Outcome, accepted, request_create_pr_approval, RequestError, refused, request_merge_pr_approval,
}
use tuixiu.Pm.Policy.{PmPolicy, get_pm_policy_from_branch_protection}
use tuixiu.Executors.{CallError, Services}
use tuixiu.Json.{Fields, Value, obj, field, end, str, positive, optional}
use mathlib.Core.Option
use tuixiu.Db.Types.{ScmCiStatus, EventSource, ApprovalAction, Run, Db, Project, Event}
use tuixiu.Db.Exec.{ok, err, Result, Exec, Fault}
use tuixiu.Prelude.{
  ℕ, String, Option, none, some, Bool, true, false, List, [], ◌∷◌, if◌then◌else◌, not, is_empty,
  ◌||◌, ◌&&◌, trim, ◌<|◌,
}

pub data PmTrigger : Type 0 where
  run_completed ci_completed : PmTrigger

abbrev pub trigger_text : PmTrigger → String
trigger_text run_completed = "run_completed"
trigger_text ci_completed = "ci_completed"

-- The run has a pull request, by its address or by its number.
unfoldable pub has_scm_pr : Run → Bool
has_scm_pr run =
    if not (is_empty (trim (run.scm_pr_url <| ""))) then true else elim run.scm_pr_number [
      | some n ↦ elim n [ positive whole ↦ true | _ ↦ false ]
      | none ↦ false
    ]

abbrev pub ci_passed : Option ScmCiStatus → Bool
ci_passed (some ScmCiStatus.passed) = true
ci_passed _ = false

abbrev pub has_task : Run → Bool
has_task run = not (is_empty (run.task_id <| ""))

unfoldable pub project_of_run : Run → Db → Option Project
project_of_run run db = elim (find_issue run.issue_id db) [
  | none ↦ none
  | some issue ↦ find_project issue.project_id db
]

abbrev pub pm_event : String → String → PmTrigger → Fields → Event
pm_event run_id type trigger rest = record {
  run_id = run_id;
  source = EventSource.system;
  type = type;
  payload = obj (field "trigger" (str (trigger_text trigger)) rest);
}

abbrev pub error_json : CallError → Value
error_json e = obj (
    field "code" (str e.code)
      (field "message" (str e.message) (optional "details" (Option.map str e.details) end)))

-- What the executors' services leave open: the review of a run, whose throws are caught, the JSON of a
-- refused request's error, and `String(err)`.
pub record PmServices : Type 0 where
  pub base : Services
  pub enabled : Bool
  pub auto_review_run_for_pm : String → Bool → Exec (Unit {0})
  pub request_error_json : RequestError → Value
  pub error_string : Fault → String

module _ (pm : PmServices) (approval_id : String) (now : ℕ) where
  abbrev by_pm : Option String
  by_pm = some "pm_auto"

  unfoldable pub reviewed : PmPolicy → String → PmTrigger → Db → Db
  reviewed policy run_id trigger db =
      if policy.automation.auto_review
      then (pm.auto_review_run_for_pm run_id
          (elim trigger [ ci_completed ↦ true | run_completed ↦ false ]) db).1
      else db

  abbrev noted_request : String → PmTrigger → Outcome → Db → Db
  noted_request run_id trigger outcome db = elim outcome.reply [
    | accepted approval ↦
        add_event
          (pm_event run_id "pm.pr.auto_create.approval_requested" trigger
            (field "approvalId" (str approval.id) end))
          db
    | refused e ↦
        add_event
          (pm_event run_id "pm.pr.auto_create.approval_request_failed" trigger
            (field "error" (pm.request_error_json e) end))
          db
  ]

  unfoldable pub request_create : String → PmTrigger → Db → Db
  request_create run_id trigger db =
      let (outcome, after) =
        request_create_pr_approval pm.base.to_iso pm.base.admin_token approval_id now run_id by_pm
          none none none none db in
      noted_request run_id trigger outcome after

  abbrev create_failed : CallError
  create_failed = record { code = "PR_CREATE_FAILED"; message = "创建 PR 失败"; details = none }

  abbrev noted_creation : String → PmTrigger → Result (Option CallError) → Db → Db
  noted_creation run_id trigger result db = elim result [
    | ok created ↦ elim created [
      | none ↦ add_event (pm_event run_id "pm.pr.auto_created" trigger end) db
      | some e ↦
          add_event
            (pm_event run_id "pm.pr.auto_create.failed" trigger (field "error" (error_json e) end))
            db
    ]
    | err fault ↦
        add_event
          (pm_event run_id "pm.pr.auto_create.failed" trigger (
            field "error"
              (error_json (record create_failed { details = some (pm.error_string fault) })) end))
          db
  ]

  unfoldable pub create_pull_request : String → PmTrigger → Db → Db
  create_pull_request run_id trigger db =
      let (result, after) = pm.base.create_review_request_for_run run_id db in
      noted_creation run_id trigger result after

  -- after the end of a run
  unfoldable pub after_run : PmPolicy → Run → String → Db → Db
  after_run policy run run_id db =
      if not policy.automation.auto_create_pr || has_scm_pr run
      then db
      else if includes ApprovalAction.create_pr policy.require_for_actions
      then request_create run_id run_completed db
      else create_pull_request run_id run_completed db

  -- after the end of a run's CI
  unfoldable pub after_ci : PmPolicy → Run → String → Db → Db
  after_ci policy run run_id db =
      if policy.automation.auto_request_merge_approval
        && ci_passed run.scm_ci_status
        && includes ApprovalAction.merge_pr policy.require_for_actions
        && has_scm_pr run
      then (request_merge_pr_approval pm.base.to_iso pm.base.admin_token approval_id now run_id
          by_pm none none db).1
      else db

  abbrev pub pm_policy_of : Project → PmPolicy
  pm_policy_of project =
      (get_pm_policy_from_branch_protection pm.base.parse_policy pm.base.policy_json
        project.branch_protection).0

  -- `run` is the row that was read before the review.
  unfoldable pub advance_run : Run → Project → String → PmTrigger → Db → Db
  advance_run run project run_id trigger db =
      let policy = pm_policy_of project in
      let after = reviewed policy run_id trigger db in
      elim trigger [
        | run_completed ↦ after_run policy run run_id after
        | ci_completed ↦ after_ci policy run run_id after
      ]

  unfoldable pub run_auto_advance_once : String → PmTrigger → Db → Db
  run_auto_advance_once run_id trigger db =
      if not pm.enabled then db else elim (find_run run_id db) [
        | none ↦ db
        | some run ↦ if has_task run then db else elim (project_of_run run db) [
          | none ↦ db
          | some project ↦ advance_run run project run_id trigger db
        ]
      ]

  -- The queue's job for a run of an issue.
  unfoldable pub trigger_pm_auto_advance : String → String → PmTrigger → Db → Db
  trigger_pm_auto_advance raw_run_id raw_issue_id trigger db =
      if is_empty (trim raw_run_id) || is_empty (trim raw_issue_id)
      then db
      else run_auto_advance_once (trim raw_run_id) trigger db
