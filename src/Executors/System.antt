-- ===== src/Executors/System.antt =====
-- backend/src/executors/systemExecutor.ts: the steps that the system does itself, which open a pull
-- request or publish an artifact.
use tuixiu.Workflow.Progress.{TerminalOutcome}
use Prim.Native.String.{◌++◌ as cat}
use tuixiu.Approvals.{is_action, request_create_pr_approval, request_publish_artifact_approval}
use tuixiu.Db.Tables.{find_step, update_run, find_run, find_task, find_issue, find_project}
use tuixiu.Pm.Policy.{PmPolicy, get_pm_policy_from_branch_protection}
use tuixiu.Db.Exec.{Exec, Fault, pure, write, ◌>>=◌, thrown, require, throw, ◌>>◌, err}
use tuixiu.Workflow.Progress.{set_issue, set_step, advance_task_from_run_terminal}
use tuixiu.Executors.{
  Services, PlanReply, obj, unplanned, str, field, planned, end, CallError, error_text,
}
use tuixiu.Pm.SensitivePaths.{SensitiveHit, compute_sensitive_hit_from_paths}
use tuixiu.Json.{Items, as_string, nil, Value, prop, cons, arr}
use tuixiu.Db.Types.{
  Step, Run, ApprovalAction, Db, ArtifactType, Artifact, Task, Project, Issue, IssueStatus,
  RunStatus, StepStatus,
}
use tuixiu.Prelude.{
  ℕ, String, Option, none, some, Bool, true, false, List, [], ◌∷◌, any, trim, ◌==◌, take,
  if◌then◌else◌, newest_first, not, ◌&&◌, ◌||◌, ◌<|◌, select, is_empty, is_some, find, ◌<|>◌,
  head_or_none,
}

-- The rows that a system step needs.
pub record SystemRows : Type 0 where
  pub step : Step
  pub task : Task
  pub issue : Issue
  pub project : Project

-- a relation that may be absent
abbrev pub related : {A : Type 0} → Option String → (String → Option A) → Option A
related none find_row = none
related (some id) find_row = find_row id

unfoldable pub system_rows : Run → Db → Option SystemRows
system_rows run db = elim (related run.step_id (λ id. find_step id db)) [
  | none ↦ none
  | some step ↦ elim (related run.task_id (λ id. find_task id db)) [
    | none ↦ none
    | some task ↦ elim (find_issue task.issue_id db) [
      | none ↦ none
      | some issue ↦ elim (find_project issue.project_id db) [
        | none ↦ none
        | some project ↦
            some (record { step = step; task = task; issue = issue; project = project })
      ]
    ]
  ]
]

abbrev pub includes : ApprovalAction → List ApprovalAction → Bool
includes action actions = any (λ a. is_action a action) actions

abbrev pub wait_for_human : SystemRows → Db → Db
wait_for_human rows db =
    set_issue rows.issue.id IssueStatus.reviewing
      (set_step rows.step.id StepStatus.waiting_human db)

-- `step.params.kind`, trimmed
unfoldable pub desired_kind : Step → String
desired_kind step = trim (as_string (prop "kind" step.params) <| "")

abbrev is_type : ArtifactType → ArtifactType → Bool
is_type ArtifactType.branch ArtifactType.branch = true
is_type ArtifactType.pr ArtifactType.pr = true
is_type ArtifactType.patch ArtifactType.patch = true
is_type ArtifactType.report ArtifactType.report = true
is_type ArtifactType.ci_result ArtifactType.ci_result = true
is_type _ _ = false

abbrev is_of_task : String → Option Run → Bool
is_of_task task_id none = false
is_of_task task_id (some run) = elim run.task_id [ none ↦ false | some id ↦ id == task_id ]

-- the newest fifty artifacts of a type that the runs of a task have
unfoldable pub candidates_of : ArtifactType → String → Db → List Artifact
candidates_of type task_id db = take 50 (
    newest_first (λ a. a.created_at)
      (select (λ (a : Artifact). is_type a.type type && is_of_task task_id (find_run a.run_id db))
        db.artifacts))

-- A kind that is no text counts as absent.
abbrev is_of_kind : String → Artifact → Bool
is_of_kind kind a = (as_string (prop "kind" (some a.content)) <| "") == kind

-- The artifact to publish: a test's result, a report of the kind that is asked for, or the newest.
unfoldable pub picked_artifact : String → String → Db → Option Artifact
picked_artifact desired task_id db =
    let type = if desired == "test" then ArtifactType.ci_result else ArtifactType.report in
    let candidates = candidates_of type task_id db in
    if not (is_empty desired) && is_type type ArtifactType.report
    then find (is_of_kind desired) candidates <|> head_or_none candidates
    else head_or_none candidates

abbrev texts : List String → Items
texts [] = nil
texts (s ∷ rest) = cons (str s) (texts rest)

-- the part of a hit that a request keeps
abbrev pub sensitive_json : Option SensitiveHit → Option Value
sensitive_json none = none
sensitive_json (some hit) = some (
    obj (
      field "patterns" (arr (texts (take 20 hit.patterns)))
        (field "matchedFiles" (arr (texts (take 60 hit.matched_files))) end)))

module _ (services : Services) (approval_id : String) (now : ℕ) where
  abbrev pub policy_of : Project → PmPolicy
  policy_of project =
      (get_pm_policy_from_branch_protection services.parse_policy services.policy_json
        project.branch_protection).0

  abbrev pub requested_by : Option String
  requested_by = some "system_step"

  -- The end of a step that the system has done.
  unfoldable pub complete_run : String → Exec Bool
  complete_run run_id =
      update_run run_id (λ r. record r { status = RunStatus.completed })
      >> write (λ db.
        (advance_task_from_run_terminal services.json_parse services.index_text run_id
          TerminalOutcome.completed none db).1)
      >> pure true

  abbrev pub attempted : Option CallError → Exec (Unit {0})
  attempted none = pure tt
  attempted (some e) = throw (thrown (error_text e))

  abbrev pub await_create_pr_approval : String → SystemRows → Exec Bool
  await_create_pr_approval run_id rows =
      write (λ db.
        wait_for_human rows
          (request_create_pr_approval services.to_iso services.admin_token approval_id now run_id
            requested_by none none none none db).1)
      >> pure false

  unfoldable pub create_pr_step : String → SystemRows → Exec Bool
  create_pr_step run_id rows =
      if includes ApprovalAction.create_pr (policy_of rows.project).require_for_actions
      then await_create_pr_approval run_id rows
      else (services.create_review_request_for_run run_id >>= attempted) >> complete_run run_id

  -- the text of the SyntaxError that a pattern gives
  abbrev pub bad_pattern : Fault
  bad_pattern = thrown "Invalid regular expression"

  abbrev pub needs_sensitive_check : PmPolicy → Bool
  needs_sensitive_check policy =
      elim policy.sensitive_paths [ [] ↦ false | _ ∷ _ ↦ true ]
      && includes ApprovalAction.publish_artifact policy.escalate_on_sensitive_paths

  abbrev pub sensitive_hit : PmPolicy → String → Exec (Option SensitiveHit)
  sensitive_hit policy path =
      if needs_sensitive_check policy
      then require bad_pattern (compute_sensitive_hit_from_paths (path ∷ []) policy.sensitive_paths)
      else pure none

  abbrev pub await_publish_approval :
      SystemRows → Artifact → String → Option SensitiveHit → Exec Bool
  await_publish_approval rows artifact path hit =
      write (λ db.
        wait_for_human rows
          (request_publish_artifact_approval services.to_iso services.admin_token approval_id now
            artifact.id requested_by (some path) (sensitive_json hit) db).1)
      >> pure false

  -- the publishing of an artifact whose path is known
  abbrev pub publish_or_await :
      String → SystemRows → Artifact → String → Option SensitiveHit → Exec Bool
  publish_or_await run_id rows artifact path hit =
      if includes ApprovalAction.publish_artifact (policy_of rows.project).require_for_actions
        || is_some hit
      then await_publish_approval rows artifact path hit
      else (services.publish_artifact artifact.id >>= attempted) >> complete_run run_id

  abbrev pub with_plan : String → SystemRows → Artifact → PlanReply → Exec Bool
  with_plan run_id rows artifact (unplanned e) = throw (thrown (error_text e))
  with_plan run_id rows artifact (planned path) =
      sensitive_hit (policy_of rows.project) path >>= publish_or_await run_id rows artifact path

  unfoldable pub publish_step : String → SystemRows → Exec Bool
  publish_step run_id rows db = elim (picked_artifact (desired_kind rows.step) rows.task.id db) [
    | none ↦ throw (thrown "没有可发布的产物（report/ci_result）") db
    | some artifact ↦
        (services.plan_artifact_publish artifact.id >>= with_plan run_id rows artifact) db
  ]

  abbrev unsupported : String → Fault
  unsupported kind = thrown (cat "不支持的 system step: " (if is_empty kind then "unknown" else kind))

  -- Whether the step was done.
  unfoldable pub start_system_execution : String → Exec Bool
  start_system_execution run_id db = elim (find_run run_id db) [
    | none ↦ (err (thrown "Run 不存在"), db)
    | some run ↦ elim (system_rows run db) [
      | none ↦ (err (thrown "Run 缺少 step/task/issue/project"), db)
      | some rows ↦
          let kind = trim rows.step.kind in
          if kind == "pr.create"
          then create_pr_step run_id rows db
          else if kind == "report.publish"
          then publish_step run_id rows db
          else (err (unsupported kind), db)
    ]
  ]
