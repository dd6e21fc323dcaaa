-- ===== src/Approvals.antt =====
-- backend/src/modules/approvals/approvalRequests.ts: the requests for an approval. Generated ids and
-- the time are arguments, and a comment on the issue at GitHub is a part of the outcome.
pub mod Idempotent
pub mod Requests
pub mod Live
mod Tests
use tuixiu.Prelude.{
  ℕ, String, Option, none, some, Bool, true, false, List, [], ◌∷◌, ◌++◌, ◌==◌, ◌&&◌, not, is_empty,
  trim, codes, same, lower_codes, find, select, newest_first, head_or_none, if◌then◌else◌, ◌<|◌,
  ◌<|>◌,
}
use mathlib.Core.Option
use tuixiu.Json.{
  Number, positive, Value, str, bool, obj, end, field, optional, not_null, is_object, as_string,
  prop,
}
use tuixiu.Db.Types.{
  ApprovalAction, ApprovalStatus, ArtifactType, Artifact, EventSource, Event, Approval, Run, Issue,
  Project, Db,
}
use tuixiu.Db.Tables.{find_run, find_issue, find_project, add_event}

pub record ApprovalSummary : Type 0 where
  pub id : String
  pub run_id : String
  pub created_at : String
  pub action : ApprovalAction
  pub status : ApprovalStatus
  pub requested_by : Option String
  pub requested_at : Option String
  pub decided_by : Option String
  pub decided_at : Option String
  pub reason : Option String
  pub issue_id : Option String
  pub issue_title : Option String
  pub project_id : Option String

pub data RequestError : Type 0 where
  not_found no_pr no_run bad_approval : RequestError

pub data CommentKind : Type 0 where
  merge_pr_requested create_pr_requested publish_artifact_requested : CommentKind

pub record Comment : Type 0 where
  pub project_id : Option String
  pub repo_url : String
  pub token : String
  pub issue_number : ℕ
  pub kind : CommentKind
  pub run_id : String
  pub approval_id : String
  pub pr_url : Option String

pub data Reply : Type 0 where
  accepted : ApprovalSummary → Reply
  refused : RequestError → Reply

pub record Outcome : Type 0 where
  pub reply : Reply
  pub comment : Option Comment

abbrev pub live : ApprovalStatus → Bool
live ApprovalStatus.pending = true
live ApprovalStatus.approved = true
live ApprovalStatus.executing = true
live _ = false

abbrev pub is_action : ApprovalAction → ApprovalAction → Bool
is_action ApprovalAction.merge_pr ApprovalAction.merge_pr = true
is_action ApprovalAction.create_pr ApprovalAction.create_pr = true
is_action ApprovalAction.publish_artifact ApprovalAction.publish_artifact = true
is_action _ _ = false

abbrev pub is_live : String → ApprovalAction → Approval → Bool
is_live run_id action a = a.run_id == run_id && is_action a.action action && live a.status

-- with the statuses pending, approved and executing, as every request asks
unfoldable pub find_latest_approval : String → ApprovalAction → Db → Option Approval
find_latest_approval run_id action db =
    head_or_none (newest_first (λ a. a.created_at) (select (is_live run_id action) db.approvals))

-- `typeof opts.requestedBy === "string" && opts.requestedBy.trim() ? ... : "user"`
abbrev pub requester : Option String → String
requester none = "user"
requester (some s) = if is_empty (trim s) then "user" else trim s

abbrev is_pr : ArtifactType → Bool
is_pr ArtifactType.pr = true
is_pr _ = false

abbrev is_positive : Option Number → Bool
is_positive (some (positive whole)) = true
is_positive _ = false

abbrev text_or_none : String → Option String
text_or_none s = if is_empty s then none else some s

-- the address in the content of a pull request's artifact
abbrev url_of_content : Option Value → String
url_of_content content =
    trim (as_string (prop "webUrl" content) <|> as_string (prop "web_url" content) <| "")

-- `extractPrHint(run).prUrl`. The number is not read by the callers.
unfoldable pub extract_pr_url : Run → Db → Option String
extract_pr_url run db =
    let pr_url = trim (run.scm_pr_url <| "") in
    if is_positive run.scm_pr_number
    then text_or_none pr_url
    else if not (is_empty pr_url)
    then some pr_url
    else text_or_none (
        url_of_content (
          Option.map (λ a. a.content)
            (find (λ (a : Artifact). a.run_id == run.id && is_pr a.type) db.artifacts)))

abbrev event_type : ApprovalAction → String
event_type ApprovalAction.merge_pr = "approval.merge_pr.requested"
event_type ApprovalAction.create_pr = "approval.create_pr.requested"
event_type ApprovalAction.publish_artifact = "approval.publish_artifact.requested"

abbrev comment_kind : ApprovalAction → CommentKind
comment_kind ApprovalAction.merge_pr = merge_pr_requested
comment_kind ApprovalAction.create_pr = create_pr_requested
comment_kind ApprovalAction.publish_artifact = publish_artifact_requested

-- What a request writes: the row's payload, and what the event and the comment say besides.
pub record Ask : Type 0 where
  pub action : ApprovalAction
  pub payload : Value
  pub pr_url : Option String
  pub artifact_id : Option String

-- a new row, as every request creates it
unfoldable pub new_approval : String → ℕ → Option String → Ask → Run → Approval
new_approval approval_id now requested_by ask run = record {
  id = approval_id;
  run_id = run.id;
  created_at = now;
  action = ask.action;
  status = ApprovalStatus.pending;
  requested_by = some (requester requested_by);
  requested_at = some now;
  decided_by = none;
  decided_at = none;
  reason = none;
  payload = ask.payload;
}

abbrev refuse : RequestError → Db → Outcome × Db
refuse e db = (record { reply = refused e; comment = none }, db)

abbrev pub ask_merge : Option Bool → Option String → String → Ask
ask_merge squash message pr_url = record {
  action = ApprovalAction.merge_pr;
  payload = obj (
      optional "squash" (Option.map bool squash)
        (optional "mergeCommitMessage" (Option.map str message) end));
  pr_url = some pr_url;
  artifact_id = none;
}

abbrev pub ask_create : Option String → Option String → Option String → Option Value → Ask
ask_create title description target_branch sensitive = record {
  action = ApprovalAction.create_pr;
  payload = obj (
      optional "title" (Option.map str title) (
        optional "description" (Option.map str description) (
          optional "targetBranch" (Option.map str target_branch)
            (optional "sensitive" (not_null sensitive) end))));
  pr_url = none;
  artifact_id = none;
}

abbrev object_only : Option Value → Option Value
object_only none = none
object_only (some v) = if is_object v then some v else none

abbrev pub ask_publish : String → Option String → Option Value → Ask
ask_publish artifact_id path sensitive = record {
  action = ApprovalAction.publish_artifact;
  payload = obj (
      field "sourceArtifactId" (str artifact_id)
        (optional "path" (Option.map str path) (optional "sensitive" (object_only sensitive) end)));
  pr_url = none;
  artifact_id = some artifact_id;
}

-- `toISOString`, and the text of the admin token that `loadProjectCredentials` finds
module _ (to_iso : ℕ → String) (admin_token : Option Project → String) where
  unfoldable pub summary_of : Approval → Run → Db → ApprovalSummary
  summary_of a run db =
      let issue = find_issue run.issue_id db in
      record {
        id = a.id;
        run_id = a.run_id;
        created_at = to_iso a.created_at;
        action = a.action;
        status = a.status;
        requested_by = a.requested_by;
        requested_at = Option.map to_iso a.requested_at;
        decided_by = a.decided_by;
        decided_at = Option.map to_iso a.decided_at;
        reason = a.reason;
        issue_id = Option.map (λ (i : Issue). i.id) issue <|> some run.issue_id;
        issue_title = Option.map (λ i. i.title) issue;
        project_id = Option.map (λ (i : Issue). i.project_id) issue;
      }

  -- the enums of the columns are those that the schemas allow
  abbrev pub to_approval_summary : Option Approval → Run → Db → Option ApprovalSummary
  to_approval_summary none run db = none
  to_approval_summary (some a) run db = some (summary_of a run db)

  abbrev requested_event : String → ℕ → Option String → Ask → Run → Event
  requested_event approval_id now requested_by ask run = record {
    run_id = run.id;
    source = EventSource.system;
    type = event_type ask.action;
    payload = obj (
        field "approvalId" (str approval_id) (
          field "requestedBy" (str (requester requested_by)) (
            field "requestedAt" (str (to_iso now)) (
              optional "prUrl" (Option.map str ask.pr_url)
                (optional "artifactId" (Option.map str ask.artifact_id) end)))));
  }

  unfoldable pub comment_of : String → Ask → Run → Db → Option Comment
  comment_of approval_id ask run db =
      let issue = find_issue run.issue_id db in
      let project : Option Project = elim issue [
        | none ↦ none
        | some i ↦ find_project i.project_id db
      ] in
      let provider : Option String = elim issue [ none ↦ none | some i ↦ i.external_provider ] in
      let number : Option ℕ = elim issue [ none ↦ none | some i ↦ i.external_number ] in
      let token = trim (admin_token project) in
      if same (lower_codes (provider <| "")) (codes "github") && not (is_empty token)
      then some (record {
        project_id = Option.map (λ (i : Issue). i.project_id) issue;
        repo_url = trim (Option.map (λ p. p.repo_url) project <| "");
        token = token;
        issue_number = number <| 0;
        kind = comment_kind ask.action;
        run_id = run.id;
        approval_id = approval_id;
        pr_url = ask.pr_url;
      })
      else none

  abbrev pub reply_of : Option ApprovalSummary → Reply
  reply_of none = refused bad_approval
  reply_of (some s) = accepted s

  unfoldable pub create_approval : String → ℕ → Option String → Ask → Run → Db → Outcome × Db
  create_approval approval_id now requested_by ask run db =
      let created = new_approval approval_id now requested_by ask run in
      (
        record {
          reply = reply_of (to_approval_summary (some created) run db);
          comment = comment_of approval_id ask run db;
        },
        add_event (requested_event approval_id now requested_by ask run)
            (record db { approvals = db.approvals ++ created ∷ [] }),
      )

  -- the approval that is under way, or a new one
  unfoldable pub request_approval : String → ℕ → Option String → Ask → Run → Db → Outcome × Db
  request_approval approval_id now requested_by ask run db =
      elim (to_approval_summary (find_latest_approval run.id ask.action db) run db) [
        | some s ↦ (record { reply = accepted s; comment = none }, db)
        | none ↦ create_approval approval_id now requested_by ask run db
      ]

  unfoldable pub request_merge_pr_approval :
      String → ℕ → String → Option String → Option Bool → Option String → Db → Outcome × Db
  request_merge_pr_approval approval_id now run_id requested_by squash message db =
      elim (find_run run_id db) [
        | none ↦ refuse not_found db
        | some run ↦ elim (extract_pr_url run db) [
          | none ↦ refuse no_pr db
          | some pr_url ↦
              request_approval approval_id now requested_by (ask_merge squash message pr_url) run db
        ]
      ]

  unfoldable pub request_create_pr_approval :
      String
      → ℕ
      → String
      → Option String
      → Option String
      → Option String
      → Option String
      → Option Value
      → Db
      → Outcome × Db
  request_create_pr_approval approval_id now run_id requested_by title description target sensitive
        db =
      elim (find_run run_id db) [
        | none ↦ refuse not_found db
        | some run ↦
            request_approval approval_id now requested_by
              (ask_create title description target sensitive) run db
      ]

  unfoldable pub request_publish_artifact_approval :
      String → ℕ → String → Option String → Option String → Option Value → Db → Outcome × Db
  request_publish_artifact_approval approval_id now artifact_id requested_by path sensitive db =
      elim (find (λ (a : Artifact). a.id == artifact_id) db.artifacts) [
        | none ↦ refuse not_found db
        | some artifact ↦ elim (find_run artifact.run_id db) [
          | none ↦ refuse no_run db
          | some run ↦
              request_approval approval_id now requested_by (ask_publish artifact.id path sensitive)
                run db
        ]
      ]
