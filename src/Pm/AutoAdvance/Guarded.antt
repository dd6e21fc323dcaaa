-- ===== src/Pm/AutoAdvance/Guarded.antt =====
-- What the manager does not do by itself, and what it does once.
use tuixiu.Approvals.Requests.{
  Leaves, request_merge_pr_approval-Leaves, request_merge_pr_approval_twice,
}
use tuixiu.Pm.Policy.{PmPolicy}
use tuixiu.Pm.AutoAdvance.{run_completed, ci_completed, has_task, ci_passed, has_scm_pr}
use tuixiu.Executors.System.{includes}
use tuixiu.Db.Tables.{find_run}
use tuixiu.Db.Types.{Db, Run, Project, ApprovalAction, Issue}
use tuixiu.Pm.AutoAdvance.{
  PmServices, run_auto_advance_once, advance_run, reviewed, after_run, after_ci, request_create,
  PmTrigger, project_of_run, pm_policy_of,
}
use tuixiu.Executors.{Attempt}
use tuixiu.Prelude.{
  ℕ, String, Option, none, some, true, false, refl, ◌≡◌, Bool-cases, ap, ◌&&◌, ◌∙◌, sym, inl, inr,
  List, find, ◌==◌,
}

abbrev pub with_creation : (String → Attempt) → PmServices → PmServices
with_creation create pm = record pm {
  base = record (pm.base) { create_review_request_for_run = create };
}

module _ (pm : PmServices) (approval_id : String) (now : ℕ) where
  -- Where the policy of a run's project requires an approval of pull requests, the automatic advance
  -- after the run or its CI gives the same database whatever the call that creates pull requests
  -- does.
  pub run_auto_advance_once-no_creation :
      (create : String → Attempt) (run_id : String) (trigger : PmTrigger) (db : Db) {run : Run}
      {project : Project}
      → find_run run_id db ≡ some run
      → project_of_run run db ≡ some project
      → includes ApprovalAction.create_pr
          (pm_policy_of pm approval_id now project).require_for_actions
        ≡ true
      → run_auto_advance_once (with_creation create pm) approval_id now run_id trigger db
        ≡ run_auto_advance_once pm approval_id now run_id trigger db
  unfolding run_auto_advance_once advance_run reviewed after_run after_ci request_create
  run_auto_advance_once-no_creation create run_id run_completed db {run} {project} found of_project
        required =
      rw (found, of_project) (rw (required, after_run) refl)
  run_auto_advance_once-no_creation create run_id ci_completed db found of_project required =
      rw (found, of_project) refl

-- The job of a run whose rows are there, where no review is made.
ci_job :
    (pm : PmServices) (approval_id : String) (now : ℕ) (run_id : String) (db : Db) {run : Run}
    {project : Project}
    → pm.enabled ≡ true
    → find_run run_id db ≡ some run
    → has_task run ≡ false
    → project_of_run run db ≡ some project
    → (pm_policy_of pm approval_id now project).automation.auto_review ≡ false
    → run_auto_advance_once pm approval_id now run_id ci_completed db
      ≡ after_ci pm approval_id now (pm_policy_of pm approval_id now project) run run_id db
unfolding run_auto_advance_once advance_run reviewed after_ci
ci_job pm approval_id now run_id db on found free of_project unreviewed =
    rw (on, found, free, of_project, unreviewed, run_auto_advance_once) refl

module _ (pm : PmServices) (policy : PmPolicy) (run : Run) (run_id : String) where
  after_ci-Leaves :
      (approval_id : String) (now : ℕ) (db : Db)
      → Leaves pm.base.to_iso pm.base.admin_token db
          (after_ci pm approval_id now policy run run_id db)
  unfolding after_ci
  after_ci-Leaves approval_id now db =
      elim (Bool-cases (
        policy.automation.auto_request_merge_approval
        && ci_passed run.scm_ci_status
        && includes ApprovalAction.merge_pr policy.require_for_actions
        && has_scm_pr run)) [
          | inl asks ↦ rw asks (
              request_merge_pr_approval-Leaves pm.base.to_iso pm.base.admin_token approval_id now
                run_id (some "pm_auto") none none db)
          | inr idle ↦ rw idle (record {
            runs = refl;
            artifacts = refl;
            steps = refl;
            tasks = refl;
            issues = refl;
            projects = refl;
          })
        ]

  after_ci_twice :
      (id1 id2 : String) (now1 now2 : ℕ) (db : Db)
      → let once = after_ci pm id1 now1 policy run run_id db in
        after_ci pm id2 now2 policy run run_id once ≡ once
  unfolding after_ci
  after_ci_twice id1 id2 now1 now2 db =
      elim (Bool-cases (
        policy.automation.auto_request_merge_approval
        && ci_passed run.scm_ci_status
        && includes ApprovalAction.merge_pr policy.require_for_actions
        && has_scm_pr run)) [
          | inl asks ↦ rw asks (
              request_merge_pr_approval_twice pm.base.to_iso pm.base.admin_token id1 id2 now1 now2
                run_id (some "pm_auto") none none db)
          | inr idle ↦ rw idle refl
        ]

project_of_run-kept :
    (run : Run) (before after : Db)
    → after.issues ≡ before.issues
    → after.projects ≡ before.projects
    → project_of_run run after ≡ project_of_run run before
unfolding project_of_run
project_of_run-kept run before after issues projects =
    ap (λ is. look is after.projects) issues ∙ ap (look before.issues) projects
  where
    look : List Issue → List Project → Option Project
    look is ps = elim (find (λ (i : Issue). i.id == run.issue_id) is) [
      | none ↦ none
      | some issue ↦ find (λ (p : Project). p.id == issue.project_id) ps
    ]

-- Where the manager is enabled, the run has no task, its project is there and the policy has no
-- automatic review, the advance after the run's CI, made a second time, with another id and time,
-- writes nothing.
pub run_auto_advance_once-ci_twice :
    (pm : PmServices) (id1 id2 : String) (now1 now2 : ℕ) (run_id : String) (db : Db) {run : Run}
    {project : Project}
    → pm.enabled ≡ true
    → find_run run_id db ≡ some run
    → has_task run ≡ false
    → project_of_run run db ≡ some project
    → (pm_policy_of pm id1 now1 project).automation.auto_review ≡ false
    → let once = run_auto_advance_once pm id1 now1 run_id ci_completed db in
      run_auto_advance_once pm id2 now2 run_id ci_completed once ≡ once
unfolding project_of_run
run_auto_advance_once-ci_twice pm id1 id2 now1 now2 run_id db {run} {project} on found free
      of_project unreviewed =
    let policy = pm_policy_of pm id1 now1 project in
    let first = ci_job pm id1 now1 run_id db on found free of_project unreviewed in
    let after = after_ci pm id1 now1 policy run run_id db in
    let kept = after_ci-Leaves pm policy run run_id id1 now1 db in
    let same_run : find_run run_id after ≡ some run = rw (kept.runs) found in
    let same_project : project_of_run run after ≡ some project =
      project_of_run-kept run db after kept.issues kept.projects ∙ of_project in
    let second = ci_job pm id2 now2 run_id after on same_run free same_project unreviewed in
    ap (λ d. run_auto_advance_once pm id2 now2 run_id ci_completed d) first
    ∙ second
    ∙ after_ci_twice pm policy run run_id id1 id2 now1 now2 db
    ∙ sym first
