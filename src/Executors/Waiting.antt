-- ===== src/Executors/Waiting.antt =====
-- The system steps that wait for an approval.
use tuixiu.Pm.SensitivePaths.Hits.{
  is_invalid, is_sensitive, all_named_by, compute_sensitive_hit_from_paths-sensitive_files,
  reported,
}
use tuixiu.Pm.SensitivePaths.{SensitiveHit, add_patterns}
use mathlib.Core.Option.{some_inj}
use tuixiu.Approvals.Requests.{request_approval-Leaves, request_approval-live}
use tuixiu.Executors.{Services, planned}
use tuixiu.Approvals.{
  find_latest_approval, Ask, request_approval, request_create_pr_approval, ask_create,
  request_publish_artifact_approval, ask_publish,
}
use tuixiu.Db.Tables.{find_step, find_issue, find_task, find_project, find_run}
use tuixiu.Executors.System.{
  system_rows, SystemRows, related, start_system_execution, wait_for_human, create_pr_step,
  includes, policy_of, publish_step, requested_by, sensitive_hit, picked_artifact, desired_kind,
  sensitive_json, publish_or_await, with_plan,
}
use tuixiu.Db.Types.{
  ApprovalAction, Run, Db, StepStatus, IssueStatus, Approval, Step, Issue, Artifact,
}
use tuixiu.Prelude.{
  ℕ, String, Option, none, some, true, false, refl, ◌≡◌, List, Option-cases, find, inl, ◌==◌, inr,
  find_self, find-modify_found, trim, ap, ◌∙◌, subst, sym, find_id, select, ◌∷◌, any, [],
  if◌then◌else◌, or_true_right,
}
use tuixiu.Db.Exec.{ok, ◌>>=◌, pure, bind_ok}

-- The step waits for a human, its issue is under review, an approval of the action is under way for
-- the run, and the runs and the tasks are as they were.
pub record Waits (action : ApprovalAction) (run_id : String) (rows : SystemRows) (before after : Db)
    : Type 0 where
  pub step :
      find_step rows.step.id after ≡ some (record rows.step { status = StepStatus.waiting_human })
  pub issue :
      find_issue rows.issue.id after ≡ some (record rows.issue { status = IssueStatus.reviewing })
  pub approval : (a : Approval) × (find_latest_approval run_id action after ≡ some a)
  pub runs : after.runs ≡ before.runs
  pub tasks : after.tasks ≡ before.tasks

related_found :
    {A : Type 0} (id : A → String) (rows : List A) (key : Option String) {x : A}
    → related key (λ k. find (λ r. id r == k) rows) ≡ some x
    → find (λ r. id r == id x) rows ≡ some x
related_found id rows none h = absurd (cc)
related_found id rows (some k) h = find_self id k rows h

system_rows-found :
    (run : Run) (db : Db) {rows : SystemRows}
    → system_rows run db ≡ some rows
    → (find_step rows.step.id db ≡ some rows.step) × (find_issue rows.issue.id db ≡ some rows.issue)
unfolding system_rows
system_rows-found run db {rows} h =
    elim (Option-cases (related run.step_id (λ id. find_step id db))) [
      | inl e ↦ absurd (cc (rw (e, system_rows) at h))
      | inr (s, e) ↦ elim (Option-cases (related run.task_id (λ id. find_task id db))) [
        | inl e' ↦ absurd (cc (rw (e, e', system_rows) at h))
        | inr (t, e') ↦ elim (Option-cases (find_issue t.issue_id db)) [
          | inl e2 ↦ absurd (cc (rw (e, e', e2, system_rows) at h))
          | inr (i, e2) ↦ elim (Option-cases (find_project i.project_id db)) [
            | inl e3 ↦ absurd (cc (rw (e, e', e2, e3, system_rows) at h))
            | inr (p, e3) ↦
                let same = some_inj.0 (rw (e, e', e2, e3, system_rows) at h) in
                subst
                  (λ (r : SystemRows).
                    (find_step r.step.id db ≡ some r.step)
                    × (find_issue r.issue.id db ≡ some r.issue))
                  same
                  (
                    related_found (λ (x : Step). x.id) db.steps run.step_id e,
                    find_self (λ (x : Issue). x.id) t.issue_id db.issues e2,
                  )
          ]
        ]
      ]
    ]

module _ (services : Services) (approval_id : String) (now : ℕ) where
  wait_for_human-Waits :
      (by : Option String) (ask : Ask) (run asked : Run) (rows : SystemRows) (db : Db)
      → system_rows run db ≡ some rows
      → Waits ask.action asked.id rows db (
          wait_for_human rows
            (request_approval services.to_iso services.admin_token approval_id now by ask asked
              db).1)
  unfolding find_latest_approval
  wait_for_human-Waits by ask run asked rows db found =
      let (has_step, has_issue) = system_rows-found run db found in
      let kept =
        request_approval-Leaves services.to_iso services.admin_token approval_id now by ask asked
          db in
      record {
        step =
            find-modify_found (λ (s : Step). s.id) rows.step.id _ _ (λ s. refl)
              (ap (find (λ (s : Step). s.id == rows.step.id)) kept.steps ∙ has_step);
        issue =
            find-modify_found (λ (i : Issue). i.id) rows.issue.id _ _ (λ i. refl)
              (ap (find (λ (i : Issue). i.id == rows.issue.id)) kept.issues ∙ has_issue);
        approval =
            request_approval-live services.to_iso services.admin_token approval_id now by ask asked
              db;
        runs = kept.runs;
        tasks = kept.tasks;
      }

  -- what a system step of a kind runs
  pub create_pr_kind :
      (run_id : String) (db : Db) {run : Run} {rows : SystemRows}
      → find_run run_id db ≡ some run
      → system_rows run db ≡ some rows
      → trim rows.step.kind ≡ "pr.create"
      → start_system_execution services approval_id now run_id db
        ≡ create_pr_step services approval_id now run_id rows db
  unfolding start_system_execution
  create_pr_kind run_id db found has_rows kind =
      rw (found, has_rows, kind, start_system_execution) refl

  publish_kind :
      (run_id : String) (db : Db) {run : Run} {rows : SystemRows}
      → find_run run_id db ≡ some run
      → system_rows run db ≡ some rows
      → trim rows.step.kind ≡ "report.publish"
      → start_system_execution services approval_id now run_id db
        ≡ publish_step services approval_id now run_id rows db
  unfolding start_system_execution
  publish_kind run_id db found has_rows kind =
      rw (found, has_rows, kind, start_system_execution) refl

  create_pr_asks :
      (run_id : String) (rows : SystemRows) (db : Db) {run : Run}
      → find_run run_id db ≡ some run
      → includes ApprovalAction.create_pr
          (policy_of services approval_id now rows.project).require_for_actions
        ≡ true
      → create_pr_step services approval_id now run_id rows db ≡ (
        ok false,
        wait_for_human rows
            (request_approval services.to_iso services.admin_token approval_id now
              (requested_by services approval_id now)
              (ask_create none none none none)
              run
              db).1,
      )
  unfolding create_pr_step request_create_pr_approval ◌>>=◌
  create_pr_asks run_id rows db found required =
      rw (required, create_pr_step) (rw (found, request_create_pr_approval, ◌>>=◌) refl)

  -- Where a system step is to open a pull request and the policy requires an approval of that, the
  -- step is not done: it waits for a human, its issue is under review, an approval to create a pull
  -- request is under way for the run, and the runs and the tasks are as they were.
  pub start_system_execution-create_pr_approval :
      (run_id : String) (db : Db) {run : Run} {rows : SystemRows}
      → find_run run_id db ≡ some run
      → system_rows run db ≡ some rows
      → trim rows.step.kind ≡ "pr.create"
      → includes ApprovalAction.create_pr
          (policy_of services approval_id now rows.project).require_for_actions
        ≡ true
      → let (result, after) = start_system_execution services approval_id now run_id db in
        (result ≡ ok false) × Waits ApprovalAction.create_pr run_id rows db after
  start_system_execution-create_pr_approval run_id db {run} {rows} found has_rows kind required =
      subst (λ r. (r.0 ≡ ok false) × Waits ApprovalAction.create_pr run_id rows db r.1)
        (sym (
          create_pr_kind run_id db found has_rows kind
          ∙ create_pr_asks run_id rows db found required))
        (
          refl,
          subst
              (λ id. Waits ApprovalAction.create_pr id rows db (
                wait_for_human rows
                  (request_approval services.to_iso services.admin_token approval_id now
                    (requested_by services approval_id now) (ask_create none none none none) run
                    db).1))
              (find_id (λ (r : Run). r.id) run_id db.runs found)
              (wait_for_human-Waits (requested_by services approval_id now)
                (ask_create none none none none) run run rows db has_rows),
        )

  -- the path of a plan that a pattern of the policy holds for sensitive
  record IsHeld (rows : SystemRows) (path : String) : Type 0 where
    pub hit : SensitiveHit
    pub found :
        sensitive_hit services approval_id now
          (policy_of services approval_id now rows.project)
          path
        ≡ pure (some hit)

  IsHeld-pattern :
      (rows : SystemRows) (path pat : String) (pats : List String)
      → let policy = policy_of services approval_id now rows.project in
        policy.sensitive_paths ≡ pat ∷ pats
        → includes ApprovalAction.publish_artifact policy.escalate_on_sensitive_paths ≡ true
        → any is_invalid (pat ∷ pats) ≡ false
        → is_sensitive (pat ∷ pats) (trim path) ≡ true
        → IsHeld rows path
  unfolding select
  IsHeld-pattern rows path pat pats listed escalates valid sensitive =
      let reported_hit =
        compute_sensitive_hit_from_paths-sensitive_files pat pats (path ∷ []) valid
        ∙ ap (λ b. some (reported pat pats (if b then trim path ∷ [] else []))) sensitive in
      record {
        hit = record {
          matched_files = trim path ∷ [];
          patterns = add_patterns [] (all_named_by (pat ∷ pats) (trim path ∷ []));
        };
        found = rw (listed, escalates, reported_hit) refl;
      }

  publish_asks :
      (run_id path : String) (rows : SystemRows) (db : Db) {artifact : Artifact} {owner : Run}
      → picked_artifact (desired_kind rows.step) rows.task.id db ≡ some artifact
      → services.plan_artifact_publish artifact.id db ≡ (ok (planned path), db)
      → find (λ (a : Artifact). a.id == artifact.id) db.artifacts ≡ some artifact
      → find_run artifact.run_id db ≡ some owner
      → (held : IsHeld rows path)
      → publish_step services approval_id now run_id rows db ≡ (
        ok false,
        wait_for_human rows
            (request_approval services.to_iso services.admin_token approval_id now
              (requested_by services approval_id now)
              (ask_publish artifact.id (some path) (sensitive_json (some held.hit)))
              owner
              db).1,
      )
  unfolding publish_step request_publish_artifact_approval ◌>>=◌
  publish_asks run_id path rows db {artifact} {owner} picked plan kept has_owner held =
      rw (picked, publish_step)
        (bind_ok (services.plan_artifact_publish artifact.id)
          (with_plan services approval_id now run_id rows artifact) plan
          (bind_ok
            (sensitive_hit services approval_id now
              (policy_of services approval_id now rows.project) path)
            (publish_or_await services approval_id now run_id rows artifact path)
            (ap (λ m. m db) held.found)
            (rw
              (or_true_right (
                includes ApprovalAction.publish_artifact
                  (policy_of services approval_id now rows.project).require_for_actions))
              (rw (kept, has_owner, request_publish_artifact_approval, ◌>>=◌) refl))))

  -- Where a system step is to publish an artifact that is there with its run, the plan of it gives a
  -- path and writes nothing, the policy escalates publishing on sensitive paths, its patterns are
  -- all expressions, and one of them matches the trimmed path, the step is not done: it waits for a
  -- human, its issue is under review, an approval to publish is under way for the artifact's run,
  -- and the runs and the tasks are as they were.
  pub start_system_execution-sensitive :
      (run_id path pat : String) (pats : List String) (db : Db) {run owner : Run}
      {rows : SystemRows} {artifact : Artifact}
      → let policy = policy_of services approval_id now rows.project in
        find_run run_id db ≡ some run
        → system_rows run db ≡ some rows
        → trim rows.step.kind ≡ "report.publish"
        → picked_artifact (desired_kind rows.step) rows.task.id db ≡ some artifact
        → services.plan_artifact_publish artifact.id db ≡ (ok (planned path), db)
        → find (λ (a : Artifact). a.id == artifact.id) db.artifacts ≡ some artifact
        → find_run artifact.run_id db ≡ some owner
        → policy.sensitive_paths ≡ pat ∷ pats
        → includes ApprovalAction.publish_artifact policy.escalate_on_sensitive_paths ≡ true
        → any is_invalid (pat ∷ pats) ≡ false
        → is_sensitive (pat ∷ pats) (trim path) ≡ true
        → let (result, after) = start_system_execution services approval_id now run_id db in
          (result ≡ ok false) × Waits ApprovalAction.publish_artifact artifact.run_id rows db after
  start_system_execution-sensitive run_id path pat pats db {run} {owner} {rows} {artifact} found
        has_rows kind picked plan kept has_owner listed escalates valid sensitive =
      let held = IsHeld-pattern rows path pat pats listed escalates valid sensitive in
      let ask = ask_publish artifact.id (some path) (sensitive_json (some held.hit)) in
      subst
        (λ r. (r.0 ≡ ok false) × Waits ApprovalAction.publish_artifact artifact.run_id rows db r.1)
        (sym (
          publish_kind run_id db found has_rows kind
          ∙ publish_asks run_id path rows db picked plan kept has_owner held))
        (
          refl,
          subst
              (λ id. Waits ApprovalAction.publish_artifact id rows db (
                wait_for_human rows
                  (request_approval services.to_iso services.admin_token approval_id now
                    (requested_by services approval_id now) ask owner db).1))
              (find_id (λ (r : Run). r.id) artifact.run_id db.runs has_owner)
              (wait_for_human-Waits (requested_by services approval_id now) ask run owner rows db
                has_rows),
        )
