-- ===== src/Approvals/Requests.antt =====
-- The three requests, made twice.
use mathlib.Core.Option.{some_inj, none}
use tuixiu.Prelude.{
  ℕ, String, Option, some, Bool, ◌≡◌, refl, sym, ◌∙◌, ◌==◌, find, Option-cases, inl, inr, subst, ap,
}
use tuixiu.Json.{Value}
use tuixiu.Db.Types.{Artifact, Run, Project, Db, Approval}
use tuixiu.Db.Tables.{find_run}
use tuixiu.Approvals.{
  Ask, ApprovalSummary, accepted, find_latest_approval, create_approval, request_approval,
  extract_pr_url, ask_merge, ask_create, ask_publish, request_merge_pr_approval,
  request_create_pr_approval, request_publish_artifact_approval, new_approval,
}
use tuixiu.Approvals.Idempotent.{
  given, request_approval-Settled, request_approval-free, existing_again, find_latest-created,
}

module _ (to_iso : ℕ → String) (admin_token : Option Project → String) where
  -- A request leaves the other tables.
  pub record Leaves (before after : Db) : Type 0 where
    pub runs : after.runs ≡ before.runs
    pub artifacts : after.artifacts ≡ before.artifacts
    pub steps : after.steps ≡ before.steps
    pub tasks : after.tasks ≡ before.tasks
    pub issues : after.issues ≡ before.issues
    pub projects : after.projects ≡ before.projects

  pub request_approval-Leaves :
      (approval_id : String) (now : ℕ) (requested_by : Option String) (ask : Ask) (run : Run)
      (db : Db)
      → Leaves db (request_approval to_iso admin_token approval_id now requested_by ask run db).1
  unfolding create_approval
  request_approval-Leaves approval_id now requested_by ask run db =
      elim (Option-cases (find_latest_approval run.id ask.action db)) [
        | inl free ↦
            subst (λ r. Leaves db r.1)
              (sym (
                request_approval-free to_iso admin_token approval_id now requested_by ask run db
                  free))
              (record {
                runs = refl;
                artifacts = refl;
                steps = refl;
                tasks = refl;
                issues = refl;
                projects = refl;
              })
        | inr (found, e) ↦
            subst (λ r. Leaves db r.1)
              (sym (
                existing_again to_iso admin_token ask run db e approval_id now requested_by ask
                  refl))
              (record {
                runs = refl;
                artifacts = refl;
                steps = refl;
                tasks = refl;
                issues = refl;
                projects = refl;
              })
      ]

  -- After a request an approval of its action is under way for its run.
  pub request_approval-live :
      (approval_id : String) (now : ℕ) (requested_by : Option String) (ask : Ask) (run : Run)
      (db : Db)
      → (a : Approval) × (find_latest_approval run.id ask.action
            (request_approval to_iso admin_token approval_id now requested_by ask run db).1
          ≡ some a)
  request_approval-live approval_id now requested_by ask run db =
      elim (Option-cases (find_latest_approval run.id ask.action db)) [
        | inl free ↦ (
          new_approval approval_id now requested_by ask run,
          ap (λ r. find_latest_approval run.id ask.action r.1)
                (request_approval-free to_iso admin_token approval_id now requested_by ask run db
                  free)
              ∙ find_latest-created to_iso admin_token approval_id now requested_by ask run db free,
        )
        | inr (found, e) ↦ (
          found,
          ap (λ r. find_latest_approval run.id ask.action r.1)
                (existing_again to_iso admin_token ask run db e approval_id now requested_by ask
                  refl)
              ∙ e,
        )
      ]

  extract_pr_url-Leaves :
      {before after : Db} (run : Run)
      → Leaves before after
      → extract_pr_url run after ≡ extract_pr_url run before
  unfolding extract_pr_url
  extract_pr_url-Leaves run l = rw (l.artifacts) refl

  merge-found :
      (approval_id : String) (now : ℕ) (run_id : String) (by : Option String) (squash : Option Bool)
      (message : Option String) (db : Db) {run : Run} {url : String}
      → find_run run_id db ≡ some run
      → extract_pr_url run db ≡ some url
      → request_merge_pr_approval to_iso admin_token approval_id now run_id by squash message db
        ≡ request_approval to_iso admin_token approval_id now by
            (ask_merge squash message url)
            run
            db
  unfolding request_merge_pr_approval
  merge-found approval_id now run_id by squash message db has_run has_url =
      rw (has_run, request_merge_pr_approval) (rw (has_url, request_merge_pr_approval) refl)

  -- For a run that has the address of a pull request, a request to merge is accepted with a summary,
  -- and the same request made again, with any id, time, requester and options, gives the same
  -- summary without a comment and writes nothing.
  pub request_merge_pr_approval_again :
      (id1 id2 : String) (now1 now2 : ℕ) (run_id : String) (by1 by2 : Option String)
      (squash1 squash2 : Option Bool) (message1 message2 : Option String) (db : Db) {run : Run}
      {url : String}
      → find_run run_id db ≡ some run
      → extract_pr_url run db ≡ some url
      → let first =
          request_merge_pr_approval to_iso admin_token id1 now1 run_id by1 squash1 message1 db in
        (s : ApprovalSummary) × (first.0.reply ≡ accepted s)
        × (request_merge_pr_approval to_iso admin_token id2 now2 run_id by2 squash2 message2 first.1
            ≡ (given s, first.1))
  request_merge_pr_approval_again id1 id2 now1 now2 run_id by1 by2 squash1 squash2 message1 message2
        db {run} {url} has_run has_url =
      let settled =
        request_approval-Settled to_iso admin_token id1 now1 by1 (ask_merge squash1 message1 url)
          run db in
      let leaves = request_approval-Leaves id1 now1 by1 (ask_merge squash1 message1 url) run db in
      rw (merge-found id1 now1 run_id by1 squash1 message1 db has_run has_url) (
        settled.summary,
        settled.is_accepted,
        merge-found id2 now2 run_id by2 squash2 message2 _ (rw (leaves.runs) has_run)
              (extract_pr_url-Leaves run leaves ∙ has_url)
            ∙ settled.again id2 now2 by2 (ask_merge squash2 message2 url) refl,
      )

  -- A request to merge leaves the other tables, whatever its answer.
  pub request_merge_pr_approval-Leaves :
      (approval_id : String) (now : ℕ) (run_id : String) (by : Option String) (squash : Option Bool)
      (message : Option String) (db : Db)
      → Leaves db
          (request_merge_pr_approval to_iso admin_token approval_id now run_id by squash message
            db).1
  unfolding request_merge_pr_approval
  request_merge_pr_approval-Leaves approval_id now run_id by squash message db =
      let same : Leaves db db = record {
        runs = refl;
        artifacts = refl;
        steps = refl;
        tasks = refl;
        issues = refl;
        projects = refl;
      } in
      elim (Option-cases (find_run run_id db)) [
        | inl e ↦ rw (e, request_merge_pr_approval) same
        | inr (run, e) ↦ elim (Option-cases (extract_pr_url run db)) [
          | inl e' ↦ rw (e, e', request_merge_pr_approval) same
          | inr (url, e') ↦
              subst (λ r. Leaves db r.1)
                (sym (merge-found approval_id now run_id by squash message db e e'))
                (request_approval-Leaves approval_id now by (ask_merge squash message url) run db)
        ]
      ]

  merge_refused :
      (approval_id : String) (now : ℕ) (run_id : String) (by : Option String) (squash : Option Bool)
      (message : Option String) (db : Db)
      → ((run : Run) → find_run run_id db ≡ some run → extract_pr_url run db ≡ none)
      → (request_merge_pr_approval to_iso admin_token approval_id now run_id by squash message db).1
        ≡ db
  unfolding request_merge_pr_approval
  merge_refused approval_id now run_id by squash message db bare =
      elim (Option-cases (find_run run_id db)) [
        | inl e ↦ rw (e, request_merge_pr_approval) refl
        | inr (run, e) ↦ rw (e, bare run e, request_merge_pr_approval) refl
      ]

  -- A request to merge that is made again writes nothing, whatever the answer of the first.
  pub request_merge_pr_approval_twice :
      (id1 id2 : String) (now1 now2 : ℕ) (run_id : String) (by : Option String)
      (squash : Option Bool) (message : Option String) (db : Db)
      → let once =
          (request_merge_pr_approval to_iso admin_token id1 now1 run_id by squash message db).1 in
        (request_merge_pr_approval to_iso admin_token id2 now2 run_id by squash message once).1
        ≡ once
  request_merge_pr_approval_twice id1 id2 now1 now2 run_id by squash message db =
      elim (Option-cases (find_run run_id db)) [
        | inl e ↦ nothing (λ run e'. absurd (cc (sym e ∙ e')))
        | inr (run, e) ↦ elim (Option-cases (extract_pr_url run db)) [
          | inl e' ↦
              nothing
                (λ other found. ap (λ r. extract_pr_url r db) (some_inj.0 (sym found ∙ e)) ∙ e')
          | inr (url, e') ↦
              let (s, answered, again) =
                request_merge_pr_approval_again id1 id2 now1 now2 run_id by by squash squash message
                  message db e e' in
              ap (λ r. r.1) again
        ]
      ]
    where
      nothing :
          ((run : Run) → find_run run_id db ≡ some run → extract_pr_url run db ≡ none)
          → let once =
              (request_merge_pr_approval to_iso admin_token id1 now1 run_id by squash message
                db).1 in
            (request_merge_pr_approval to_iso admin_token id2 now2 run_id by squash message once).1
            ≡ once
      nothing bare =
          let first = merge_refused id1 now1 run_id by squash message db bare in
          ap
            (λ d.
              (request_merge_pr_approval to_iso admin_token id2 now2 run_id by squash message d).1)
            first
          ∙ merge_refused id2 now2 run_id by squash message db bare
          ∙ sym first

  create-found :
      (approval_id : String) (now : ℕ) (run_id : String)
      (by title description target : Option String) (sensitive : Option Value) (db : Db) {run : Run}
      → find_run run_id db ≡ some run
      → request_create_pr_approval to_iso admin_token approval_id now run_id by title description
          target sensitive db
        ≡ request_approval to_iso admin_token approval_id now by
            (ask_create title description target sensitive)
            run
            db
  unfolding request_create_pr_approval
  create-found approval_id now run_id by title description target sensitive db has_run =
      rw (has_run, request_create_pr_approval) refl

  -- For a run that is there, a request to create a pull request is accepted with a summary, and the
  -- request made again, with any id, time, requester and options, gives the same summary without a
  -- comment and writes nothing.
  pub request_create_pr_approval_again :
      (id1 id2 : String) (now1 now2 : ℕ) (run_id : String) (by1 by2 title1 title2 : Option String)
      (description1 description2 target1 target2 : Option String)
      (sensitive1 sensitive2 : Option Value) (db : Db) {run : Run}
      → find_run run_id db ≡ some run
      → let first =
          request_create_pr_approval to_iso admin_token id1 now1 run_id by1 title1 description1
            target1 sensitive1 db in
        (s : ApprovalSummary) × (first.0.reply ≡ accepted s)
        × (request_create_pr_approval to_iso admin_token id2 now2 run_id by2 title2 description2
              target2 sensitive2 first.1
            ≡ (given s, first.1))
  request_create_pr_approval_again id1 id2 now1 now2 run_id by1 by2 title1 title2 description1
        description2 target1 target2 sensitive1 sensitive2 db {run} has_run =
      let ask = ask_create title1 description1 target1 sensitive1 in
      let settled = request_approval-Settled to_iso admin_token id1 now1 by1 ask run db in
      let leaves = request_approval-Leaves id1 now1 by1 ask run db in
      rw (create-found id1 now1 run_id by1 title1 description1 target1 sensitive1 db has_run) (
        settled.summary,
        settled.is_accepted,
        create-found id2 now2 run_id by2 title2 description2 target2 sensitive2 _
              (rw (leaves.runs) has_run)
            ∙ settled.again id2 now2 by2 (ask_create title2 description2 target2 sensitive2) refl,
      )

  abbrev find_artifact : String → Db → Option Artifact
  find_artifact id db = find (λ (a : Artifact). a.id == id) db.artifacts

  publish-found :
      (approval_id : String) (now : ℕ) (artifact_id : String) (by path : Option String)
      (sensitive : Option Value) (db : Db) {artifact : Artifact} {run : Run}
      → find_artifact artifact_id db ≡ some artifact
      → find_run artifact.run_id db ≡ some run
      → request_publish_artifact_approval to_iso admin_token approval_id now artifact_id by path
          sensitive db
        ≡ request_approval to_iso admin_token approval_id now by
            (ask_publish artifact.id path sensitive)
            run
            db
  unfolding request_publish_artifact_approval
  publish-found approval_id now artifact_id by path sensitive db has_artifact has_run =
      rw (has_artifact, request_publish_artifact_approval)
        (rw (has_run, request_publish_artifact_approval) refl)

  -- For an artifact whose run is there, a request to publish is accepted with a summary, and the
  -- request made again, with any id, time, requester and options, gives the same summary without a
  -- comment and writes nothing.
  pub request_publish_artifact_approval_again :
      (id1 id2 : String) (now1 now2 : ℕ) (artifact_id : String)
      (by1 by2 path1 path2 : Option String) (sensitive1 sensitive2 : Option Value) (db : Db)
      {artifact : Artifact} {run : Run}
      → find (λ (a : Artifact). a.id == artifact_id) db.artifacts ≡ some artifact
      → find_run artifact.run_id db ≡ some run
      → let first =
          request_publish_artifact_approval to_iso admin_token id1 now1 artifact_id by1 path1
            sensitive1 db in
        (s : ApprovalSummary) × (first.0.reply ≡ accepted s)
        × (request_publish_artifact_approval to_iso admin_token id2 now2 artifact_id by2 path2
              sensitive2 first.1
            ≡ (given s, first.1))
  request_publish_artifact_approval_again id1 id2 now1 now2 artifact_id by1 by2 path1 path2
        sensitive1 sensitive2 db {artifact} {run} has_artifact has_run =
      let ask = ask_publish artifact.id path1 sensitive1 in
      let settled = request_approval-Settled to_iso admin_token id1 now1 by1 ask run db in
      let leaves = request_approval-Leaves id1 now1 by1 ask run db in
      rw (publish-found id1 now1 artifact_id by1 path1 sensitive1 db has_artifact has_run) (
        settled.summary,
        settled.is_accepted,
        publish-found id2 now2 artifact_id by2 path2 sensitive2 _ {artifact = artifact}
              (rw (leaves.artifacts) has_artifact) (rw (leaves.runs) has_run)
            ∙ settled.again id2 now2 by2 (ask_publish artifact.id path2 sensitive2) refl,
      )
