-- ===== src/Executors/Tests.antt =====
-- System steps on small inputs.
use tuixiu.Pm.SensitivePaths.{
  glob_to_reg_exp, units, to_posix_path, escaped, replace_all, signs, atoms_of, test, repeated,
}
use tuixiu.Executors.Waiting.{
  Waits, start_system_execution-create_pr_approval, start_system_execution-sensitive,
}
use tuixiu.Json.{obj, field, bool, end}
use tuixiu.Pm.Policy.{get_pm_policy_from_branch_protection}
use tuixiu.Demo.{
  system_step, demo_task, demo_issue, demo_project, demo_services, system_db, demo_db, second_step,
}
use tuixiu.Executors.System.{
  SystemRows, system_rows, start_system_execution, picked_artifact, desired_kind, candidates_of,
}
use tuixiu.Prelude.{
  String, [], refl, true, false, ◌≡◌, find, trim, any, select, newest_first, insert_newest,
  begins_with, ◌∷◌,
}
use tuixiu.Json
use tuixiu.Db.Types.{ApprovalAction, Db}
use tuixiu.Db.Exec.{ok}

abbrev rows_of : String → SystemRows
rows_of kind = record {
  step = system_step kind;
  task = demo_task;
  issue = demo_issue;
  project = record demo_project { branch_protection = obj (field "pmPolicy" (bool true) end) };
}

start_system_execution-create_pr_approval_example :
    let (result, after) =
      start_system_execution demo_services "ap" 7 "r0" (system_db "pr.create") in
    (result ≡ ok false)
    × Waits ApprovalAction.create_pr "r0" (rows_of "pr.create") (system_db "pr.create") after
unfolding find system_rows trim any get_pm_policy_from_branch_protection Json.get
start_system_execution-create_pr_approval_example =
    start_system_execution-create_pr_approval demo_services "ap" 7 "r0" (system_db "pr.create") refl
      refl refl refl

start_system_execution-sensitive_example :
    let (result, after) =
      start_system_execution demo_services "ap" 7 "r0" (system_db "report.publish") in
    (result ≡ ok false)
    × Waits ApprovalAction.publish_artifact "r0"
        (rows_of "report.publish")
        (system_db "report.publish")
        after
unfolding find system_rows trim any get_pm_policy_from_branch_protection Json.get picked_artifact
    desired_kind candidates_of select newest_first insert_newest glob_to_reg_exp units to_posix_path
    escaped replace_all begins_with signs atoms_of test repeated
start_system_execution-sensitive_example =
    start_system_execution-sensitive demo_services "ap" 7 "r0" "secret/x.md" "secret/**" []
      (system_db "report.publish") refl refl refl refl refl refl refl refl refl refl refl

-- a task whose first step is the system's and whose second is a human's
abbrev two_step_db : Db
two_step_db = record demo_db { steps = system_step "pr.create" ∷ second_step ∷ [] }
