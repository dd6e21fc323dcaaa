-- ===== src/Workflow/Tests.antt =====
-- The theorems of the workflow at concrete data.
use tuixiu.Workflow.Engine.Rollback.{rolled_back, rollback_task_to_step-rolled_back}
use tuixiu.Workflow.Resolver.{resolve_task_template_for_project, overrides_of_branch_protection}
use tuixiu.Prelude.{
  ℕ, String, Option, none, some, List, [], ◌∷◌, ◌≡◌, refl, find, select, order_by, insert_by, trim,
  true, is_space,
}
use tuixiu.Json.{Value, null}
use tuixiu.Db.Types.{Db, Issue}
use tuixiu.Db.Exec.{Exec, ok}
use tuixiu.Db.Tables.{steps_of, find_step, find_task, find_issue}
use tuixiu.Demo.{
  demo_project, demo_task, demo_db, bare_db, first_step, second_step, refuse_all, step_ids, b_not_a,
  r2_not_r1,
}
use tuixiu.Pm.Policy.{PmPolicy}
use tuixiu.Workflow.Templates.{test_only_steps, get_task_template}
use tuixiu.Workflow.Engine.{
  CreateTaskBody, empty_body, create_task_from_template, number_steps, rollback_task_to_step,
}
use tuixiu.Json
use mathlib.Core.Option
use tuixiu.Json.{obj, field, end}
use tuixiu.Db.Types.{StepStatus, TaskStatus, IssueStatus}
use tuixiu.Demo.{demo_run}
use tuixiu.Workflow.Resolver.{Overrides}
use tuixiu.Workflow.Progress.{
  completed, failed, cancelled, handled, bound_run, next_after, advance_task_from_run_terminal,
}
use tuixiu.Workflow.Progress.Advance.{advance_task_from_run_terminal-next}
use tuixiu.Workflow.Progress.Ends.{
  Closed, advance_task_from_run_terminal-failed, advance_task_from_run_terminal-cancelled,
}
use tuixiu.Workflow.Pipeline.Created.{AreNew, create_task_from_template-drive}
use tuixiu.Workflow.Pipeline.End.{Ended}
use tuixiu.Workflow.Pipeline.Drive.{StartRequest, drive}
use tuixiu.Workflow.AutoAdvance.{Capabilities}

abbrev no_json : List ℕ → Option Value
no_json s = none

abbrev no_index : ℕ → String
no_index i = ""

abbrev two_requests : List StartRequest
two_requests = ("r1", empty_body) ∷ ("r2", empty_body) ∷ []

abbrev demo_body : CreateTaskBody
demo_body = record { template_key = " quick.test.only "; track = some " Enterprise" }

abbrev no_policy : Option Value → Option PmPolicy
no_policy v = none

abbrev null_policy : PmPolicy → Value
null_policy p = null

abbrev no_dispatch : String → Exec (Unit {0})
no_dispatch id db = (ok tt, db)

abbrev all_given : Capabilities
all_given = record { enabled = true; acp = true; create_workspace = true }

demo_AreNew : AreNew "t1" step_ids test_only_steps bare_db
unfolding find number_steps
demo_AreNew = record {
  no_task = refl;
  no_step_of_task = tt;
  named = refl;
  distinct = ((b_not_a, tt), (tt, tt));
}

create_task_from_template-drive_example : Ended "t1" (
    drive no_json no_index "t1" two_requests
      (create_task_from_template refuse_all "t1" step_ids "i1" demo_body bare_db).1)
unfolding find trim is_space resolve_task_template_for_project get_task_template
    overrides_of_branch_protection
create_task_from_template-drive_example =
    create_task_from_template-drive refuse_all "t1" step_ids "i1" demo_body bare_db no_json no_index
      two_requests refl refl refl demo_AreNew refl ((refl, (refl, tt)), ((r2_not_r1, tt), (tt, tt)))

abbrev human_db : Db
human_db = record demo_db { tasks = (record demo_task { current_step_id = some "b" }) ∷ [] }

advance_task_from_run_terminal-next_example :
    (advance_task_from_run_terminal no_json no_index "r0" completed none demo_db).0
    ≡ handled "t1" "a"
unfolding find select order_by insert_by steps_of bound_run next_after
advance_task_from_run_terminal-next_example =
    (advance_task_from_run_terminal-next no_json no_index "r0" none demo_db {run = demo_run}
      {task = demo_task} {step = first_step} {next = second_step} ((b_not_a, tt), (tt, tt)) refl
      refl refl).0

advance_task_from_run_terminal-failed_example :
    let (answer, after) =
      advance_task_from_run_terminal no_json no_index "r0" failed (some "e") demo_db in
    (answer ≡ handled "t1" "a")
    × Closed first_step demo_task StepStatus.failed TaskStatus.failed IssueStatus.failed demo_db
        after
unfolding find bound_run
advance_task_from_run_terminal-failed_example =
    advance_task_from_run_terminal-failed no_json no_index "r0" (some "e") demo_db {run = demo_run}
      refl

advance_task_from_run_terminal-cancelled_example :
    let (answer, after) =
      advance_task_from_run_terminal no_json no_index "r0" cancelled none demo_db in
    (answer ≡ handled "t1" "a")
    × Closed first_step demo_task StepStatus.cancelled TaskStatus.cancelled IssueStatus.cancelled
        demo_db after
unfolding find bound_run
advance_task_from_run_terminal-cancelled_example =
    advance_task_from_run_terminal-cancelled no_json no_index "r0" none demo_db {run = demo_run}
      refl

abbrev accept_all : Value → Option Overrides
accept_all v = some []

abbrev tuned_db : Db
tuned_db = record bare_db {
  projects =
      record demo_project { branch_protection = obj (field "taskTemplates" (obj end) end) } ∷ [];
}

rollback_task_to_step-rolled_back_example :
    let after = (rollback_task_to_step "t1" " b " demo_db).1 in
    ((id : String)
      → find_step id after ≡ Option.map (rolled_back "t1" second_step) (find_step id demo_db))
    × (find_task "t1" after
        ≡ some (record demo_task { status = TaskStatus.running; current_step_id = some "b" }))
    × (find_issue "i1" after
        ≡ Option.map {A = Issue}
            (λ i. record i { status = IssueStatus.running })
            (find_issue "i1" demo_db))
unfolding find select order_by insert_by steps_of trim is_space
rollback_task_to_step-rolled_back_example =
    rollback_task_to_step-rolled_back "t1" " b " demo_db {task = demo_task} {target = second_step}
      ((b_not_a, tt), (tt, tt)) refl refl refl refl
