-- ===== src/Pm/Tests.antt =====
-- The theorems of the component at concrete data.
use tuixiu.Pm.SensitivePaths.Hits.{all_named_by, compute_sensitive_hit_from_paths-sensitive_files}
use tuixiu.Pm.AutoAdvance.Guarded.{with_creation, run_auto_advance_once-no_creation}
use tuixiu.Pm.SensitivePaths.Globs.{IsOrdinary, glob_atoms, glob_to_reg_exp-glob_atoms}
use tuixiu.Executors.{Attempt}
use tuixiu.Json
use tuixiu.Pm.AutoAdvance.{run_completed, PmServices, project_of_run, run_auto_advance_once}
use tuixiu.Db.Exec.{err, thrown}
use tuixiu.Db.Types.{ScmCiStatus, Db}
use tuixiu.Pm.SensitivePaths.{
  one_unit, anything, test, units, to_posix_path, glob_to_reg_exp, escaped, replace_all, signs,
  atoms_of, repeated, add_patterns, compute_sensitive_hit_from_paths,
}
use tuixiu.Prelude.{
  Option, none, some, true, ◌≡◌, refl, find, select, order_by, insert_by, newest_first,
  insert_newest, ℕ, trim, String, ◌∷◌, eqb, any, [], false, ◌≢◌, sym, eqb_iff, ◌∙◌, begins_with,
}
use tuixiu.Json.{Value, null, bool}
use tuixiu.Db.Types.{Task, Step, Run}
use tuixiu.Db.Exec.{ok}
use tuixiu.Db.Tables.{steps_of}
use tuixiu.Demo.{demo_db, first_step, b_not_a, demo_services, system_db, demo_run}
use tuixiu.Workflow.Resolver.{project, Overrides}
use tuixiu.Workflow.Engine.{empty_body, start_step}
use tuixiu.Pm.Policy.{
  PmPolicy, default_pm_policy, granted, get_pm_policy_for_project, set_pm_policy_for_project,
  get_pm_policy_from_branch_protection,
}
use tuixiu.Pm.Policy.Laws.{set_pm_policy_for_project-get_pm_policy_for_project}
use tuixiu.Pm.NextAction.{
  step_view, task_next_action, task_advice, step_advice, pick_active_task, pick_current_step,
  pick_latest_run_for_step,
}
use tuixiu.Pm.NextAction.Laws.{task_next_action-start_step}

abbrev demo_parse : Option Value → Option PmPolicy
demo_parse (some (bool true)) = some default_pm_policy
demo_parse _ = none

abbrev demo_json : PmPolicy → Value
demo_json p = bool true

abbrev parse_none : Option Value → Option Overrides
parse_none v = none

abbrev templates_json : Overrides → Value
templates_json v = null

set_pm_policy_for_project-get_pm_policy_for_project_example :
    get_pm_policy_for_project demo_parse demo_json "p1"
      (set_pm_policy_for_project demo_parse demo_json "p1" (bool true) demo_db).1
    ≡ granted (default_pm_policy, project)
unfolding find
set_pm_policy_for_project-get_pm_policy_for_project_example =
    set_pm_policy_for_project-get_pm_policy_for_project demo_parse demo_json parse_none
      templates_json "p1" (bool true) demo_db refl refl refl refl

task_next_action-start_step_example :
    (result : Task × Step × Run) × ((start_step "r1" 9 "a" empty_body demo_db).0 ≡ ok result)
unfolding find select order_by insert_by newest_first insert_newest steps_of task_next_action
    task_advice step_advice pick_active_task pick_current_step pick_latest_run_for_step
task_next_action-start_step_example =
    task_next_action-start_step "i1" demo_db {v = step_view first_step} "r1" 9 empty_body (tt, tt)
      ((b_not_a, tt), (tt, tt)) refl refl refl

differ : (a b : ℕ) → eqb a b ≡ false → a ≢ b
differ a b h e = absurd (cc (sym ((eqb_iff a b).1 e) ∙ h))

ordinary : (c : ℕ) → eqb c 63 ≡ false → eqb c 167 ≡ false → IsOrdinary c
ordinary c h k = (differ c 63 h, differ c 167 k)

-- `a/**`
glob_to_reg_exp-glob_atoms_example :
    glob_to_reg_exp "a/**" ≡ some (one_unit 97 ∷ one_unit 47 ∷ anything ∷ [])
unfolding trim units to_posix_path glob_atoms
glob_to_reg_exp-glob_atoms_example = glob_to_reg_exp-glob_atoms "a/**" (
  ordinary 97 refl refl,
  (ordinary 47 refl refl, (ordinary 42 refl refl, (ordinary 42 refl refl, tt))),
)

compute_sensitive_hit_from_paths-sensitive_files_example :
    compute_sensitive_hit_from_paths ("a/b" ∷ "c" ∷ []) ("a/*" ∷ [])
    ≡ some (some (record { matched_files = "a/b" ∷ []; patterns = "a/*" ∷ [] }))
unfolding trim units to_posix_path glob_to_reg_exp any select escaped replace_all begins_with signs
    atoms_of test repeated all_named_by add_patterns
compute_sensitive_hit_from_paths-sensitive_files_example =
    compute_sensitive_hit_from_paths-sensitive_files "a/*" [] ("a/b" ∷ "c" ∷ []) refl

abbrev demo_pm : PmServices
demo_pm = record {
  base = demo_services;
  enabled = true;
  auto_review_run_for_pm = λ id comment db. (ok tt, db);
  request_error_json = λ e. null;
  error_string = λ f. "Error";
}

-- a run of no task, in a project with the strict policy
abbrev free_db : Db
free_db = record (system_db "pr.create") {
  runs = record demo_run { task_id = none; scm_ci_status = some ScmCiStatus.passed } ∷ [];
}

abbrev refuse_creation : String → Attempt
refuse_creation id db = (err (thrown "no host"), db)

run_auto_advance_once-no_creation_example :
    run_auto_advance_once (with_creation refuse_creation demo_pm) "ap" 7 "r0" run_completed free_db
    ≡ run_auto_advance_once demo_pm "ap" 7 "r0" run_completed free_db
unfolding find project_of_run any get_pm_policy_from_branch_protection Json.get
run_auto_advance_once-no_creation_example =
    run_auto_advance_once-no_creation demo_pm "ap" 7 refuse_creation "r0" run_completed free_db refl
      refl refl
