-- ===== src/Workflow/Engine/Create.antt =====
-- Creating a task from a template.
use tuixiu.Prelude.{
  ℕ, String, Option, none, some, List, ◌∷◌, ◌≡◌, refl, ap, trim, false, is_empty, ◌==◌, eq_refl,
  find-append_none,
}
use tuixiu.Json.{Value}
use tuixiu.Db.Types.{Issue, Task, Step, Db}
use tuixiu.Db.Exec.{ok, bad_template, bind_ok, require-some}
use tuixiu.Db.Tables.{find_issue, find_project, find_task, steps_of, on_task}
use tuixiu.Db.Laws.{transaction_ok, update_task-found}
use tuixiu.Workflow.Templates.{TaskTemplateStep, TaskTemplate}
use tuixiu.Workflow.Resolver.{Overrides, ResolvedTemplate, resolve_task_template_for_project}
use tuixiu.Workflow.Engine.{
  CreateTaskBody, number_steps, first_step_id, branch_protection_of, new_task, insert_task,
  create_task_tx, create_task_from_template,
}

abbrev pub points_at : String → Task → Task
points_at step_id t = record t { current_step_id = some step_id }

create_task_tx_lem :
    (t : Task) (steps : List Step) (first : String) (db : Db)
    → find_task t.id db ≡ none
    → let after = on_task t.id (points_at first) (insert_task t steps db) in
      create_task_tx t steps first db ≡ (ok (points_at first t, steps_of t.id after), after)
unfolding create_task_tx
create_task_tx_lem t steps first db new = bind_ok _ _ refl (
    bind_ok _ _
      (update_task-found t.id (points_at first) (insert_task t steps db)
        (find-append_none (λ r. r.id == t.id) db.tasks t new (eq_refl t.id)))
      (bind_ok _ _ refl refl))

module _ (safe_parse : Value → Option Overrides) (task_id : String) (step_id : ℕ → String)
    (issue_id : String) (body : CreateTaskBody) (db : Db) where
  -- the template that the task is made from
  abbrev pub resolution : Issue → Option ResolvedTemplate
  resolution issue =
      resolve_task_template_for_project safe_parse (trim body.template_key)
        (branch_protection_of (find_project issue.project_id db))

  abbrev pub created : Issue → TaskTemplate → List TaskTemplateStep → Db
  created issue template steps = on_task task_id (points_at (step_id 0)) (
      insert_task (new_task task_id issue_id body (find_project issue.project_id db) template)
        (number_steps step_id task_id 0 steps) db)

  pub create_task_from_template-created :
      {issue : Issue} {resolved : ResolvedTemplate} {s : TaskTemplateStep}
      {rest : List TaskTemplateStep}
      → find_issue issue_id db ≡ some issue
      → resolution issue ≡ some resolved
      → resolved.template.steps ≡ some (s ∷ rest)
      → is_empty (step_id 0) ≡ false
      → find_task task_id db ≡ none
      → (create_task_from_template safe_parse task_id step_id issue_id body db).1
        ≡ created issue resolved.template (s ∷ rest)
  unfolding create_task_from_template new_task number_steps
  create_task_from_template-created {issue} {resolved} {s} {rest} has_issue has_template has_steps
        named new =
      ap (λ r. r.1)
        (bind_ok _ _ (require-some _ _ has_issue) (
          bind_ok _ _ refl (
            bind_ok _ _ (require-some _ _ has_template) (
              bind_ok _ _ (require-some _ _ has_steps) (
                bind_ok _ _
                  (require-some bad_template
                    {o = first_step_id (number_steps step_id task_id 0 (s ∷ rest))} db
                    (rw named refl))
                  (transaction_ok _ (
                    create_task_tx_lem
                      (new_task task_id issue_id body (find_project issue.project_id db)
                        resolved.template)
                      (number_steps step_id task_id 0 (s ∷ rest)) (step_id 0) db new)))))))
