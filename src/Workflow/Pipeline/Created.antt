-- ===== src/Workflow/Pipeline/Created.antt =====
-- A task that is created from a template is at its first stage, and is driven to its end.
use tuixiu.Prelude.{
  ℕ, suc, ◌+◌, ◌≤◌, String, Option, none, some, Bool, true, false, List, [], ◌∷◌, ◌++◌, ◌≡◌, refl,
  sym, ap, ◌∙◌, ◌==◌, eq_refl, arith, is_empty, select, order_by, insert_by, length, leb, All,
  DistinctIds, find-append_none, find-modify_found, eqb,
}
use tuixiu.Json.{Value}
use tuixiu.Db.Types.{StepStatus, Issue, Step, Db}
use tuixiu.Db.Tables.{find_issue, find_task, steps_of, find_project}
use tuixiu.Workflow.Templates.{TaskTemplateStep, TaskTemplate}
use tuixiu.Workflow.Resolver.{Overrides, ResolvedTemplate}
use tuixiu.Workflow.Engine.{CreateTaskBody, number_steps, new_task, create_task_from_template}
use tuixiu.Workflow.Engine.Create.{
  points_at, resolution, created, create_task_from_template-created,
}
use tuixiu.Workflow.Pipeline.Rows.{Stage}
use tuixiu.Workflow.Pipeline.End.{Ended}
use tuixiu.Workflow.Pipeline.Drive.{StartRequest, IsFresh, drive, drive_stage-Ended}

select-append :
    {A : Type 0} (p : A → Bool) (xs ys : List A)
    → All (λ x. p x ≡ false) xs
    → All (λ x. p x ≡ true) ys
    → select p (xs ++ ys) ≡ ys
unfolding select
select-append p [] [] none_fits all_fit = refl
select-append p [] (y ∷ ys) none_fits all_fit =
    rw (all_fit.0) (ap (λ l. y ∷ l) (select-append p [] ys tt all_fit.1))
select-append p (x ∷ xs) ys none_fits all_fit =
    rw (none_fits.0) (select-append p xs ys none_fits.1 all_fit)

insert_first :
    {A : Type 0} (k : A → ℕ) (x : A) (xs : List A)
    → All (λ y. k x ≤ k y) xs
    → insert_by k x xs ≡ x ∷ xs
unfolding insert_by
insert_first k x [] h = refl
insert_first k x (y ∷ ys) h =
    let least : leb (k x) (k y) ≡ true = ground (arith, h.0) in rw least refl

module _ (step_id : ℕ → String) (task_id : String) where
  number_steps-owned :
      (i : ℕ) (steps : List TaskTemplateStep)
      → All (λ s. (s.task_id == task_id) ≡ true) (number_steps step_id task_id i steps)
  unfolding number_steps
  number_steps-owned i [] = tt
  number_steps-owned i (s ∷ rest) = (eq_refl task_id, number_steps-owned (suc i) rest)

  number_steps-least :
      (n i : ℕ) (steps : List TaskTemplateStep)
      → n ≤ i + 1
      → All (λ s. n ≤ s.order) (number_steps step_id task_id i steps)
  unfolding number_steps
  number_steps-least n i [] h = tt
  number_steps-least n i (s ∷ rest) h = (h, number_steps-least n (suc i) rest (omega arith))

  order_by-number_steps :
      (i : ℕ) (steps : List TaskTemplateStep)
      → order_by (λ s. s.order) (number_steps step_id task_id i steps)
        ≡ number_steps step_id task_id i steps
  unfolding order_by number_steps
  order_by-number_steps i [] = refl
  order_by-number_steps i (s ∷ rest) =
      rw (order_by-number_steps (suc i) rest)
        (insert_first (λ s. s.order) _ _ (number_steps-least (i + 1) (suc i) rest (omega arith)))

  number_steps-pending :
      (i : ℕ) (steps : List TaskTemplateStep)
      → All (λ s. s.status ≡ StepStatus.pending) (number_steps step_id task_id (suc i) steps)
  unfolding number_steps
  number_steps-pending i [] = tt
  number_steps-pending i (s ∷ rest) =
      let later : eqb (suc i) 0 ≡ false = ground arith in
      (rw later refl, number_steps-pending (suc i) rest)

  length-number_steps :
      (i : ℕ) (steps : List TaskTemplateStep)
      → length (number_steps step_id task_id i steps) ≡ length steps
  unfolding number_steps
  length-number_steps i [] = refl
  length-number_steps i (s ∷ rest) = ap suc (length-number_steps (suc i) rest)

-- The generated ids: the task's is new, and the steps' are new and distinct.
pub record AreNew (task_id : String) (step_id : ℕ → String) (steps : List TaskTemplateStep)
    (db : Db) : Type 0 where
  pub no_task : find_task task_id db ≡ none
  pub no_step_of_task : All (λ s. (s.task_id == task_id) ≡ false) db.steps
  pub named : is_empty (step_id 0) ≡ false
  pub distinct : DistinctIds (λ (s : Step). s.id) (db.steps ++ number_steps step_id task_id 0 steps)

-- the first step, as it is created
abbrev pub opening_step : String → (ℕ → String) → TaskTemplateStep → Step
opening_step task_id step_id s = record {
  id = step_id 0;
  task_id = task_id;
  key = s.key;
  kind = s.kind;
  order = 1;
  status = StepStatus.ready;
  executor_type = s.executor_type;
  role_key = s.role_key;
  params = s.params;
}

module _ (safe_parse : Value → Option Overrides) (task_id : String) (step_id : ℕ → String)
    (issue_id : String) (body : CreateTaskBody) (db : Db) where
  new_task_id :
      (issue : Issue) (template : TaskTemplate)
      → ((new_task task_id issue_id body (find_project issue.project_id db) template).id == task_id)
        ≡ true
  unfolding new_task
  new_task_id issue template = eq_refl task_id

  Stage-created :
      (issue : Issue) (template : TaskTemplate) (s : TaskTemplateStep)
      (rest : List TaskTemplateStep)
      → AreNew task_id step_id (s ∷ rest) db
      → Stage task_id []
          (opening_step task_id step_id s)
          (number_steps step_id task_id 1 rest)
          (created safe_parse task_id step_id issue_id body db issue template (s ∷ rest))
  unfolding steps_of number_steps
  Stage-created issue template s rest new =
      let t = new_task task_id issue_id body (find_project issue.project_id db) template in
      let steps = number_steps step_id task_id 0 (s ∷ rest) in
      record {
        task = points_at (step_id 0) t;
        has_task =
            find-modify_found (λ t. t.id) task_id (points_at (step_id 0)) (db.tasks ++ t ∷ [])
              (λ t. refl)
              (find-append_none (λ r. r.id == task_id) db.tasks t new.no_task
                (new_task_id issue template));
        points = refl;
        rows =
            ap (order_by (λ s. s.order)) (
              select-append (λ s. s.task_id == task_id) db.steps steps new.no_step_of_task
                (number_steps-owned step_id task_id 0 (s ∷ rest)))
            ∙ order_by-number_steps step_id task_id 0 (s ∷ rest);
        distinct = new.distinct;
        done = tt;
        waiting = number_steps-pending step_id task_id 0 rest;
      }

  -- Creating a task for an issue that is there, from a template that resolves to one or more steps,
  -- with ids that are new, and then driving it, each round by starting the current step with a fresh
  -- run id and reporting that run as completed, for as many rounds as the template has steps, ends
  -- with the task completed, each of its steps completed, and its issue, where there is one, done if
  -- the last step merges the pull request and pending otherwise.
  pub create_task_from_template-drive :
      {issue : Issue} {resolved : ResolvedTemplate} {s : TaskTemplateStep}
      {rest : List TaskTemplateStep} (json_parse : List ℕ → Option Value) (index_text : ℕ → String)
      (requests : List StartRequest)
      → find_issue issue_id db ≡ some issue
      → resolution safe_parse task_id step_id issue_id body db issue ≡ some resolved
      → resolved.template.steps ≡ some (s ∷ rest)
      → AreNew task_id step_id (s ∷ rest) db
      → length requests ≡ length (s ∷ rest)
      → IsFresh requests db.runs
      → Ended task_id (
          drive json_parse index_text task_id requests
            (create_task_from_template safe_parse task_id step_id issue_id body db).1)
  create_task_from_template-drive {issue} {resolved} {s} {rest} json_parse index_text requests
        has_issue has_template has_steps new count fresh =
      rw
        (create_task_from_template-created safe_parse task_id step_id issue_id body db has_issue
          has_template has_steps new.named new.no_task)
        (drive_stage-Ended json_parse index_text (number_steps step_id task_id 1 rest) requests
          (Stage-created issue resolved.template s rest new) refl
          (count ∙ ap suc (sym (length-number_steps step_id task_id 1 rest))) fresh)
