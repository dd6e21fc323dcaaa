-- ===== src/Workflow/Engine/Rollback.antt =====
-- Going back to a step.
use tuixiu.Prelude.{
  String, Option, none, some, false, ◌≡◌, refl, ap, ◌∙◌, ◌==◌, ◌&&◌, ltb, eqb, trim, is_empty, find,
  find-modify_self, find-modify_found, find_self, Bool-cases, inl, inr, if◌then◌else◌, All-find,
  All-find_self, find-modify_any,
}
use mathlib.Core.Option
use tuixiu.Db.Types.{IssueStatus, TaskStatus, StepStatus, Issue, Task, Step, Db}
use tuixiu.Db.Exec.{bind_ok, require-some, bad_request, not_found, bad_step}
use tuixiu.Db.Tables.{
  find_step, find_task, find_issue, steps_of, update_steps_after, on_step, on_task, on_issue,
}
use tuixiu.Db.Laws.{update_step-found, update_task-found}
use tuixiu.Workflow.Progress.Advance.{HasDistinctSteps, All-steps_of}
use tuixiu.Workflow.Engine.{rollback_task_to_step}

abbrev reset : Step → Step
reset s = record s { status = StepStatus.pending }

-- what a step is after the task went back to the target
abbrev pub rolled_back : String → Step → Step → Step
rolled_back task_id target s =
    if s.id == target.id
    then record s { status = StepStatus.ready }
    else if s.task_id == task_id && ltb target.order s.order
    then reset s
    else s

abbrev rollback_effect : Task → Step → Db → Db
rollback_effect task target db =
    on_issue task.issue_id (λ i. record i { status = IssueStatus.running })
      (on_task task.id
        (λ t. record t { status = TaskStatus.running; current_step_id = some target.id })
        (on_step target.id (λ s. record s { status = StepStatus.ready })
          (update_steps_after task.id target.order reset db)))

reset_target :
    (task_id : String) (target : Step) (db : Db)
    → find_step target.id db ≡ some target
    → find_step target.id (update_steps_after task_id target.order reset db)
      ≡ some (
          if target.task_id == task_id && ltb target.order target.order
          then reset target
          else target)
unfolding update_steps_after
reset_target task_id target db has_step =
    find-modify_any (λ s. s.id) target.id (λ s. s.task_id == task_id && ltb target.order s.order)
      reset db.steps (λ s. refl)
    ∙ ap (Option.map (λ s. if s.task_id == task_id && ltb target.order s.order then reset s else s))
        has_step

rollback-effect :
    (task_id raw_step_id : String) (db : Db) {task : Task} {target : Step}
    → is_empty (trim raw_step_id) ≡ false
    → find_task task_id db ≡ some task
    → find (λ s. s.id == trim raw_step_id) (steps_of task.id db) ≡ some target
    → eqb target.order 0 ≡ false
    → find_step target.id db ≡ some target
    → (rollback_task_to_step task_id raw_step_id db).1 ≡ rollback_effect task target db
unfolding rollback_task_to_step update_steps_after
rollback-effect task_id raw_step_id db {task} {target} named has_task chosen ordered has_step =
    ap (λ r. r.1)
      (bind_ok _ _
        (require-some bad_request {o = if is_empty (trim raw_step_id) then none else some tt} _
          (rw named refl))
        (bind_ok _ _ (require-some _ _ has_task) (
          bind_ok _ _ refl (
            bind_ok _ _ (require-some not_found _ chosen) (
              bind_ok _ _
                (require-some bad_step {o = if eqb target.order 0 then none else some tt} _
                  (rw ordered refl))
                (bind_ok _ _ refl (
                  bind_ok _ _
                    (update_step-found target.id _ _ (reset_target task.id target db has_step))
                    (bind_ok _ _
                      (update_task-found task.id _ _
                        (find_self (λ (t : Task). t.id) task_id db.tasks has_task))
                      (bind_ok _ _ refl (bind_ok _ _ refl refl))))))))))

abbrev make_ready : Step → Step
make_ready s = record s { status = StepStatus.ready }

both :
    (task_id : String) (target : Step) (o : Option Step)
    → Option.map
        (λ s. if s.id == target.id then make_ready s else s)
        (Option.map
          (λ s. if s.task_id == task_id && ltb target.order s.order then reset s else s)
          o)
      ≡ Option.map (rolled_back task_id target) o
both task_id target none = refl
both task_id target (some s) = elim (Bool-cases (s.id == target.id)) [
  | inl here ↦ elim (Bool-cases (s.task_id == task_id && ltb target.order s.order)) [
    | inl later ↦ rw (later, here) refl
    | inr kept ↦ rw (kept, here) refl
  ]
  | inr there ↦ elim (Bool-cases (s.task_id == task_id && ltb target.order s.order)) [
    | inl later ↦ rw (later, there) refl
    | inr kept ↦ rw (kept, there) refl
  ]
]

-- Where step ids are distinct, going back to a step of the task whose order is not 0 makes that step
-- ready, every step of the task with a later order pending, and leaves every other step, the task
-- running at that step and its issue running.
pub rollback_task_to_step-rolled_back :
    (task_id raw_step_id : String) (db : Db) {task : Task} {target : Step}
    → HasDistinctSteps db
    → is_empty (trim raw_step_id) ≡ false
    → find_task task_id db ≡ some task
    → find (λ s. s.id == trim raw_step_id) (steps_of task.id db) ≡ some target
    → eqb target.order 0 ≡ false
    → let after = (rollback_task_to_step task_id raw_step_id db).1 in
      ((id : String)
        → find_step id after ≡ Option.map (rolled_back task.id target) (find_step id db))
      × (find_task task.id after
          ≡ some (record task { status = TaskStatus.running; current_step_id = some target.id }))
      × (find_issue task.issue_id after
          ≡ Option.map {A = Issue}
              (λ i. record i { status = IssueStatus.running })
              (find_issue task.issue_id db))
unfolding update_steps_after
rollback_task_to_step-rolled_back task_id raw_step_id db {task} {target} distinct named has_task
      chosen ordered =
    let P = λ (s : Step). find_step s.id db ≡ some s in
    let has_step =
      All-find P _ (steps_of task.id db)
        (All-steps_of P task.id db (All-find_self (λ s. s.id) db.steps distinct)) chosen in
    rw (rollback-effect task_id raw_step_id db named has_task chosen ordered has_step) (
      λ id.
          find-modify_any (λ s. s.id) id (λ s. s.id == target.id) make_ready _ (λ s. refl)
          ∙ ap (Option.map (λ s. if s.id == target.id then make_ready s else s)) (
              find-modify_any (λ s. s.id) id (λ s. s.task_id == task.id && ltb target.order s.order)
                reset db.steps (λ s. refl))
          ∙ both task.id target (find_step id db),
      find-modify_found (λ t. t.id) task.id _ db.tasks (λ t. refl)
          (find_self (λ (t : Task). t.id) task_id db.tasks has_task),
      find-modify_self (λ i. i.id) task.issue_id _ db.issues (λ i. refl),
    )
