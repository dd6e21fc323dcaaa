-- ===== src/Workflow/Pipeline/Rows.antt =====
-- The steps of a task at a stage: those before the current one are completed, those behind wait.
use tuixiu.Prelude.{
  String, some, Bool, true, List, [], ◌∷◌, ◌++◌, ◌≡◌, refl, ap, ◌∙◌, ◌==◌, eq_iff, arith, modify,
  order_by, All, AbsentFrom, DistinctIds, modify_middle, select-modify, order_by-modify,
  All-append_right, All-find_self, head_or_none, select-All, All-order_by, eq_refl, subst,
}
use tuixiu.Db.Types.{StepStatus, Task, Step, Db}
use tuixiu.Db.Tables.{steps_of, find_step, find_task}
use tuixiu.Workflow.Progress.{next_after}
use tuixiu.Workflow.Progress.Advance.{HasDistinctSteps, All-steps_of, DistinctIds-steps_of}

pub record Stage (task_id : String) (before : List Step) (current : Step) (after : List Step)
    (db : Db) : Type 0 where
  pub task : Task
  pub has_task : find_task task_id db ≡ some task
  pub points : task.current_step_id ≡ some current.id
  pub rows : steps_of task_id db ≡ before ++ current ∷ after
  pub distinct : HasDistinctSteps db
  pub done : All (λ s. s.status ≡ StepStatus.completed) before
  pub waiting : All (λ s. s.status ≡ StepStatus.pending) after

-- A change that keeps the columns by which steps are listed.
pub record KeepsPlace (f : Step → Step) : Type 0 where
  pub id : (s : Step) → (f s).id ≡ s.id
  pub task_id : (s : Step) → (f s).task_id ≡ s.task_id
  pub order : (s : Step) → (f s).order ≡ s.order

pub steps_of-modify :
    (task_id : String) (p : Step → Bool) (f : Step → Step) (db : Db)
    → KeepsPlace f
    → steps_of task_id (record db { steps = modify p f db.steps })
      ≡ modify p f (steps_of task_id db)
unfolding steps_of
steps_of-modify task_id p f db k =
    ap (order_by (λ s. s.order)) (
      select-modify (λ s. s.task_id == task_id) p f db.steps
        (λ s. ap (λ t. t == task_id) (k.task_id s)))
    ∙ order_by-modify (λ s. s.order) p f _ k.order

module _ (task_id : String) (before : List Step) (current : Step) (after : List Step) (db : Db)
    (rows : steps_of task_id db ≡ before ++ current ∷ after) (distinct : HasDistinctSteps db) where
  pub stage_distinct : DistinctIds (λ (s : Step). s.id) (before ++ current ∷ after)
  stage_distinct = rw rows at (DistinctIds-steps_of task_id db distinct)

  pub steps_of-modify_current :
      (f : Step → Step)
      → KeepsPlace f
      → steps_of task_id (record db { steps = modify (λ r. r.id == current.id) f db.steps })
        ≡ before ++ f current ∷ after
  steps_of-modify_current f k =
      steps_of-modify task_id _ f db k
      ∙ rw rows (modify_middle (λ s. s.id) f before current after stage_distinct)

  pub steps_of-modify_at :
      (id : String) (f : Step → Step)
      → current.id ≡ id
      → KeepsPlace f
      → steps_of task_id (record db { steps = modify (λ r. r.id == id) f db.steps })
        ≡ before ++ f current ∷ after
  steps_of-modify_at id f e k =
      subst
        (λ i.
          steps_of task_id (record db { steps = modify (λ r. r.id == i) f db.steps })
          ≡ before ++ f current ∷ after)
        e (steps_of-modify_current f k)

  pub stage_found : find_step current.id db ≡ some current
  stage_found =
      let P = λ (s : Step). find_step s.id db ≡ some s in
      (All-append_right P before (current ∷ after)
        (rw rows at (All-steps_of P task_id db (All-find_self (λ s. s.id) db.steps distinct)))).0

  pub stage_owned : current.task_id ≡ task_id
  unfolding steps_of
  stage_owned =
      let P = λ (s : Step). (s.task_id == task_id) ≡ true in
      let owned =
        All-order_by P (λ s. s.order) _ (select-All (λ s. s.task_id == task_id) db.steps) in
      (eq_iff _ _).0 (All-append_right P before (current ∷ after) (rw rows at owned)).0

-- The step behind the current one.
pub next_after-middle :
    (before : List Step) (current : Step) (after : List Step)
    → AbsentFrom (λ (s : Step). s.id) current.id before
    → next_after current.id (before ++ current ∷ after) ≡ head_or_none after
unfolding next_after
next_after-middle [] current after a = rw (eq_refl current.id) refl
next_after-middle (s ∷ rest) current after a =
    ground (arith, next_after-middle rest current after a.1, eq_iff s.id current.id)
