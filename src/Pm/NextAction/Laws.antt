-- ===== src/Pm/NextAction/Laws.antt =====
-- What is recommended can be done: a step that is to be started can be started.
use tuixiu.Prelude.{
  ℕ, zero, suc, String, Option, none, some, true, false, List, [], ◌∷◌, ◌≡◌, sym, ap, ◌∙◌, ◌==◌,
  eq_iff, find, take, All, All-select, All-append, All-find_self, DistinctIds, Option-cases,
  Bool-cases, inl, inr, arith, select-All, All-order_by, is_empty, head_or_none, ◌<|>◌, subst,
  All-find,
}
use mathlib.Core.Option
use tuixiu.Db.Types.{StepStatus, Task, Step, Run, Db}
use tuixiu.Db.Exec.{ok}
use tuixiu.Db.Tables.{find_task, find_step, steps_of}
use tuixiu.Workflow.Engine.{StartStepBody, start_step}
use tuixiu.Workflow.Engine.Start.{start_step-ready}
use tuixiu.Workflow.Progress.Advance.{HasDistinctSteps, All-steps_of}
use tuixiu.Pm.NextAction.{
  PmNextAction, StepView, step_view, reversed, tasks_of_issue, is_terminal_task_status,
  pick_active_task, pick_current_step, task_advice, task_next_action, is_running, is_blocked,
  is_pending,
}

abbrev HasDistinctTasks : Db → Type 0
HasDistinctTasks db = DistinctIds (λ (t : Task). t.id) db.tasks

module _ {A : Type 0} (P : A → Type 0) where
  All-head : (xs : List A) {y : A} → All P xs → head_or_none xs ≡ some y → P y
  All-head [] h e = absurd (cc)
  All-head (x ∷ xs) {y} h e = let same : x ≡ y = ground arith in rw (← same) (h.0)

  All-take : (n : ℕ) (xs : List A) → All P xs → All P (take n xs)
  All-take zero xs h = tt
  All-take (suc n) [] h = tt
  All-take (suc n) (x ∷ xs) h = (h.0, All-take n xs h.1)

  All-reversed : (xs : List A) → All P xs → All P (reversed xs)
  All-reversed [] h = tt
  All-reversed (x ∷ xs) h = All-append P (reversed xs) (x ∷ []) (All-reversed xs h.1) (h.0, tt)

-- every value of the option has the property
abbrev Every : {A : Type 0} → (A → Type 0) → Option A → Type 0
Every {A} P o = (x : A) → o ≡ some x → P x

Every-or :
    {A : Type 0} (P : A → Type 0) (a b : Option A) → Every P a → Every P b → Every P (a <|> b)
Every-or P none b first second = second
Every-or P (some y) b first second = first

pick_active_task-All :
    (P : Task → Type 0) (tasks : List Task) {t : Task}
    → All P tasks
    → pick_active_task tasks ≡ some t
    → P t
unfolding pick_active_task
pick_active_task-All P tasks h =
    Every-or P (find (λ t. is_running t.status) tasks) _ (λ x. All-find P _ tasks {y = x} h)
      (Every-or P (find (λ t. is_blocked t.status) tasks) _ (λ x. All-find P _ tasks {y = x} h)
        (Every-or P (find (λ t. is_pending t.status) tasks) _ (λ x. All-find P _ tasks {y = x} h)
          (λ x. All-head P tasks {y = x} h)))
      _

pick_current_step-All :
    (P : Step → Type 0) (t : Task) (steps : List Step) {s : Step}
    → All P steps
    → pick_current_step t steps ≡ some s
    → P s
unfolding pick_current_step
pick_current_step-All P t steps h e = elim (Option-cases t.current_step_id) [
  | inl absent ↦ absurd (cc (rw (absent, pick_current_step) at e))
  | inr (id, points) ↦ elim (Bool-cases (is_empty id)) [
    | inl empty ↦ absurd (cc (rw (points, empty, pick_current_step) at e))
    | inr named ↦ All-find P _ steps h (rw (points, named, pick_current_step) at e)
  ]
]

-- What a step recommended by a task's advice is: the current step of an open task of the issue.
record Advised (id : String) (db : Db) (n : PmNextAction) : Type 0 where
  pub task : Task
  pub picked : pick_active_task (tasks_of_issue id db) ≡ some task
  pub is_open : is_terminal_task_status task.status ≡ false
  pub names : n.task_id ≡ some task.id
  pub shows : n.step ≡ Option.map step_view (pick_current_step task (steps_of task.id db))

task_id_of : Option PmNextAction → Option String
task_id_of none = none
task_id_of (some n) = n.task_id

step_of : Option PmNextAction → Option StepView
step_of none = none
step_of (some n) = n.step

task_next_action-Advised :
    (id : String) (db : Db) {n : PmNextAction} → task_next_action id db ≡ some n → Advised id db n
unfolding task_next_action task_id_of step_of
task_next_action-Advised id db {n} e =
    elim (Option-cases (pick_active_task (tasks_of_issue id db))) [
      | inl absent ↦ absurd (cc (rw (absent, task_next_action) at e))
      | inr (t, picked) ↦ elim (Bool-cases (is_terminal_task_status t.status)) [
        | inl ended ↦ absurd (cc (rw (picked, ended, task_next_action) at e))
        | inr is_open ↦
            elim (Option-cases (task_advice t (pick_current_step t (steps_of t.id db)))) [
              | inl silent ↦ absurd (cc (rw (picked, is_open, silent, task_next_action) at e))
              | inr (advice, said) ↦
                  let made = rw (picked, is_open, said, task_next_action) at e in
                  record {
                    task = t;
                    picked = picked;
                    is_open = is_open;
                    names = ap task_id_of (sym made);
                    shows = ap step_of (sym made);
                  }
            ]
      ]
    ]

picked_found :
    (id : String) (db : Db) {t : Task}
    → HasDistinctTasks db
    → pick_active_task (tasks_of_issue id db) ≡ some t
    → find_task t.id db ≡ some t
picked_found id db tasks picked =
    let P = λ (t : Task). find_task t.id db ≡ some t in
    pick_active_task-All P (tasks_of_issue id db)
      (All-take P 10 _
        (All-reversed P _ (All-select P _ db.tasks (All-find_self (λ t. t.id) db.tasks tasks))))
      picked

current_found :
    (t : Task) (db : Db) {s : Step}
    → HasDistinctSteps db
    → pick_current_step t (steps_of t.id db) ≡ some s
    → (find_step s.id db ≡ some s) × (s.task_id ≡ t.id)
unfolding steps_of
current_found t db {s} steps current =
    let P = λ (s : Step). find_step s.id db ≡ some s in
    let Q = λ (s : Step). (s.task_id == t.id) ≡ true in
    (
      pick_current_step-All P t _
          (All-steps_of P t.id db (All-find_self (λ s. s.id) db.steps steps)) current,
      (eq_iff s.task_id t.id).0 (
          pick_current_step-All Q t _
            (All-order_by Q (λ s. s.order) _ (select-All (λ s. s.task_id == t.id) db.steps))
            current),
    )

abbrev Startable : String → ℕ → StartStepBody → Db → String → Type 0
Startable run_id now body db step_id =
    (result : Task × Step × Run) × ((start_step run_id now step_id body db).0 ≡ ok result)

start_step_ok :
    (run_id : String) (now : ℕ) (body : StartStepBody) (db : Db) {s : Step} {t : Task}
    → find_step s.id db ≡ some s
    → find_task s.task_id db ≡ some t
    → s.status ≡ StepStatus.ready
    → Startable run_id now body db s.id
start_step_ok run_id now body db {s} has_step has_task ready =
    (_, ap (λ r. r.0) (start_step-ready run_id now s.id body db has_step has_task ready))

-- Where step ids and task ids are distinct, and the next action about a task of an issue shows a
-- step that is ready, starting that step succeeds, whatever the request, the run id and the time.
pub task_next_action-start_step :
    (id : String) (db : Db) {n : PmNextAction} {v : StepView} (run_id : String) (now : ℕ)
    (body : StartStepBody)
    → HasDistinctTasks db
    → HasDistinctSteps db
    → task_next_action id db ≡ some n
    → n.step ≡ some v
    → v.status ≡ StepStatus.ready
    → (result : Task × Step × Run) × ((start_step run_id now v.id body db).0 ≡ ok result)
task_next_action-start_step id db {n} {v} run_id now body tasks steps e shown ready =
    let a = task_next_action-Advised id db e in
    let viewed = sym a.shows ∙ shown in
    elim (Option-cases (pick_current_step a.task (steps_of a.task.id db))) [
      | inl absent ↦ absurd (cc (rw absent at viewed))
      | inr (s, current) ↦
          let same = rw current at viewed in
          let (has_step, owned) = current_found a.task db steps current in
          let same_id : s.id ≡ v.id = ap (λ o. elim o [ none ↦ s.id | some w ↦ w.id ]) same in
          let same_status : s.status ≡ v.status =
            ap (λ o. elim o [ none ↦ s.status | some w ↦ w.status ]) same in
          subst (Startable run_id now body db) same_id (
            start_step_ok run_id now body db {t = a.task} has_step
              (rw owned (picked_found id db tasks a.picked)) (same_status ∙ ready))
    ]
