-- ===== src/Workflow/AutoAdvance/Guards.antt =====
-- What a step that is started by itself has.
use tuixiu.Workflow.Engine.{normalize_executor_type, executor_text}
use tuixiu.Prelude.{
  ℕ, String, Option, none, some, Bool, true, false, ◌≡◌, ◌≢◌, refl, ap, ◌∙◌, ◌==◌, ◌&&◌, ◌||◌, not,
  eq_iff, Option-cases, Bool-cases, inl, inr, arith, folded, trim, same, subst, is_empty, guarded,
}
use tuixiu.Json.{Value}
use tuixiu.Db.Types.{ExecutorType, Task, Step, Db}
use tuixiu.Db.Exec.{Exec, ok}
use tuixiu.Db.Tables.{find_task}
use tuixiu.Pm.Policy.{PmPolicy}
use tuixiu.Workflow.AutoAdvance.{
  Capabilities, AutoAdvanceTrigger, is_terminal_task_status, executor_of, can_execute, is_ready,
  current_step, step_to_start, auto_advance_task_once, allowed_by_policy,
}

-- The client's text of an executor is read back.
normalize_executor_type-executor_text :
    (e : ExecutorType) → normalize_executor_type (some (executor_text e)) ≡ some e
unfolding normalize_executor_type folded same
normalize_executor_type-executor_text ExecutorType.agent = refl
normalize_executor_type-executor_text ExecutorType.ci = refl
normalize_executor_type-executor_text ExecutorType.human = refl
normalize_executor_type-executor_text ExecutorType.system = refl

executor_of_lem : (s : Step) → executor_of s ≡ s.executor_type
unfolding executor_of
executor_of_lem s = rw (normalize_executor_type-executor_text s.executor_type) refl

not_human :
    (deps : Capabilities) (t : Task) (e : ExecutorType)
    → can_execute deps t e ≡ true
    → e ≢ ExecutorType.human
unfolding can_execute
not_human deps t e h human = absurd (cc (rw human at h))

all_true :
    (a b c d e : Bool)
    → (a && b && c && d && e) ≡ true
    → (a ≡ true) × (b ≡ true) × (c ≡ true) × (d ≡ true) × (e ≡ true)
all_true true true true true true h = (refl, refl, refl, refl, refl)
all_true true true true true false h = absurd (cc)
all_true true true true false e h = absurd (cc)
all_true true true false d e h = absurd (cc)
all_true true false c d e h = absurd (cc)
all_true false b c d e h = absurd (cc)

is_false : (b : Bool) → not b ≡ true → b ≡ false
is_false true h = absurd (cc)
is_false false h = refl

module _ (parse_policy : Option Value → Option PmPolicy) (policy_json : PmPolicy → Value)
    (dispatch : String → Exec (Unit {0})) where
  -- what holds of a task and the step of it that is started
  pub record Allowed (deps : Capabilities) (issue_id task_id : String) (db : Db) (s : Step)
      : Type 0 where
    pub task : Task
    pub has_task : find_task task_id db ≡ some task
    pub of_issue : task.issue_id ≡ issue_id
    pub is_open : is_terminal_task_status task.status ≡ false
    pub is_current : current_step task db ≡ some s
    pub ready : is_ready s.status ≡ true
    pub executable : can_execute deps task s.executor_type ≡ true
    pub for_no_human : s.executor_type ≢ ExecutorType.human

  pub step_to_start-Allowed :
      (deps : Capabilities) (issue_id task_id : String) (db : Db) {s : Step}
      → step_to_start parse_policy policy_json dispatch deps issue_id task_id db ≡ some s
      → Allowed deps issue_id task_id db s
  unfolding step_to_start
  step_to_start-Allowed deps issue_id task_id db {s} e =
      elim (Option-cases (find_task task_id db)) [
        | inl missing ↦ absurd (cc (rw (missing, step_to_start) at e))
        | inr (t, has_task) ↦ elim (Option-cases (current_step t db)) [
          | inl nothing ↦ absurd (cc (rw (has_task, nothing, step_to_start) at e))
          | inr (c, is_current) ↦
              let (tested, same) = guarded _ c (rw (has_task, is_current, step_to_start) at e) in
              let (of_issue, is_open, ready, allowed, executable) =
                all_true (t.issue_id == issue_id) (not (is_terminal_task_status t.status))
                  (is_ready c.status) (allowed_by_policy parse_policy policy_json dispatch t c db)
                  (can_execute deps t (executor_of c)) tested in
              let able : can_execute deps t c.executor_type ≡ true =
                rw (executor_of_lem c) at executable in
              subst (Allowed deps issue_id task_id db) same (record {
                task = t;
                has_task = has_task;
                of_issue = (eq_iff t.issue_id issue_id).0 of_issue;
                is_open = is_false _ is_open;
                is_current = is_current;
                ready = ready;
                executable = able;
                for_no_human = not_human deps t c.executor_type able;
              })
        ]
      ]

  -- Where the current step of the task is for a human, the automatic advance starts nothing and
  -- leaves the database as it was.
  pub auto_advance_task_once-human :
      (deps : Capabilities) (run_id : String) (now : ℕ) (trigger : AutoAdvanceTrigger)
      (issue_id task_id : String) (db : Db) {t : Task} {s : Step}
      → find_task (trim task_id) db ≡ some t
      → current_step t db ≡ some s
      → s.executor_type ≡ ExecutorType.human
      → auto_advance_task_once parse_policy policy_json dispatch deps run_id now trigger issue_id
          task_id db
        ≡ (ok none, db)
  unfolding auto_advance_task_once
  auto_advance_task_once-human deps run_id now trigger issue_id task_id db {t} {s} has_task
        is_current human =
      elim (Bool-cases (not deps.enabled || is_empty (trim issue_id) || is_empty (trim task_id))) [
        | inl stop ↦ rw (stop, auto_advance_task_once) refl
        | inr go ↦
            elim (Option-cases (
              step_to_start parse_policy policy_json dispatch deps (trim issue_id) (trim task_id)
                db)) [
                  | inl nothing ↦ rw (go, nothing, auto_advance_task_once) refl
                  | inr (c, e) ↦
                      let a = step_to_start-Allowed deps (trim issue_id) (trim task_id) db e in
                      let same_task : a.task ≡ t = ground (arith, a.has_task, has_task) in
                      let current : current_step t db ≡ some c = rw same_task at a.is_current in
                      let same_step : c ≡ s = ground (arith, current, is_current) in
                      absurd (a.for_no_human (ap (λ (x : Step). x.executor_type) same_step ∙ human))
                ]
      ]
