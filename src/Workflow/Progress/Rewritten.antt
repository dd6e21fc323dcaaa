-- ===== src/Workflow/Progress/Rewritten.antt =====
-- A run that is rewritten is bound as it was.
use mathlib.Core.Option.{some_inj}
use tuixiu.Db.Tables.{find_task, find_step, on_run, find_run}
use tuixiu.Db.Types.{Run, Db, Task, Step}
use tuixiu.Workflow.Progress.{bound_to, bound_run}
use tuixiu.Prelude.{
  String, Option, none, some, ◌≡◌, Option-cases, inl, inr, sym, ap, find-modify_found, List, ◌∙◌,
}

-- A run that is rewritten keeps its task and its step.
bound_to_again :
    (r r' : Run) (task_id step_id : Option String) (db : Db) (runs : List Run) {run : Run}
    {task : Task} {step : Step}
    → bound_to r task_id step_id db ≡ some (run, task, step)
    → (run ≡ r) × (bound_to r' task_id step_id (record db { runs = runs }) ≡ some (r', task, step))
unfolding bound_to
bound_to_again r r' none step_id db runs h = absurd (cc)
bound_to_again r r' (some i) none db runs h = absurd (cc)
bound_to_again r r' (some i) (some j) db runs {run} {task} {step} h =
    elim (Option-cases (find_task i db)) [
      | inl e ↦ absurd (cc (rw (e, bound_to) at h))
      | inr (t, e) ↦ elim (Option-cases (find_step j db)) [
        | inl e' ↦ absurd (cc (rw (e, e', bound_to) at h))
        | inr (s, e') ↦
            let same : some (r, t, s) ≡ some (run, task, step) = rw (e, e', bound_to) at h in
            (
              sym (ap (λ x. x.0) (some_inj.0 same)),
              rw (e, e', bound_to)
                  (ap (λ (x : Run × Task × Step). some (r', x.1, x.2)) (some_inj.0 same)),
            )
      ]
    ]

pub bound_run_again :
    (run_id : String) (f : Run → Run) (db : Db) {run : Run} {task : Task} {step : Step}
    → ((r : Run) → (f r).id ≡ r.id)
    → ((r : Run) → (f r).task_id ≡ r.task_id)
    → ((r : Run) → (f r).step_id ≡ r.step_id)
    → bound_run run_id db ≡ some (run, task, step)
    → bound_run run_id (on_run run_id f db) ≡ some (f run, task, step)
unfolding bound_run
bound_run_again run_id f db {run} {task} {step} keeps_id keeps_task keeps_step bound =
    elim (Option-cases (find_run run_id db)) [
      | inl e ↦ absurd (cc (rw (e, bound_run) at bound))
      | inr (r, e) ↦
          let (same, again) =
            bound_to_again r (f r) r.task_id r.step_id db (on_run run_id f db).runs
              (rw (e, bound_run) at bound) in
          let found = find-modify_found (λ (x : Run). x.id) run_id f db.runs keeps_id e in
          rw (found, bound_run)
            (ap (λ i. bound_to (f r) i (f r).step_id (on_run run_id f db)) (keeps_task r)
              ∙ ap (λ j. bound_to (f r) r.task_id j (on_run run_id f db)) (keeps_step r)
              ∙ again
              ∙ ap (λ x. some (f x, task, step)) (sym same))
    ]
