-- ===== src/Workflow/Engine/Attempts.antt =====
-- The attempts of a step's runs are counted upwards.
use tuixiu.Prelude.{
  ℕ, ◌+◌, ◌<◌, max, String, List, [], ◌∷◌, ◌==◌, ◌&&◌, select, All, is_some, ◌<|◌, Option-cases,
  inl, inr, arith,
}
use tuixiu.Db.Types.{Run, Db}
use tuixiu.Workflow.Engine.{max_attempt, next_attempt}

abbrev pub runs_of_step : String → Db → List Run
runs_of_step step_id db = select (λ r. (r.step_id <| "") == step_id && is_some r.step_id) db.runs

max_attempt_bound :
    (runs : List Run) (k : ℕ) → (max_attempt runs <| 0) < k → All (λ r. r.attempt < k) runs
unfolding max_attempt
max_attempt_bound [] k h = tt
max_attempt_bound (r ∷ rest) k h = elim (Option-cases (max_attempt rest)) [
  | inl e ↦
      (ground (arith, rw (e, max_attempt) at h), max_attempt_bound rest k (rw e (omega arith)))
  | inr (n, e) ↦
      let below : max r.attempt n < k = rw (e, max_attempt) at h in
      (omega arith, max_attempt_bound rest k (rw e (omega arith)))
]

-- The attempt number of a new run of a step is above that of every run of the step.
pub next_attempt_newest :
    (step_id : String) (db : Db)
    → All (λ r. r.attempt < next_attempt step_id db) (runs_of_step step_id db)
unfolding next_attempt
next_attempt_newest step_id db = elim (Option-cases (max_attempt (runs_of_step step_id db))) [
  | inl e ↦
      rw (e, next_attempt) (max_attempt_bound (runs_of_step step_id db) 1 (rw e (omega arith)))
  | inr (n, e) ↦
      rw (e, next_attempt)
        (max_attempt_bound (runs_of_step step_id db) (n + 1) (rw e (omega arith)))
]
