-- ===== src/Acp/Prompts/Reopened.antt =====
-- The parameters of a sandbox are in their bounds, and once they are stored they stay.
use tuixiu.Workflow.Engine.{derive_sandbox_instance_name}
use tuixiu.Prelude.{
  ℕ, ◌≤◌, String, Option, none, some, false, arith, ◌&&◌, refl, ◌≡◌, inl, inr, Bool-cases,
  Option-cases, ◌∙◌, ap, sym, subst, ◌==◌, eqb_iff, eq_refl, ◌<|◌, is_space,
}
use tuixiu.Prelude.{trim, is_empty, find-modify_found}
use tuixiu.Prelude.{trim-trim, trim-cat, HasNoSpace}
use text.Mathlib.TextLemmas.{cons-append}
use tuixiu.Db.Types.{Run, Db}
use tuixiu.Db.Tables.{find_run, on_run}
use tuixiu.Acp.Prompts.{
  SandboxOpenParams, open_params, resolve_sandbox_open_params, clamp_ttl, store_params, is_number,
}

clamp_ttl_bounds : (n : ℕ) → (60 ≤ clamp_ttl n) × (clamp_ttl n ≤ 86400)
clamp_ttl_bounds n = ground arith

clamp_ttl_twice : (n : ℕ) → 60 ≤ n → n ≤ 86400 → clamp_ttl n ≡ n
clamp_ttl_twice n h k = ground arith

ttl_bounds :
    (run_id : String) (name : Option String) (ttl : Option ℕ)
    → (60 ≤ (open_params run_id name ttl).keepalive_ttl_seconds)
      × ((open_params run_id name ttl).keepalive_ttl_seconds ≤ 86400)
unfolding open_params
ttl_bounds run_id name none = omega arith
ttl_bounds run_id name (some n) = clamp_ttl_bounds n

pub prefix_plain : HasNoSpace "tuixiu-run-"
unfolding is_space
prefix_plain =
    (refl, (refl, (refl, (refl, (refl, (refl, (refl, (refl, (refl, (refl, (refl, tt)))))))))))

-- The name is trimmed and not empty.
name_trimmed :
    (run_id : String) (name : Option String) (ttl : Option ℕ)
    → (trim (open_params run_id name ttl).instance_name
        ≡ (open_params run_id name ttl).instance_name)
      × (is_empty (open_params run_id name ttl).instance_name ≡ false)
unfolding open_params derive_sandbox_instance_name
name_trimmed run_id name ttl =
    let given = trim (name <| "") in
    elim (Bool-cases (is_empty given)) [
      | inl blank ↦ rw blank (
        trim-cat _ _ run_id prefix_plain,
        ap is_empty (cons-append "t" "uixiu-run-" (trim run_id)),
      )
      | inr named ↦ rw named (trim-trim (name <| ""), named)
    ]

open_params_twice :
    (run_id : String) (name : Option String) (ttl : Option ℕ)
    → let p = open_params run_id name ttl in
      open_params run_id (some p.instance_name) (some p.keepalive_ttl_seconds) ≡ p
unfolding open_params
open_params_twice run_id name ttl =
    let p = open_params run_id name ttl in
    let (trimmed, given) = name_trimmed run_id name ttl in
    let (low, high) = ttl_bounds run_id name ttl in
    again p trimmed given (clamp_ttl_twice p.keepalive_ttl_seconds low high)
  where
    again :
        (p : SandboxOpenParams)
        → trim p.instance_name ≡ p.instance_name
        → is_empty p.instance_name ≡ false
        → clamp_ttl p.keepalive_ttl_seconds ≡ p.keepalive_ttl_seconds
        → open_params run_id (some p.instance_name) (some p.keepalive_ttl_seconds) ≡ p
    again p trimmed given clamped = rw (trimmed, given, clamped) refl

-- Parameters that the columns hold are not written.
store_params_held :
    (run_id : String) (p : SandboxOpenParams) (run : Run) (db : Db)
    → trim (run.sandbox_instance_name <| "") ≡ p.instance_name
    → run.keepalive_ttl_seconds ≡ some p.keepalive_ttl_seconds
    → store_params run_id p run db ≡ (p, db)
unfolding store_params
store_params_held run_id p run db name ttl =
    rw
      (
        name,
        ttl,
        eq_refl p.instance_name,
        (eqb_iff p.keepalive_ttl_seconds p.keepalive_ttl_seconds).1 refl,
      )
      refl

resolved_some :
    (run_id : String) (db : Db) {run : Run}
    → find_run run_id db ≡ some run
    → resolve_sandbox_open_params run_id db
      ≡ store_params run_id
          (open_params run_id run.sandbox_instance_name run.keepalive_ttl_seconds)
          run
          db
unfolding resolve_sandbox_open_params
resolved_some run_id db found = rw (found, resolve_sandbox_open_params) refl

resolved_none :
    (run_id : String) (db : Db)
    → find_run run_id db ≡ none
    → resolve_sandbox_open_params run_id db ≡ (open_params run_id none none, db)
unfolding resolve_sandbox_open_params
resolved_none run_id db found = rw (found, resolve_sandbox_open_params) refl

-- What the theorem says of a result.
abbrev IsSettled : String → SandboxOpenParams × Db → Type 0
IsSettled run_id (p, after) =
    (60 ≤ p.keepalive_ttl_seconds)
    × (p.keepalive_ttl_seconds ≤ 86400)
    × (resolve_sandbox_open_params run_id after ≡ (p, after))

abbrev named : SandboxOpenParams → Run → Run
named p r = record r {
  sandbox_instance_name = some p.instance_name;
  keepalive_ttl_seconds = some p.keepalive_ttl_seconds;
}

module _ (run_id : String) (db : Db) {run : Run} (found : find_run run_id db ≡ some run) where
  abbrev params : SandboxOpenParams
  params = open_params run_id run.sandbox_instance_name run.keepalive_ttl_seconds

  abbrev renamed : Db
  renamed = on_run run_id (named params) db

  again_held : resolve_sandbox_open_params run_id renamed ≡ (params, renamed)
  again_held =
      let there : find_run run_id renamed ≡ some (named params run) =
        find-modify_found (λ (r : Run). r.id) run_id (named params) db.runs (λ r. refl) found in
      resolved_some run_id renamed there
      ∙ ap (λ p. store_params run_id p (named params run) renamed)
          (open_params_twice run_id run.sandbox_instance_name run.keepalive_ttl_seconds)
      ∙ store_params_held run_id params (named params run) renamed
          (name_trimmed run_id run.sandbox_instance_name run.keepalive_ttl_seconds).0 refl

  store_params-IsSettled : IsSettled run_id (store_params run_id params run db)
  unfolding store_params
  store_params-IsSettled =
      let (low, high) = ttl_bounds run_id run.sandbox_instance_name run.keepalive_ttl_seconds in
      let test =
        trim (run.sandbox_instance_name <| "") == params.instance_name
        && is_number params.keepalive_ttl_seconds run.keepalive_ttl_seconds in
      elim (Bool-cases test) [
        | inl held ↦ rw held (low, high, resolved_some run_id db found ∙ (rw held refl))
        | inr differs ↦ rw differs (low, high, again_held)
      ]

-- The time to live that a sandbox is opened with lies between 60 and 86,400 seconds, and resolving
-- the parameters again gives the same ones and writes nothing.
pub resolve_sandbox_open_params-settled :
    (run_id : String) (db : Db)
    → let (p, after) = resolve_sandbox_open_params run_id db in
      (60 ≤ p.keepalive_ttl_seconds)
      × (p.keepalive_ttl_seconds ≤ 86400)
      × (resolve_sandbox_open_params run_id after ≡ (p, after))
resolve_sandbox_open_params-settled run_id db = elim (Option-cases (find_run run_id db)) [
  | inl missing ↦
      let e = resolved_none run_id db missing in
      subst (IsSettled run_id) (sym e)
        ((ttl_bounds run_id none none).0, (ttl_bounds run_id none none).1, e)
  | inr (run, found) ↦
      subst (IsSettled run_id) (sym (resolved_some run_id db found))
        (store_params-IsSettled run_id db found)
]
