-- ===== src/Acp/Prompts.antt =====
-- backend/src/modules/acp/acpTunnel.ts: the prompt of a run, before it is sent and after its answer, and
-- what the calls that control a session store. `sandboxInstanceName` and `keepaliveTtlSeconds` are
-- columns that hold a text and a whole number, where they hold anything.
pub mod Reopened
pub mod Ended
use Prim.Native.Nat.{◌*◌}
use Prim.Native.String
use tuixiu.Prelude.{
  ℕ, zero, suc, ◌+◌, ◌-◌, ◌≤◌, ◌<◌, String, Option, none, some, Bool, true, false, List, [], ◌∷◌,
  ◌++◌, arith, leb, ltb, eqb, ◌||◌, ◌&&◌, length, refl, ◌≡◌, ◌≢◌, inl, inr, Bool-cases,
  Option-cases, if◌then◌else◌, and_true, ◌∙◌, ap, sym, subst, ◌==◌, not, eqb_iff, eq_iff, eq_refl,
  map, is_some, ◌<|◌, All, ◌⊎◌, any, all, find,
}
use tuixiu.Prelude.{trim, is_empty, modify}
use tuixiu.Json.{Value, Fields, Items, obj, arr, str, num, null, field, end, not_positive, positive}
use tuixiu.Db.Types.{Run, Db, SandboxStatus}
use tuixiu.Db.Tables.{find_run, on_run}
use tuixiu.Acp.Chunks.{Tunnel, persist_prompt_result}
use tuixiu.Acp.Updates.{update_session_state}
use tuixiu.Acp.Finalize.{Finalized, finalize_run_if_running}
use tuixiu.Workflow.Engine.{derive_sandbox_instance_name, default_sandbox_keepalive_ttl_seconds}

pub record SandboxOpenParams : Type 0 where
  pub instance_name : String
  pub keepalive_ttl_seconds : ℕ

abbrev pub clamp_ttl : ℕ → ℕ
clamp_ttl n = let least = (if ltb n 60 then 60 else n) in if ltb 86400 least then 86400 else least

-- the parameters of a run's columns
unfoldable pub open_params : String → Option String → Option ℕ → SandboxOpenParams
open_params run_id name ttl =
    let given = trim (name <| "") in
    record {
      instance_name = if is_empty given then derive_sandbox_instance_name run_id else given;
      keepalive_ttl_seconds = elim ttl [
        | none ↦ default_sandbox_keepalive_ttl_seconds
        | some n ↦ clamp_ttl n
      ];
    }

abbrev pub is_number : ℕ → Option ℕ → Bool
is_number n none = false
is_number n (some m) = eqb m n

-- The parameters, written where the run's columns differ from them.
unfoldable pub store_params : String → SandboxOpenParams → Run → Db → SandboxOpenParams × Db
store_params run_id p run db =
    if trim (run.sandbox_instance_name <| "") == p.instance_name
      && is_number p.keepalive_ttl_seconds run.keepalive_ttl_seconds
    then (p, db)
    else (
      p,
      on_run run_id
          (λ r. record r {
            sandbox_instance_name = some p.instance_name;
            keepalive_ttl_seconds = some p.keepalive_ttl_seconds;
          })
          db,
    )

unfoldable pub resolve_sandbox_open_params : String → Db → SandboxOpenParams × Db
unfolding open_params derive_sandbox_instance_name store_params
resolve_sandbox_open_params run_id db = elim (find_run run_id db) [
  | none ↦ (open_params run_id none none, db)
  | some run ↦
      store_params run_id (open_params run_id run.sandbox_instance_name run.keepalive_ttl_seconds)
        run db
]

abbrev not_made : SandboxStatus → Bool
not_made SandboxStatus.missing = true
not_made SandboxStatus.creating = true
not_made _ = false

abbrev at_most : ℕ → ℕ → ℕ
at_most n bound = if ltb bound n then bound else n

abbrev at_least : ℕ → ℕ → ℕ
at_least n bound = if ltb n bound then bound else n

abbrev base_timeout_ms : Option ℕ → ℕ
base_timeout_ms none = 300000
base_timeout_ms (some n) = if eqb n 0 then 300000 else n

abbrev init_timeout_seconds : Option ℕ → ℕ
init_timeout_seconds none = 300
init_timeout_seconds (some n) = at_least (at_most n 3600) 1

-- The time that an open has, by the variable `ACP_OPEN_TIMEOUT_MS` and the script with its own time.
-- A number that is not finite is absent, and one that is not positive is 0.
unfoldable pub open_timeout_ms : Option ℕ → Option String → Option ℕ → ℕ
open_timeout_ms acp_open_timeout_ms script timeout_seconds =
    let base = base_timeout_ms acp_open_timeout_ms in
    if is_empty (trim (script <| ""))
    then base
    else at_least base (init_timeout_seconds timeout_seconds * 1000 + 10000)

-- the time that a prompt has, by the variable `ACP_PROMPT_TIMEOUT_MS`
unfoldable pub prompt_timeout_ms_from_env : Option ℕ → ℕ
prompt_timeout_ms_from_env none = 3600000
prompt_timeout_ms_from_env (some n) =
    if eqb n 0 then 3600000 else at_most (at_least n 5000) 86400000

-- whether the script of the first open is sent again
unfoldable pub keeps_init : String → Db → Bool
keeps_init run_id db = elim (find_run run_id db) [
  | none ↦ true
  | some run ↦ elim run.sandbox_status [ none ↦ true | some status ↦ not_made status ]
]

-- a prompt for a session that the caller names
unfoldable pub start_prompt : String → Option String → String → Db → Db
unfolding update_session_state
start_prompt run_id session_id now db =
    let hint = trim (session_id <| "") in
    if is_empty hint
    then db
    else update_session_state run_id
        (field "sessionId" (str hint) (
          field "activity" (str "busy") (
            field "inFlight" (num (positive 1))
              (field "updatedAt" (str now) (field "note" (str "prompt_start") end)))))
        db

abbrev pub idle_patch : String → String → String → Fields
idle_patch session_id stop_reason now = field "sessionId" (str session_id) (
    field "activity" (str "idle") (
      field "inFlight" (num not_positive) (
        field "updatedAt" (str now)
          (field "lastStopReason" (str stop_reason) (field "note" (str "prompt_end") end)))))

-- what the calls that control a session store, before or after their wait
unfoldable pub cancel_requested : String → String → String → Db → Db
unfolding update_session_state
cancel_requested run_id session_id now db =
    update_session_state run_id
      (field "sessionId" (str session_id) (
        field "activity" (str "cancel_requested")
          (field "updatedAt" (str now) (field "note" (str "cancel") end))))
      db

unfoldable pub session_mode_set : String → String → String → String → Db → Db
unfolding update_session_state
session_mode_set run_id session_id mode_id now db =
    update_session_state run_id
      (field "sessionId" (str session_id) (
        field "currentModeId" (str mode_id)
          (field "updatedAt" (str now) (field "note" (str "mode_set") end))))
      db

unfoldable pub session_model_set : String → String → String → String → Db → Db
unfolding update_session_state
session_model_set run_id session_id model_id now db =
    update_session_state run_id
      (field "sessionId" (str session_id) (
        field "currentModelId" (str model_id)
          (field "updatedAt" (str now) (field "note" (str "model_set") end))))
      db

unfoldable pub session_config_option_set : String → String → String → String → Db → Db
unfolding update_session_state
session_config_option_set run_id session_id config_id now db =
    update_session_state run_id
      (field "sessionId" (str session_id) (
        field "updatedAt" (str now)
          (field "note" (str (String.◌++◌ "config_option_set:" config_id)) end)))
      db

module _ (suppress_issue_status_update suppress_pm_auto_advance : Run → Bool)
    (json_parse : List ℕ → Option Value) (index_text : ℕ → String) where
  -- The answer of a prompt is stored, and the run is finalized.
  unfoldable pub end_prompt : String → String → String → String → Tunnel → Finalized × Tunnel
  unfolding update_session_state
  end_prompt run_id session_id stop_reason now t =
      let named = on_run run_id (λ r. record r { acp_session_id = some session_id }) t.db in
      let idle = update_session_state run_id (idle_patch session_id stop_reason now) named in
      let stored = persist_prompt_result run_id stop_reason (record t { db = idle }) in
      let (finalized, db) =
        finalize_run_if_running suppress_issue_status_update suppress_pm_auto_advance json_parse
          index_text run_id stored.db in
      (finalized, record stored { db = db })
