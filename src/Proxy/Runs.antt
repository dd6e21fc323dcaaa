-- ===== src/Proxy/Runs.antt =====
-- The runs that a proxy holds: acp-proxy/src/runs/runManager.ts, acp-proxy/src/utils/validate.ts, and from
-- acp-proxy/src/runs/runRuntime.ts the first part of ensureRuntime, which opens a run. A run has the fields
-- that an opening sets, but for the queue and the handles of its agent. A time to live is a whole number, or
-- not finite.
pub mod Names
pub mod Held
pub mod Kept
mod Tests
use tuixiu.Prelude.{
  ℕ, ◌+◌, String, Option, none, some, Bool, true, false, List, [], ◌∷◌, leb, ltb, eqb, ◌||◌, ◌&&◌,
  if◌then◌else◌, ◌==◌, not, any, all, ◌<|◌,
}
use Prim.Native.Char.{code}
use Prim.Native.String
use tuixiu.Prelude.{trim, is_empty, codes, select}
use tuixiu.Acp.Chunks.{utf16_length}
use tuixiu.Workflow.Engine.{derive_sandbox_instance_name}

pub data RunError : Type 0 where
  run_id_empty run_id_too_long run_id_with_separator run_id_with_colon : RunError
  instance_name_empty instance_name_too_long instance_name_invalid instance_name_differs : RunError

pub data Checked (A : Type 0) : Type 0 where
  valid : A → Checked A
  invalid : RunError → Checked A

abbrev pub is_separator : ℕ → Bool
is_separator c = eqb c 92 || eqb c 47

abbrev pub is_colon : ℕ → Bool
is_colon c = eqb c 58

unfoldable pub validate_run_id : String → Checked String
validate_run_id v =
    let run_id = trim v in
    if is_empty run_id
    then invalid run_id_empty
    else if ltb 200 (utf16_length run_id)
    then invalid run_id_too_long
    else if any is_separator (codes run_id)
    then invalid run_id_with_separator
    else if any is_colon (codes run_id)
    then invalid run_id_with_colon
    else valid run_id

-- `[a-zA-Z0-9]`
abbrev pub is_alphanumeric : ℕ → Bool
is_alphanumeric c = leb 97 c && leb c 122 || leb 65 c && leb c 90 || leb 48 c && leb c 57

-- `[a-zA-Z0-9_.-]`
abbrev pub is_name_code : ℕ → Bool
is_name_code c = is_alphanumeric c || eqb c 95 || eqb c 46 || eqb c 45

abbrev pub is_name : List ℕ → Bool
is_name [] = false
is_name (c ∷ rest) = is_alphanumeric c && all is_name_code rest

unfoldable pub validate_instance_name : String → Checked String
validate_instance_name v =
    let name = trim v in
    if is_empty name
    then invalid instance_name_empty
    else if ltb 200 (utf16_length name)
    then invalid instance_name_too_long
    else if is_name (codes name)
    then valid name
    else invalid instance_name_invalid

pub record RunRuntime : Type 0 where
  pub run_id : String
  pub instance_name : String
  pub keepalive_ttl_seconds : ℕ
  pub expires_at : Option ℕ
  pub last_used_at : ℕ
  pub host_workspace_path : Option String
  pub host_workspace_ready : Bool
  pub suppress_next_acp_exit : Bool
  pub initialized : Bool
  pub seen_session_ids : List String
  pub active_prompt_id : Option String

-- `this.runs`
abbrev pub HeldRuns : Type 0
HeldRuns = List (String × RunRuntime)

unfoldable pub find_run : String → HeldRuns → Option RunRuntime
find_run key [] = none
find_run key ((k, r) ∷ rest) = if k == key then some r else find_run key rest

unfoldable pub put_run : String → RunRuntime → HeldRuns → HeldRuns
put_run key r [] = (key, r) ∷ []
put_run key r ((k, q) ∷ rest) = if k == key then (k, r) ∷ rest else (k, q) ∷ put_run key r rest

unfoldable pub delete_run : String → HeldRuns → HeldRuns
delete_run key runs = select (λ (row : String × RunRuntime). not (row.0 == key)) runs

abbrev pub new_runtime : (now : ℕ) → (run_id instance_name : String) → (ttl : ℕ) → RunRuntime
new_runtime now run_id instance_name ttl = record {
  run_id = run_id;
  instance_name = instance_name;
  keepalive_ttl_seconds = ttl;
  expires_at = none;
  last_used_at = now;
  host_workspace_path = none;
  host_workspace_ready = false;
  suppress_next_acp_exit = false;
  initialized = false;
  seen_session_ids = [];
  active_prompt_id = none;
}

abbrev pub used_again : (now ttl : ℕ) → RunRuntime → RunRuntime
used_again now ttl run = record run {
  keepalive_ttl_seconds = ttl;
  expires_at = none;
  last_used_at = now;
}

unfoldable pub get_or_create :
    (now : ℕ)
    → (run_id_raw instance_name_raw : String) → (ttl : ℕ) → HeldRuns
    → HeldRuns × Checked RunRuntime
unfolding find_run put_run
get_or_create now run_id_raw instance_name_raw ttl runs =
    let run_id = trim run_id_raw in
    let instance_name = trim instance_name_raw in
    if is_empty run_id
    then (runs, invalid run_id_empty)
    else if is_empty instance_name
    then (runs, invalid instance_name_empty)
    else elim (find_run run_id runs) [
      | some existing ↦
          let run = used_again now ttl existing in
          if existing.instance_name == instance_name
          then (put_run run_id run runs, valid run)
          else (runs, invalid instance_name_differs)
      | none ↦
          let run = new_runtime now run_id instance_name ttl in (put_run run_id run runs, valid run)
    ]

-- the message that opens a run; a time to live that is not finite is `none`
pub record OpenMessage : Type 0 where
  pub message_run_id : String
  pub message_instance_name : Option String
  pub message_ttl : Option ℕ

abbrev pub at_most : ℕ → ℕ → ℕ
at_most bound n = if ltb bound n then bound else n

abbrev pub at_least : ℕ → ℕ → ℕ
at_least bound n = if ltb n bound then bound else n

-- `DEFAULT_KEEPALIVE_TTL_SECONDS`
abbrev pub default_keepalive_ttl_seconds : ℕ
default_keepalive_ttl_seconds = 1800

unfoldable pub keepalive_of : Option ℕ → ℕ
keepalive_of none = default_keepalive_ttl_seconds
keepalive_of (some n) = at_least 60 (at_most 86400 n)

-- the name that is asked for, or the one of the run
unfoldable pub instance_name_for : Option String → String → Checked String
unfolding validate_instance_name
instance_name_for asked run_id =
    let given = asked <| "" in
    if is_empty (trim given)
    then validate_instance_name (String.◌++◌ "tuixiu-run-" run_id)
    else validate_instance_name given

abbrev pub then_touched :
    (run_id : String)
    → (later ttl : ℕ) → HeldRuns × Checked RunRuntime
    → HeldRuns × Checked RunRuntime
then_touched run_id later ttl (runs, invalid e) = (runs, invalid e)
then_touched run_id later ttl (runs, valid run) =
    let touched = used_again later ttl run in (put_run run_id touched runs, valid touched)

unfoldable pub open_run : (now later : ℕ) → OpenMessage → HeldRuns → HeldRuns × Checked RunRuntime
unfolding validate_run_id instance_name_for get_or_create keepalive_of
open_run now later msg runs = elim (validate_run_id msg.message_run_id) [
  | invalid e ↦ (runs, invalid e)
  | valid run_id ↦ elim (instance_name_for msg.message_instance_name run_id) [
    | invalid e ↦ (runs, invalid e)
    | valid instance_name ↦
        let ttl = keepalive_of msg.message_ttl in
        then_touched run_id later ttl (get_or_create now run_id instance_name ttl runs)
  ]
]

pub data RunEvent : Type 0 where
  opens : (now later : ℕ) → OpenMessage → RunEvent
  removes : String → RunEvent

unfoldable pub run_step : RunEvent → HeldRuns → HeldRuns
unfolding open_run delete_run
run_step (opens now later msg) runs = (open_run now later msg runs).0
run_step (removes id) runs = delete_run id runs

unfoldable pub run_steps : List RunEvent → HeldRuns → HeldRuns
unfolding run_step
run_steps [] runs = runs
run_steps (e ∷ rest) runs = run_steps rest (run_step e runs)
