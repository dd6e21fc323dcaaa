-- ===== src/Acp/Sessions.antt =====
-- backend/src/modules/acp/acpTunnel.ts: the states of the runs whose proxies are connected, and the
-- promises that wait for a proxy's answer. The states are objects, which calls that are under way
-- still hold after they have left `runStates`; here they are kept in a list and named by their places.
-- A promise that settles is noted with its outcome, and the code that awaits it up to its next wait
-- belongs to the same step.
pub mod Settled
pub mod Disconnected
mod Tests
use Prim.Native.String
use tuixiu.Prelude.{
  ℕ, zero, suc, ◌+◌, ◌-◌, ◌≤◌, ◌<◌, String, Option, none, some, Bool, true, false, List, [], ◌∷◌,
  ◌++◌, arith, leb, ltb, eqb, ◌||◌, ◌&&◌, length, refl, ◌≡◌, ◌≢◌, inl, inr, Bool-cases,
  Option-cases, if◌then◌else◌, and_true, ◌∙◌, ap, sym, subst, ◌==◌, not, eqb_iff, eq_iff, eq_refl,
  map, is_some, ◌<|◌, All, ◌⊎◌, any, all, find,
}
use tuixiu.Prelude.{trim, is_empty, get_elem?}

pub record RunTunnelState : Type 0 where
  pub proxy_id : String
  pub run_id : String
  pub cwd : String
  pub opened : Bool
  pub opening : Bool
  pub has_open_deferred : Bool
  pub prompts : List String
  pub controls : List String
  pub instance_name : Option String
  pub keepalive_ttl_seconds : Option ℕ

-- how a promise was settled: that of an open by its state, the others by their ids
pub data Settlement : Type 0 where
  open_resolved : ℕ → Settlement
  open_rejected : ℕ → String → Settlement
  prompt_resolved : (id session_id stop_reason : String) → Settlement
  prompt_rejected : (id message : String) → Settlement
  control_resolved : (id : String) → Settlement
  control_rejected : (id message : String) → Settlement

pub record Tunnels : Type 0 where
  pub run_states : List (String × ℕ)
  pub objects : List RunTunnelState
  pub settled : List Settlement

unfoldable pub map_get : String → List (String × ℕ) → Option ℕ
map_get key [] = none
map_get key ((k, n) ∷ rest) = if k == key then some n else map_get key rest

unfoldable pub map_set : String → ℕ → List (String × ℕ) → List (String × ℕ)
map_set key n [] = (key, n) ∷ []
map_set key n ((k, m) ∷ rest) = if k == key then (k, n) ∷ rest else (k, m) ∷ map_set key n rest

-- a change of the object at a place
unfoldable pub modify_at :
    ℕ → (RunTunnelState → RunTunnelState) → List RunTunnelState → List RunTunnelState
modify_at n f [] = []
modify_at zero f (o ∷ rest) = f o ∷ rest
modify_at (suc n) f (o ∷ rest) = o ∷ modify_at n f rest

abbrev pub on_state : ℕ → (RunTunnelState → RunTunnelState) → Tunnels → Tunnels
on_state ref f s = record s { objects = modify_at ref f s.objects }

abbrev pub settle : Settlement → Tunnels → Tunnels
settle outcome s = record s { settled = outcome ∷ s.settled }

abbrev pub create_run_state : String → String → String → RunTunnelState
create_run_state proxy_id run_id cwd = record {
  proxy_id = proxy_id;
  run_id = run_id;
  cwd = cwd;
  opened = false;
  opening = false;
  has_open_deferred = false;
  prompts = [];
  controls = [];
  instance_name = none;
  keepalive_ttl_seconds = none;
}

-- the state of a run, with its place
unfoldable pub state_of : String → Tunnels → Option (ℕ × RunTunnelState)
state_of run_id s = elim (map_get run_id s.run_states) [
  | none ↦ none
  | some ref ↦ elim (get_elem? s.objects ref) [ none ↦ none | some o ↦ some (ref, o) ]
]

abbrev pub fits : String → String → RunTunnelState → Bool
fits proxy_id cwd o = o.proxy_id == proxy_id && o.cwd == cwd

abbrev pub add_state : String → String → String → Tunnels → Tunnels
add_state proxy_id run_id cwd s = record s {
  objects = s.objects ++ create_run_state proxy_id run_id cwd ∷ [];
  run_states = map_set run_id (length s.objects) s.run_states;
}

-- What a call of `ensureOpen` does next: it is done, waits for an opening that is under way, or opens.
pub data Opening : Type 0 where
  open_already waits opens : Opening

-- `ensureOpen` up to its first wait, with the place of the state that it holds.
unfoldable pub ensure_open : String → String → String → Tunnels → (ℕ × Opening) × Tunnels
ensure_open proxy_id run_id cwd s =
    let fresh : (ℕ × Opening) × Tunnels = (
      (length s.objects, opens),
      on_state (length s.objects) (λ o. record o { opening = true })
          (add_state proxy_id run_id cwd s),
    ) in
    elim (state_of run_id s) [
      | none ↦ fresh
      | some (ref, o) ↦
          if fits proxy_id cwd o
          then if o.opened
            then ((ref, open_already), s)
            else if o.opening
            then ((ref, waits), s)
            else ((ref, opens), on_state ref (λ o. record o { opening = true }) s)
          else fresh
    ]

-- The parameters of the sandbox are known, and the message is sent.
unfoldable pub send_open : ℕ → String → ℕ → Tunnels → Tunnels
send_open ref instance_name keepalive_ttl_seconds s =
    on_state ref
      (λ o. record o {
        instance_name = some instance_name;
        keepalive_ttl_seconds = some keepalive_ttl_seconds;
        has_open_deferred = true;
      })
      s

abbrev pub no_longer_opening : RunTunnelState → RunTunnelState
no_longer_opening o = record o { opening = false; has_open_deferred = false }

-- A promise of an open that is settled, with what `ensureOpen` does then.
unfoldable pub resolve_open : ℕ → Tunnels → Tunnels
resolve_open ref s =
    settle (open_resolved ref)
      (on_state ref (λ o. record (no_longer_opening o) { opened = true }) s)

unfoldable pub reject_open : ℕ → String → Tunnels → Tunnels
reject_open ref message s = settle (open_rejected ref message) (on_state ref no_longer_opening s)

-- The timer of an open, or the failure to send its message.
unfoldable pub fail_open : ℕ → String → Tunnels → Tunnels
unfolding reject_open
fail_open ref message s = elim (get_elem? s.objects ref) [
  | none ↦ s
  | some o ↦ if o.has_open_deferred then reject_open ref message s else s
]

-- `{ run_id, ok, error }`: a field that is absent or not a text is empty or absent here
pub record OpenedPayload : Type 0 where
  pub run_id : String
  pub ok : Bool
  pub error : Option String

pub record PromptResultPayload : Type 0 where
  pub run_id : String
  pub prompt_id : String
  pub ok : Bool
  pub error : Option String
  pub session_id : Option String
  pub stop_reason : Option String

pub record ControlResultPayload : Type 0 where
  pub run_id : String
  pub control_id : String
  pub ok : Bool
  pub error : Option String

-- the state of a run that belongs to the proxy
unfoldable pub owned_state : String → String → Tunnels → Option (ℕ × RunTunnelState)
unfolding state_of
owned_state proxy_id run_id s = if is_empty run_id then none else elim (state_of run_id s) [
  | none ↦ none
  | some (ref, o) ↦ if o.proxy_id == proxy_id then some (ref, o) else none
]

abbrev open_error : OpenedPayload → String
open_error payload = String.◌++◌ "acp_open failed: " (payload.error <| "unknown")

unfoldable pub handle_acp_opened : String → OpenedPayload → Tunnels → Tunnels
unfolding resolve_open reject_open
handle_acp_opened proxy_id payload s = elim (owned_state proxy_id (trim payload.run_id) s) [
  | none ↦ s
  | some (ref, o) ↦
      if o.has_open_deferred
      then if payload.ok then resolve_open ref s else reject_open ref (open_error payload) s
      else s
]

unfoldable pub has_id : String → List String → Bool
has_id id [] = false
has_id id (x ∷ rest) = x == id || has_id id rest

-- `map.set(id, …)`
unfoldable pub add_id : String → List String → List String
unfolding has_id
add_id id ids = if has_id id ids then ids else ids ++ id ∷ []

-- `map.delete(id)`
unfoldable pub remove_id : String → List String → List String
remove_id id [] = []
remove_id id (x ∷ rest) = if x == id then rest else x ∷ remove_id id rest

abbrev pub without_prompt : String → RunTunnelState → RunTunnelState
without_prompt id o = record o { prompts = remove_id id o.prompts }

abbrev pub without_control : String → RunTunnelState → RunTunnelState
without_control id o = record o { controls = remove_id id o.controls }

-- `promptRun` after `ensureOpen`, and the calls that control a session
unfoldable pub begin_prompt : ℕ → String → Tunnels → Tunnels
begin_prompt ref id s = on_state ref (λ o. record o { prompts = add_id id o.prompts }) s

unfoldable pub begin_control : ℕ → String → Tunnels → Tunnels
begin_control ref id s = on_state ref (λ o. record o { controls = add_id id o.controls }) s

unfoldable pub prompt_timeout : ℕ → String → String → Tunnels → Tunnels
prompt_timeout ref id message s = elim (get_elem? s.objects ref) [
  | none ↦ s
  | some o ↦
      if has_id id o.prompts
      then settle (prompt_rejected id message) (on_state ref (without_prompt id) s)
      else s
]

unfoldable pub control_timeout : ℕ → String → String → Tunnels → Tunnels
control_timeout ref id message s = elim (get_elem? s.objects ref) [
  | none ↦ s
  | some o ↦
      if has_id id o.controls
      then settle (control_rejected id message) (on_state ref (without_control id) s)
      else s
]

-- how a prompt's promise is settled by its result
unfoldable pub prompt_outcome : String → PromptResultPayload → Settlement
prompt_outcome id payload =
    let session_id = payload.session_id <| "" in
    let stop_reason = payload.stop_reason <| "" in
    if not payload.ok
    then prompt_rejected id (payload.error <| "prompt_failed")
    else if is_empty session_id || is_empty stop_reason
    then prompt_rejected id "prompt_result 缺少 session_id/stop_reason"
    else prompt_resolved id session_id stop_reason

unfoldable pub handle_prompt_result : String → PromptResultPayload → Tunnels → Tunnels
unfolding owned_state has_id prompt_outcome
handle_prompt_result proxy_id payload s =
    let id = trim payload.prompt_id in
    if is_empty id then s else elim (owned_state proxy_id (trim payload.run_id) s) [
      | none ↦ s
      | some (ref, o) ↦
          if has_id id o.prompts
          then settle (prompt_outcome id payload) (on_state ref (without_prompt id) s)
          else s
    ]

unfoldable pub handle_session_control_result : String → ControlResultPayload → Tunnels → Tunnels
unfolding owned_state has_id
handle_session_control_result proxy_id payload s =
    let id = trim payload.control_id in
    if is_empty id then s else elim (owned_state proxy_id (trim payload.run_id) s) [
      | none ↦ s
      | some (ref, o) ↦
          if has_id id o.controls
          then settle
              (if payload.ok
                then control_resolved id
                else control_rejected id (payload.error <| "control_failed"))
              (on_state ref (without_control id) s)
          else s
    ]

abbrev pub gone : String
gone = "proxy disconnected"

unfoldable pub reject_prompts : List String → List Settlement → List Settlement
reject_prompts [] settled = settled
reject_prompts (id ∷ rest) settled = reject_prompts rest (prompt_rejected id gone ∷ settled)

unfoldable pub reject_controls : List String → List Settlement → List Settlement
reject_controls [] settled = settled
reject_controls (id ∷ rest) settled = reject_controls rest (control_rejected id gone ∷ settled)

abbrev pub emptied : RunTunnelState → RunTunnelState
emptied o = record o { prompts = []; controls = [] }

abbrev pub reject_open_of : ℕ → RunTunnelState → Tunnels → Tunnels
reject_open_of ref o s = if o.has_open_deferred then reject_open ref gone s else s

-- the promises of a state whose proxy is gone
unfoldable pub reject_state : ℕ → RunTunnelState → Tunnels → Tunnels
unfolding reject_prompts reject_controls reject_open
reject_state ref o s =
    let closed = reject_open_of ref o s in
    record (on_state ref emptied closed) {
      settled = reject_controls o.controls (reject_prompts o.prompts closed.settled);
    }

-- The loop over `runStates`, which is left without the entries that the loop deletes.
unfoldable pub disconnect_each : String → List (String × ℕ) → Tunnels → Tunnels
unfolding reject_state
disconnect_each proxy_id [] s = record s { run_states = [] }
disconnect_each proxy_id ((run_id, ref) ∷ rest) s =
    let kept = disconnect_each proxy_id rest s in
    let stays = record kept { run_states = (run_id, ref) ∷ kept.run_states } in
    elim (get_elem? s.objects ref) [
      | none ↦ stays
      | some o ↦
          let dropped = disconnect_each proxy_id rest (reject_state ref o s) in
          if o.proxy_id == proxy_id then dropped else stays
    ]

unfoldable pub handle_proxy_disconnected : String → Tunnels → Tunnels
unfolding disconnect_each
handle_proxy_disconnected proxy_id s = disconnect_each proxy_id s.run_states s

-- What happens to the tunnels, one after the other.
pub data TunnelEvent : Type 0 where
  wants_open : (proxy_id run_id cwd : String) → TunnelEvent
  sends_open : (ref : ℕ) (instance_name : String) (keepalive_ttl_seconds : ℕ) → TunnelEvent
  fails_open : (ref : ℕ) (message : String) → TunnelEvent
  begins_prompt : (ref : ℕ) (id : String) → TunnelEvent
  begins_control : (ref : ℕ) (id : String) → TunnelEvent
  prompt_times_out : (ref : ℕ) (id message : String) → TunnelEvent
  control_times_out : (ref : ℕ) (id message : String) → TunnelEvent
  acp_opened : (proxy_id : String) → OpenedPayload → TunnelEvent
  prompt_result : (proxy_id : String) → PromptResultPayload → TunnelEvent
  control_result : (proxy_id : String) → ControlResultPayload → TunnelEvent
  disconnects : (proxy_id : String) → TunnelEvent

unfoldable pub tunnel_step : TunnelEvent → Tunnels → Tunnels
tunnel_step (wants_open proxy_id run_id cwd) s = (ensure_open proxy_id run_id cwd s).1
tunnel_step (sends_open ref instance_name ttl) s = send_open ref instance_name ttl s
tunnel_step (fails_open ref message) s = fail_open ref message s
tunnel_step (begins_prompt ref id) s = begin_prompt ref id s
tunnel_step (begins_control ref id) s = begin_control ref id s
tunnel_step (prompt_times_out ref id message) s = prompt_timeout ref id message s
tunnel_step (control_times_out ref id message) s = control_timeout ref id message s
tunnel_step (acp_opened proxy_id payload) s = handle_acp_opened proxy_id payload s
tunnel_step (prompt_result proxy_id payload) s = handle_prompt_result proxy_id payload s
tunnel_step (control_result proxy_id payload) s = handle_session_control_result proxy_id payload s
tunnel_step (disconnects proxy_id) s = handle_proxy_disconnected proxy_id s

unfoldable pub tunnel_steps : List TunnelEvent → Tunnels → Tunnels
unfolding tunnel_step
tunnel_steps [] s = s
tunnel_steps (e ∷ rest) s = tunnel_steps rest (tunnel_step e s)

abbrev pub no_tunnels : Tunnels
no_tunnels = record { run_states = []; objects = []; settled = [] }
