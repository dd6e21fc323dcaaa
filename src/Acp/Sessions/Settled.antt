-- ===== src/Acp/Sessions/Settled.antt =====
-- A prompt waits for its result, or has been settled once.
pub mod Changed
pub mod Counted
pub mod Handled
use tuixiu.Prelude.{
  ℕ, zero, suc, ◌+◌, ◌≤◌, ◌<◌, String, Option, some, Bool, true, false, List, [], ◌∷◌, ◌++◌, arith,
  ◌||◌, length, refl, ◌≡◌, inl, inr, Bool-cases, Option-cases, if◌then◌else◌, ◌∙◌, ap, ◌==◌, eq_iff,
  ◌<|◌, is_empty, trim,
}
use tuixiu.Prelude.{get_elem?}
use mathlib.Core.Option.{some_inj}
use tuixiu.Acp.Sessions.{
  RunTunnelState, Tunnels, prompt_rejected, prompt_resolved, control_resolved, control_rejected,
  Settlement, TunnelEvent, has_id, modify_at, remove_id, reject_prompts, reject_controls,
  resolve_open, reject_open, settle, reject_state, disconnect_each, gone, no_longer_opening,
  on_state, reject_open_of, without_prompt, without_control, emptied, owned_state, tunnel_step,
  begin_prompt, ensure_open, send_open, begin_control, handle_proxy_disconnected, fail_open,
  prompt_timeout, control_timeout, handle_acp_opened, prompt_outcome, handle_prompt_result,
  handle_session_control_result, tunnel_steps, no_tunnels, state_of, add_id, OpenedPayload,
  PromptResultPayload, ControlResultPayload, map_get, open_error, add_state, fits, create_run_state,
}
use tuixiu.Acp.Sessions.{
  wants_open, sends_open, fails_open, begins_prompt, begins_control, prompt_times_out,
  control_times_out, acp_opened, prompt_result, control_result, disconnects,
}
use tuixiu.Acp.Sessions.Settled.Counted.{
  times, times_waiting, times_settled, begins, times_begun, known, times-append, times_waiting-at,
  has_id-none, times_waiting-le,
}
use tuixiu.Acp.Sessions.Settled.Handled.{
  ensure_open-known, send_open-known, begin_control-known, handle_proxy_disconnected-known,
  fail_open-known, prompt_timeout-known, control_timeout-known, handle_acp_opened-known,
  handle_prompt_result-known, handle_session_control_result-known,
}

-- Each prompt begins on a state that is there, with an id that is new.
abbrev pub BeginsAnew : TunnelEvent → Tunnels → Type 0
BeginsAnew (begins_prompt ref id) s =
    (o : RunTunnelState) × (get_elem? s.objects ref ≡ some o) × (known id s ≡ 0)
BeginsAnew _ s = Unit

abbrev pub BeginAnew : List TunnelEvent → Tunnels → Type 0
BeginAnew [] s = Unit
BeginAnew (e ∷ rest) s = BeginsAnew e s × BeginAnew rest (tunnel_step e s)

module _ (id : String) where
  begin_prompt-known :
      (ref : ℕ) (key : String) (s : Tunnels)
      → BeginsAnew (begins_prompt ref key) s
      → known id (begin_prompt ref key s) ≡ (if key == id then 1 else 0) + known id s
  unfolding known begin_prompt add_id times
  begin_prompt-known ref key s (o, found, fresh) =
      let new : has_id key o.prompts ≡ false =
        has_id-none key o.prompts
          (omega (arith, fresh, times_waiting-le key ref s.objects found)) in
      let more =
        ap (λ (b : Bool). times id (if b then o.prompts else o.prompts ++ key ∷ [])) new
        ∙ times-append id o.prompts (key ∷ []) in
      omega (
        arith,
        more,
        times_waiting-at id ref (λ o. record o { prompts = add_id key o.prompts }) s.objects found,
      )

  tunnel_step-known :
      (e : TunnelEvent) (s : Tunnels)
      → BeginsAnew e s
      → known id (tunnel_step e s) ≡ begins id e + known id s
  unfolding tunnel_step
  tunnel_step-known (wants_open proxy_id run_id cwd) s h =
      omega (arith, ensure_open-known id proxy_id run_id cwd s)
  tunnel_step-known (sends_open ref instance_name ttl) s h =
      omega (arith, send_open-known id ref instance_name ttl s)
  tunnel_step-known (fails_open ref message) s h = omega (arith, fail_open-known id ref message s)
  tunnel_step-known (begins_prompt ref key) s h = begin_prompt-known ref key s h
  tunnel_step-known (begins_control ref key) s h = omega (arith, begin_control-known id ref key s)
  tunnel_step-known (prompt_times_out ref key message) s h =
      omega (arith, prompt_timeout-known id ref key message s)
  tunnel_step-known (control_times_out ref key message) s h =
      omega (arith, control_timeout-known id ref key message s)
  tunnel_step-known (acp_opened proxy_id payload) s h =
      omega (arith, handle_acp_opened-known id proxy_id payload s)
  tunnel_step-known (prompt_result proxy_id payload) s h =
      omega (arith, handle_prompt_result-known id proxy_id payload s)
  tunnel_step-known (control_result proxy_id payload) s h =
      omega (arith, handle_session_control_result-known id proxy_id payload s)
  tunnel_step-known (disconnects proxy_id) s h =
      omega (arith, handle_proxy_disconnected-known id proxy_id s)

  tunnel_steps-known :
      (events : List TunnelEvent) (s : Tunnels)
      → BeginAnew events s
      → known id (tunnel_steps events s) ≡ times_begun id events + known id s
  unfolding tunnel_steps times_begun
  tunnel_steps-known [] s h = omega arith
  tunnel_steps-known (e ∷ rest) s h =
      omega (arith, tunnel_step-known e s h.0, tunnel_steps-known rest (tunnel_step e s) h.1)

-- After any events of the tunnels, in which every prompt begins on a state that is there with an id
-- that is new, a prompt that has begun either waits on one state or has been settled, and this once.
pub tunnel_steps-times_begun :
    (events : List TunnelEvent) (id : String)
    → BeginAnew events no_tunnels
    → times_waiting id (tunnel_steps events no_tunnels).objects
        + times_settled id (tunnel_steps events no_tunnels).settled
      ≡ times_begun id events
unfolding known times_waiting times_settled
tunnel_steps-times_begun events id h = omega (arith, tunnel_steps-known id events no_tunnels h)
