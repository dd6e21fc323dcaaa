-- ===== src/Acp/Sessions/Tests.antt =====
-- A run that is opened, prompted and cut off.
use tuixiu.Acp.Sessions.Disconnected.{IsDisconnected, handle_proxy_disconnected-IsDisconnected}
use tuixiu.Acp.Sessions.Settled.{tunnel_steps-times_begun, BeginAnew}
use tuixiu.Acp.Sessions.Settled.Counted.{times_waiting, times_settled, times_begun, known, times}
use tuixiu.Acp.Sessions.{
  TunnelEvent, Tunnels, wants_open, sends_open, acp_opened, begins_prompt, prompt_result,
  disconnects, OpenedPayload, PromptResultPayload, tunnel_step, create_run_state, ensure_open,
  tunnel_steps, handle_proxy_disconnected, send_open, no_tunnels, handle_acp_opened, begin_prompt,
  handle_prompt_result, state_of, map_get, map_set, modify_at, owned_state, resolve_open, has_id,
  add_id, remove_id, prompt_outcome,
}
use tuixiu.Prelude.{List, [], ◌∷◌, some, none, true, ◌≡◌, ◌+◌, refl, trim}

abbrev opened_payload : OpenedPayload
opened_payload = record { run_id = " r0 "; ok = true; error = none }

abbrev result_payload : PromptResultPayload
result_payload = record {
  run_id = "r0";
  prompt_id = "q";
  ok = true;
  error = none;
  session_id = some "s";
  stop_reason = some "end_turn";
}

abbrev session_events : List TunnelEvent
session_events =
    wants_open "p" "r0" "/workspace"
    ∷ sends_open 0 "tuixiu-run-r0" 1800
    ∷ acp_opened "p" opened_payload
    ∷ begins_prompt 0 "q"
    ∷ prompt_result "p" result_payload
    ∷ begins_prompt 0 "q2"
    ∷ disconnects "p"
    ∷ []

events_BeginAnew : BeginAnew session_events no_tunnels
unfolding tunnel_step ensure_open send_open handle_acp_opened begin_prompt handle_prompt_result
    handle_proxy_disconnected state_of map_get map_set modify_at owned_state trim resolve_open
    has_id add_id remove_id prompt_outcome known times times_waiting times_settled
events_BeginAnew = (tt, (tt, (tt, ((_, refl, refl), (tt, ((_, refl, refl), (tt, tt)))))))

tunnel_steps-times_begun_example :
    times_waiting "q2" (tunnel_steps session_events no_tunnels).objects
      + times_settled "q2" (tunnel_steps session_events no_tunnels).settled
    ≡ times_begun "q2" session_events
tunnel_steps-times_begun_example = tunnel_steps-times_begun session_events "q2" events_BeginAnew

abbrev one_state : Tunnels
one_state = record {
  run_states = ("r0", 0) ∷ [];
  objects = record (create_run_state "p" "r0" "/workspace") { prompts = "q" ∷ [] } ∷ [];
  settled = [];
}

handle_proxy_disconnected-IsDisconnected_example :
    IsDisconnected "p" one_state (handle_proxy_disconnected "p" one_state)
handle_proxy_disconnected-IsDisconnected_example =
    handle_proxy_disconnected-IsDisconnected "p" one_state
