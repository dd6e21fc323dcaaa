-- ===== src/Acp/Tests.antt =====
-- Runs of the tunnel on small inputs.
use tuixiu.Acp.Sessions.{no_tunnels}
use tuixiu.Acp.Prompts.Reopened.{resolve_sandbox_open_params-settled}
use tuixiu.Acp.Updates.{handle_prompt_update}
use tuixiu.Acp.Prompts.{resolve_sandbox_open_params}
use tuixiu.Acp.Updates.Kept.{IsOnlyTold, handle_prompt_update-IsOnlyTold}
use tuixiu.Acp.Chunks.Added.{Fits}
use tuixiu.Json
use tuixiu.Acp.Once.{finalize_run_if_running-once}
use tuixiu.Acp.Chunks.Refines.{perform_all_unbuffered, perform_all-perform_all_unbuffered}
use tuixiu.Demo.{demo_db}
use tuixiu.Acp.Finalize.{finalize_run_if_running, nothing_done}
use tuixiu.Db.Types.{Run}
use tuixiu.Acp.Chunks.Text.{stored_text}
use tuixiu.Json.{Value, obj, field, str, end}
use tuixiu.Prelude.{
  String, List, [], ◌∷◌, none, some, refl, false, ◌≡◌, ◌≤◌, arith, subst, ℕ, Option, Bool, sym, ◌∙◌,
  All,
}
use mathlib.Core.Option.{some_inj}
use tuixiu.Acp.Chunks.{
  session_updated, timer_fired, prompt_ended, Tunnel, ChunkTask, BufferedChunkSegment, chunk_of,
  utf16_length, flush_run_chunk_buffer, chunk_max_buffer_chars, perform_all,
}

abbrev chunk_update : String → Value
chunk_update text = obj (
    field "sessionUpdate" (str "agent_message_chunk")
      (field "content" (obj (field "type" (str "text") (field "text" (str text) end))) end))

abbrev quiet_tunnel : Tunnel
quiet_tunnel = record { db = demo_db; buffers = λ id. none }

-- Two runs whose chunks arrive in turn, a timer, and the end of a prompt.
abbrev tasks : List ChunkTask
tasks =
    session_updated "r0" "s" (chunk_update "He")
    ∷ session_updated "r1" "s" (chunk_update "x")
    ∷ session_updated "r0" "s" (chunk_update "llo")
    ∷ timer_fired "r1"
    ∷ prompt_ended "r0" "end_turn"
    ∷ []

short_Fits :
    (session : String) (update : Value) (seg : BufferedChunkSegment)
    → chunk_of session update ≡ some seg
    → utf16_length seg.text ≤ chunk_max_buffer_chars
    → (other : BufferedChunkSegment) → chunk_of session update ≡ some other
    → utf16_length other.text ≤ chunk_max_buffer_chars
short_Fits session update seg e short other e' =
    subst (λ (x : BufferedChunkSegment). utf16_length x.text ≤ chunk_max_buffer_chars)
      (some_inj.0 (sym e ∙ e')) short

abbrev segment : String → BufferedChunkSegment
segment text = record { session = "s"; session_update = "agent_message_chunk"; text = text }

tasks_Fits : All Fits tasks
unfolding chunk_of utf16_length Json.get
tasks_Fits = (
  short_Fits "s" (chunk_update "He") (segment "He") refl (omega arith),
  (
    short_Fits "s" (chunk_update "x") (segment "x") refl (omega arith),
    (short_Fits "s" (chunk_update "llo") (segment "llo") refl (omega arith), (tt, (tt, tt))),
  ),
)

perform_all-perform_all_unbuffered_example :
    stored_text "r0" (flush_run_chunk_buffer "r0" (perform_all tasks quiet_tunnel)).db
    ≡ stored_text "r0" (perform_all_unbuffered tasks demo_db)
perform_all-perform_all_unbuffered_example =
    perform_all-perform_all_unbuffered "r0" tasks quiet_tunnel tasks_Fits (λ id. refl)

abbrev no_json : List ℕ → Option Value
no_json s = none

abbrev no_index : ℕ → String
no_index i = ""

abbrev never : Run → Bool
never r = false

finalize_run_if_running-once_example :
    let once = (finalize_run_if_running never never no_json no_index "r0" demo_db).1 in
    finalize_run_if_running never never no_json no_index "r0" once ≡ (nothing_done, once)
finalize_run_if_running-once_example =
    finalize_run_if_running-once no_json no_index never never "r0" demo_db

abbrev created_message : Option Value
created_message = some (
    obj (
      field "run_id" (str "r0") (
        field "session_id" (str "s") (
          field "update"
            (obj (field "content" (obj (field "type" (str "session_created") end)) end)) end))))

-- The run has no state, and its agent is the proxy's.
handle_prompt_update-IsOnlyTold_example :
    IsOnlyTold quiet_tunnel.db
      (handle_prompt_update (λ r. some "p") "p" created_message "now" no_tunnels quiet_tunnel).db
handle_prompt_update-IsOnlyTold_example =
    handle_prompt_update-IsOnlyTold (λ r. some "p") "p" created_message "now" no_tunnels
      quiet_tunnel

resolve_sandbox_open_params-settled_example :
    let (p, after) = resolve_sandbox_open_params "r0" demo_db in
    (60 ≤ p.keepalive_ttl_seconds)
    × (p.keepalive_ttl_seconds ≤ 86400)
    × (resolve_sandbox_open_params "r0" after ≡ (p, after))
resolve_sandbox_open_params-settled_example = resolve_sandbox_open_params-settled "r0" demo_db
