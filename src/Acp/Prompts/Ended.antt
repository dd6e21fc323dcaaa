-- ===== src/Acp/Prompts/Ended.antt =====
-- The end of a prompt.
use tuixiu.Prelude.{String, some, false, ◌≡◌, if◌then◌else◌, ◌<|◌}
use tuixiu.Db.Types.{Run, Db, RunStatus}
use tuixiu.Json.{Fields}
use tuixiu.Acp.Updates.{merge}
use tuixiu.Acp.Prompts.{idle_patch, end}
use tuixiu.Acp.Finalize.{is_running}

-- A run that has its session, is idle and does not run.
pub record IsIdle (session_id stop_reason now : String) (before after : Run) : Type 0 where
  pub has_session : after.acp_session_id ≡ some session_id
  pub is_told :
      after.acp_session_state
      ≡ some (merge (idle_patch session_id stop_reason now) (before.acp_session_state <| end))
  pub is_not_running : is_running after.status ≡ false

abbrev idle_run : String → Fields → Run → Run
idle_run session_id patch run = record run {
  acp_session_id = some session_id;
  acp_session_state = some (merge patch (run.acp_session_state <| end));
}

abbrev finished : Run → Run
finished run = if is_running run.status then record run { status = RunStatus.completed } else run
