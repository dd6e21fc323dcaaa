-- ===== src/Acp/Chunks/Refines.antt =====
-- The buffered tunnel against one that stores every update as it comes.
use tuixiu.Runs.AgentOutput.{extract_agent_text_from_events}
use tuixiu.Acp.Chunks.{
  ChunkTask, session_updated, timer_fired, prompt_ended, prompt_event, perform, perform_all,
}
use Prim.Native.String.{◌++◌ as cat}
use text.Mathlib.TextLemmas.{append-nil, append_assoc}
use tuixiu.Acp.Chunks.Text.{stored_text, text_of, events_of}
use tuixiu.Acp.Chunks.{Db, ◌∷◌, Tunnel, add_event, update_event, none, flush_run_chunk_buffer}
use tuixiu.Prelude.{[], ◌∷◌, none, sym, ap, ◌∙◌, All, List, String, ◌≡◌, sym}
use tuixiu.Acp.Chunks.Visible.{visible_text, flush_run_chunk_buffer-visible_text, waiting}
use tuixiu.Acp.Chunks.Added.{
  added, Fits, append_event-text, flush_run_chunk_buffer-pending, perform-visible_text, prompt_adds,
}

-- The specification: no buffers, so that every update is stored as it comes.
unfoldable pub perform_unbuffered : ChunkTask → Db → Db
perform_unbuffered (session_updated run_id session update) db =
    add_event (update_event run_id session update) db
perform_unbuffered (timer_fired _) db = db
perform_unbuffered (prompt_ended run_id stop_reason) db =
    add_event (prompt_event run_id stop_reason) db

unfoldable pub perform_all_unbuffered : List ChunkTask → Db → Db
perform_all_unbuffered [] db = db
perform_all_unbuffered (task ∷ rest) db = perform_all_unbuffered rest (perform_unbuffered task db)

-- what the tasks say for a run, joined
transcript : String → List ChunkTask → String
transcript run_id [] = ""
transcript run_id (task ∷ rest) = cat (added run_id task) (transcript run_id rest)

perform_all-visible_text :
    (run_id : String) (tasks : List ChunkTask) (t : Tunnel)
    → All Fits tasks
    → visible_text run_id (perform_all tasks t)
      ≡ cat (visible_text run_id t) (transcript run_id tasks)
unfolding perform_all transcript
perform_all-visible_text run_id [] t fits = sym (append-nil (visible_text run_id t))
perform_all-visible_text run_id (task ∷ rest) t (fit, fits) =
    perform_all-visible_text run_id rest (perform task t) fits
    ∙ ap (λ u. cat u (transcript run_id rest)) (perform-visible_text run_id task t fit)
    ∙ append_assoc (visible_text run_id t) (added run_id task) (transcript run_id rest)

perform_unbuffered-text :
    (run_id : String) (task : ChunkTask) (db : Db)
    → stored_text run_id (perform_unbuffered task db)
      ≡ cat (stored_text run_id db) (added run_id task)
unfolding perform_unbuffered
perform_unbuffered-text run_id (session_updated other session update) db =
    append_event-text run_id (update_event other session update) db
perform_unbuffered-text run_id (timer_fired _) db = sym (append-nil (stored_text run_id db))
perform_unbuffered-text run_id (prompt_ended other stop_reason) db =
    append_event-text run_id (prompt_event other stop_reason) db
    ∙ ap (cat (stored_text run_id db)) (prompt_adds run_id other stop_reason)

perform_all_unbuffered-text :
    (run_id : String) (tasks : List ChunkTask) (db : Db)
    → stored_text run_id (perform_all_unbuffered tasks db)
      ≡ cat (stored_text run_id db) (transcript run_id tasks)
unfolding perform_all_unbuffered transcript
perform_all_unbuffered-text run_id [] db = sym (append-nil (stored_text run_id db))
perform_all_unbuffered-text run_id (task ∷ rest) db =
    perform_all_unbuffered-text run_id rest (perform_unbuffered task db)
    ∙ ap (λ u. cat u (transcript run_id rest)) (perform_unbuffered-text run_id task db)
    ∙ append_assoc (stored_text run_id db) (added run_id task) (transcript run_id rest)

-- From a tunnel that buffers nothing, after any tasks of any runs, in which updates, timers and ends
-- of prompts come in any order and no text is longer than a buffer, and after a flush of the run,
-- the text that is read from the events of the run is the one of a tunnel without buffers, which
-- stores every update as it comes.
pub perform_all-perform_all_unbuffered :
    (run_id : String) (tasks : List ChunkTask) (t : Tunnel)
    → All Fits tasks
    → ((id : String) → t.buffers id ≡ none)
    → stored_text run_id (flush_run_chunk_buffer run_id (perform_all tasks t)).db
      ≡ stored_text run_id (perform_all_unbuffered tasks t.db)
unfolding extract_agent_text_from_events
perform_all-perform_all_unbuffered run_id tasks t fits bare =
    let after = perform_all tasks t in
    let flushed = flush_run_chunk_buffer run_id after in
    sym (append-nil (stored_text run_id flushed.db))
    ∙ ap (λ segs. cat (stored_text run_id flushed.db) (text_of (events_of run_id segs)))
        (sym (flush_run_chunk_buffer-pending run_id after))
    ∙ flush_run_chunk_buffer-visible_text run_id run_id after
    ∙ perform_all-visible_text run_id tasks t fits
    ∙ ap
        (λ b.
          cat (cat (stored_text run_id t.db) (text_of (events_of run_id (waiting b))))
            (transcript run_id tasks))
        (bare run_id)
    ∙ ap (λ u. cat u (transcript run_id tasks)) (append-nil (stored_text run_id t.db))
    ∙ sym (perform_all_unbuffered-text run_id tasks t.db)
