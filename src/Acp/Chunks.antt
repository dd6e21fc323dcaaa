-- ===== src/Acp/Chunks.antt =====
-- The chunks of an agent's messages, which the tunnel joins before it stores them. The tasks of a run
-- are queued and run one after the other, so that each operation here is a whole task. The messages
-- to the clients are left out.
pub mod Text
pub mod Visible
pub mod Added
pub mod Refines
pub mod Bounds
use tuixiu.Prelude.{
  ℕ, ◌+◌, ◌-◌, String, Option, none, some, Bool, true, false, List, [], ◌∷◌, ◌++◌, ◌==◌, ◌&&◌, ◌||◌,
  not, leb, is_empty, if◌then◌else◌, ◌<|◌,
}
use Prim.Native.Char.{code}
use Prim.Native.String
use tuixiu.Json.{Value, str, obj, field, end, prop, as_string}
use tuixiu.Db.Types.{EventSource, Event, Db}
use tuixiu.Db.Tables.{add_event}
use tuixiu.Runs.AgentOutput.{text_is}

pub record BufferedChunkSegment : Type 0 where
  pub session : String
  pub session_update : String
  pub text : String

-- `timer` says whether a flush is scheduled
pub record RunChunkBuffer : Type 0 where
  pub segments : List BufferedChunkSegment
  pub total_chars : ℕ
  pub timer : Bool

-- The database, and `chunkBuffersByRun` as a function on the ids of runs.
pub record Tunnel : Type 0 where
  pub db : Db
  pub buffers : String → Option RunChunkBuffer

abbrev pub chunk_max_buffer_chars : ℕ
chunk_max_buffer_chars = 16000

-- the length of a code point in UTF-16
abbrev pub unit_count : ℕ → ℕ
unit_count c = if leb 65536 c then 2 else 1

-- `s.length`
unfoldable pub utf16_length : String → ℕ
utf16_length String.[] = 0
utf16_length (String.◌∷◌ c s) = unit_count (code c) + utf16_length s

-- `s.slice(0, n)`. A pair that the cut would divide is left out.
unfoldable pub slice_to : ℕ → String → String
slice_to n String.[] = String.[]
slice_to n (String.◌∷◌ c s) =
    let rest = slice_to (n - unit_count (code c)) s in
    if leb (unit_count (code c)) n then String.◌∷◌ c rest else String.[]

abbrev pub set_buffer : String → Option RunChunkBuffer → Tunnel → Tunnel
set_buffer run_id b t = record t { buffers = λ id. if id == run_id then b else t.buffers id }

-- the event of an update, as `persistSessionUpdate` stores it
abbrev pub update_event : String → String → Value → Event
update_event run_id session update = record {
  run_id = run_id;
  source = EventSource.acp;
  type = "acp.update.received";
  payload = obj (
      field "type" (str "session_update")
        (field "session" (str session) (field "update" update end)));
}

-- the update that stands for a segment
abbrev pub segment_update : BufferedChunkSegment → Value
segment_update seg = obj (
    field "sessionUpdate" (str seg.session_update)
      (field "content" (obj (field "type" (str "text") (field "text" (str seg.text) end))) end))

abbrev pub segment_event : String → BufferedChunkSegment → Event
segment_event run_id seg = update_event run_id seg.session (segment_update seg)

unfoldable pub store_segments : String → List BufferedChunkSegment → Db → Db
store_segments run_id [] db = db
store_segments run_id (seg ∷ rest) db =
    store_segments run_id rest (add_event (segment_event run_id seg) db)

unfoldable pub flush_run_chunk_buffer : String → Tunnel → Tunnel
flush_run_chunk_buffer run_id t = elim (t.buffers run_id) [
  | none ↦ t
  | some buf ↦ elim buf.segments [
    | [] ↦ t
    | seg ∷ rest ↦
        set_buffer run_id none (record t { db = store_segments run_id (seg ∷ rest) t.db })
  ]
]

abbrev pub same_stream : BufferedChunkSegment → BufferedChunkSegment → Bool
same_stream a b = a.session == b.session && a.session_update == b.session_update

-- The text joins the last segment if that is of the same stream, and is a segment of its own
-- otherwise.
unfoldable pub push_segment :
    List BufferedChunkSegment → BufferedChunkSegment → List BufferedChunkSegment
push_segment [] seg = seg ∷ []
push_segment (last ∷ []) seg =
    if same_stream last seg
    then (record last { text = String.◌++◌ last.text seg.text }) ∷ []
    else last ∷ seg ∷ []
push_segment (first ∷ second ∷ rest) seg = first ∷ push_segment (second ∷ rest) seg

abbrev pub no_buffer : RunChunkBuffer
no_buffer = record { segments = []; total_chars = 0; timer = false }

-- the text that is kept of a chunk
unfoldable pub kept_text : String → String
kept_text text =
    if leb (utf16_length text) chunk_max_buffer_chars
    then text
    else slice_to chunk_max_buffer_chars text

-- the buffer with a chunk more, before it is tested
unfoldable pub grown : Option RunChunkBuffer → BufferedChunkSegment → RunChunkBuffer
grown old seg =
    let buf = old <| no_buffer in
    let text = kept_text seg.text in
    record {
      segments = push_segment buf.segments (record seg { text = text });
      total_chars = buf.total_chars + utf16_length text;
      timer = buf.timer;
    }

unfoldable pub buffer_chunk_segment : String → BufferedChunkSegment → Tunnel → Tunnel
buffer_chunk_segment run_id seg t =
    let buf = grown (t.buffers run_id) seg in
    if leb chunk_max_buffer_chars buf.total_chars
    then flush_run_chunk_buffer run_id (set_buffer run_id (some buf) t)
    else set_buffer run_id (some (record buf { timer = true })) t

abbrev is_chunk_update : String → Bool
is_chunk_update s =
    s == "agent_message_chunk" || s == "agent_thought_chunk" || s == "user_message_chunk"

-- the chunk of text that an update brings, if it is one
unfoldable pub chunk_of : String → Value → Option BufferedChunkSegment
chunk_of session update =
    let session_update = as_string (prop "sessionUpdate" (some update)) <| "" in
    let content = prop "content" (some update) in
    elim (as_string (prop "text" content)) [
      | none ↦ none
      | some text ↦
          if is_chunk_update session_update
            && text_is "text" (prop "type" content)
            && not (is_empty text)
          then some (record { session = session; session_update = session_update; text = text })
          else none
    ]

unfoldable pub persist_session_update : String → String → Value → Tunnel → Tunnel
persist_session_update run_id session update t = elim (chunk_of session update) [
  | some seg ↦ buffer_chunk_segment run_id seg t
  | none ↦
      let flushed = flush_run_chunk_buffer run_id t in
      record flushed { db = add_event (update_event run_id session update) flushed.db }
]

abbrev pub prompt_event : String → String → Event
prompt_event run_id stop_reason = record {
  run_id = run_id;
  source = EventSource.acp;
  type = "acp.update.received";
  payload = obj (field "type" (str "prompt_result") (field "stopReason" (str stop_reason) end));
}

-- the end of a prompt
unfoldable pub persist_prompt_result : String → String → Tunnel → Tunnel
persist_prompt_result run_id stop_reason t =
    let flushed = flush_run_chunk_buffer run_id t in
    record flushed { db = add_event (prompt_event run_id stop_reason) flushed.db }

-- The tasks of the runs that touch the buffers, one after the other: an update that a proxy brings,
-- the timer of a buffer, and the end of a prompt.
pub data ChunkTask : Type 0 where
  session_updated : String → String → Value → ChunkTask
  timer_fired : String → ChunkTask
  prompt_ended : String → String → ChunkTask

unfoldable pub perform : ChunkTask → Tunnel → Tunnel
perform (session_updated run_id session update) t = persist_session_update run_id session update t
perform (timer_fired run_id) t = flush_run_chunk_buffer run_id t
perform (prompt_ended run_id stop_reason) t = persist_prompt_result run_id stop_reason t

unfoldable pub perform_all : List ChunkTask → Tunnel → Tunnel
unfolding perform
perform_all [] t = t
perform_all (task ∷ rest) t = perform_all rest (perform task t)
