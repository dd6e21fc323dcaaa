-- ===== src/Acp/Chunks/Added.antt =====
-- What each task adds to the text that a run shows.
use tuixiu.Acp.Chunks.{
  ChunkTask, session_updated, timer_fired, prompt_ended, prompt_event, perform,
  persist_prompt_result,
}
use tuixiu.Prelude.{
  String, Option, none, some, Bool, true, false, [], ◌∷◌, ◌≡◌, ◌≤◌, refl, sym, ap, ◌∙◌, ◌==◌,
  eq_iff, eq_refl, select, Option-cases, Bool-cases, inl, inr, arith, leb, if◌then◌else◌, subst,
  ◌<|◌,
}
use Prim.Native.String.{◌++◌ as cat}
use text.Mathlib.TextLemmas.{append-nil, append_assoc}
use tuixiu.Json
use tuixiu.Json.{Value, prop, as_string, str}
use tuixiu.Db.Types.{Event, Db}
use tuixiu.Db.Tables.{add_event}
use tuixiu.Runs.AgentOutput.{agent_message_chunk, extract_agent_text_from_events}
use tuixiu.Acp.Chunks.{
  BufferedChunkSegment, RunChunkBuffer, Tunnel, chunk_max_buffer_chars, utf16_length, update_event,
  segment_event, flush_run_chunk_buffer, push_segment, kept_text, grown, buffer_chunk_segment,
  chunk_of, persist_session_update, set_buffer,
}
use tuixiu.Acp.Chunks.Text.{
  text_of, stored_text, events_of, said_by, push_segment-text, update_chunk, said_by_lem,
  stored_text-append, segment_chunk,
}
use tuixiu.Acp.Chunks.Visible.{
  ne_sym, flush_run_chunk_buffer-visible_text, waiting, flush_run_chunk_buffer-found, pending,
  visible_text, nil_or_cons,
}

-- the text that a task adds to what a run shows
abbrev pub added : String → ChunkTask → String
added run_id (session_updated other session update) =
    if other == run_id then said_by (update_event other session update) else ""
added run_id _ = ""

-- The text of the task's update is not cut.
abbrev pub Fits : ChunkTask → Type 0
Fits (session_updated other session update) =
    (seg : BufferedChunkSegment)
    → chunk_of session update ≡ some seg
    → utf16_length seg.text ≤ chunk_max_buffer_chars
Fits _ = Unit

pub append_event-text :
    (run_id : String) (e : Event) (db : Db)
    → stored_text run_id (add_event e db)
      ≡ cat (stored_text run_id db) (if e.run_id == run_id then said_by e else "")
unfolding extract_agent_text_from_events select
append_event-text run_id e db =
    stored_text-append run_id db (e ∷ []) (add_event e db) refl
    ∙ ap (cat (stored_text run_id db)) (selected (e.run_id == run_id))
  where
    selected : (b : Bool) → text_of (if b then e ∷ [] else []) ≡ (if b then said_by e else "")
    selected true = refl
    selected false = refl

kept_text_lem : (text : String) → utf16_length text ≤ chunk_max_buffer_chars → kept_text text ≡ text
unfolding kept_text
kept_text_lem text fits = ground arith

grown-segments :
    (old : Option RunChunkBuffer) (seg : BufferedChunkSegment)
    → utf16_length seg.text ≤ chunk_max_buffer_chars
    → (grown old seg).segments ≡ push_segment (waiting old) seg
unfolding grown
grown-segments none seg fits =
    ap (λ u. push_segment [] (record seg { text = u })) (kept_text_lem seg.text fits)
grown-segments (some buf) seg fits =
    ap (λ u. push_segment buf.segments (record seg { text = u })) (kept_text_lem seg.text fits)

-- A chunk that joins the buffer adds its text, for its run.
buffered-text :
    (run_id other : String) (seg : BufferedChunkSegment) (buf : RunChunkBuffer) (t : Tunnel)
    → buf.segments ≡ push_segment (waiting (t.buffers other)) seg
    → visible_text run_id (set_buffer other (some buf) t)
      ≡ cat
          (visible_text run_id t)
          (if other == run_id then said_by (segment_event other seg) else "")
buffered-text run_id other seg buf t pushed = elim (Bool-cases (other == run_id)) [
  | inl same ↦
      subst
        (λ o.
          buf.segments ≡ push_segment (waiting (t.buffers o)) seg
          → visible_text run_id (set_buffer o (some buf) t)
            ≡ cat (visible_text run_id t)
                (if o == run_id then said_by (segment_event o seg) else ""))
        (sym ((eq_iff other run_id).0 same)) (λ p. own p) pushed
  | inr apart ↦
      ap
        (λ b.
          cat (stored_text run_id t.db)
            (text_of (events_of run_id (waiting (if b then some buf else t.buffers run_id)))))
        (ne_sym other run_id apart)
      ∙ sym (append-nil (visible_text run_id t))
      ∙ ap (λ b. cat (visible_text run_id t) (if b then said_by (segment_event other seg) else ""))
          (sym apart)
]
  where
    own :
        buf.segments ≡ push_segment (pending run_id t) seg
        → visible_text run_id (set_buffer run_id (some buf) t)
          ≡ cat
              (visible_text run_id t)
              (if run_id == run_id then said_by (segment_event run_id seg) else "")
    own p =
        ap
          (λ b.
            cat (stored_text run_id t.db)
              (text_of (events_of run_id (waiting (if b then some buf else t.buffers run_id)))))
          (eq_refl run_id)
        ∙ ap (λ segs. cat (stored_text run_id t.db) (text_of (events_of run_id segs))) p
        ∙ ap (cat (stored_text run_id t.db)) (push_segment-text run_id (pending run_id t) seg)
        ∙ sym (
            append_assoc (stored_text run_id t.db) (text_of (events_of run_id (pending run_id t)))
              (said_by (segment_event run_id seg)))
        ∙ ap
            (λ b.
              cat (visible_text run_id t) (if b then said_by (segment_event run_id seg) else ""))
            (sym (eq_refl run_id))

buffer_chunk_segment-visible_text :
    (run_id other : String) (seg : BufferedChunkSegment) (t : Tunnel)
    → utf16_length seg.text ≤ chunk_max_buffer_chars
    → visible_text run_id (buffer_chunk_segment other seg t)
      ≡ cat
          (visible_text run_id t)
          (if other == run_id then said_by (segment_event other seg) else "")
unfolding buffer_chunk_segment
buffer_chunk_segment-visible_text run_id other seg t fits =
    let buf = grown (t.buffers other) seg in
    let pushed = grown-segments (t.buffers other) seg fits in
    branch buf pushed (leb chunk_max_buffer_chars buf.total_chars)
  where
    branch :
        (buf : RunChunkBuffer)
        → buf.segments ≡ push_segment (waiting (t.buffers other)) seg
        → (full : Bool)
        → visible_text run_id (
            if full
            then flush_run_chunk_buffer other (set_buffer other (some buf) t)
            else set_buffer other (some (record buf { timer = true })) t)
          ≡ cat
              (visible_text run_id t)
              (if other == run_id then said_by (segment_event other seg) else "")
    branch buf pushed true =
        flush_run_chunk_buffer-visible_text run_id other (set_buffer other (some buf) t)
        ∙ buffered-text run_id other seg buf t pushed
    branch buf pushed false = buffered-text run_id other seg (record buf { timer = true }) t pushed

pub flush_run_chunk_buffer-pending :
    (run_id : String) (t : Tunnel) → pending run_id (flush_run_chunk_buffer run_id t) ≡ []
unfolding flush_run_chunk_buffer
flush_run_chunk_buffer-pending run_id t = elim (Option-cases (t.buffers run_id)) [
  | inl absent ↦ rw (absent, flush_run_chunk_buffer) (ap waiting absent)
  | inr (buf, found) ↦ elim (nil_or_cons buf.segments) [
    | inl bare ↦ rw (found, bare, flush_run_chunk_buffer) (ap waiting found ∙ bare)
    | inr (seg, rest, filled) ↦
        ap (pending run_id) (flush_run_chunk_buffer-found run_id t run_id found filled)
        ∙ ap (λ b. waiting (if b then none else t.buffers run_id)) (eq_refl run_id)
  ]
]

module _ (run_id : String) (e : Event) (t : Tunnel) where
  abbrev stored_too : Tunnel
  stored_too = record t { db = add_event e t.db }

  stored_own :
      (e.run_id == run_id) ≡ true
      → pending run_id t ≡ []
      → visible_text run_id stored_too ≡ cat (visible_text run_id t) (said_by e)
  unfolding extract_agent_text_from_events
  stored_own same flushed =
      ap (λ segs. cat (stored_text run_id (add_event e t.db)) (text_of (events_of run_id segs)))
        flushed
      ∙ append-nil (stored_text run_id (add_event e t.db))
      ∙ append_event-text run_id e t.db
      ∙ ap (λ b. cat (stored_text run_id t.db) (if b then said_by e else "")) same
      ∙ ap (λ u. cat u (said_by e)) (sym (append-nil (stored_text run_id t.db)))
      ∙ ap
          (λ segs.
            cat (cat (stored_text run_id t.db) (text_of (events_of run_id segs))) (said_by e))
          (sym flushed)

  stored_other :
      (e.run_id == run_id) ≡ false → visible_text run_id stored_too ≡ cat (visible_text run_id t) ""
  stored_other apart =
      ap (λ u. cat u (text_of (events_of run_id (pending run_id t))))
        (append_event-text run_id e t.db
          ∙ ap (λ b. cat (stored_text run_id t.db) (if b then said_by e else "")) apart
          ∙ append-nil (stored_text run_id t.db))
      ∙ sym (append-nil (visible_text run_id t))

-- An event stored after a flush of its run comes last in what the run shows.
stored_after-flush :
    (run_id : String) (e : Event) (t : Tunnel)
    → let flushed = flush_run_chunk_buffer e.run_id t in
      visible_text run_id (record flushed { db = add_event e flushed.db })
      ≡ cat (visible_text run_id t) (if e.run_id == run_id then said_by e else "")
stored_after-flush run_id e t =
    let flushed = flush_run_chunk_buffer e.run_id t in
    let kept = flush_run_chunk_buffer-visible_text run_id e.run_id t in
    elim (Bool-cases (e.run_id == run_id)) [
      | inl same ↦
          stored_own run_id e flushed same (
            subst (λ o. pending o flushed ≡ []) ((eq_iff e.run_id run_id).0 same)
              (flush_run_chunk_buffer-pending e.run_id t))
          ∙ ap (λ u. cat u (said_by e)) kept
          ∙ ap (λ b. cat (visible_text run_id t) (if b then said_by e else "")) (sym same)
      | inr apart ↦
          stored_other run_id e flushed apart
          ∙ ap (λ u. cat u "") kept
          ∙ ap (λ b. cat (visible_text run_id t) (if b then said_by e else "")) (sym apart)
    ]

said_by-chunk :
    (other session : String) (update : Value) {seg : BufferedChunkSegment}
    → chunk_of session update ≡ some seg
    → said_by (segment_event other seg) ≡ said_by (update_event other session update)
said_by-chunk other session update {seg} found =
    said_by_lem (segment_event other seg)
    ∙ ap (λ o. o <| "") (segment_chunk other seg ∙ sym (update_chunk other session update found))
    ∙ sym (said_by_lem (update_event other session update))

-- An update adds its own text to what its run shows, and nothing to what the other runs show.
pub persist_session_update-visible_text :
    (run_id other session : String) (update : Value) (t : Tunnel)
    → Fits (session_updated other session update)
    → visible_text run_id (persist_session_update other session update t)
      ≡ cat (visible_text run_id t) (added run_id (session_updated other session update))
unfolding persist_session_update
persist_session_update-visible_text run_id other session update t fits =
    elim (Option-cases (chunk_of session update)) [
      | inl plain ↦
          rw (plain, persist_session_update)
            (stored_after-flush run_id (update_event other session update) t)
      | inr (seg, found) ↦
          rw (found, persist_session_update)
            (buffer_chunk_segment-visible_text run_id other seg t (fits seg found)
              ∙ ap (λ u. cat (visible_text run_id t) (if other == run_id then u else ""))
                  (said_by-chunk other session update found))
    ]

none_said : (b : Bool) → ◌≡◌ {A = String} (if b then "" else "") ""
none_said true = refl
none_said false = refl

prompt_said : (run_id stop_reason : String) → said_by (prompt_event run_id stop_reason) ≡ ""
unfolding extract_agent_text_from_events agent_message_chunk Json.get
prompt_said run_id stop_reason = refl

pub prompt_adds :
    (run_id other stop_reason : String)
    → (if other == run_id then said_by (prompt_event other stop_reason) else "") ≡ ""
prompt_adds run_id other stop_reason =
    ap (λ u. if other == run_id then u else "") (prompt_said other stop_reason)
    ∙ none_said (other == run_id)

-- A task adds the text of its update to what the update's run shows, and nothing to the others.
pub perform-visible_text :
    (run_id : String) (task : ChunkTask) (t : Tunnel)
    → Fits task
    → visible_text run_id (perform task t) ≡ cat (visible_text run_id t) (added run_id task)
unfolding perform persist_prompt_result
perform-visible_text run_id (session_updated other session update) t fits =
    persist_session_update-visible_text run_id other session update t fits
perform-visible_text run_id (timer_fired other) t fits =
    flush_run_chunk_buffer-visible_text run_id other t ∙ sym (append-nil (visible_text run_id t))
perform-visible_text run_id (prompt_ended other stop_reason) t fits =
    stored_after-flush run_id (prompt_event other stop_reason) t
    ∙ ap (cat (visible_text run_id t)) (prompt_adds run_id other stop_reason)
