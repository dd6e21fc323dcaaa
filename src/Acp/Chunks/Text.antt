-- ===== src/Acp/Chunks/Text.antt =====
-- The text that is read from the events does not depend on the buffering.
use mathlib.Core.List.{append-nil as list_append-nil, append_assoc as list_append_assoc}
use tuixiu.Prelude.{
  String, Option, none, some, Bool, true, false, List, [], ◌∷◌, ◌++◌, ◌≡◌, refl, sym, ap, ◌∙◌, ◌==◌,
  eq_iff, eq_refl, select, Option-cases, Bool-cases, inl, inr, arith, map, if◌then◌else◌, ◌<|◌,
  guarded, and_true,
}
use Prim.Native.String.{◌++◌ as cat}
use text.Mathlib.TextLemmas.{nil-append, append-nil, append_assoc}
use tuixiu.Json
use tuixiu.Json.{Value, prop, as_string, str}
use tuixiu.Db.Types.{Event, Db}
use tuixiu.Db.Tables.{add_event}
use tuixiu.Runs.AgentOutput.{agent_message_chunk, extract_agent_text_from_events, text_is}
use tuixiu.Acp.Chunks.{
  BufferedChunkSegment, update_event, segment_event, store_segments, same_stream, push_segment,
  chunk_of,
}

abbrev pub text_of : List Event → String
text_of events = extract_agent_text_from_events events

-- the text of an agent in the events of a run, as it is read back
abbrev pub stored_text : String → Db → String
stored_text run_id db = text_of (select (λ e. e.run_id == run_id) db.events)

pub text_of-append : (xs ys : List Event) → text_of (xs ++ ys) ≡ cat (text_of xs) (text_of ys)
unfolding extract_agent_text_from_events
text_of-append [] ys = sym (nil-append (text_of ys))
text_of-append (e ∷ xs) ys = elim (Option-cases (agent_message_chunk e)) [
  | inl silent ↦ rw (silent, extract_agent_text_from_events) (text_of-append xs ys)
  | inr (t, said) ↦
      rw (said, extract_agent_text_from_events)
        (ap (cat t) (text_of-append xs ys) ∙ sym (append_assoc t (text_of xs) (text_of ys)))
]

select_append :
    {A : Type 0} (p : A → Bool) (xs ys : List A) → select p (xs ++ ys) ≡ select p xs ++ select p ys
unfolding select
select_append p [] ys = refl
select_append p (x ∷ xs) ys = elim (Bool-cases (p x)) [
  | inl holds ↦ rw holds (ap (λ l. x ∷ l) (select_append p xs ys))
  | inr other ↦ rw other (select_append p xs ys)
]

abbrev pub events_of : String → List BufferedChunkSegment → List Event
events_of run_id segs = map (segment_event run_id) segs

abbrev with_events : List Event → Db → Db
with_events events db = record db { events = db.events ++ events }

pub store_segments-events :
    (run_id : String) (segs : List BufferedChunkSegment) (db : Db)
    → (store_segments run_id segs db).events ≡ db.events ++ events_of run_id segs
unfolding store_segments
store_segments-events run_id [] db = sym (list_append-nil db.events)
store_segments-events run_id (seg ∷ rest) db =
    store_segments-events run_id rest (add_event (segment_event run_id seg) db)
    ∙ list_append_assoc db.events (segment_event run_id seg ∷ []) (events_of run_id rest)

module _ (run_id : String) where
  abbrev here : Event → Bool
  here e = e.run_id == run_id

  pub select-events_of :
      (segs : List BufferedChunkSegment)
      → select here (events_of run_id segs) ≡ events_of run_id segs
  unfolding select
  select-events_of [] = refl
  select-events_of (seg ∷ rest) =
      rw (eq_refl run_id) (ap (λ l. segment_event run_id seg ∷ l) (select-events_of rest))

  pub select-events_of_other :
      (other : String) (segs : List BufferedChunkSegment)
      → (other == run_id) ≡ false
      → select here (events_of other segs) ≡ []
  unfolding select
  select-events_of_other other [] e = refl
  select-events_of_other other (seg ∷ rest) e = rw e (select-events_of_other other rest e)

  pub stored_text-append :
      (before : Db) (events : List Event) (after : Db)
      → after.events ≡ before.events ++ events
      → stored_text run_id after ≡ cat (stored_text run_id before) (text_of (select here events))
  stored_text-append before events after e =
      ap (λ es. text_of (select here es)) e
      ∙ ap text_of (select_append here before.events events)
      ∙ text_of-append (select here before.events) (select here events)

-- the text of one event
abbrev pub said_by : Event → String
said_by e = text_of (e ∷ [])

pub said_by_lem : (e : Event) → said_by e ≡ (agent_message_chunk e <| "")
unfolding extract_agent_text_from_events
said_by_lem e = elim (Option-cases (agent_message_chunk e)) [
  | inl silent ↦ rw (silent, extract_agent_text_from_events) refl
  | inr (t, said) ↦ rw (said, extract_agent_text_from_events) (append-nil t)
]

pub segment_chunk :
    (run_id : String) (seg : BufferedChunkSegment)
    → agent_message_chunk (segment_event run_id seg)
      ≡ (if seg.session_update == "agent_message_chunk" then some seg.text else none)
unfolding agent_message_chunk Json.get
segment_chunk run_id seg = ground arith

text_is_lem :
    (expected : String) (o : Option Value)
    → ("" == expected) ≡ false
    → text_is expected o ≡ ((as_string o <| "") == expected)
text_is_lem expected none h = sym h
text_is_lem expected (some (str s)) h = refl
text_is_lem expected (some _) h = sym h

-- What is known of an update that is a chunk.
record IsChunk (session : String) (update : Value) (seg : BufferedChunkSegment) : Type 0 where
  says : as_string (prop "text" (prop "content" (some update))) ≡ some seg.text
  is_text : text_is "text" (prop "type" (prop "content" (some update))) ≡ true
  kind : (as_string (prop "sessionUpdate" (some update)) <| "") ≡ seg.session_update

chunk_of-IsChunk :
    (session : String) (update : Value) {seg : BufferedChunkSegment}
    → chunk_of session update ≡ some seg
    → IsChunk session update seg
unfolding chunk_of
chunk_of-IsChunk session update {seg} e =
    elim (Option-cases (as_string (prop "text" (prop "content" (some update))))) [
      | inl silent ↦ absurd (cc (rw (silent, chunk_of) at e))
      | inr (t, said) ↦
          let (tested, same) = guarded _ _ (rw (said, chunk_of) at e) in
          let (typed, filled) = and_true _ _ tested in
          let (known, is_text) = and_true _ _ typed in
          record {
            says = said ∙ ap (λ (s : BufferedChunkSegment). some s.text) same;
            is_text = is_text;
            kind = ap (λ (s : BufferedChunkSegment). s.session_update) same;
          }
    ]

pub update_chunk :
    (run_id session : String) (update : Value) {seg : BufferedChunkSegment}
    → chunk_of session update ≡ some seg
    → agent_message_chunk (update_event run_id session update)
      ≡ (if seg.session_update == "agent_message_chunk" then some seg.text else none)
unfolding agent_message_chunk Json.get chunk_of
update_chunk run_id session update {seg} e =
    let c = chunk_of-IsChunk session update e in
    rw
      (
        text_is_lem "agent_message_chunk" (prop "sessionUpdate" (some update)) refl,
        c.kind,
        c.is_text,
      )
      (rw (c.says) (ground arith))

text_of-cons :
    (e : Event) (rest : List Event) → text_of (e ∷ rest) ≡ cat (text_of (e ∷ [])) (text_of rest)
text_of-cons e rest = text_of-append (e ∷ []) rest

chosen : (b : Bool) (t : String) → ((if b then some t else none) <| "") ≡ (if b then t else "")
chosen true t = refl
chosen false t = refl

both_said :
    (b : Bool) (s t : String)
    → (if b then cat s t else "") ≡ cat (if b then s else "") (if b then t else "")
both_said true s t = refl
both_said false s t = refl

pub segment_said :
    (run_id : String) (seg : BufferedChunkSegment)
    → said_by (segment_event run_id seg)
      ≡ (if seg.session_update == "agent_message_chunk" then seg.text else "")
segment_said run_id seg =
    said_by_lem (segment_event run_id seg)
    ∙ ap (λ o. o <| "") (segment_chunk run_id seg)
    ∙ chosen (seg.session_update == "agent_message_chunk") seg.text

joined_said :
    (run_id : String) (last seg : BufferedChunkSegment)
    → same_stream last seg ≡ true
    → said_by (segment_event run_id (record last { text = cat last.text seg.text }))
      ≡ cat (said_by (segment_event run_id last)) (said_by (segment_event run_id seg))
joined_said run_id last seg joined =
    let same = (eq_iff last.session_update seg.session_update).0 (and_true _ _ joined).1 in
    segment_said run_id (record last { text = cat last.text seg.text })
    ∙ both_said (last.session_update == "agent_message_chunk") last.text seg.text
    ∙ ap (λ u. cat u (if last.session_update == "agent_message_chunk" then seg.text else ""))
        (sym (segment_said run_id last))
    ∙ ap
        (λ k.
          cat (said_by (segment_event run_id last))
            (if k == "agent_message_chunk" then seg.text else ""))
        same
    ∙ ap (cat (said_by (segment_event run_id last))) (sym (segment_said run_id seg))

-- Pushing a segment adds its text at the end, joined or not.
pub push_segment-text :
    (run_id : String) (segs : List BufferedChunkSegment) (seg : BufferedChunkSegment)
    → text_of (events_of run_id (push_segment segs seg))
      ≡ cat (text_of (events_of run_id segs)) (said_by (segment_event run_id seg))
unfolding push_segment extract_agent_text_from_events
push_segment-text run_id [] seg = sym (nil-append (said_by (segment_event run_id seg)))
push_segment-text run_id (last ∷ []) seg = elim (Bool-cases (same_stream last seg)) [
  | inl joined ↦ rw joined (joined_said run_id last seg joined)
  | inr apart ↦ rw apart (text_of-cons (segment_event run_id last) (segment_event run_id seg ∷ []))
]
push_segment-text run_id (first ∷ second ∷ rest) seg =
    text_of-cons (segment_event run_id first) (events_of run_id (push_segment (second ∷ rest) seg))
    ∙ ap (cat (said_by (segment_event run_id first))) (push_segment-text run_id (second ∷ rest) seg)
    ∙ sym (
        append_assoc (said_by (segment_event run_id first))
          (text_of (events_of run_id (second ∷ rest))) (said_by (segment_event run_id seg)))
    ∙ ap (λ t. cat t (said_by (segment_event run_id seg)))
        (sym (text_of-cons (segment_event run_id first) (events_of run_id (second ∷ rest))))
