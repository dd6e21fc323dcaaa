-- ===== src/Acp/Updates/Kept.antt =====
-- The updates of sessions write what they say of a session, and nothing else of the rows.
use tuixiu.Acp.Chunks.Visible.{nil_or_cons}
use tuixiu.Acp.Sessions.{Tunnels}
use tuixiu.Prelude.{
  String, Option, none, some, Bool, true, false, List, [], ◌∷◌, leb, ◌&&◌, refl, ◌≡◌, inl, inr,
  Bool-cases, Option-cases, if◌then◌else◌, and_true, ◌∙◌, ap, ◌==◌, not, map, is_some, ◌<|◌, ◌⊎◌,
  find, modify, map-modify, find-modify_any, is_empty, trim,
}
use mathlib.Core.Option
use tuixiu.Db.Types.{Run, Db, Event}
use tuixiu.Db.Tables.{find_run, add_event}
use tuixiu.Json.{Value, Fields, Items, as_string, prop, as_record}
use tuixiu.Acp.Chunks.{
  Tunnel, persist_session_update, store_segments, flush_run_chunk_buffer, buffer_chunk_segment,
  chunk_of, BufferedChunkSegment, update_event, segment_event, grown, chunk_max_buffer_chars,
  set_buffer,
}
use tuixiu.Acp.Updates.{
  handle_prompt_update, update_session_state, merge, set_session_if_none, end, follow_content,
  follow_mode, follow_config, apply_update, has_text, with_config, created_patch, config_patch,
  config_options, state_patch, mode_of, mode_patch, sent_by_owner,
}

-- a run without what the updates write
abbrev pub bare : Run → Run
bare r = record r { acp_session_id = none; acp_session_state = none }

-- All rows but the events are as they were, up to the columns of a run's session, and a session that
-- a run has stays its session.
pub record IsOnlyTold (before after : Db) : Type 0 where
  pub runs_kept : map bare after.runs ≡ map bare before.runs
  pub session_kept :
      (run_id session_id : String) (r : Run)
      → find_run run_id before ≡ some r
      → r.acp_session_id ≡ some session_id
      → (r' : Run) × (find_run run_id after ≡ some r') × (r'.acp_session_id ≡ some session_id)
  pub tasks_kept : after.tasks ≡ before.tasks
  pub steps_kept : after.steps ≡ before.steps
  pub issues_kept : after.issues ≡ before.issues
  pub projects_kept : after.projects ≡ before.projects
  pub approvals_kept : after.approvals ≡ before.approvals
  pub artifacts_kept : after.artifacts ≡ before.artifacts

IsOnlyTold-refl : (db : Db) → IsOnlyTold db db
IsOnlyTold-refl db = record {
  runs_kept = refl;
  session_kept = λ run_id session_id r e q. (r, e, q);
  tasks_kept = refl;
  steps_kept = refl;
  issues_kept = refl;
  projects_kept = refl;
  approvals_kept = refl;
  artifacts_kept = refl;
}

IsOnlyTold-trans : {a b c : Db} → IsOnlyTold a b → IsOnlyTold b c → IsOnlyTold a c
IsOnlyTold-trans p q = record {
  runs_kept = q.runs_kept ∙ p.runs_kept;
  session_kept = λ run_id session_id r e h.
      (let (r', e', h') = p.session_kept run_id session_id r e h in
        q.session_kept run_id session_id r' e' h');
  tasks_kept = q.tasks_kept ∙ p.tasks_kept;
  steps_kept = q.steps_kept ∙ p.steps_kept;
  issues_kept = q.issues_kept ∙ p.issues_kept;
  projects_kept = q.projects_kept ∙ p.projects_kept;
  approvals_kept = q.approvals_kept ∙ p.approvals_kept;
  artifacts_kept = q.artifacts_kept ∙ p.artifacts_kept;
}

-- a change of the rows that pass a test, in the columns of their sessions
module _ (p : Run → Bool) (f : Run → Run) (told : (r : Run) → bare (f r) ≡ bare r)
    (kept : (r : Run) (s : String)
      → p r ≡ true
      → r.acp_session_id ≡ some s
      → (f r).acp_session_id ≡ some s) where
  modified : (rows : List Run) → map bare (modify p f rows) ≡ map bare rows
  modified rows = map-modify bare p f rows told

  modified_session :
      (run_id session_id : String) (rows : List Run) (r : Run)
      → find (λ (x : Run). x.id == run_id) rows ≡ some r
      → r.acp_session_id ≡ some session_id
      → (r' : Run) × (find (λ (x : Run). x.id == run_id) (modify p f rows) ≡ some r')
        × (r'.acp_session_id ≡ some session_id)
  modified_session run_id session_id rows r e h = (
    (if p r then f r else r),
    find-modify_any (λ (x : Run). x.id) run_id p f rows (λ x. ap (λ (y : Run). y.id) (told x))
        ∙ ap (Option.map (λ (x : Run). if p x then f x else x)) e,
    either (Bool-cases (p r)),
  )
    where
      either :
          (p r ≡ true) ⊎ (p r ≡ false) → (if p r then f r else r).acp_session_id ≡ some session_id
      either (inl yes_) = rw yes_ (kept r session_id yes_ h)
      either (inr no_) = rw no_ h

  modified-IsOnlyTold : (db : Db) → IsOnlyTold db (record db { runs = modify p f db.runs })
  modified-IsOnlyTold db = record {
    runs_kept = modified db.runs;
    session_kept = λ run_id session_id r e h. modified_session run_id session_id db.runs r e h;
    tasks_kept = refl;
    steps_kept = refl;
    issues_kept = refl;
    projects_kept = refl;
    approvals_kept = refl;
    artifacts_kept = refl;
  }

pub update_session_state-IsOnlyTold :
    (run_id : String) (patch : Fields) (db : Db)
    → IsOnlyTold db (update_session_state run_id patch db)
unfolding update_session_state
update_session_state-IsOnlyTold run_id patch db =
    modified-IsOnlyTold (λ r. r.id == run_id)
      (λ r. record r { acp_session_state = some (merge patch (r.acp_session_state <| end)) })
      (λ r. refl) (λ r s q h. h) db

set_session_if_none-IsOnlyTold :
    (run_id session_id : String) (db : Db)
    → IsOnlyTold db (set_session_if_none run_id session_id db)
unfolding set_session_if_none
set_session_if_none-IsOnlyTold run_id session_id db =
    modified-IsOnlyTold (λ r. r.id == run_id && not (is_some r.acp_session_id))
      (λ r. record r { acp_session_id = some session_id }) (λ r. refl)
      (λ r s q h. absurd (has_none r s q h)) db
  where
    has_none :
        (r : Run) (s : String)
        → (r.id == run_id && not (is_some r.acp_session_id)) ≡ true
        → r.acp_session_id ≡ some s
        → ⊥
    has_none r s q h = cc (rw h at (and_true (r.id == run_id) (not (is_some r.acp_session_id)) q).1)

-- What holds of both branches holds of the conditional.
if-cases {ℓ} :
    {A : Type 0} (b : Bool) {x y : A} (P : A → Type ℓ) → P x → P y → P (if b then x else y)
if-cases true P p q = p
if-cases false P p q = q

add_event-IsOnlyTold : (e : Event) (db : Db) → IsOnlyTold db (add_event e db)
add_event-IsOnlyTold e db = record {
  runs_kept = refl;
  session_kept = λ run_id session_id r h q. (r, h, q);
  tasks_kept = refl;
  steps_kept = refl;
  issues_kept = refl;
  projects_kept = refl;
  approvals_kept = refl;
  artifacts_kept = refl;
}

store_segments-IsOnlyTold :
    (run_id : String) (segs : List BufferedChunkSegment) (db : Db)
    → IsOnlyTold db (store_segments run_id segs db)
unfolding store_segments
store_segments-IsOnlyTold run_id [] db = IsOnlyTold-refl db
store_segments-IsOnlyTold run_id (seg ∷ rest) db =
    IsOnlyTold-trans (add_event-IsOnlyTold (segment_event run_id seg) db)
      (store_segments-IsOnlyTold run_id rest (add_event (segment_event run_id seg) db))

flush-IsOnlyTold :
    (run_id : String) (t : Tunnel) → IsOnlyTold t.db (flush_run_chunk_buffer run_id t).db
unfolding flush_run_chunk_buffer
flush-IsOnlyTold run_id t = elim (Option-cases (t.buffers run_id)) [
  | inl e ↦ rw (e, flush_run_chunk_buffer) (IsOnlyTold-refl t.db)
  | inr (buf, e) ↦ elim (nil_or_cons buf.segments) [
    | inl e' ↦ rw (e, e', flush_run_chunk_buffer) (IsOnlyTold-refl t.db)
    | inr (seg, rest, e') ↦
        rw (e, e', flush_run_chunk_buffer) (store_segments-IsOnlyTold run_id (seg ∷ rest) t.db)
  ]
]

buffer-IsOnlyTold :
    (run_id : String) (seg : BufferedChunkSegment) (t : Tunnel)
    → IsOnlyTold t.db (buffer_chunk_segment run_id seg t).db
unfolding buffer_chunk_segment
buffer-IsOnlyTold run_id seg t =
    let buf = grown (t.buffers run_id) seg in
    elim (Bool-cases (leb chunk_max_buffer_chars buf.total_chars)) [
      | inl full ↦ rw full (flush-IsOnlyTold run_id (set_buffer run_id (some buf) t))
      | inr room ↦ rw room (IsOnlyTold-refl t.db)
    ]

persist-IsOnlyTold :
    (run_id session : String) (update : Value) (t : Tunnel)
    → IsOnlyTold t.db (persist_session_update run_id session update t).db
unfolding persist_session_update
persist-IsOnlyTold run_id session update t = elim (Option-cases (chunk_of session update)) [
  | inl e ↦
      rw (e, persist_session_update)
        (IsOnlyTold-trans (flush-IsOnlyTold run_id t) (
          add_event-IsOnlyTold (update_event run_id session update)
            (flush_run_chunk_buffer run_id t).db))
  | inr (seg, e) ↦ rw (e, persist_session_update) (buffer-IsOnlyTold run_id seg t)
]

module _ (run_id session_id now : String) (update : Value) where
  follow_content-IsOnlyTold :
      (db : Db) → IsOnlyTold db (follow_content run_id session_id now update db)
  unfolding follow_content
  follow_content-IsOnlyTold db =
      let content_type = as_string (prop "type" (prop "content" (some update))) <| "" in
      elim (Bool-cases (content_type == "session_created")) [
        | inl created ↦ rw created (
            IsOnlyTold-trans (set_session_if_none-IsOnlyTold run_id session_id db) (
              update_session_state-IsOnlyTold run_id (created_patch session_id now)
                (set_session_if_none run_id session_id db)))
        | inr other ↦ elim (Bool-cases (content_type == "session_state")) [
          | inl told ↦
              rw (other, told)
                (update_session_state-IsOnlyTold run_id
                  (state_patch session_id now (prop "content" (some update))) db)
          | inr silent ↦ rw (other, silent) (IsOnlyTold-refl db)
        ]
      ]

  follow_mode-IsOnlyTold : (db : Db) → IsOnlyTold db (follow_mode run_id session_id now update db)
  unfolding follow_mode
  follow_mode-IsOnlyTold db =
      if-cases
        (has_text "current_mode_update" (prop "sessionUpdate" (some update))
          && not (is_empty (mode_of update)))
        (IsOnlyTold db)
        (update_session_state-IsOnlyTold run_id (mode_patch session_id (mode_of update) now) db)
        (IsOnlyTold-refl db)

  with_config-IsOnlyTold :
      (options : Option Items) (db : Db)
      → IsOnlyTold db (with_config run_id session_id now options db)
  with_config-IsOnlyTold none db = IsOnlyTold-refl db
  with_config-IsOnlyTold (some options) db =
      update_session_state-IsOnlyTold run_id (config_patch session_id now options) db

  follow_config-IsOnlyTold :
      (db : Db) → IsOnlyTold db (follow_config run_id session_id now update db)
  unfolding follow_config
  follow_config-IsOnlyTold db =
      let named = set_session_if_none run_id session_id db in
      if-cases (has_text "config_option_update" (prop "sessionUpdate" (some update)))
        (IsOnlyTold db)
        (IsOnlyTold-trans (set_session_if_none-IsOnlyTold run_id session_id db)
          (with_config-IsOnlyTold (config_options (prop "configOptions" (some update))) named))
        (IsOnlyTold-refl db)

  apply_update-IsOnlyTold :
      (t : Tunnel) → IsOnlyTold t.db (apply_update run_id session_id now update t).db
  unfolding apply_update
  apply_update-IsOnlyTold t =
      let stored = (persist_session_update run_id session_id update t).db in
      let told = follow_content run_id session_id now update stored in
      let moded = follow_mode run_id session_id now update told in
      IsOnlyTold-trans (persist-IsOnlyTold run_id session_id update t) (
        IsOnlyTold-trans (follow_content-IsOnlyTold stored)
          (IsOnlyTold-trans (follow_mode-IsOnlyTold told) (follow_config-IsOnlyTold moded)))

-- Whatever a proxy sends as an update, the tasks, steps, issues, projects, approvals and artifacts
-- stay as they were, the runs too but for the id and the state of their sessions, and a run that has
-- the id of a session keeps it.
pub handle_prompt_update-IsOnlyTold :
    (agent_proxy : Run → Option String) (proxy_id : String) (payload : Option Value) (now : String)
    (sessions : Tunnels) (t : Tunnel)
    → IsOnlyTold t.db (handle_prompt_update agent_proxy proxy_id payload now sessions t).db
unfolding handle_prompt_update
handle_prompt_update-IsOnlyTold agent_proxy proxy_id payload now sessions t =
    elim (Option-cases (prop "update" payload)) [
      | inl e ↦ rw (e, handle_prompt_update) (IsOnlyTold-refl t.db)
      | inr (update, e) ↦
          let run_id = trim (as_string (prop "run_id" payload) <| "") in
          let session_id = trim (as_string (prop "session_id" payload) <| "") in
          rw (e, handle_prompt_update)
            (if-cases
              (not (is_empty run_id)
                && not (is_empty session_id)
                && is_some (as_record update)
                && sent_by_owner agent_proxy proxy_id run_id sessions t.db)
              (λ (x : Tunnel). IsOnlyTold t.db x.db)
              (apply_update-IsOnlyTold run_id session_id now update t) (IsOnlyTold-refl t.db))
    ]
