-- ===== src/Acp/Updates.antt =====
-- backend/src/modules/acp/acpTunnel.ts: the updates that a proxy sends about a session. Each is a task
-- of its run's queue, so that it is one operation here. The messages to the clients and the log are left
-- out, and the proxy of a run's agent, which the rows here do not have, is a parameter.
pub mod Kept
use tuixiu.Prelude.{
  ℕ, zero, suc, ◌+◌, ◌-◌, ◌≤◌, ◌<◌, String, Option, none, some, Bool, true, false, List, [], ◌∷◌,
  ◌++◌, arith, leb, ltb, eqb, ◌||◌, ◌&&◌, length, refl, ◌≡◌, ◌≢◌, inl, inr, Bool-cases,
  Option-cases, if◌then◌else◌, and_true, ◌∙◌, ap, sym, subst, ◌==◌, not, eqb_iff, eq_iff, eq_refl,
  map, is_some, ◌<|◌, All, ◌⊎◌, any, all, find,
}
use tuixiu.Prelude.{trim, is_empty, modify}
use tuixiu.Json.{
  Value, Fields, Items, obj, arr, str, num, null, field, end, nil, cons, set, prop, as_string,
  Number, not_finite, not_positive, positive, as_record,
}
use tuixiu.Db.Types.{Run, Db}
use tuixiu.Db.Tables.{find_run, on_run}
use tuixiu.Acp.Chunks.{Tunnel, persist_session_update}
use tuixiu.Acp.Sessions.{Tunnels, RunTunnelState, state_of}

-- `{ ...existing, ...patch }`
unfoldable pub merge : Fields → Fields → Fields
merge end existing = existing
merge (field key v rest) existing = merge rest (set key v existing)

-- The state of the session in the run's metadata. An error of the client is ignored.
unfoldable pub update_session_state : String → Fields → Db → Db
unfolding merge
update_session_state run_id patch db =
    on_run run_id
      (λ r. record r { acp_session_state = some (merge patch (r.acp_session_state <| end)) }) db

-- `run.updateMany({ where: { id, acpSessionId: null }, data: { acpSessionId } })`
unfoldable pub set_session_if_none : String → String → Db → Db
set_session_if_none run_id session_id db = record db {
  runs =
      modify (λ r. r.id == run_id && not (is_some r.acp_session_id))
        (λ r. record r { acp_session_id = some session_id }) db.runs;
}

abbrev pub text_or_empty : Option Value → String
text_or_empty v = as_string v <| ""

abbrev pub text_or_null : Option Value → Value
text_or_null (some (str s)) = str s
text_or_null _ = null

-- `typeof n === "number" && Number.isFinite(n) ? Math.max(0, n) : 0`
abbrev pub in_flight_of : Option Value → Value
in_flight_of (some (num (positive n))) = num (positive n)
in_flight_of _ = num not_positive

-- the field of a note that is neither null nor empty
abbrev pub note_field : Option Value → Fields
note_field v =
    let note = text_or_empty v in if is_empty note then end else field "note" (str note) end

abbrev pub created_patch : String → String → Fields
created_patch session_id now =
    field "sessionId" (str session_id)
      (field "updatedAt" (str now) (field "note" (str "session_created") end))

-- what `session_state` tells, where `c` is the content
unfoldable pub state_patch : String → String → Option Value → Fields
state_patch session_id now c = field "sessionId" (str session_id) (
    field "activity" (str (text_or_empty (prop "activity" c))) (
      field "inFlight" (in_flight_of (prop "in_flight" c)) (
        field "updatedAt" (str (as_string (prop "updated_at" c) <| now)) (
          field "currentModeId" (text_or_null (prop "current_mode_id" c)) (
            field "currentModelId" (text_or_null (prop "current_model_id" c)) (
              field "lastStopReason" (text_or_null (prop "last_stop_reason" c))
                (note_field (prop "note" c))))))))

-- the mode of `current_mode_update`
abbrev pub mode_of : Value → String
mode_of update =
    as_string (prop "modeId" (some update)) <| text_or_empty (prop "currentModeId" (some update))

abbrev pub mode_patch : String → String → String → Fields
mode_patch session_id mode now =
    field "sessionId" (str session_id)
      (field "currentModeId" (str mode) (field "updatedAt" (str now) end))

abbrev pub has_text : String → Option Value → Bool
has_text s (some (str t)) = t == s
has_text s _ = false

-- `configOptions.find((x) => x && typeof x === "object" && x.id === id)`
unfoldable pub find_config : String → Items → Option Value
find_config id nil = none
find_config id (cons x rest) =
    if has_text id (prop "id" (some x)) then some x else find_config id rest

abbrev pub config_value : String → Items → String
config_value id options = text_or_empty (prop "currentValue" (find_config id options))

abbrev pub unless_empty : String → String → Fields → Fields
unless_empty key s rest = if is_empty s then rest else field key (str s) rest

unfoldable pub config_patch : String → String → Items → Fields
unfolding find_config
config_patch session_id now options = field "sessionId" (str session_id) (
    unless_empty "currentModeId" (config_value "mode" options) (
      unless_empty "currentModelId" (config_value "model" options) (
        field "configOptions" (arr options)
          (field "updatedAt" (str now) (field "note" (str "config_option_update") end)))))

abbrev pub config_options : Option Value → Option Items
config_options (some (arr items)) = some items
config_options _ = none

-- What an update tells about its session, after it has been stored.
unfoldable pub follow_content : String → String → String → Value → Db → Db
unfolding update_session_state set_session_if_none state_patch
follow_content run_id session_id now update db =
    let content = prop "content" (some update) in
    let content_type = text_or_empty (prop "type" content) in
    if content_type == "session_created"
    then update_session_state run_id (created_patch session_id now)
        (set_session_if_none run_id session_id db)
    else if content_type == "session_state"
    then update_session_state run_id (state_patch session_id now content) db
    else db

unfoldable pub follow_mode : String → String → String → Value → Db → Db
unfolding update_session_state
follow_mode run_id session_id now update db =
    if has_text "current_mode_update" (prop "sessionUpdate" (some update))
      && not (is_empty (mode_of update))
    then update_session_state run_id (mode_patch session_id (mode_of update) now) db
    else db

abbrev pub with_config : String → String → String → Option Items → Db → Db
with_config run_id session_id now none db = db
with_config run_id session_id now (some options) db =
    update_session_state run_id (config_patch session_id now options) db

unfoldable pub follow_config : String → String → String → Value → Db → Db
unfolding update_session_state set_session_if_none config_patch
follow_config run_id session_id now update db =
    if has_text "config_option_update" (prop "sessionUpdate" (some update))
    then with_config run_id session_id now (config_options (prop "configOptions" (some update)))
        (set_session_if_none run_id session_id db)
    else db

-- an update of the run's own proxy
unfoldable pub apply_update : String → String → String → Value → Tunnel → Tunnel
unfolding follow_content follow_mode follow_config
apply_update run_id session_id now update t =
    let stored = persist_session_update run_id session_id update t in
    record stored {
      db = follow_config run_id session_id now update (
          follow_mode run_id session_id now update
            (follow_content run_id session_id now update stored.db));
    }

module _ (agent_proxy : Run → Option String) where
  -- The run's state knows its proxy; without a state the run's agent does.
  unfoldable pub sent_by_owner : String → String → Tunnels → Db → Bool
  sent_by_owner proxy_id run_id sessions db = elim (state_of run_id sessions) [
    | some (ref, o) ↦ o.proxy_id == proxy_id
    | none ↦ elim (find_run run_id db) [
      | none ↦ false
      | some run ↦
          let expected = agent_proxy run <| "" in not (is_empty expected) && expected == proxy_id
    ]
  ]

  -- The message of a proxy, its fields as they came.
  unfoldable pub handle_prompt_update : String → Option Value → String → Tunnels → Tunnel → Tunnel
  unfolding sent_by_owner apply_update
  handle_prompt_update proxy_id payload now sessions t =
      let run_id = trim (text_or_empty (prop "run_id" payload)) in
      let session_id = trim (text_or_empty (prop "session_id" payload)) in
      elim (prop "update" payload) [
        | none ↦ t
        | some update ↦
            if not (is_empty run_id)
              && not (is_empty session_id)
              && is_some (as_record update)
              && sent_by_owner proxy_id run_id sessions t.db
            then apply_update run_id session_id now update t
            else t
      ]
