-- ===== src/Runs/AgentOutput.antt =====
-- backend/src/modules/runs/agentOutput.ts: the text that an agent wrote, and a fenced block in it.
use tuixiu.Prelude.{
  ℕ, String, Option, none, some, Bool, true, false, List, [], ◌∷◌, ◌++◌, ◌==◌, ◌&&◌, codes,
  is_space, begins_with, drop_codes, eqb, if◌then◌else◌, ◌<|>◌,
}
use Prim.Native.String
use tuixiu.Json.{Value, str, as_string, prop}
use tuixiu.Db.Types.{EventSource, Event}

abbrev pub text_is : String → Option Value → Bool
text_is expected (some (str s)) = s == expected
text_is expected _ = false

abbrev is_acp : EventSource → Bool
is_acp EventSource.acp = true
is_acp _ = false

unfoldable pub agent_message_chunk : Event → Option String
agent_message_chunk e =
    let update = prop "update" (some e.payload) in
    let content = prop "content" update in
    if is_acp e.source
      && text_is "session_update" (prop "type" (some e.payload))
      && text_is "agent_message_chunk" (prop "sessionUpdate" update)
      && text_is "text" (prop "type" content)
    then as_string (prop "text" content)
    else none

-- The rows of a query carry dates, not texts, as timestamps, so that the source's sort by text
-- leaves the order of the query.
unfoldable pub extract_agent_text_from_events : List Event → String
unfolding agent_message_chunk
extract_agent_text_from_events [] = ""
extract_agent_text_from_events (e ∷ rest) = elim (agent_message_chunk e) [
  | none ↦ extract_agent_text_from_events rest
  | some t ↦ String.◌++◌ t (extract_agent_text_from_events rest)
]

abbrev pub fence : List ℕ
fence = 96 ∷ 96 ∷ 96 ∷ []

-- `([\s\S]*?)\n` and a fence: the shortest text before a line that begins with a fence
up_to_fence : List ℕ → Option (List ℕ)
up_to_fence [] = none
up_to_fence (c ∷ s) = elim (begins_with (c ∷ s) (10 ∷ fence)) [
  | true ↦ some []
  | false ↦ elim (up_to_fence s) [ none ↦ none | some t ↦ some (c ∷ t) ]
]

-- `\s*\n` in front of that, the longest run of spaces first
block_after_tag : List ℕ → Option (List ℕ)
unfolding up_to_fence
block_after_tag [] = none
block_after_tag (c ∷ s) = elim (is_space c) [
  | true ↦ block_after_tag s <|> (if eqb c 10 then up_to_fence s else none)
  | false ↦ none
]

-- The first match of the expression in a text. The caller trims the block.
unfoldable pub extract_tagged_code_block : List ℕ → String → Option (List ℕ)
unfolding block_after_tag
extract_tagged_code_block [] tag = none
extract_tagged_code_block (c ∷ s) tag =
    let opening = fence ++ codes tag in
    (if begins_with (c ∷ s) opening then block_after_tag (drop_codes opening (c ∷ s)) else none)
    <|> extract_tagged_code_block s tag
