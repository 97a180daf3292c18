-- ===== src/Agent/History.antt =====
-- The conversation that a processor is given: `_message_to_text_for_history` to
-- `_processor_metadata_for_request` of src/kafka_a2a/runtime/agent.py.
use Prim.Native.String.{◌++◌ as cat}
use mathlib.Core.List.{reverse}
use Prim.Native.Nat.{min}
use kafka_a2a.Common.{
  ℕ, String, Bool, true, false, not, ◌&&◌, ◌||◌, Option, none, some, List, [], ◌∷◌, ◌==◌, ltb,
  if◌then◌else◌, get_or, or_text,
}
use kafka_a2a.Common.Int.{ℤ, pos, negsuc}
use kafka_a2a.Common.Dict.{is_empty}
use kafka_a2a.Common.Text.{strip, rstrip, take_chars, join, chars, decimal}
use kafka_a2a.Common.Value.{Metadata}
use kafka_a2a.Models.{
  Role, agent, user, with_uri, with_bytes, Part, text, file, data_part, tool_call, tool_result,
  Message, Artifact, Task, TaskConfiguration,
}
use kafka_a2a.Agent.Config.{Ka2aAgentConfig}

abbrev pub history_key : String
history_key = "urn:ka2a:conversation:history"

abbrev max_text_bytes : ℕ
max_text_bytes = 8192

abbrev mime_or_default : Option String → String
mime_or_default mime = or_text mime "application/octet-stream"

part_chunk : Part → Option String
part_chunk (text t metadata) = if t == "" then none else some t
part_chunk (file (with_uri uri mime) metadata) =
    some (cat "[file uri=" (cat uri (cat " mime=" (cat (mime_or_default mime) "]"))))
part_chunk (file (with_bytes b64 mime) metadata) = some (
    cat "[file bytes=" (
      cat (decimal (min (chars b64) max_text_bytes))
        (cat "b mime=" (cat (mime_or_default mime) "]"))))
part_chunk (data_part d metadata) = some "[data]"
part_chunk (tool_call id name arguments metadata) = some "[tool-call]"
part_chunk (tool_result id output is_error metadata) = some "[tool-result]"

part_chunks : List Part → List String
unfolding part_chunk
part_chunks [] = []
part_chunks (p ∷ ps) = elim (part_chunk p) [ none ↦ part_chunks ps | some c ↦ c ∷ part_chunks ps ]

unfoldable pub message_to_text_for_history : Message → String
unfolding part_chunks
message_to_text_for_history message =
    let out = strip (join "\n" (part_chunks message.parts)) in
    if ltb max_text_bytes (chars out) then cat (rstrip (take_chars max_text_bytes out)) "…" else out

abbrev is_user : Role → Bool
is_user user = true
is_user agent = false

-- the text of the first message of the user
first_user_text : List Message → Option String
first_user_text [] = none
first_user_text (m ∷ ms) =
    if is_user m.role then some (message_to_text_for_history m) else first_user_text ms

-- the message of the status, where it is the user's
status_user_text : Option Message → String
status_user_text none = ""
status_user_text (some m) = if is_user m.role then message_to_text_for_history m else ""

unfoldable pub task_user_text : Task → String
unfolding first_user_text status_user_text
task_user_text t = elim (first_user_text (get_or t.history [])) [
  | some s ↦ s
  | none ↦ status_user_text t.status.message
]

text_chunks : List Part → List String
text_chunks [] = []
text_chunks (text t metadata ∷ ps) = t ∷ text_chunks ps
text_chunks (p ∷ ps) = text_chunks ps

is_result : Artifact → Bool
is_result a = or_text a.name "" == "result"

-- the text of the first result with one, in a list that has the latest first
result_text : List Artifact → Option String
unfolding text_chunks is_result
result_text [] = none
result_text (a ∷ rest) =
    let s = strip (join "\n" (text_chunks a.parts)) in
    if is_result a && not (s == "") then some s else result_text rest

-- a text of the agent that says something
says : String → Bool
says s = not (s == "") && not (s == "working" || s == "completed")

agent_text : Message → Option String
unfolding says
agent_text m =
    let s = message_to_text_for_history m in
    if is_user m.role then none else if says s then some s else none

first_agent_text : List Message → Option String
unfolding agent_text
first_agent_text [] = none
first_agent_text (m ∷ ms) = elim (agent_text m) [ some s ↦ some s | none ↦ first_agent_text ms ]

status_agent_text : Option Message → String
unfolding agent_text
status_agent_text none = ""
status_agent_text (some m) = get_or (agent_text m) ""

unfoldable pub task_assistant_text : Task → String
unfolding result_text first_agent_text status_agent_text
task_assistant_text t = elim (result_text (reverse t.artifacts)) [
  | some s ↦ s
  | none ↦ elim (first_agent_text (reverse (get_or t.history []))) [
    | some s ↦ s
    | none ↦ status_agent_text t.status.message
  ]
]

-- the first data that is not empty, in a list of parts that has the latest first
part_payload : List Part → Option Metadata
part_payload [] = none
part_payload (data_part d metadata ∷ ps) = if is_empty d then part_payload ps else some d
part_payload (p ∷ ps) = part_payload ps

artifact_payload : List Artifact → Option Metadata
unfolding part_payload is_result
artifact_payload [] = none
artifact_payload (a ∷ rest) = elim (if is_result a then part_payload (reverse a.parts) else none) [
  | some d ↦ some d
  | none ↦ artifact_payload rest
]

unfoldable pub task_assistant_structured_payload : Task → Option Metadata
unfolding artifact_payload
task_assistant_structured_payload t = artifact_payload (reverse t.artifacts)

-- `max(0, n)`
abbrev floor_zero : ℤ → ℕ
floor_zero (pos n) = n
floor_zero (negsuc n) = 0

unfoldable pub history_turns : Ka2aAgentConfig → Option TaskConfiguration → ℕ
history_turns cfg none = floor_zero cfg.context_history_turns
history_turns cfg (some configuration) =
    floor_zero (get_or configuration.history_length cfg.context_history_turns)
