-- ===== src/Agent/Conversation.antt =====
-- `_processor_metadata_for_request` of src/kafka_a2a/runtime/agent.py: the earlier tasks of the
-- context, as a conversation in the request's metadata.
use Prim.Native.Nat.{min}
use kafka_a2a.Common.{
  ℕ, ◌+◌, String, Bool, false, not, ◌&&◌, ◌||◌, Option, none, some, List, [], ◌∷◌, ◌++◌, ◌==◌,
  nat_eq, is_some, if◌then◌else◌,
}
use kafka_a2a.Common.Int.{pos}
use kafka_a2a.Common.Lists.{keep}
use kafka_a2a.Common.Dict.{lookup, insert}
use kafka_a2a.Common.Value.{
  Value, Items, Metadata, str, arr, obj, nil, cons, end, field, or_empty, is_dict, get_field,
  first_truthy, fields_of, items_of,
}
use kafka_a2a.Models.{Task, TaskConfiguration}
use kafka_a2a.Tenancy.{Principal, PrincipalCodec, extract_principal, matches}
use kafka_a2a.TaskStore.State.{InMemoryTaskStore, list_tasks_by_context}
use kafka_a2a.Agent.Config.{Ka2aAgentConfig}
use kafka_a2a.Agent.History.{
  history_key, task_user_text, task_assistant_text, task_assistant_structured_payload,
  history_turns,
}

-- `isinstance(v, dict)` of an optional value
is_dict? : Option Value → Bool
is_dict? none = false
is_dict? (some v) = is_dict v

has_payload : Value → Bool
unfolding is_dict?
has_payload (obj fs) =
    is_dict? (first_truthy (get_field "structured_payload" fs) (get_field "structuredPayload" fs))
has_payload _ = false

any_payload : Items → Bool
unfolding has_payload
any_payload nil = false
any_payload (cons v vs) = has_payload v || any_payload vs

-- the history that the request brings has a structured payload
direct_payload : Option Value → Bool
unfolding any_payload
direct_payload (some (arr vs)) = any_payload vs
direct_payload _ = false

module _ (codec : PrincipalCodec) (cfg : Ka2aAgentConfig) where
  -- the principal that a task was created for
  unfoldable pub task_principal : Task → Option Principal
  task_principal t = extract_principal codec (or_empty t.metadata) cfg.principal_metadata_key

  -- the stored principal matches the one of the request
  unfoldable pub owns : Option Principal → Option Principal → Bool
  owns (some request) (some stored) = matches cfg.require_tenant_match stored request
  owns _ _ = false

  -- a task of the conversation: not the current one, and of the requester where tenants are isolated
  unfoldable pub is_shown : Option Principal → Task → Task → Bool
  unfolding task_principal owns
  is_shown principal current t =
      not (t.id == current.id) && (not cfg.tenant_isolation || owns principal (task_principal t))

user_entries : String → List Value
user_entries s =
    if s == "" then [] else obj (field "role" (str "user") (field "content" (str s) end)) ∷ []

assistant_entries : String → Option Metadata → List Value
assistant_entries s (some payload) =
    obj (
      field "role" (str "assistant")
        (field "content" (str s) (field "structured_payload" (obj (fields_of payload)) end)))
    ∷ []
assistant_entries s none =
    if s == "" then [] else obj (field "role" (str "assistant") (field "content" (str s) end)) ∷ []

unfoldable pub task_entries : Task → List Value
unfolding user_entries assistant_entries
task_entries t =
    user_entries (task_user_text t)
    ++ assistant_entries (task_assistant_text t) (task_assistant_structured_payload t)

-- the conversation of the tasks, and whether one of them has a structured payload
unfoldable pub conversation : List Task → List Value
conversation [] = []
conversation (t ∷ ts) = task_entries t ++ conversation ts

unfoldable pub has_server_payload : List Task → Bool
has_server_payload [] = false
has_server_payload (t ∷ ts) = is_some (task_assistant_structured_payload t) || has_server_payload ts

-- the request's metadata with the conversation
with_conversation : Option Metadata → List Value → Option Metadata
with_conversation metadata [] = metadata
with_conversation metadata (v ∷ vs) =
    some (insert history_key (arr (items_of (v ∷ vs))) (or_empty metadata))

module _ (codec : PrincipalCodec) (cfg : Ka2aAgentConfig) where
  -- the earlier tasks that the request may see
  unfoldable pub shown_tasks : Task → ℕ → Option Metadata → InMemoryTaskStore → List Task
  unfolding is_shown
  shown_tasks current turns metadata s =
      keep
        (is_shown codec cfg
          (if cfg.tenant_isolation
            then extract_principal codec (or_empty metadata) cfg.principal_metadata_key
            else none)
          current)
        (list_tasks_by_context current.context_id (some (pos (min turns 50 + 1))) s)

  unfoldable pub processor_metadata_for_request :
      Task → Option TaskConfiguration → Option Metadata → InMemoryTaskStore → Option Metadata
  unfolding direct_payload with_conversation shown_tasks
  processor_metadata_for_request current configuration metadata s =
      let turns = history_turns cfg configuration in
      let tasks = shown_tasks current turns metadata s in
      if nat_eq turns 0
      then metadata
      else if direct_payload (lookup history_key (or_empty metadata))
          && not (has_server_payload tasks)
      then metadata
      else with_conversation metadata (conversation tasks)
