-- ===== src/TaskStore/PushConfigs.antt =====
-- The push notification configs of a task, by their ids.
use kafka_a2a.Common.{
  String, Option, none, some, List, [], ◌∷◌, if◌then◌else◌, Result, ok, raise, get_or, or_text,
}
use kafka_a2a.Common.Dict.{Dict, lookup, insert, remove, values, contains, is_empty}
use kafka_a2a.Models.{PushNotificationConfig, TaskPushNotificationConfig}
use kafka_a2a.TaskStore.State.{InMemoryTaskStore, KeyError, key_error}

abbrev pub for_task : String → PushNotificationConfig → TaskPushNotificationConfig
for_task task_id config = record { task_id = task_id; push_notification_config = config }

-- `self._push_configs.get(task_id, {})`
abbrev pub configs_of : String → InMemoryTaskStore → Dict PushNotificationConfig
configs_of task_id s = get_or (lookup task_id s.push_configs) []

-- `config.id or "default"`
abbrev pub config_key : PushNotificationConfig → String
config_key config = or_text config.id "default"

unfoldable pub set_push_notification_config :
    String
    → PushNotificationConfig
    → InMemoryTaskStore
    → Result KeyError (TaskPushNotificationConfig × InMemoryTaskStore)
set_push_notification_config task_id config s =
    if contains task_id s.tasks
    then ok (
      for_task task_id config,
      record s {
        push_configs =
            insert task_id (insert (config_key config) config (configs_of task_id s))
              s.push_configs;
      },
    )
    else raise (key_error task_id)

-- the choice where no id is asked for: "default", or else the only one
unfoldable pub default_config : Dict PushNotificationConfig → Option PushNotificationConfig
default_config configs = elim (lookup "default" configs) [
  | some config ↦ some config
  | none ↦ elim configs [ [] ↦ none | e ∷ rest ↦ if is_empty rest then some e.1 else none ]
]

unfoldable pub choose_config :
    Option String → Dict PushNotificationConfig → Option PushNotificationConfig
unfolding default_config
choose_config (some config_id) configs = lookup config_id configs
choose_config none configs = default_config configs

unfoldable pub get_push_notification_config :
    String → Option String → InMemoryTaskStore → Option TaskPushNotificationConfig
unfolding choose_config
get_push_notification_config task_id config_id s =
    let configs = configs_of task_id s in
    if is_empty configs then none else elim (choose_config config_id configs) [
      | none ↦ none
      | some config ↦ some (for_task task_id config)
    ]

unfoldable pub list_push_notification_configs :
    String → InMemoryTaskStore → List TaskPushNotificationConfig
list_push_notification_configs task_id s =
    mathlib.Core.List.map (for_task task_id) (values (configs_of task_id s))

-- the configs without one of them; a task with none left has no entry
unfoldable pub drop_config :
    String → String → Dict PushNotificationConfig → InMemoryTaskStore → InMemoryTaskStore
drop_config task_id config_id configs s =
    let rest = remove config_id configs in
    if is_empty configs
    then s
    else if is_empty rest
    then record s { push_configs = remove task_id s.push_configs }
    else record s { push_configs = insert task_id rest s.push_configs }

unfoldable pub delete_push_notification_config :
    String → Option String → InMemoryTaskStore → InMemoryTaskStore
unfolding drop_config
delete_push_notification_config task_id none s = record s {
  push_configs = remove task_id s.push_configs;
}
delete_push_notification_config task_id (some config_id) s =
    drop_config task_id config_id (configs_of task_id s) s
