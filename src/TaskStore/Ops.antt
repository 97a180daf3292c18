-- ===== src/TaskStore/Ops.antt =====
-- The calls that change a store, as one type, so that a history of the store is a list of them. A
-- call that raises leaves the store as it was.
use kafka_a2a.Common.{ℕ, String, Option, List, [], ◌∷◌, Result, ok, raise}
use kafka_a2a.Common.Value.{Metadata}
use kafka_a2a.Models.{Message, TaskStatus, Artifact, PushNotificationConfig}
use kafka_a2a.TaskStore.State.{InMemoryTaskStore, KeyError, create_task}
use kafka_a2a.TaskStore.Append.{append_status, append_artifact}
use kafka_a2a.TaskStore.Reader.{subscribe, unsubscribe}
use kafka_a2a.TaskStore.PushConfigs.{set_push_notification_config, delete_push_notification_config}

pub data Op : Type 0 where
  create : String → String → ℕ → Message → Option String → Option Metadata → Op
  status : String → TaskStatus → Op
  artifact : String → Artifact → Op
  open_queue : String → Op
  close_queue : String → ℕ → Op
  set_push : String → PushNotificationConfig → Op
  delete_push : String → Option String → Op

-- the store after a call that may raise
abbrev pub store_after :
    {A : Type 0} → InMemoryTaskStore → Result KeyError (A × InMemoryTaskStore) → InMemoryTaskStore
store_after s (ok r) = r.1
store_after s (raise e) = s

unfoldable pub apply : Op → InMemoryTaskStore → InMemoryTaskStore
apply (create task_id fresh now message context_id metadata) s =
    (create_task task_id fresh now message context_id metadata s).1
apply (status task_id st) s = store_after s (append_status task_id st s)
apply (artifact task_id a) s = store_after s (append_artifact task_id a s)
apply (open_queue task_id) s = (subscribe task_id s).1
apply (close_queue task_id q) s = unsubscribe task_id q s
apply (set_push task_id config) s = store_after s (set_push_notification_config task_id config s)
apply (delete_push task_id config_id) s = delete_push_notification_config task_id config_id s

unfoldable pub run : List Op → InMemoryTaskStore → InMemoryTaskStore
unfolding apply
run [] s = s
run (op ∷ ops) s = run ops (apply op s)
