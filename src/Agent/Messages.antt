-- ===== src/Agent/Messages.antt =====
-- `message/send`, `message/stream` and `stream_message_local` of src/kafka_a2a/runtime/agent.py.
use kafka_a2a.Common.{
  String, true, false, Option, none, some, [], ◌∷◌, ◌++◌, is_some, is_given, or_text, if◌then◌else◌,
  Result, ok, raise,
}
use kafka_a2a.Common.Dict.{insert}
use kafka_a2a.Common.Value.{Metadata, none_if_empty}
use kafka_a2a.Errors.{other, invalid_params, push_notification_not_supported}
use kafka_a2a.Models.{Message, Task, TaskConfiguration, PushNotificationConfig}
use kafka_a2a.Tenancy.{PrincipalCodec, strip_principal_secrets_for_storage}
use kafka_a2a.TaskStore.State.{InMemoryTaskStore, KeyError, key_error, create_task}
use kafka_a2a.TaskStore.PushConfigs.{set_push_notification_config}
use kafka_a2a.Agent.Config.{Ka2aAgentConfig}
use kafka_a2a.Agent.Conversation.{processor_metadata_for_request}
use kafka_a2a.Agent.State.{
  RequestId, process, prepare, forward, Fresh, Reply, Exec, ◌>>=◌, ◌>>◌, pure, fail, gets, effect,
}
use kafka_a2a.Agent.Access.{error, request_metadata}

pub record MessageSendParams : Type 0 where
  pub message : Message
  pub configuration : Option TaskConfiguration
  pub metadata : Option Metadata

-- `configuration and configuration.push_notification_config`
abbrev pub push_config_of : Option TaskConfiguration → Option PushNotificationConfig
push_config_of none = none
push_config_of (some configuration) = configuration.push_notification_config

-- A call of the store that may raise `KeyError`, whose text is the key.
unfoldable pub on_store :
    {A : Type 0} → (InMemoryTaskStore → Result KeyError (A × InMemoryTaskStore)) → Exec A
on_store f s = elim (f s.store) [
  | ok (a, store) ↦ (ok a, record s { store = store })
  | raise e ↦ elim e [ key_error id ↦ (raise (other id), s) ]
]

-- `_start_processing`
unfoldable pub start_processing :
    Task → Message → Option TaskConfiguration → Option Metadata → Exec (Unit {0})
start_processing t message configuration metadata s = (
  ok tt,
  record s {
    processing = insert t.id false s.processing;
    effects = s.effects ++ process t message configuration metadata ∷ [];
  },
)

-- the refusal of a stream that has nowhere to go
unfoldable pub check_reply_to : String → Option String → Exec (Unit {0})
check_reply_to message reply_to =
    if is_given reply_to then pure tt else fail (error invalid_params message)

-- the initial message, with the ids that `create_task` gave it
abbrev pub initial_message : Task → Message → Message
initial_message t message = record message { task_id = some t.id; context_id = some t.context_id }

module _ (codec : PrincipalCodec) (cfg : Ka2aAgentConfig) where
  unfoldable pub check_push_supported : Option TaskConfiguration → Exec (Unit {0})
  check_push_supported configuration =
      if is_some (push_config_of configuration)
      then (if cfg.push_notifications
          then pure tt
          else fail (error push_notification_not_supported "Push Notification is not supported"))
      else pure tt

  -- the metadata that the task keeps
  unfoldable pub stored_metadata : Metadata → Metadata
  stored_metadata metadata =
      if cfg.store_principal_secrets
      then metadata
      else strip_principal_secrets_for_storage codec metadata cfg.principal_metadata_key

  unfoldable pub create : Fresh → Message → Metadata → Exec Task
  create fresh message metadata s =
      let (t, store) =
        create_task fresh.task_id fresh.context_id fresh.now message message.context_id
          (none_if_empty metadata) s.store in
      (ok t, record s { store = store })

  unfoldable pub store_push_config : Task → Option PushNotificationConfig → Exec (Unit {0})
  unfolding on_store
  store_push_config t none = pure tt
  store_push_config t (some config) = do
    on_store (set_push_notification_config t.id config)
    pure tt

  -- What the handlers of a new message share: the task, and the request's metadata.
  unfoldable pub new_message_task : Fresh → MessageSendParams → Exec (Task × Metadata)
  unfolding check_push_supported stored_metadata create store_push_config
  new_message_task fresh p = do
    metadata ← request_metadata codec cfg p.metadata
    check_push_supported p.configuration
    t ← create fresh p.message (stored_metadata metadata)
    store_push_config t (push_config_of p.configuration)
    pure (t, metadata)

  -- `_processor_metadata_for_request` and `_start_processing`
  unfoldable pub prepare_and_start :
      Task → Message → Option TaskConfiguration → Option Metadata → Exec (Unit {0})
  unfolding start_processing
  prepare_and_start t message configuration metadata = do
    processor_metadata ←
        gets (λ s. processor_metadata_for_request codec cfg t configuration metadata s.store)
    start_processing t message configuration processor_metadata

  unfoldable pub message_send : Fresh → MessageSendParams → Exec Reply
  unfolding new_message_task
  message_send fresh p = do
    (t, metadata) ← new_message_task fresh p
    effect (prepare t (initial_message t p.message) p.configuration (none_if_empty metadata))
    pure (Reply.task t)

  unfoldable pub message_stream : RequestId → Option String → Fresh → MessageSendParams → Exec Reply
  unfolding new_message_task prepare_and_start
  message_stream request_id reply_to fresh p = do
    check_reply_to "replyTo is required for streaming" reply_to
    (t, metadata) ← new_message_task fresh p
    effect (forward request_id (or_text reply_to "") t.id true)
    prepare_and_start t (initial_message t p.message) p.configuration (none_if_empty metadata)
    pure (Reply.task t)

  -- `stream_message_local`, up to the iterator that it returns
  unfoldable pub stream_message_local : Fresh → MessageSendParams → Exec Task
  unfolding new_message_task prepare_and_start
  stream_message_local fresh p = do
    (t, metadata) ← new_message_task fresh p
    prepare_and_start t (initial_message t p.message) p.configuration (none_if_empty metadata)
    pure t
