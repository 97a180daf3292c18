-- ===== src/Agent/PushRoutes.antt =====
-- The handlers of `tasks/pushNotificationConfig/` of src/kafka_a2a/runtime/agent.py.
use kafka_a2a.Common.{String, ◌&&◌, Option, none, some, [], if◌then◌else◌, ok, raise}
use kafka_a2a.Common.Dict.{lookup}
use kafka_a2a.Common.Value.{Value, Metadata, obj, is_truthy, text_of, dict_of, first_truthy}
use kafka_a2a.Errors.{Exc, other, invalid_params}
use kafka_a2a.Models.{PushNotificationConfig}
use kafka_a2a.Tenancy.{PrincipalCodec}
use kafka_a2a.TaskStore.PushConfigs.{
  set_push_notification_config, get_push_notification_config, list_push_notification_configs,
  delete_push_notification_config,
}
use kafka_a2a.Agent.Config.{Ka2aAgentConfig}
use kafka_a2a.Agent.State.{Reply, Exec, ◌>>=◌, ◌>>◌, pure, fail, gets}
use kafka_a2a.Agent.Access.{
  error, not_found, find_task, accessible_task, require_principal, enforce_task_access,
}

pub record PushConfigIdParams : Type 0 where
  pub id : String
  pub metadata : Option Metadata
  pub push_notification_config_id : Option String

-- `metadata or {}` of the raw parameters, which is used as a dict
unfoldable pub raw_metadata : Option Value → Exec Metadata
raw_metadata none = pure []
raw_metadata (some (obj fs)) = pure (dict_of fs)
raw_metadata (some v) = if is_truthy v then fail (other "AttributeError") else pure []

-- `PushNotificationConfig.model_validate`, and `str` of a list or a dict.
pub record PushCodec : Type 0 where
  pub parse_config : Value → Option PushNotificationConfig
  pub repr : Value → String

abbrev missing_params : Exc
missing_params = error invalid_params "taskId and pushNotificationConfig are required"

module _ (codec : PrincipalCodec) (pushes : PushCodec) (cfg : Ka2aAgentConfig) where
  -- the checks of the requester: the task must be there and be its own
  check_raw_access : String → Option Value → Exec (Unit {0})
  check_raw_access task_id raw =
      if cfg.tenant_isolation
      then (do
        metadata ← raw_metadata raw
        principal ← require_principal codec cfg metadata
        t ← find_task codec cfg task_id
        enforce_task_access codec cfg t principal)
      else pure tt

  parsed_config : Value → Exec PushNotificationConfig
  parsed_config v = elim (pushes.parse_config v) [
    | none ↦ fail (other "ValidationError")
    | some config ↦ pure config
  ]

  store_config : String → PushNotificationConfig → Exec Reply
  store_config task_id config s = elim (set_push_notification_config task_id config s.store) [
    | ok (result, store) ↦ (ok (Reply.push_config result), record s { store = store })
    | raise e ↦ (raise (not_found task_id), s)
  ]

  -- the required parameters, and then the checks of the requester
  set_given : Option Value → Option Value → Option Value → Exec Reply
  unfolding check_raw_access parsed_config store_config raw_metadata
  set_given (some task_id) (some config) metadata =
      if is_truthy task_id && is_truthy config
      then (do
        check_raw_access (text_of pushes.repr task_id) metadata
        parsed ← parsed_config config
        store_config (text_of pushes.repr task_id) parsed)
      else fail missing_params
  set_given _ _ metadata = fail missing_params

  unfoldable pub push_config_set : Metadata → Exec Reply
  unfolding set_given
  push_config_set params =
      set_given (first_truthy (lookup "taskId" params) (lookup "task_id" params))
        (first_truthy (lookup "pushNotificationConfig" params)
          (lookup "push_notification_config" params))
        (lookup "metadata" params)

  unfoldable pub push_config_get : PushConfigIdParams → Exec Reply
  push_config_get p = do
    t ← accessible_task codec cfg p.id p.metadata
    found ← gets (λ s. get_push_notification_config p.id p.push_notification_config_id s.store)
    elim found [
      | none ↦ fail (error invalid_params "Push notification config not found")
      | some config ↦ pure (Reply.push_config config)
    ]

  unfoldable pub push_config_list : PushConfigIdParams → Exec Reply
  push_config_list p = do
    t ← accessible_task codec cfg p.id p.metadata
    configs ← gets (λ s. list_push_notification_configs p.id s.store)
    pure (Reply.push_configs configs)

  delete_config : PushConfigIdParams → Exec (Unit {0})
  delete_config p s = (
    ok tt,
    record s { store = delete_push_notification_config p.id p.push_notification_config_id s.store },
  )

  unfoldable pub push_config_delete : PushConfigIdParams → Exec Reply
  unfolding delete_config
  push_config_delete p = do
    t ← accessible_task codec cfg p.id p.metadata
    delete_config p
    pure Reply.nothing
