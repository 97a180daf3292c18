-- ===== src/Redis/Push.antt =====
-- The push notification configs of the Redis store: a hash for each task, from config ids to JSON.
use kafka_a2a.Common.{
  String, ◌≡◌, ◌==◌, refl, ap, ◌∙◌, Bool, true, false, Option, none, some, List, [], ◌∷◌, Result,
  ok, raise, ◌>>=◌, if◌then◌else◌,
}
use kafka_a2a.Common.Dict.{Dict, lookup, values, is_empty}
use kafka_a2a.Models.{PushNotificationConfig, TaskPushNotificationConfig}
use kafka_a2a.TaskStore.PushConfigs.{for_task, config_key}
use kafka_a2a.Redis.Server.{RedisServer, is_hash}
use kafka_a2a.Redis.Keys.{task_key, push_cfgs_key}
use kafka_a2a.Redis.Store.{RedisStoreError, key_error, validated}

-- the JSON of a config
pub record ConfigJson : Type 0 where
  pub dump : PushNotificationConfig → String
  pub validate : String → Option PushNotificationConfig

module _ (R : RedisServer) (json : ConfigJson) (namespace : String) where
  unfoldable pub set_push_notification_config :
      String
      → PushNotificationConfig
      → R.Db
      → Result RedisStoreError (TaskPushNotificationConfig × R.Db)
  unfolding task_key push_cfgs_key
  set_push_notification_config task_id config db =
      if R.exists (task_key namespace task_id) db
      then ok (
        for_task task_id config,
        R.hset (push_cfgs_key namespace task_id) (config_key config) (json.dump config) db,
      )
      else raise (key_error task_id)

  -- a stored config as it is returned; JSON that does not validate raises
  abbrev pub found :
      String → Option String → Result RedisStoreError (Option TaskPushNotificationConfig)
  found task_id none = ok none
  found task_id (some raw) =
      validated (json.validate raw) >>= λ config. ok (some (for_task task_id config))

  -- the choice where no id is asked for: "default", or else the only one
  abbrev pub default_raw : Dict String → Option String
  default_raw configs = elim (lookup "default" configs) [
    | some raw ↦ some raw
    | none ↦ elim configs [ [] ↦ none | e ∷ rest ↦ if is_empty rest then some e.1 else none ]
  ]

  unfoldable pub get_push_notification_config :
      String → Option String → R.Db → Result RedisStoreError (Option TaskPushNotificationConfig)
  unfolding push_cfgs_key
  get_push_notification_config task_id (some config_id) db =
      found task_id (R.hget (push_cfgs_key namespace task_id) config_id db)
  get_push_notification_config task_id none db =
      found task_id (default_raw (R.hgetall (push_cfgs_key namespace task_id) db))

  -- the configs that validate
  unfoldable pub valid_configs : String → List String → List TaskPushNotificationConfig
  valid_configs task_id [] = []
  valid_configs task_id (raw ∷ raws) =
      let rest = valid_configs task_id raws in
      elim (json.validate raw) [ none ↦ rest | some config ↦ for_task task_id config ∷ rest ]

  unfoldable pub list_push_notification_configs : String → R.Db → List TaskPushNotificationConfig
  unfolding valid_configs push_cfgs_key
  list_push_notification_configs task_id db =
      valid_configs task_id (values (R.hgetall (push_cfgs_key namespace task_id) db))

  unfoldable pub delete_push_notification_config : String → Option String → R.Db → R.Db
  unfolding push_cfgs_key
  delete_push_notification_config task_id none db = R.delete (push_cfgs_key namespace task_id) db
  delete_push_notification_config task_id (some config_id) db =
      R.hdel (push_cfgs_key namespace task_id) config_id db

  module _ (task_id : String) (db : R.Db)
      (hashed : is_hash (R.entry (push_cfgs_key namespace task_id) db) ≡ true) where
    -- A config is set for a task that is there: where its JSON comes back, it is got under its id, and
    -- what any other id gets is as before.
    pub get-set_push :
        (config : PushNotificationConfig) (other : String)
        → json.validate (json.dump config) ≡ some config
        → R.exists (task_key namespace task_id) db ≡ true
        → (after : R.Db) × (set_push_notification_config task_id config db
            ≡ ok (for_task task_id config, after))
          × (get_push_notification_config task_id (some other) after ≡ (
              if config_key config == other
              then ok (some (for_task task_id config))
              else get_push_notification_config task_id (some other) db))
    unfolding set_push_notification_config get_push_notification_config
    get-set_push config other kept there = (
      R.hset (push_cfgs_key namespace task_id) (config_key config) (json.dump config) db,
      rw (there, set_push_notification_config) refl,
      ap (found task_id) (R.hget-hset _ _ other _ db hashed) ∙ chosen (config_key config == other),
    )
      where
        chosen :
            (same : Bool)
            → found task_id (
                if same
                then some (json.dump config)
                else R.hget (push_cfgs_key namespace task_id) other db)
              ≡ (if same
                  then ok (some (for_task task_id config))
                  else found task_id (R.hget (push_cfgs_key namespace task_id) other db))
        chosen true = rw kept refl
        chosen false = refl

    -- A deleted config is gone, and without an id every one is.
    pub get-delete_push :
        (config_id other : String)
        → (get_push_notification_config task_id
              (some other)
              (delete_push_notification_config task_id (some config_id) db)
            ≡ (if config_id == other
                then ok none
                else get_push_notification_config task_id (some other) db))
          × (get_push_notification_config task_id
                (some other)
                (delete_push_notification_config task_id none db)
              ≡ ok none)
    unfolding get_push_notification_config delete_push_notification_config
    get-delete_push config_id other = (
      ap (found task_id) (R.hget-hdel _ _ other db hashed) ∙ chosen (config_id == other),
      ap (found task_id) (R.hget-missing _ other _ (R.delete_self _ db)),
    )
      where
        chosen :
            (same : Bool)
            → found task_id
                (if same then none else R.hget (push_cfgs_key namespace task_id) other db)
              ≡ (if same
                  then ok none
                  else found task_id (R.hget (push_cfgs_key namespace task_id) other db))
        chosen true = refl
        chosen false = refl
