-- ===== src/TaskStore/PushLaws.antt =====
-- What a reader of push notification configs finds after a write or a deletion.
use kafka_a2a.Common.{
  String, ◌≡◌, refl, ◌∙◌, sym, ap, Bool, true, false, ◌&&◌, Option, none, some, [], ◌∷◌, ◌==◌,
  eq_iff, if◌then◌else◌, ok, get_or, arith, Bool-cases, inl, inr,
}
use kafka_a2a.Common.Dict.{
  Dict, lookup, insert, remove, is_empty, lookup-insert, lookup-remove, lookup-nil,
}
use kafka_a2a.Models.{Task, PushNotificationConfig, TaskPushNotificationConfig}
use kafka_a2a.TaskStore.State.{InMemoryTaskStore}
use kafka_a2a.TaskStore.PushConfigs.{
  for_task, configs_of, config_key, set_push_notification_config, get_push_notification_config,
  choose_config, delete_push_notification_config, drop_config,
}

-- the deletion names the config
abbrev pub names : Option String → String → Bool
names none key = true
names (some config_id) key = config_id == key

-- the config under an id, sent out with the task's id
abbrev pub sent : String → Option PushNotificationConfig → Option TaskPushNotificationConfig
sent id none = none
sent id (some c) = some (for_task id c)

get_by_key :
    (id key : String) (s : InMemoryTaskStore)
    → get_push_notification_config id (some key) s ≡ sent id (lookup key (configs_of id s))
unfolding get_push_notification_config choose_config lookup
get_by_key id key s = ground arith

configs_of-insert :
    (id j : String) (configs : Dict PushNotificationConfig) (m : Dict (Dict PushNotificationConfig))
    → get_or (lookup j (insert id configs m)) []
      ≡ (if id == j then configs else get_or (lookup j m) [])
configs_of-insert id j configs m = ground (arith, lookup-insert id j configs m)

configs_of-remove :
    (id j : String) (m : Dict (Dict PushNotificationConfig))
    → get_or (lookup j (remove id m)) [] ≡ (if id == j then [] else get_or (lookup j m) [])
configs_of-remove id j m = ground (arith, lookup-remove id j m)

set_found :
    (id : String) (c : PushNotificationConfig) (s : InMemoryTaskStore) (t : Task)
    → lookup id s.tasks ≡ some t
    → set_push_notification_config id c s
      ≡ ok (
        for_task id c,
        record s {
          push_configs = insert id (insert (config_key c) c (configs_of id s)) s.push_configs;
        },
      )
unfolding set_push_notification_config
set_found id c s t e = rw e

-- `set_push_notification_config` of a task that the store has returns the config and stores it under
-- its id, or "default" if it has none: a `get` by that id finds it, and a `get` by another id, or of
-- another task, finds what it found before.
pub set_then_get :
    (id : String) (c : PushNotificationConfig) (s : InMemoryTaskStore) (t : Task)
    → lookup id s.tasks ≡ some t
    → (s' : InMemoryTaskStore) × (set_push_notification_config id c s ≡ ok (for_task id c, s'))
      × ((j key : String)
          → get_push_notification_config j (some key) s' ≡ (
              if id == j && config_key c == key
              then some (for_task id c)
              else get_push_notification_config j (some key) s))
set_then_get id c s t e = (
  _,
  set_found id c s t e,
  λ j key.
      rw (get_by_key, get_by_key, configs_of-insert)
        (ground (arith, eq_iff id j, lookup-insert (config_key c) key c (configs_of id s))),
)

empty-nil : (m : Dict PushNotificationConfig) → is_empty m ≡ true → m ≡ []
empty-nil [] h = refl
empty-nil (e ∷ m) h = cc

-- the config under `key` of the task `j` after those of the task `id` are `rest`
after_rest :
    (id config_id j key : String) (s : InMemoryTaskStore) (rest : Dict PushNotificationConfig)
    → rest ≡ remove config_id (configs_of id s)
    → lookup key (if id == j then rest else configs_of j s)
      ≡ (if id == j && config_id == key then none else lookup key (configs_of j s))
after_rest id config_id j key s rest e = elim (Bool-cases (id == j)) [
  | inl p ↦ rw (p, e, lookup-remove, (eq_iff id j).0 p)
  | inr p ↦ rw p
]

dropped :
    (id config_id j : String) (s : InMemoryTaskStore) (key : String)
    → lookup key (configs_of j (delete_push_notification_config id (some config_id) s))
      ≡ (if id == j && config_id == key then none else lookup key (configs_of j s))
unfolding delete_push_notification_config
dropped id config_id j s key = elim (Bool-cases (is_empty (configs_of id s))) [
  | inl none_there ↦
      rw (none_there, drop_config) (nothing_to_drop (empty-nil (configs_of id s) none_there))
  | inr some_there ↦ elim (Bool-cases (is_empty (remove config_id (configs_of id s)))) [
    | inl last ↦
        rw (some_there, drop_config, last, configs_of-remove)
          (after_rest id config_id j key s [] (sym (empty-nil _ last)))
    | inr more ↦
        rw (some_there, drop_config, more, configs_of-insert)
          (after_rest id config_id j key s _ refl)
  ]
]
  where
    nothing_to_drop :
        configs_of id s ≡ []
        → lookup key (configs_of j s)
          ≡ (if id == j && config_id == key then none else lookup key (configs_of j s))
    nothing_to_drop e = elim (Bool-cases (id == j)) [
      | inl p ↦ rw (p, ← (eq_iff id j).0 p, e, lookup-nil) (ground arith)
      | inr p ↦ rw p
    ]

sent-if :
    (b : Bool) (j : String) (o : Option PushNotificationConfig)
    → sent j (if b then none else o) ≡ (if b then none else sent j o)
sent-if true j o = refl
sent-if false j o = refl

-- `delete_push_notification_config` with an id removes that config and no other, and without one it
-- removes all configs of the task and none of another task.
pub delete_then_get :
    (id : String) (config_id : Option String) (s : InMemoryTaskStore) (j key : String)
    → get_push_notification_config j (some key) (delete_push_notification_config id config_id s) ≡ (
        if id == j && names config_id key
        then none
        else get_push_notification_config j (some key) s)
unfolding delete_push_notification_config
delete_then_get id none s j key =
    rw (get_by_key, get_by_key, configs_of-remove)
      (elim (Bool-cases (id == j)) [ inl p ↦ rw (p, lookup-nil) | inr p ↦ rw p ])
delete_then_get id (some config_id) s j key =
    get_by_key j key _
    ∙ ap (sent j) (dropped id config_id j s key)
    ∙ sent-if (id == j && config_id == key) j (lookup key (configs_of j s))
    ∙ ap (λ o. if id == j && config_id == key then none else o) (sym (get_by_key j key s))
