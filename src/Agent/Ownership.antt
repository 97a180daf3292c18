-- ===== src/Agent/Ownership.antt =====
-- A new task, and the requester that it is made for.
use kafka_a2a.Common.{
  String, ◌≡◌, refl, ◌≢◌, Bool, true, false, not, ◌||◌, Option, none, some, [], ◌∷◌, if◌then◌else◌,
  ok, arith, eq_refl, Bool-cases, inl, inr, is_some,
}
use kafka_a2a.Common.Dict.{lookup, insert, lookup-insert_self}
use kafka_a2a.Common.Value.{Metadata, or_empty, none_if_empty}
use kafka_a2a.Models.{Task, PushNotificationConfig}
use kafka_a2a.Tenancy.{
  Principal, PrincipalCodec, extract_principal, with_principal, without_secrets, matches,
}
use kafka_a2a.Tenancy.Laws.{matches_refl, extract_user, extract-with_principal, extract-strip}
use kafka_a2a.TaskStore.State.{InMemoryTaskStore, create_task, new_task}
use kafka_a2a.TaskStore.PushConfigs.{set_push_notification_config, for_task, configs_of, config_key}
use kafka_a2a.Agent.Config.{Ka2aAgentConfig}
use kafka_a2a.Agent.Conversation.{task_principal}
use kafka_a2a.Agent.State.{AgentState, Fresh}
use kafka_a2a.Agent.Access.{accessible_task, request_metadata, require_principal}
use kafka_a2a.Agent.Messages.{
  MessageSendParams, push_config_of, check_push_supported, stored_metadata, create,
  store_push_config, new_message_task,
}
use kafka_a2a.Agent.Steps.{on_store_ok}
use kafka_a2a.Agent.Isolation.{requester, accessible_task_matched}

kept_metadata : (m : Metadata) → or_empty (none_if_empty (or_empty (none_if_empty m))) ≡ m
kept_metadata [] = refl
kept_metadata (e ∷ m) = refl

matches-without_secrets : (r : Bool) (p : Principal) → matches r (without_secrets p) p ≡ true
unfolding matches
matches-without_secrets true p = rw (eq_refl, eq_refl) refl
matches-without_secrets false p = rw eq_refl refl

set_push_known :
    (id : String) (c : PushNotificationConfig) (s : InMemoryTaskStore) {t : Task}
    → lookup id s.tasks ≡ some t
    → set_push_notification_config id c s
      ≡ ok (
        for_task id c,
        record s {
          push_configs = insert id (insert (config_key c) c (configs_of id s)) s.push_configs;
        },
      )
unfolding set_push_notification_config
set_push_known id c s h = rw h refl

module _ (codec : PrincipalCodec) (cfg : Ka2aAgentConfig) where
  -- what a task keeps of the principal
  abbrev pub kept : Principal → Principal
  kept p = if cfg.store_principal_secrets then p else without_secrets p

  extract-stored_metadata :
      (m : Metadata) (p : Principal)
      → p.user_id ≢ ""
      → extract_principal codec
          (stored_metadata codec cfg (with_principal codec m p cfg.principal_metadata_key))
          cfg.principal_metadata_key
        ≡ some (kept p)
  unfolding stored_metadata
  extract-stored_metadata m p h = elim (Bool-cases cfg.store_principal_secrets) [
    | inl e ↦ rw e (extract-with_principal codec m p _ h)
    | inr e ↦
        rw
          (
            e,
            extract-strip codec _ cfg.principal_metadata_key,
            extract-with_principal codec m p cfg.principal_metadata_key h,
          )
          refl
  ]

  matches-kept : (r : Bool) (p : Principal) → matches r (kept p) p ≡ true
  matches-kept r p = elim (Bool-cases cfg.store_principal_secrets) [
    | inl e ↦ rw e (matches_refl r p)
    | inr e ↦ rw e (matches-without_secrets r p)
  ]

  request_metadata_known :
      (m : Option Metadata) (s : AgentState) {p : Principal}
      → cfg.tenant_isolation ≡ true
      → requester codec cfg m ≡ some p
      → request_metadata codec cfg m s
        ≡ (ok (with_principal codec (or_empty m) p cfg.principal_metadata_key), s)
  unfolding request_metadata
  request_metadata_known m s isolated asked = rw (isolated, asked, require_principal) refl

  check_push_supported_ok :
      (p : MessageSendParams) (s : AgentState)
      → (not (is_some (push_config_of p.configuration)) || cfg.push_notifications) ≡ true
      → check_push_supported codec cfg p.configuration s ≡ (ok tt, s)
  unfolding check_push_supported
  check_push_supported_ok p s h = ground arith

  store_push_config_ok :
      (t : Task) (c : Option PushNotificationConfig) (s : AgentState)
      → lookup t.id s.store.tasks ≡ some t
      → ((store_push_config codec cfg t c s).0 ≡ ok tt)
        × ((store_push_config codec cfg t c s).1.store.tasks ≡ s.store.tasks)
  unfolding store_push_config
  store_push_config_ok t none s h = (refl, refl)
  store_push_config_ok t (some c) s h =
      rw (on_store_ok (set_push_notification_config t.id c) s (set_push_known t.id c s.store h))
        (refl, refl)

  task_principal-create :
      (fresh : Fresh) (p : MessageSendParams) (m : Metadata) (s : AgentState) {q : Principal}
      → extract_principal codec m cfg.principal_metadata_key ≡ some q
      → task_principal codec cfg (
          new_task fresh.task_id fresh.context_id fresh.now p.message p.message.context_id
            (none_if_empty m))
        ≡ some q
  unfolding task_principal new_task
  task_principal-create fresh p m s h = rw (kept_metadata m) h

  -- the task that a new message makes
  abbrev pub made : Fresh → MessageSendParams → Principal → Task
  made fresh p q =
      new_task fresh.task_id fresh.context_id fresh.now p.message p.message.context_id (
        none_if_empty (
          stored_metadata codec cfg
            (with_principal codec (or_empty p.metadata) q cfg.principal_metadata_key)))

  new_message_task_known :
      (fresh : Fresh) (p : MessageSendParams) (s : AgentState) {q : Principal}
      → cfg.tenant_isolation ≡ true
      → (not (is_some (push_config_of p.configuration)) || cfg.push_notifications) ≡ true
      → requester codec cfg p.metadata ≡ some q
      → ((new_message_task codec cfg fresh p s).0
          ≡ ok (
            made fresh p q,
            with_principal codec (or_empty p.metadata) q cfg.principal_metadata_key,
          ))
        × (lookup fresh.task_id (new_message_task codec cfg fresh p s).1.store.tasks
            ≡ some (made fresh p q))
  unfolding new_message_task create create_task new_task
  new_message_task_known fresh p s {q} isolated supported asked =
      rw
        (
          request_metadata_known p.metadata s isolated asked,
          check_push_supported_ok p s supported,
          pushed.0,
        )
        (refl, rw pushed.1 (lookup-insert_self fresh.task_id (made fresh p q) s.store.tasks))
    where
      created : AgentState
      created =
          (create codec cfg fresh p.message
            (stored_metadata codec cfg
              (with_principal codec (or_empty p.metadata) q cfg.principal_metadata_key))
            s).1

      pushed :
          ((store_push_config codec cfg (made fresh p q) (push_config_of p.configuration) created).0
            ≡ ok tt)
          × ((store_push_config codec cfg
                (made fresh p q)
                (push_config_of p.configuration)
                created).1.store.tasks
              ≡ created.store.tasks)
      pushed =
          store_push_config_ok (made fresh p q) (push_config_of p.configuration) created
            (lookup-insert_self fresh.task_id (made fresh p q) s.store.tasks)

  -- With tenant isolation on, a new message of a request that has a principal, and that asks for a push
  -- config only where the agent supports it, makes its task; the lookup of that task by the same
  -- request is granted at once; and what the task keeps of the principal is the whole of it only
  -- where the agent is set to store secrets, else its user and tenant.
  pub new_message_task-accessible_task :
      (fresh : Fresh) (p : MessageSendParams) (s : AgentState) {q : Principal}
      → cfg.tenant_isolation ≡ true
      → (not (is_some (push_config_of p.configuration)) || cfg.push_notifications) ≡ true
      → requester codec cfg p.metadata ≡ some q
      → ((new_message_task codec cfg fresh p s).0
          ≡ ok (
            made fresh p q,
            with_principal codec (or_empty p.metadata) q cfg.principal_metadata_key,
          ))
        × (accessible_task codec cfg fresh.task_id p.metadata
              (new_message_task codec cfg fresh p s).1
            ≡ (ok (made fresh p q), (new_message_task codec cfg fresh p s).1))
        × (task_principal codec cfg (made fresh p q) ≡ some (kept q))
  new_message_task-accessible_task fresh p s {q} isolated supported asked =
      let (result, found) = new_message_task_known fresh p s isolated supported asked in
      (
        result,
        accessible_task_matched codec cfg isolated fresh.task_id p.metadata _ found asked stored
            (matches-kept _ q),
        stored,
      )
    where
      stored : task_principal codec cfg (made fresh p q) ≡ some (kept q)
      stored = task_principal-create fresh p _ s (
          extract-stored_metadata (or_empty p.metadata) q
            (extract_user codec (or_empty p.metadata) cfg.principal_metadata_key asked))
