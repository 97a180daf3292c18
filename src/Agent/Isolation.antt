-- ===== src/Agent/Isolation.antt =====
-- Who gets at a task, through every handler that names one.
use mathlib.Core.Path.{subst}
use kafka_a2a.Common.{
  String, ◌≡◌, ◌⊎◌, ap, refl, Bool, true, false, Option, none, some, ok, raise, Option-cases,
  Bool-cases, inl, inr, is_given,
}
use kafka_a2a.Common.Dict.{lookup}
use kafka_a2a.Common.Value.{Metadata, or_empty}
use kafka_a2a.Errors.{Exc}
use kafka_a2a.Models.{Message, Task, TaskConfiguration}
use kafka_a2a.Agent.Messages.{check_reply_to}
use kafka_a2a.Tenancy.{Principal, PrincipalCodec, extract_principal, matches}
use kafka_a2a.TaskStore.State.{get_task}
use kafka_a2a.Agent.Config.{Ka2aAgentConfig}
use kafka_a2a.Agent.Conversation.{task_principal}
use kafka_a2a.Agent.State.{RequestId, AgentState, Fresh}
use kafka_a2a.Agent.Access.{
  not_found, not_authenticated, denied, require_principal, enforce_task_access, check_access,
  find_task, accessible_task,
}
use kafka_a2a.Agent.Tasks.{
  TaskIdParams, tasks_get, tasks_cancel, tasks_continue, tasks_continue_stream, resume_task,
  tasks_subscribe, continue_task_stream_local,
}
use kafka_a2a.Agent.PushRoutes.{PushCodec, push_config_get, push_config_list, push_config_delete}

module _ (codec : PrincipalCodec) (cfg : Ka2aAgentConfig) where
  -- The principal of the request, if it has one, and of the task, if it has one.
  abbrev pub requester : Option Metadata → Option Principal
  requester metadata = extract_principal codec (or_empty metadata) cfg.principal_metadata_key

  pub accessible_task_missing :
      (id : String) (metadata : Option Metadata) (s : AgentState)
      → lookup id s.store.tasks ≡ none
      → accessible_task codec cfg id metadata s ≡ (raise (not_found id), s)
  unfolding accessible_task get_task check_access
  accessible_task_missing id metadata s h = rw (h, find_task) refl

  module _ (isolated : cfg.tenant_isolation ≡ true) (id : String) (metadata : Option Metadata)
      (s : AgentState) {t : Task} (found : lookup id s.store.tasks ≡ some t) where
    pub accessible_task_anonymous :
        requester metadata ≡ none
        → accessible_task codec cfg id metadata s ≡ (raise not_authenticated, s)
    unfolding accessible_task get_task check_access
    accessible_task_anonymous h = rw (found, find_task, isolated, h, require_principal) refl

    pub accessible_task_unowned :
        {p : Principal}
        → requester metadata ≡ some p
        → task_principal codec cfg t ≡ none
        → accessible_task codec cfg id metadata s ≡ (raise denied, s)
    unfolding accessible_task get_task check_access task_principal
    accessible_task_unowned asked h =
        rw (found, find_task, isolated, asked, require_principal, h, enforce_task_access) refl

    module _ {p q : Principal} (asked : requester metadata ≡ some p)
        (stored : task_principal codec cfg t ≡ some q) where
      pub accessible_task_matched :
          matches cfg.require_tenant_match q p ≡ true
          → accessible_task codec cfg id metadata s ≡ (ok t, s)
      unfolding accessible_task get_task check_access task_principal matches
      accessible_task_matched h =
          rw (found, find_task, isolated, asked, require_principal, stored, enforce_task_access, h)
            refl

      pub accessible_task_mismatched :
          matches cfg.require_tenant_match q p ≡ false
          → accessible_task codec cfg id metadata s ≡ (raise denied, s)
      unfolding accessible_task get_task check_access task_principal matches
      accessible_task_mismatched h =
          rw (found, find_task, isolated, asked, require_principal, stored, enforce_task_access, h)
            refl

  -- the store has the task, and its principal matches the one of the request
  abbrev pub Granted : String → Option Metadata → AgentState → Task → Type 0
  Granted id metadata s t =
      (lookup id s.store.tasks ≡ some t)
      × ((p : Principal) × (q : Principal) × (requester metadata ≡ some p)
          × (task_principal codec cfg t ≡ some q)
          × (matches cfg.require_tenant_match q p ≡ true))

  -- With tenant isolation on, the lookup that the handlers of a named task begin with gives a task
  -- only where the store has it and both the request and the task have principals, which match.
  pub accessible_task-Granted :
      (id : String) (metadata : Option Metadata) (s : AgentState) {t : Task}
      → cfg.tenant_isolation ≡ true
      → (accessible_task codec cfg id metadata s).0 ≡ ok t
      → Granted id metadata s t
  accessible_task-Granted id metadata s {t} isolated h =
      elim (Option-cases (lookup id s.store.tasks)) [
        | inl missing ↦ absurd (cc (accessible_task_missing id metadata s missing))
        | inr (u, found) ↦ elim (Option-cases (requester metadata)) [
          | inl e ↦ absurd (cc (accessible_task_anonymous isolated id metadata s found e))
          | inr (p, asked) ↦ elim (Option-cases (task_principal codec cfg u)) [
            | inl e ↦ absurd (cc (accessible_task_unowned isolated id metadata s found asked e))
            | inr (q, stored) ↦ elim (Bool-cases (matches cfg.require_tenant_match q p)) [
              | inl e ↦ granted found asked stored e
              | inr e ↦
                  absurd
                    (cc (accessible_task_mismatched isolated id metadata s found asked stored e))
            ]
          ]
        ]
      ]
    where
      granted :
          {u : Task} {p q : Principal}
          → lookup id s.store.tasks ≡ some u
          → requester metadata ≡ some p
          → task_principal codec cfg u ≡ some q
          → matches cfg.require_tenant_match q p ≡ true
          → Granted id metadata s t
      granted {u} {p} {q} found asked stored e =
          subst (Granted id metadata s) same (found, (p, q, asked, stored, e))
        where
          same : u ≡ t
          same = cc (accessible_task_matched isolated id metadata s found asked stored e)

  accessible_task-cases :
      (id : String) (metadata : Option Metadata) (s : AgentState)
      → cfg.tenant_isolation ≡ true
      → ((t : Task) × (accessible_task codec cfg id metadata s ≡ (ok t, s)))
        ⊎ ((e : Exc) × (accessible_task codec cfg id metadata s ≡ (raise e, s)))
  accessible_task-cases id metadata s isolated = elim (Option-cases (lookup id s.store.tasks)) [
    | inl missing ↦ inr (_, accessible_task_missing id metadata s missing)
    | inr (u, found) ↦ elim (Option-cases (requester metadata)) [
      | inl e ↦ inr (_, accessible_task_anonymous isolated id metadata s found e)
      | inr (p, asked) ↦ elim (Option-cases (task_principal codec cfg u)) [
        | inl e ↦ inr (_, accessible_task_unowned isolated id metadata s found asked e)
        | inr (q, stored) ↦ elim (Bool-cases (matches cfg.require_tenant_match q p)) [
          | inl e ↦ inl (_, accessible_task_matched isolated id metadata s found asked stored e)
          | inr e ↦ inr (_, accessible_task_mismatched isolated id metadata s found asked stored e)
        ]
      ]
    ]
  ]

  -- Nothing is granted, so the lookup is refused.
  pub ungranted_lookup :
      (id : String) (metadata : Option Metadata) (s : AgentState)
      → cfg.tenant_isolation ≡ true
      → ((t : Task) → ¬ Granted id metadata s t)
      → (e : Exc) × (accessible_task codec cfg id metadata s ≡ (raise e, s))
  ungranted_lookup id metadata s isolated h = elim (accessible_task-cases id metadata s isolated) [
    | inl (t, e) ↦ absurd (h t (accessible_task-Granted id metadata s isolated (ap (λ r. r.0) e)))
    | inr refused ↦ refused
  ]

  -- a request whose lookup of the task is refused
  module _ (fresh : Fresh) (id : String) (metadata : Option Metadata) (s : AgentState) {e : Exc}
      (refused : accessible_task codec cfg id metadata s ≡ (raise e, s)) where
    abbrev by_id : TaskIdParams
    by_id = record { id = id; metadata = metadata }

    -- the handlers of `TaskIdParams`
    pub by_id_refused :
        (r : RequestId) (reply_to : Option String) (replay : Bool)
        → (is_given reply_to ≡ true)
        → (tasks_get codec cfg by_id s ≡ (raise e, s))
          × (tasks_cancel codec cfg fresh by_id s ≡ (raise e, s))
          × (tasks_subscribe codec cfg r reply_to replay by_id s ≡ (raise e, s))
    unfolding tasks_get tasks_cancel tasks_subscribe check_reply_to
    by_id_refused r reply_to replay given =
        (rw refused refl, rw refused refl, rw (given, refused) refl)

    -- the handlers that resume
    pub resume_refused :
        (r : RequestId) (reply_to : Option String) (m : Message) (c : Option TaskConfiguration)
        → (tasks_continue codec cfg fresh
              (record { id = id; message = m; configuration = c; metadata = metadata })
              s
            ≡ (raise e, s))
          × (tasks_continue_stream codec cfg r reply_to fresh
                (record { id = id; message = m; configuration = c; metadata = metadata })
                s
              ≡ (raise e, s))
          × (continue_task_stream_local codec cfg fresh
                (record { id = id; message = m; configuration = c; metadata = metadata })
                s
              ≡ (raise e, s))
    unfolding tasks_continue tasks_continue_stream continue_task_stream_local resume_task
    resume_refused r reply_to m c = (rw refused refl, rw refused refl, rw refused refl)

    -- the handlers of push notification configs that name a task
    pub push_refused :
        (pushes : PushCodec) (config_id : Option String)
        → (push_config_get codec pushes cfg
              (record { id = id; metadata = metadata; push_notification_config_id = config_id })
              s
            ≡ (raise e, s))
          × (push_config_list codec pushes cfg
                (record { id = id; metadata = metadata; push_notification_config_id = config_id })
                s
              ≡ (raise e, s))
          × (push_config_delete codec pushes cfg
                (record { id = id; metadata = metadata; push_notification_config_id = config_id })
                s
              ≡ (raise e, s))
    unfolding push_config_get push_config_list push_config_delete
    push_refused pushes config_id = (rw refused refl, rw refused refl, rw refused refl)
