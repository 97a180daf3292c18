-- ===== src/Agent/Access.antt =====
-- Who may see a task: `_require_principal`, `_task_principal` and `_enforce_task_access` of
-- src/kafka_a2a/runtime/agent.py, and the lookup that the handlers begin with.
use kafka_a2a.Common.{String, Option, none, some, [], ◌∷◌, if◌then◌else◌, ok, raise}
use kafka_a2a.Common.Value.{Metadata, str, or_empty}
use kafka_a2a.Errors.{A2AErrorCode, Exc, a2a, task_not_found, unauthenticated, permission_denied}
use kafka_a2a.Models.{Task}
use kafka_a2a.Tenancy.{Principal, PrincipalCodec, extract_principal, with_principal, matches}
use kafka_a2a.TaskStore.State.{get_task}
use kafka_a2a.Agent.Config.{Ka2aAgentConfig}
use kafka_a2a.Agent.Conversation.{task_principal}
use kafka_a2a.Agent.State.{Exec, ◌>>=◌, ◌>>◌, pure, fail}

abbrev pub error : A2AErrorCode → String → Exc
error code message = a2a (record { code = code; message = message; details = none })

-- "Task not found", with the id
abbrev pub not_found : String → Exc
not_found id = a2a (record {
  code = task_not_found;
  message = "Task not found";
  details = some (("id", str id) ∷ []);
})

abbrev pub not_authenticated : Exc
not_authenticated = error unauthenticated "Unauthenticated"

abbrev pub denied : Exc
denied = error permission_denied "Permission denied"

module _ (codec : PrincipalCodec) (cfg : Ka2aAgentConfig) where
  unfoldable pub require_principal : Metadata → Exec Principal
  require_principal metadata = elim (extract_principal codec metadata cfg.principal_metadata_key) [
    | none ↦ fail not_authenticated
    | some principal ↦ pure principal
  ]

  unfoldable pub enforce_task_access : Task → Principal → Exec (Unit {0})
  enforce_task_access t principal = elim (task_principal codec cfg t) [
    | none ↦ fail denied
    | some stored ↦
        if matches cfg.require_tenant_match stored principal then pure tt else fail denied
  ]

  -- the tenant check of the handlers that name a task
  unfoldable pub check_access : Task → Option Metadata → Exec (Unit {0})
  unfolding require_principal enforce_task_access
  check_access t metadata =
      if cfg.tenant_isolation
      then (do principal ← require_principal (or_empty metadata); enforce_task_access t principal)
      else pure tt

  unfoldable pub find_task : String → Exec Task
  find_task id s = elim (get_task id s.store) [
    | none ↦ (raise (not_found id), s)
    | some t ↦ (ok t, s)
  ]

  -- `get_task`, "Task not found", and the tenant check
  unfoldable pub accessible_task : String → Option Metadata → Exec Task
  unfolding find_task check_access
  accessible_task id metadata = do t ← find_task id; check_access t metadata; pure t

  -- the request's metadata, with the principal in the form that is forwarded
  unfoldable pub request_metadata : Option Metadata → Exec Metadata
  unfolding require_principal
  request_metadata metadata =
      if cfg.tenant_isolation
      then (do
        principal ← require_principal (or_empty metadata)
        pure (with_principal codec (or_empty metadata) principal cfg.principal_metadata_key))
      else pure (or_empty metadata)
