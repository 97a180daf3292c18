-- ===== src/Tests/Data.antt =====
-- A principal codec, an agent and some tasks to try the theorems on.
use mathlib.Core.Path.{subst}
use kafka_a2a.Common.{
  String, ◌≡◌, refl, ◌≢◌, Bool, true, false, Option, none, some, List, [], ◌∷◌, ◌==◌, eq_iff,
  if◌then◌else◌, arith, Bool-cases, inl, inr,
}
use kafka_a2a.Common.Int.{pos}
use kafka_a2a.Common.Value.{Value, Fields, Metadata, null, str, obj, field, end}
use kafka_a2a.Models.{
  user, text, Message, TaskState, working, input_required, TaskStatus, Artifact, Task,
}
use kafka_a2a.Tenancy.{Principal, PrincipalCodec}
use kafka_a2a.TaskStore.State.{InMemoryTaskStore, empty}
use kafka_a2a.TaskStore.Ops.{Op, create, status, artifact}
use kafka_a2a.Agent.Config.{Ka2aAgentConfig}
use kafka_a2a.Agent.State.{AgentState, Fresh}

abbrev text_value : Option String → Value
text_value none = null
text_value (some s) = str s

abbrev claims_value : Option Fields → Value
claims_value none = null
claims_value (some fs) = obj fs

abbrev value_text : Value → Option String
value_text (str s) = some s
value_text _ = none

abbrev value_claims : Value → Option Fields
value_claims (obj fs) = some fs
value_claims _ = none

abbrev dump : Principal → Value
dump p = obj (
    field "userId" (str p.user_id) (
      field "tenantId" (text_value p.tenant_id) (
        field "bearerToken" (text_value p.bearer_token)
          (field "claims" (claims_value p.claims) end))))

abbrev validate : Value → Option Principal
validate (obj (field _ (str u) (field _ t (field _ b (field _ c end))))) =
    if u == ""
    then none
    else some (record {
      user_id = u;
      tenant_id = value_text t;
      bearer_token = value_text b;
      claims = value_claims c;
    })
validate _ = none

value_text-text_value : (o : Option String) → value_text (text_value o) ≡ o
value_text-text_value none = refl
value_text-text_value (some s) = refl

value_claims-claims_value : (o : Option Fields) → value_claims (claims_value o) ≡ o
value_claims-claims_value none = refl
value_claims-claims_value (some s) = refl

pub validate-dump : (p : Principal) → p.user_id ≢ "" → validate (dump p) ≡ some p
validate-dump p h = elim (Bool-cases (p.user_id == "")) [
  | inl e ↦ absurd (ground (arith, eq_iff p.user_id ""))
  | inr e ↦
      rw
        (
          e,
          value_text-text_value p.tenant_id,
          value_text-text_value p.bearer_token,
          value_claims-claims_value p.claims,
        )
        refl
]

checked_user :
    (b : Bool) (q : Principal) {p : Principal}
    → (if b then none else some q) ≡ some p
    → (b ≡ false → q.user_id ≢ "")
    → p.user_id ≢ ""
checked_user true q h f = absurd cc
checked_user false q {p} h f = subst (λ (x : Principal). x.user_id ≢ "") same (f refl)
  where
    same : q ≡ p
    same = cc

pub validate_user : (v : Value) {p : Principal} → validate v ≡ some p → p.user_id ≢ ""
validate_user (obj (field _ (str u) (field _ t (field _ b (field _ c end))))) h =
    checked_user (u == "") _ h (λ e. ground (arith, eq_iff u ""))
validate_user _ h = absurd cc

abbrev pub codec : PrincipalCodec
codec = record {
  validate = validate;
  dump = dump;
  validate-dump = validate-dump;
  validate_user = validate_user;
  validate-null = refl;
}

-- alice and bob of one tenant
abbrev pub alice : Principal
alice = record {
  user_id = "alice";
  tenant_id = some "t";
  bearer_token = some "secret";
  claims = none;
}

abbrev pub bob : Principal
bob = record { user_id = "bob"; tenant_id = some "t"; bearer_token = none; claims = none }

abbrev pub from : Principal → Option Metadata
from p = some (("principal", dump p) ∷ [])

abbrev pub hello : Message
hello = record {
  role = user;
  parts = text "hello" none ∷ [];
  metadata = none;
  extensions = none;
  reference_task_ids = none;
  message_id = "m";
  task_id = none;
  context_id = none;
}

abbrev pub in_state : TaskState → TaskStatus
in_state state = record { state = state; message = none; timestamp = 1 }

abbrev pub result : Artifact
result = record {
  artifact_id = "a";
  name = some "result";
  description = none;
  extensions = none;
  parts = text "done" none ∷ [];
  metadata = none;
}

-- a store with one task, which waits for input
abbrev pub ops : List Op
ops =
    create "task" "context" 0 hello none (from alice)
    ∷ status "task" (in_state working)
    ∷ artifact "task" result
    ∷ status "task" (in_state input_required)
    ∷ []

abbrev pub cfg : Ka2aAgentConfig
cfg = record {
  agent_name = "agent";
  push_notifications = true;
  push_queue_maxsize = 2;
  tenant_isolation = true;
  require_tenant_match = true;
  principal_metadata_key = "principal";
  store_principal_secrets = false;
  context_history_turns = pos 4;
}

abbrev pub fresh : Fresh
fresh = record { task_id = "new"; context_id = "fresh"; now = 7 }

-- the task as the operations leave it
abbrev pub waiting : Task
waiting = record {
  id = "task";
  context_id = "context";
  status = in_state input_required;
  history = some ((record hello { task_id = some "task"; context_id = some "context" }) ∷ []);
  artifacts = result ∷ [];
  metadata = from alice;
}

abbrev pub agent_of : InMemoryTaskStore → AgentState
agent_of store = record { store = store; processing = []; push_queue = some []; effects = [] }

-- an agent whose store has the task that waits
abbrev pub s0 : AgentState
s0 = agent_of (record empty { tasks = ("task", waiting) ∷ [] })
