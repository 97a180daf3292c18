-- ===== src/Agent/State.antt =====
-- The state of an agent between two awaits, and a handler as an action on it.
-- A handler that raises keeps what it wrote before. Each `asyncio.create_task` and each
-- `Task.cancel()` is an entry of `effects`, in the order of the calls.
use kafka_a2a.Common.{
  ℕ, String, Bool, not, ◌&&◌, Option, none, some, List, [], ◌∷◌, ◌++◌, leb, nat_eq, if◌then◌else◌,
  Result, ok, raise,
}
use kafka_a2a.Common.Int.{ℤ}
use kafka_a2a.Common.Lists.{length}
use kafka_a2a.Common.Dict.{Dict}
use kafka_a2a.Common.Value.{Metadata}
use kafka_a2a.Errors.{Exc}
use kafka_a2a.Models.{Message, Task, TaskEvent, TaskConfiguration, TaskPushNotificationConfig}
use kafka_a2a.TaskStore.State.{InMemoryTaskStore}

pub data RequestId : Type 0 where
  text : String → RequestId
  number : ℤ → RequestId

pub data Effect : Type 0 where
  -- `_start_processing`: the task, its message, the configuration and the processor's metadata
  process : Task → Message → Option TaskConfiguration → Option Metadata → Effect
  -- `_start_processing_after_preparation`, with the request's metadata
  prepare : Task → Message → Option TaskConfiguration → Option Metadata → Effect
  -- `_begin_stream`: the request, the topic, the task, and whether the history is replayed
  forward : RequestId → String → String → Bool → Effect
  -- `proc.cancel()` of the task's processing
  cancel : String → Effect

-- `processing` has the tasks of `_processing`, with whether each is done.
pub record AgentState : Type 0 where
  pub store : InMemoryTaskStore
  pub processing : Dict Bool
  pub push_queue : Option (List (String × TaskEvent))
  pub effects : List Effect

-- What `uuid4()` and the clock give to a handler.
pub record Fresh : Type 0 where
  pub task_id : String
  pub context_id : String
  pub now : ℕ

pub data Reply : Type 0 where
  card : Reply
  task : Task → Reply
  task_list : List Task → ℕ → Reply
  push_config : TaskPushNotificationConfig → Reply
  push_configs : List TaskPushNotificationConfig → Reply
  nothing : Reply

abbrev pub Exec : Type 0 → Type 0
Exec A = AgentState → Result Exc A × AgentState

abbrev pub continue : {A B : Type 0} → Result Exc A → (A → Exec B) → Exec B
continue (ok a) f s = f a s
continue (raise e) f s = (raise e, s)

infixl 5 ◌>>=◌ ◌>>◌
abbrev pub ◌>>=◌ : {A B : Type 0} → Exec A → (A → Exec B) → Exec B
◌>>=◌ m f s = let (r, s') = m s in continue r f s'

abbrev pub ◌>>◌ : {A B : Type 0} → Exec A → Exec B → Exec B
m >> n = m >>= λ _. n

abbrev pub pure : {A : Type 0} → A → Exec A
pure a s = (ok a, s)

abbrev pub fail : {A : Type 0} → Exc → Exec A
fail e s = (raise e, s)

abbrev pub gets : {A : Type 0} → (AgentState → A) → Exec A
gets f s = (ok (f s), s)

-- an asyncio task is made or cancelled
abbrev pub effect : Effect → Exec (Unit {0})
effect e s = (ok tt, record s { effects = s.effects ++ e ∷ [] })

-- the queue with one more entry, unless it is full
unfoldable pub offer :
    ℕ → String × TaskEvent → List (String × TaskEvent) → List (String × TaskEvent)
offer maxsize e queue =
    if not (nat_eq maxsize 0) && leb maxsize (length queue) then queue else queue ++ e ∷ []

-- `_enqueue_push`
unfoldable pub enqueue_push : ℕ → String → TaskEvent → Exec (Unit {0})
unfolding offer
enqueue_push maxsize task_id event s = elim s.push_queue [
  | none ↦ (ok tt, s)
  | some queue ↦ (ok tt, record s { push_queue = some (offer maxsize (task_id, event) queue) })
]
