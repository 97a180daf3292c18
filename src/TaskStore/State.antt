-- ===== src/TaskStore/State.antt =====
-- src/kafka_a2a/runtime/task_store.py: the store of the tasks and of their event logs.
-- A method that returns and changes the store gives the pair of both. `uuid4()` and the clock are
-- arguments. An `asyncio.Queue` is a number in `queues`, since two references to one queue share its
-- items; no queue has a bound, so `put_nowait` never fails. The lock is never held across an await,
-- so each method is one step.
use kafka_a2a.Common.{
  ℕ, ◌-◌, String, Bool, true, false, Option, none, some, List, [], ◌∷◌, ◌++◌, nat_eq, if◌then◌else◌,
  get_or, or_else, or_text,
}
use kafka_a2a.Common.Int.{ℤ, pos, negsuc}
use kafka_a2a.Common.Lists.{length, drop}
use kafka_a2a.Common.Dict.{Dict, lookup, insert, values, contains}
use kafka_a2a.Common.Value.{Value, Metadata, is_blank, none_if_empty, or_empty}
use kafka_a2a.Models.{
  TaskState, submitted, input_required, auth_required, completed, failed, canceled, rejected,
  Message, Task, TaskEvent, task, PushNotificationConfig,
}

abbrev pub scope_metadata_keys : List String
scope_metadata_keys =
    "scope_mode" ∷ "structural_location_id" ∷ "structural_location_ids" ∷ "stock_location_id"
    ∷ "sync_key" ∷ "entity_ids" ∷ []

pub record TaskEventRecord : Type 0 where
  pub sequence : ℕ
  pub event : TaskEvent

-- one round of the loop: the value that the key has, if any, is copied unless it is blank
copy_scope : String → Option Value → Metadata → Metadata
copy_scope key none scoped = scoped
copy_scope key (some value) scoped = if is_blank value then scoped else insert key value scoped

copy_scopes : List String → Metadata → Metadata → Metadata
unfolding copy_scope
copy_scopes [] metadata scoped = scoped
copy_scopes (key ∷ keys) metadata scoped =
    copy_scopes keys metadata (copy_scope key (lookup key metadata) scoped)

unfoldable pub extract_task_scope_metadata : Option Metadata → Metadata
unfolding copy_scopes
extract_task_scope_metadata none = []
extract_task_scope_metadata (some metadata) = copy_scopes scope_metadata_keys metadata []

-- The states in which a status update event is final.
unfoldable pub is_final : TaskState → Bool
is_final completed = true
is_final failed = true
is_final canceled = true
is_final rejected = true
is_final input_required = true
is_final auth_required = true
is_final _ = false

pub record InMemoryTaskStore : Type 0 where
  pub tasks : Dict Task
  pub events : Dict (List TaskEventRecord)
  pub subscribers : Dict (List ℕ)
  pub push_configs : Dict (Dict PushNotificationConfig)
  pub contexts : Dict (List String)
  pub queues : ℕ → List TaskEventRecord
  pub next_queue : ℕ

abbrev pub empty : InMemoryTaskStore
empty = record {
  tasks = [];
  events = [];
  subscribers = [];
  push_configs = [];
  contexts = [];
  queues = λ q. [];
  next_queue = 0;
}

-- A lookup that raises `KeyError`.
pub data KeyError : Type 0 where
  key_error : String → KeyError

-- `m.setdefault(k, [])`
unfoldable pub set_default {ℓ} : {V : Type ℓ} → String → V → Dict V → Dict V
set_default k d m = if contains k m then m else insert k d m

-- The task that `create_task` makes: `task_id` and `fresh_context` are its two calls of `uuid4`.
unfoldable pub new_task : String → String → ℕ → Message → Option String → Option Metadata → Task
new_task task_id fresh_context now initial_message context_id metadata =
    let context = or_text (or_else context_id initial_message.context_id) fresh_context in
    let message = record initial_message { task_id = some task_id; context_id = some context } in
    record {
      id = task_id;
      context_id = context;
      status = record { state = submitted; message = some message; timestamp = now };
      history = some (message ∷ []);
      artifacts = [];
      metadata = none_if_empty (or_empty metadata);
    }

unfoldable pub create_task :
    String
    → String
    → ℕ
    → Message
    → Option String
    → Option Metadata
    → InMemoryTaskStore
    → Task × InMemoryTaskStore
unfolding new_task set_default
create_task task_id fresh_context now initial_message context_id metadata s =
    let t = new_task task_id fresh_context now initial_message context_id metadata in
    (
      t,
      record s {
        tasks = insert task_id t s.tasks;
        events = insert task_id (record { sequence = 0; event = task task_id } ∷ []) s.events;
        subscribers = set_default task_id [] s.subscribers;
        contexts =
            insert t.context_id (get_or (lookup t.context_id s.contexts) [] ++ task_id ∷ [])
              s.contexts;
      },
    )

unfoldable pub get_task : String → InMemoryTaskStore → Option Task
get_task task_id s = lookup task_id s.tasks

unfoldable pub list_tasks : InMemoryTaskStore → List Task
list_tasks s = values s.tasks

-- `task_ids[-limit:]` under its test; `-0` is 0, so a limit of 0 takes all.
unfoldable pub limited {ℓ} : {A : Type ℓ} → Option ℤ → List A → List A
limited none xs = xs
limited (some (negsuc n)) xs = xs
limited (some (pos n)) xs = if nat_eq n 0 then xs else drop (length xs - n) xs

-- `[self._tasks[tid] for tid in task_ids if tid in self._tasks]`
unfoldable pub present {ℓ} : {V : Type ℓ} → Dict V → List String → List V
present m [] = []
present m (k ∷ ks) = elim (lookup k m) [ none ↦ present m ks | some v ↦ v ∷ present m ks ]

unfoldable pub list_tasks_by_context : String → Option ℤ → InMemoryTaskStore → List Task
unfolding limited present
list_tasks_by_context context_id limit s =
    present s.tasks (limited limit (get_or (lookup context_id s.contexts) []))
