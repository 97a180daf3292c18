-- ===== src/Agent/Tasks.antt =====
-- The handlers of the `tasks/` methods of src/kafka_a2a/runtime/agent.py but those of push
-- notification configs, and `continue_task_stream_local`.
use kafka_a2a.Common.{
  ℕ, String, Bool, true, false, not, Option, none, some, List, [], ◌∷◌, ◌++◌, ◌==◌, is_given,
  or_text, if◌then◌else◌, ok, raise, get_or, nat_eq,
}
use kafka_a2a.Common.Int.{ℤ, pos, negsuc, slice_from, slice_to}
use kafka_a2a.Common.Lists.{length, keep}
use kafka_a2a.Common.Dict.{lookup}
use kafka_a2a.Common.Value.{Metadata, str, or_empty, none_if_empty}
use kafka_a2a.Errors.{Exc, a2a, invalid_params}
use kafka_a2a.Models.{
  TaskState, submitted, input_required, auth_required, canceled, Message, TaskStatus, Task,
  status_update, TaskConfiguration, state_value,
}
use kafka_a2a.Tenancy.{PrincipalCodec}
use kafka_a2a.TaskStore.State.{InMemoryTaskStore, get_task, list_tasks, list_tasks_by_context}
use kafka_a2a.TaskStore.Append.{append_status}
use kafka_a2a.TaskStore.Reader.{latest_sequence}
use kafka_a2a.Agent.Config.{Ka2aAgentConfig}
use kafka_a2a.Agent.Conversation.{task_principal, owns}
use kafka_a2a.Agent.State.{
  RequestId, prepare, forward, cancel, AgentState, Fresh, Reply, Exec, ◌>>=◌, ◌>>◌, pure, gets,
  effect, enqueue_push,
}
use kafka_a2a.Agent.Access.{require_principal, accessible_task, request_metadata}
use kafka_a2a.Agent.Messages.{on_store, prepare_and_start, check_reply_to}

pub record TaskIdParams : Type 0 where
  pub id : String
  pub metadata : Option Metadata

pub record TaskListParams : Type 0 where
  pub limit : Option ℤ
  pub offset : Option ℤ
  pub status : Option String
  pub context_id : Option String
  pub metadata : Option Metadata

pub record TaskContinueParams : Type 0 where
  pub id : String
  pub message : Message
  pub configuration : Option TaskConfiguration
  pub metadata : Option Metadata

-- `proc is not None and not proc.done()`
unfoldable pub is_processing : String → AgentState → Bool
is_processing id s = elim (lookup id s.processing) [ none ↦ false | some done ↦ not done ]

-- `proc.cancel()` where the task is being processed
unfoldable pub cancel_processing : String → Exec (Unit {0})
unfolding is_processing
cancel_processing id s =
    if is_processing id s
    then (ok tt, record s { effects = s.effects ++ cancel id ∷ [] })
    else (ok tt, s)

-- the states in which a task waits for its user
unfoldable pub is_waiting : TaskState → Bool
is_waiting input_required = true
is_waiting auth_required = true
is_waiting _ = false

-- `if n: xs = xs[n:]`
unfoldable pub offset_by : Option ℤ → List Task → List Task
offset_by none xs = xs
offset_by (some n) xs = slice_from n xs

-- `if n: xs = xs[:n]`; a limit of 0 is no limit
unfoldable pub limit_to : Option ℤ → List Task → List Task
limit_to none xs = xs
limit_to (some (pos n)) xs = if nat_eq n 0 then xs else slice_to (pos n) xs
limit_to (some (negsuc n)) xs = slice_to (negsuc n) xs

unfoldable pub has_status : Option String → Task → Bool
has_status status t =
    if is_given status then state_value t.status.state == get_or status "" else true

-- the message of the user, with the ids of the task that it continues
unfoldable pub continuation : Task → Message → Message
continuation t message = record message {
  task_id = some t.id;
  context_id = some t.context_id;
  reference_task_ids = references message.reference_task_ids;
}
  where
    references : Option (List String) → Option (List String)
    references (some (x ∷ xs)) = some (x ∷ xs)
    references _ = some (t.id ∷ [])

-- the status is published, to the log and to the push queue
unfoldable pub publish_status : Ka2aAgentConfig → String → TaskStatus → Exec (Unit {0})
unfolding on_store
publish_status cfg id status = do
  event ← on_store (append_status id status)
  enqueue_push cfg.push_queue_maxsize id (status_update event)

-- `updated = get_task(id)`, which the code asserts to be there
unfoldable pub updated_task : String → Exec Task
updated_task id s = elim (get_task id s.store) [
  | none ↦ (raise (Exc.other "AssertionError"), s)
  | some t ↦ (ok t, s)
]

-- the two refusals of a task that is not waiting or is being processed
unfoldable pub check_waiting : String → Task → Exec (Unit {0})
check_waiting id t s =
    if is_waiting t.status.state
    then (if is_processing id s
        then (
          raise (
              a2a (record {
                code = invalid_params;
                message = "Task is already processing";
                details = some (("id", str id) ∷ []);
              })),
          s,
        )
        else (ok tt, s))
    else (
      raise (
          a2a (record {
            code = invalid_params;
            message = "Task is not waiting for user input";
            details = some (("id", str id) ∷ ("state", str (state_value t.status.state)) ∷ []);
          })),
      s,
    )

module _ (codec : PrincipalCodec) (cfg : Ka2aAgentConfig) where
  unfoldable pub tasks_get : TaskIdParams → Exec Reply
  tasks_get p = do t ← accessible_task codec cfg p.id p.metadata; pure (Reply.task t)

  -- the tasks of the requester, where tenants are isolated
  unfoldable pub owned_tasks : Option Metadata → List Task → Exec (List Task)
  unfolding owns
  owned_tasks metadata tasks =
      if cfg.tenant_isolation
      then (do
        principal ← require_principal codec cfg (or_empty metadata)
        pure (keep (λ t. owns codec cfg (some principal) (task_principal codec cfg t)) tasks))
      else pure tasks

  unfoldable pub listed_tasks : Option String → InMemoryTaskStore → List Task
  listed_tasks context_id s =
      if is_given context_id
      then list_tasks_by_context (get_or context_id "") none s
      else list_tasks s

  unfoldable pub tasks_list : TaskListParams → Exec Reply
  unfolding owned_tasks listed_tasks offset_by limit_to
  tasks_list p = do
    tasks ← gets (λ s. listed_tasks p.context_id s.store)
    owned ← owned_tasks p.metadata tasks
    let selected = keep (has_status p.status) owned
    pure (Reply.task_list (limit_to p.limit (offset_by p.offset selected)) (length selected))

  unfoldable pub tasks_cancel : Fresh → TaskIdParams → Exec Reply
  unfolding cancel_processing publish_status updated_task
  tasks_cancel fresh p = do
    t ← accessible_task codec cfg p.id p.metadata
    cancel_processing p.id
    publish_status cfg p.id
        (record { state = canceled; message = t.status.message; timestamp = fresh.now })
    updated ← updated_task p.id
    pure (Reply.task updated)

  -- What the handlers of a continued task share: the task resumes as submitted, with the user's
  -- message. They return the task as it was found, the message and the request's metadata.
  unfoldable pub resume_task : Fresh → TaskContinueParams → Exec (Task × Message × Metadata)
  unfolding check_waiting continuation publish_status
  resume_task fresh p = do
    t ← accessible_task codec cfg p.id p.metadata
    check_waiting p.id t
    metadata ← request_metadata codec cfg p.metadata
    let message = continuation t p.message
    publish_status cfg t.id
        (record { state = submitted; message = some message; timestamp = fresh.now })
    pure (t, message, metadata)

  unfoldable pub tasks_continue : Fresh → TaskContinueParams → Exec Reply
  unfolding resume_task prepare_and_start updated_task
  tasks_continue fresh p = do
    (found, message, metadata) ← resume_task fresh p
    t ← updated_task found.id
    prepare_and_start codec cfg t message p.configuration (none_if_empty metadata)
    updated ← updated_task found.id
    pure (Reply.task updated)

  unfoldable pub tasks_continue_stream :
      RequestId → Option String → Fresh → TaskContinueParams → Exec Reply
  unfolding resume_task updated_task
  tasks_continue_stream request_id reply_to fresh p = do
    (found, message, metadata) ← resume_task fresh p
    check_reply_to "replyTo is required for streaming" reply_to
    effect (forward request_id (or_text reply_to "") found.id false)
    t ← updated_task found.id
    effect (prepare t message p.configuration (none_if_empty metadata))
    updated ← updated_task found.id
    pure (Reply.task updated)

  -- `continue_task_stream_local`, up to the iterator that it returns: the task, and the number after
  -- which the iterator starts
  unfoldable pub continue_task_stream_local : Fresh → TaskContinueParams → Exec (Task × ℕ)
  unfolding resume_task prepare_and_start updated_task
  continue_task_stream_local fresh p = do
    (found, message, metadata) ← resume_task fresh p
    after ← gets (λ s. latest_sequence found.id s.store)
    t ← updated_task found.id
    prepare_and_start codec cfg t message p.configuration (none_if_empty metadata)
    updated ← updated_task found.id
    pure (updated, after)

  -- `tasks/subscribe` and `tasks/resubscribe`
  unfoldable pub tasks_subscribe : RequestId → Option String → Bool → TaskIdParams → Exec Reply
  tasks_subscribe request_id reply_to replay_history p = do
    check_reply_to "replyTo is required for subscribe" reply_to
    t ← accessible_task codec cfg p.id p.metadata
    effect (forward request_id (or_text reply_to "") p.id replay_history)
    pure (Reply.task t)
