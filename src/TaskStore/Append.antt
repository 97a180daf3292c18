-- ===== src/TaskStore/Append.antt =====
-- The writers of the event log: `append_status`, `append_artifact`, and what they share.
use kafka_a2a.Common.{
  ℕ, ◌+◌, String, ◌≡◌, Option, none, some, List, [], ◌∷◌, ◌++◌, nat_eq, if◌then◌else◌, Result, ok,
  raise, get_or, or_else,
}
use kafka_a2a.Common.Lists.{get_last?}
use kafka_a2a.Common.Dict.{lookup, insert}
use kafka_a2a.Common.Value.{none_if_empty}
use kafka_a2a.Models.{
  Message, TaskStatus, Artifact, Task, TaskStatusUpdateEvent, TaskArtifactUpdateEvent, TaskEvent,
  status_update, artifact_update,
}
use kafka_a2a.TaskStore.State.{
  TaskEventRecord, InMemoryTaskStore, KeyError, key_error, is_final, extract_task_scope_metadata,
}

-- the sequence number that `_append_event_locked` gives
abbrev pub next_sequence : List TaskEventRecord → ℕ
next_sequence records = elim (get_last? records) [ none ↦ 0 | some r ↦ r.sequence + 1 ]

unfoldable pub append_event_locked :
    String → TaskEvent → InMemoryTaskStore → TaskEventRecord × InMemoryTaskStore
append_event_locked task_id event s =
    let records = get_or (lookup task_id s.events) [] in
    let r : TaskEventRecord = record { sequence = next_sequence records; event = event } in
    (r, record s { events = insert task_id (records ++ r ∷ []) s.events })

-- `queue.put_nowait(record)`
unfoldable pub enqueue : ℕ → TaskEventRecord → (ℕ → List TaskEventRecord) → ℕ → List TaskEventRecord
enqueue q r queues p = if nat_eq q p then queues p ++ r ∷ [] else queues p

unfoldable pub put_all :
    List ℕ → TaskEventRecord → (ℕ → List TaskEventRecord) → ℕ → List TaskEventRecord
put_all [] r queues = queues
put_all (q ∷ qs) r queues = put_all qs r (enqueue q r queues)

unfoldable pub fanout_locked : String → TaskEventRecord → InMemoryTaskStore → InMemoryTaskStore
unfolding put_all enqueue
fanout_locked task_id r s = record s {
  queues = put_all (get_or (lookup task_id s.subscribers) []) r s.queues;
}

-- the ids that a status message gets where it has none
unfoldable pub address_message : Task → String → Message → Message
address_message t task_id message = record message {
  task_id = or_else message.task_id (some task_id);
  context_id = or_else message.context_id (some t.context_id);
}

unfoldable pub address_status : Task → String → TaskStatus → TaskStatus
unfolding address_message
address_status t task_id status = elim status.message [
  | none ↦ status
  | some message ↦ record status { message = some (address_message t task_id message) }
]

-- the history with the status message at its end
unfoldable pub append_history : Option Message → Option (List Message) → Option (List Message)
append_history none history = history
append_history (some message) history = some (get_or history [] ++ message ∷ [])

unfoldable pub status_event : Task → String → TaskStatus → TaskStatusUpdateEvent
unfolding address_status
status_event t task_id status = record {
  task_id = task_id;
  context_id = t.context_id;
  status = address_status t task_id status;
  final = is_final status.state;
  metadata = none_if_empty (extract_task_scope_metadata t.metadata);
}

-- the task after the status
unfoldable pub with_status : Task → String → TaskStatus → Task
unfolding address_status append_history
with_status t task_id status =
    let addressed = address_status t task_id status in
    record t { status = addressed; history = append_history addressed.message t.history }

unfoldable pub publish : String → TaskEvent → InMemoryTaskStore → InMemoryTaskStore
unfolding append_event_locked fanout_locked
publish task_id event s =
    let (r, s') = append_event_locked task_id event s in fanout_locked task_id r s'

unfoldable pub append_status :
    String
    → TaskStatus
    → InMemoryTaskStore
    → Result KeyError (TaskStatusUpdateEvent × InMemoryTaskStore)
append_status task_id status s = elim (lookup task_id s.tasks) [
  | none ↦ raise (key_error task_id)
  | some t ↦
      let event = status_event t task_id status in
      ok (
        event,
        publish task_id (status_update event)
            (record s { tasks = insert task_id (with_status t task_id status) s.tasks }),
      )
]

unfoldable pub artifact_event : Task → String → Artifact → TaskArtifactUpdateEvent
artifact_event t task_id artifact = record {
  task_id = task_id;
  context_id = t.context_id;
  artifact = artifact;
  append = none;
  last_chunk = none;
  metadata = none_if_empty (extract_task_scope_metadata t.metadata);
}

unfoldable pub append_artifact :
    String
    → Artifact
    → InMemoryTaskStore
    → Result KeyError (TaskArtifactUpdateEvent × InMemoryTaskStore)
append_artifact task_id artifact s = elim (lookup task_id s.tasks) [
  | none ↦ raise (key_error task_id)
  | some t ↦
      let event = artifact_event t task_id artifact in
      ok (
        event,
        publish task_id (artifact_update event) (record s {
          tasks = insert task_id (record t { artifacts = t.artifacts ++ artifact ∷ [] }) s.tasks;
        }),
      )
]

-- What the two writers return, by the task that they find.
module _ (id : String) (s : InMemoryTaskStore) where
  pub append_status_missing :
      (st : TaskStatus) → lookup id s.tasks ≡ none → append_status id st s ≡ raise (key_error id)
  unfolding append_status
  append_status_missing st e = rw (e, append_status)

  pub append_status_found :
      (st : TaskStatus) {t : Task}
      → lookup id s.tasks ≡ some t
      → append_status id st s
        ≡ ok (
          status_event t id st,
          publish id
              (status_update (status_event t id st))
              (record s { tasks = insert id (with_status t id st) s.tasks }),
        )
  unfolding append_status
  append_status_found st e = rw (e, append_status)

  pub append_artifact_missing :
      (a : Artifact) → lookup id s.tasks ≡ none → append_artifact id a s ≡ raise (key_error id)
  unfolding append_artifact
  append_artifact_missing a e = rw (e, append_artifact)

  pub append_artifact_found :
      (a : Artifact) {t : Task}
      → lookup id s.tasks ≡ some t
      → append_artifact id a s
        ≡ ok (
          artifact_event t id a,
          publish id (artifact_update (artifact_event t id a)) (record s {
            tasks = insert id (record t { artifacts = t.artifacts ++ a ∷ [] }) s.tasks;
          }),
        )
  unfolding append_artifact
  append_artifact_found a e = rw (e, append_artifact)
