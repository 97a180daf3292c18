-- ===== src/Redis/Store.antt =====
-- The operations of `RedisTaskStore` on tasks and their events. An operation that only reads returns
-- its result, one that writes the result and the keyspace. `uuid4()` and the clock are arguments.
use kafka_a2a.Common.{
  ℕ, zero, suc, String, Option, none, some, List, [], ◌∷◌, ◌++◌, Result, ok, raise, ◌>>=◌, get_or,
  or_text,
}
use kafka_a2a.Common.Dict.{Dict, lookup}
use kafka_a2a.Common.Int.{ℤ, pos, negsuc}
use mathlib.Core.List.{reverse}
use kafka_a2a.Common.Numeral.{int_of}
use kafka_a2a.Common.Text.{decimal}
use kafka_a2a.Common.Value.{Metadata}
use kafka_a2a.Models.{
  Message, Task, TaskStatus, Artifact, TaskStatusUpdateEvent, TaskArtifactUpdateEvent,
}
use kafka_a2a.TaskStore.State.{new_task}
use kafka_a2a.TaskStore.Append.{status_event, artifact_event, with_status}
use kafka_a2a.Redis.Server.{RedisServer, ResponseError}
use kafka_a2a.Redis.Json.{Json}
use kafka_a2a.Redis.Keys.{tasks_index_key, context_tasks_index_key, task_key, seq_key, events_key}

-- what an operation raises: `KeyError`, an error of the server, or one of the JSON
pub data RedisStoreError : Type 0 where
  key_error : String → RedisStoreError
  server_error : ResponseError → RedisStoreError
  validation_error : RedisStoreError

-- a command of the server, whose error passes through
abbrev pub command : {A : Type 0} → Result ResponseError A → Result RedisStoreError A
command (ok a) = ok a
command (raise e) = raise (server_error e)

-- `model_validate_json`, which raises
abbrev pub validated : {A : Type 0} → Option A → Result RedisStoreError A
validated none = raise validation_error
validated (some a) = ok a

-- An event as the stream holds it: a task is a snapshot here.
pub data StoredEvent : Type 0 where
  stored_task : Task → StoredEvent
  stored_status : TaskStatusUpdateEvent → StoredEvent
  stored_artifact : TaskArtifactUpdateEvent → StoredEvent

abbrev pub artifact_or_none : Option TaskArtifactUpdateEvent → Option StoredEvent
artifact_or_none none = none
artifact_or_none (some e) = some (stored_artifact e)

-- `_parse_task_event`: a task, else a status update, else an artifact update
unfoldable pub parse_task_event : Json → String → Option StoredEvent
parse_task_event json value = elim (json.validate_task value) [
  | some t ↦ some (stored_task t)
  | none ↦ elim (json.validate_status_event value) [
    | some e ↦ some (stored_status e)
    | none ↦ artifact_or_none (json.validate_artifact_event value)
  ]
]

pub record StoredRecord : Type 0 where
  pub sequence : ℕ
  pub event : StoredEvent

abbrev pub record_or_none : Option ℕ → Option StoredEvent → Option StoredRecord
record_or_none (some seq) (some event) = some (record { sequence = seq; event = event })
record_or_none _ _ = none

-- an entry of the stream as `iter_events` reads it; nothing where that raises
unfoldable pub read_entry : Json → Dict String → Option StoredRecord
unfolding parse_task_event
read_entry json fields =
    record_or_none (int_of (or_text (lookup "seq" fields) "0"))
      (parse_task_event json (or_text (lookup "event" fields) ""))

-- the fields of a new entry
abbrev pub event_fields : ℕ → String → Dict String
event_fields seq event = ("seq", decimal seq) ∷ ("event", event) ∷ []

module _ (R : RedisServer) (json : Json) (namespace : String) where
  unfoldable pub create_task :
      String → String → ℕ → Message → Option String → Option Metadata → R.Db → Task × R.Db
  unfolding new_task task_key seq_key events_key tasks_index_key context_tasks_index_key
  create_task task_id fresh_context now initial_message context_id metadata db =
      let t = new_task task_id fresh_context now initial_message context_id metadata in
      let set_task = R.set (task_key namespace task_id) (json.dump_task t) db in
      let indexed = R.zadd (tasks_index_key namespace) task_id now set_task in
      let by_context =
        R.zadd (context_tasks_index_key namespace t.context_id) task_id now indexed in
      let numbered = R.set (seq_key namespace task_id) (decimal 0) by_context in
      (t, R.xadd (events_key namespace task_id) (event_fields 0 (json.dump_task t)) numbered)

  abbrev pub task_or_none : Option String → Result RedisStoreError (Option Task)
  task_or_none none = ok none
  task_or_none (some raw) = validated (json.validate_task raw) >>= λ t. ok (some t)

  unfoldable pub get_task : String → R.Db → Result RedisStoreError (Option Task)
  unfolding task_key
  get_task task_id db = command (R.get (task_key namespace task_id) db) >>= task_or_none

  -- `if task is None: raise KeyError(task_id)`
  abbrev pub or_key_error : String → Option Task → Result RedisStoreError Task
  or_key_error task_id none = raise (key_error task_id)
  or_key_error task_id (some t) = ok t

  -- the part of a writer from `incr` on: the next number, then the snapshot and the event in one step
  unfoldable pub write_event : String → Task → String → R.Db → Result RedisStoreError R.Db
  unfolding task_key seq_key events_key
  write_event task_id t event db =
      command (R.incr (seq_key namespace task_id) db) >>= λ (numbered : ℕ × R.Db). ok (
        R.xadd (events_key namespace task_id) (event_fields numbered.0 event)
          (R.set (task_key namespace task_id) (json.dump_task t) numbered.1))

  -- `append_status` behind its read of the task
  unfoldable pub write_status :
      String → TaskStatus → Task → R.Db → Result RedisStoreError (TaskStatusUpdateEvent × R.Db)
  unfolding status_event with_status write_event
  write_status task_id status t db =
      let event = status_event t task_id status in
      write_event task_id (with_status t task_id status) (json.dump_status_event event) db
      >>= λ after. ok (event, after)

  unfoldable pub append_status :
      String → TaskStatus → R.Db → Result RedisStoreError (TaskStatusUpdateEvent × R.Db)
  unfolding get_task write_status
  append_status task_id status db =
      get_task task_id db >>= or_key_error task_id >>= λ t. write_status task_id status t db

  -- `append_artifact` behind its read of the task
  unfoldable pub write_artifact :
      String → Artifact → Task → R.Db → Result RedisStoreError (TaskArtifactUpdateEvent × R.Db)
  unfolding artifact_event write_event
  write_artifact task_id artifact t db =
      let event = artifact_event t task_id artifact in
      write_event task_id (record t { artifacts = t.artifacts ++ artifact ∷ [] })
        (json.dump_artifact_event event) db
      >>= λ after. ok (event, after)

  unfoldable pub append_artifact :
      String → Artifact → R.Db → Result RedisStoreError (TaskArtifactUpdateEvent × R.Db)
  unfolding get_task write_artifact
  append_artifact task_id artifact db =
      get_task task_id db >>= or_key_error task_id >>= λ t. write_artifact task_id artifact t db

  -- `int(raw or "0")`, and 0 where that raises
  unfoldable pub latest_sequence : String → R.Db → Result RedisStoreError ℕ
  unfolding seq_key
  latest_sequence task_id db = command (R.get (seq_key namespace task_id) db) >>= λ raw.
      ok (get_or (int_of (or_text raw "0")) 0)

  -- the snapshots that are there and that parse, in the order of the ids
  unfoldable pub snapshots : List String → R.Db → List Task
  unfolding task_key
  snapshots [] db = []
  snapshots (id ∷ ids) db =
      let rest = snapshots ids db in
      elim (R.get (task_key namespace id) db) [
        | ok (some raw) ↦ elim (json.validate_task raw) [ none ↦ rest | some t ↦ t ∷ rest ]
        | _ ↦ rest
      ]

  unfoldable pub list_tasks : R.Db → List Task
  unfolding snapshots tasks_index_key
  list_tasks db = snapshots (R.zrange (tasks_index_key namespace) db) db

  -- ZREVRANGE has the highest score first; its reply is turned around.
  abbrev pub context_ids : String → Option ℤ → R.Db → List String
  context_ids context_id none db = R.zrange (context_tasks_index_key namespace context_id) db
  context_ids context_id (some (negsuc n)) db = []
  context_ids context_id (some (pos zero)) db = []
  context_ids context_id (some (pos (suc n))) db =
      reverse (R.zrevrange (context_tasks_index_key namespace context_id) 0 n db)

  -- the last `limit` tasks of the context; a limit that is not above 0 lists nothing
  unfoldable pub list_tasks_by_context : String → Option ℤ → R.Db → List Task
  unfolding snapshots context_tasks_index_key
  list_tasks_by_context context_id limit db = snapshots (context_ids context_id limit db) db
