-- ===== src/Redis/Calls.antt =====
-- The calls that write a task or its log, as one type, with what each store replies: the in-memory
-- store is what the Redis store should do.
use kafka_a2a.Common.{ℕ, String, ◌≡◌, Option, none, some, List, [], ◌∷◌, ◌++◌, Result, ok, raise}
use kafka_a2a.Common.Dict.{lookup}
use kafka_a2a.Common.Value.{Metadata}
use kafka_a2a.Models.{
  Message, Task, TaskStatus, Artifact, TaskStatusUpdateEvent, TaskArtifactUpdateEvent,
}
use kafka_a2a.TaskStore.State.{InMemoryTaskStore, new_task}
use kafka_a2a.TaskStore.State as State
use kafka_a2a.TaskStore.Append as Append
use kafka_a2a.TaskStore.Append.{status_event, artifact_event, with_status}
use kafka_a2a.Redis.Server.{RedisServer}
use kafka_a2a.Redis.Json.{Json, TaskSurvives, StatusSurvives, ArtifactSurvives}
use kafka_a2a.Redis.Keys.{IsUuid}
use kafka_a2a.Redis.Store.{RedisStoreError, create_task, append_status, append_artifact}
use kafka_a2a.Redis.Store as Store

pub data Call : Type 0 where
  create : String → String → ℕ → Message → Option String → Option Metadata → Call
  status : String → TaskStatus → Call
  artifact : String → Artifact → Call

pub data Reply : Type 0 where
  created : Task → Reply
  status_added : TaskStatusUpdateEvent → Reply
  artifact_added : TaskArtifactUpdateEvent → Reply
  no_task : String → Reply
  failed : Reply

-- the reply to a call of the in-memory store, and the store behind it
abbrev pub memory_reply :
    {A : Type 0}
    → (A → Reply)
    → InMemoryTaskStore
    → Result State.KeyError (A × InMemoryTaskStore)
    → Reply × InMemoryTaskStore
memory_reply reply s (ok r) = (reply r.0, r.1)
memory_reply reply s (raise (State.key_error id)) = (no_task id, s)

unfoldable pub call_memory : Call → InMemoryTaskStore → Reply × InMemoryTaskStore
call_memory (create id fresh now message context_id metadata) s =
    let (t, s') = State.create_task id fresh now message context_id metadata s in (created t, s')
call_memory (status id st) s = memory_reply status_added s (Append.append_status id st s)
call_memory (artifact id a) s = memory_reply artifact_added s (Append.append_artifact id a s)

unfoldable pub run_memory : List Call → InMemoryTaskStore → List Reply × InMemoryTaskStore
unfolding call_memory
run_memory [] s = ([], s)
run_memory (c ∷ cs) s =
    let (reply, s') = call_memory c s in
    let (replies, s'') = run_memory cs s' in (reply ∷ replies, s'')

abbrev pub redis_reply :
    {A Db : Type 0} → (A → Reply) → Db → Result RedisStoreError (A × Db) → Reply × Db
redis_reply reply db (ok r) = (reply r.0, r.1)
redis_reply reply db (raise (Store.key_error id)) = (no_task id, db)
redis_reply reply db (raise _) = (failed, db)

module _ (R : RedisServer) (json : Json) (namespace : String) where
  unfoldable pub call_redis : Call → R.Db → Reply × R.Db
  call_redis (create id fresh now message context_id metadata) db =
      let (t, after) = create_task R json namespace id fresh now message context_id metadata db in
      (created t, after)
  call_redis (status id st) db =
      redis_reply status_added db (append_status R json namespace id st db)
  call_redis (artifact id a) db =
      redis_reply artifact_added db (append_artifact R json namespace id a db)

  unfoldable pub run_redis : List Call → R.Db → List Reply × R.Db
  unfolding call_redis
  run_redis [] db = ([], db)
  run_redis (c ∷ cs) db =
      let (reply, after) = call_redis c db in
      let (replies, last) = run_redis cs after in (reply ∷ replies, last)

-- A call that gives a task an unused `uuid4` for its id, or names one, and whose values come back
-- from their JSON.
abbrev pub Survives : Json → Call → InMemoryTaskStore → Type 0
Survives json (create id fresh now message context_id metadata) s =
    IsUuid id
    × (lookup id s.tasks ≡ none)
    × TaskSurvives json (new_task id fresh now message context_id metadata)
Survives json (status id st) s =
    IsUuid id
    × ((t : Task)
        → lookup id s.tasks ≡ some t
        → TaskSurvives json (with_status t id st) × StatusSurvives json (status_event t id st))
Survives json (artifact id a) s =
    IsUuid id
    × ((t : Task)
        → lookup id s.tasks ≡ some t
        → TaskSurvives json (record t { artifacts = t.artifacts ++ a ∷ [] })
          × ArtifactSurvives json (artifact_event t id a))

abbrev pub AllSurvive : Json → List Call → InMemoryTaskStore → Type 0
AllSurvive json [] s = Unit
AllSurvive json (c ∷ cs) s = Survives json c s × AllSurvive json cs (call_memory c s).1
