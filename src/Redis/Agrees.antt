-- ===== src/Redis/Agrees.antt =====
-- Call by call, the Redis store agrees with the in-memory store.
use mathlib.Core.Path.{subst, ap₂}
use kafka_a2a.Common.{
  String, ◌≡◌, refl, inl, inr, Option-cases, none, some, List, [], ◌∷◌, ◌++◌, ok,
}
use kafka_a2a.Common.Dict.{lookup}
use kafka_a2a.Models.{Task, TaskStatus, Artifact}
use kafka_a2a.TaskStore.State.{InMemoryTaskStore, new_task, TaskEventRecord}
use kafka_a2a.TaskStore.State as State
use kafka_a2a.TaskStore.Append.{
  append_status_found, append_status_missing, append_artifact_found, append_artifact_missing,
  with_status, status_event, artifact_event,
}
use kafka_a2a.TaskStore.Log.{log}
use kafka_a2a.Redis.Server.{RedisServer}
use kafka_a2a.Redis.Json.{Json}
use kafka_a2a.Redis.Keys.{IsUuid}
use kafka_a2a.Redis.Store.{
  create_task, get_task, append_status, append_artifact, write_status, write_artifact,
}
use kafka_a2a.Redis.Events.{parse-status, parse-artifact}
use kafka_a2a.Redis.Held.{get_task-Held}
use kafka_a2a.Redis.Calls.{
  Call, create, status, artifact, call_redis, call_memory, run_redis, run_memory, Survives,
  AllSurvive,
}
use kafka_a2a.Redis.Created.{create_task-Mirrors}
use kafka_a2a.Redis.Refines.{Stands, Mirrors, write_event-Mirrors}

module _ (R : RedisServer) (json : Json) (namespace : String) where
  -- Both stores reply alike to a call, and agree after it.
  abbrev Agrees : Call → R.Db → InMemoryTaskStore → Type 0
  Agrees c db s =
      ((call_redis R json namespace c db).0 ≡ (call_memory c s).0)
      × Mirrors R json namespace (call_redis R json namespace c db).1 (call_memory c s).1

  module _ (id : String) (db : R.Db) (s : InMemoryTaskStore) (uuid : IsUuid id)
      (mirrors : Mirrors R json namespace db s) where
    -- an id under which nothing stands is not found, and one with a task is
    pub get_task-absent : lookup id s.tasks ≡ none → get_task R json namespace id db ≡ ok none
    unfolding get_task
    get_task-absent e =
        rw
          (
            R.get-missing _ db
                (subst (λ o. Stands R json namespace id o (log id s) db) e
                  (mirrors id uuid)).no_snapshot,
            get_task,
          )
          refl

    pub get_task-present :
        {t : Task} → lookup id s.tasks ≡ some t → get_task R json namespace id db ≡ ok (some t)
    get_task-present e =
        get_task-Held R json namespace id
          (subst (λ o. Stands R json namespace id o (log id s) db) e (mirrors id uuid))

    status-Agrees : (st : TaskStatus) → Survives json (status id st) s → Agrees (status id st) db s
    unfolding call_redis call_memory append_status
    status-Agrees st (_, survive) = elim (Option-cases (lookup id s.tasks)) [
      | inl e ↦
          rw (append_status_missing id s st e, get_task-absent e, append_status) (refl, mirrors)
      | inr (t, e) ↦
          let (kept, told) = survive t e in
          let (after, run, agreed) =
            write_event-Mirrors R json namespace id s uuid (with_status t id st)
              (json.dump_status_event (status_event t id st)) db e mirrors kept
              (parse-status json _ told) in
          rw (append_status_found id s st e, get_task-present e, run, append_status, write_status)
            (refl, agreed)
    ]

    artifact-Agrees : (a : Artifact) → Survives json (artifact id a) s → Agrees (artifact id a) db s
    unfolding call_redis call_memory append_artifact
    artifact-Agrees a (_, survive) = elim (Option-cases (lookup id s.tasks)) [
      | inl e ↦
          rw (append_artifact_missing id s a e, get_task-absent e, append_artifact) (refl, mirrors)
      | inr (t, e) ↦
          let (kept, told) = survive t e in
          let (after, run, agreed) =
            write_event-Mirrors R json namespace id s uuid
              (record t { artifacts = t.artifacts ++ a ∷ [] })
              (json.dump_artifact_event (artifact_event t id a)) db e mirrors kept
              (parse-artifact json _ told) in
          rw
            (
              append_artifact_found id s a e,
              get_task-present e,
              run,
              append_artifact,
              write_artifact,
            )
            (refl, agreed)
    ]

  call-Agrees :
      (c : Call) (db : R.Db) (s : InMemoryTaskStore)
      → Survives json c s
      → Mirrors R json namespace db s
      → Agrees c db s
  unfolding call_redis call_memory create_task State.create_task
  call-Agrees (create id fresh now message context_id metadata) db s (uuid, unused, kept) mirrors =
      (
        refl,
        create_task-Mirrors R json namespace id fresh now message context_id metadata db s uuid
            unused kept mirrors,
      )
  call-Agrees (status id st) db s h mirrors = status-Agrees id db s h.0 mirrors st h
  call-Agrees (artifact id a) db s h mirrors = artifact-Agrees id db s h.0 mirrors a h

  -- Where the keyspace holds what the in-memory store holds, and the ids are those of `uuid4` and the
  -- values come back from their JSON, a run of `create_task`, `append_status` and `append_artifact`
  -- calls gets the same replies from the Redis store as from the in-memory store, errors included,
  -- and afterwards the keyspace again holds what the in-memory store holds: each task's snapshot, its
  -- number, and its log in the order of the stream.
  pub run_refines :
      (calls : List Call) (db : R.Db) (s : InMemoryTaskStore)
      → AllSurvive json calls s
      → Mirrors R json namespace db s
      → ((run_redis R json namespace calls db).0 ≡ (run_memory calls s).0)
        × Mirrors R json namespace (run_redis R json namespace calls db).1 (run_memory calls s).1
  unfolding run_redis run_memory
  run_refines [] db s h mirrors = (refl, mirrors)
  run_refines (c ∷ cs) db s (h, hs) mirrors =
      let (replied, after) = call-Agrees c db s h mirrors in
      let (replies, last) = run_refines cs _ _ hs after in (ap₂ ◌∷◌ replied replies, last)
