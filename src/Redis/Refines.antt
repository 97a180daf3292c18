-- ===== src/Redis/Refines.antt =====
-- The Redis store replies as the in-memory store does, and holds the same tasks, numbers and logs.
use mathlib.Core.Path.{subst}
use kafka_a2a.Common.{
  String, ◌≡◌, ◌≢◌, ◌==◌, eq_iff, eq_refl, sym, ◌∙◌, Bool-cases, inl, inr, Option, none, some, List,
  [], ok, arith, if◌then◌else◌,
}
use kafka_a2a.Common.Dict.{lookup, insert, lookup-insert}
use kafka_a2a.Models.{Task, TaskEvent}
use kafka_a2a.TaskStore.State.{InMemoryTaskStore, TaskEventRecord}
use kafka_a2a.TaskStore.Append.{publish}
use kafka_a2a.TaskStore.Log.{log}
use kafka_a2a.TaskStore.Delivery.{log-publish}
use kafka_a2a.Redis.Server.{RedisServer, missing}
use kafka_a2a.Redis.Json.{Json, TaskSurvives}
use kafka_a2a.Redis.Keys.{task_key, seq_key, events_key, IsUuid, task_key-member}
use kafka_a2a.Redis.Store.{StoredEvent, write_event, parse_task_event}
use kafka_a2a.Redis.Events.{view_event}
use kafka_a2a.Redis.Held.{Held, Untouched, Untouched-Held, write_event-Held}

module _ (R : RedisServer) (json : Json) (namespace : String) where
  -- none of the keys of the id is there
  pub record Absent (id : String) (records : List TaskEventRecord) (db : R.Db) : Type 0 where
    pub no_snapshot : R.entry (task_key namespace id) db ≡ missing
    pub no_counter : R.entry (seq_key namespace id) db ≡ missing
    pub no_events : R.entry (events_key namespace id) db ≡ missing
    pub no_records : records ≡ []

  abbrev pub Stands : String → Option Task → List TaskEventRecord → R.Db → Type 0
  Stands id none records db = Absent id records db
  Stands id (some t) records db = Held R json namespace id t records db

  -- The keyspace holds what the in-memory store holds, under every id that `uuid4` can make.
  abbrev pub Mirrors : R.Db → InMemoryTaskStore → Type 0
  Mirrors db s = (id : String) → IsUuid id → Stands id (lookup id s.tasks) (log id s) db

  Untouched-Stands :
      (id : String) (o : Option Task) (records : List TaskEventRecord) {db after : R.Db}
      → Untouched R json namespace id db after
      → Stands id o records db
      → Stands id o records after
  unfolding seq_key events_key
  Untouched-Stands id none records {db = db} {after = after} same h = record {
    no_snapshot =
        subst (λ k. R.entry k after ≡ R.entry k db) (sym (task_key-member namespace id)) (same "")
        ∙ h.no_snapshot;
    no_counter = same ":seq" ∙ h.no_counter;
    no_events = same ":events" ∙ h.no_events;
    no_records = h.no_records;
  }
  Untouched-Stands id (some t) records same h = Untouched-Held R json namespace id same h

  module _ (id : String) (s : InMemoryTaskStore) (uuid : IsUuid id) where
    -- what stands under each id, where one id has a new task and a new log
    pub others-Mirrors :
        {t : Task} {records : List TaskEventRecord} {db after : R.Db} (s' : InMemoryTaskStore)
        → ((other : String)
            → lookup other s'.tasks ≡ (if id == other then some t else lookup other s.tasks))
        → ((other : String) → log other s' ≡ (if id == other then records else log other s))
        → Mirrors db s
        → Held R json namespace id t records after
        → ((other : String) → IsUuid other → id ≢ other → Untouched R json namespace other db after)
        → Mirrors after s'
    others-Mirrors {t} {records} {db} {after} s' tasks logs mirrors held untouched other p =
        elim (Bool-cases (id == other)) [
          | inl e ↦
              subst (λ j. Stands j (lookup j s'.tasks) (log j s') after) ((eq_iff id other).0 e)
                (rw (tasks id, logs id, eq_refl id) held)
          | inr e ↦
              rw (tasks other, logs other, e)
                (Untouched-Stands other (lookup other s.tasks) (log other s)
                  (untouched other p (λ q. ground (arith, eq_iff id other))) (mirrors other p))
        ]

    tasks-publish :
        (event : TaskEvent) (t : Task) (other : String)
        → lookup other (publish id event (record s { tasks = insert id t s.tasks })).tasks
          ≡ (if id == other then some t else lookup other s.tasks)
    unfolding publish
    tasks-publish event t other = lookup-insert id other t s.tasks

    pub write_event-Mirrors :
        {t : Task} (t' : Task) (raw : String) {event : StoredEvent} (db : R.Db)
        → lookup id s.tasks ≡ some t
        → Mirrors db s
        → TaskSurvives json t'
        → parse_task_event json raw ≡ some event
        → (after : R.Db) × (write_event R json namespace id t' raw db ≡ ok after)
          × Mirrors after
              (publish id (view_event event) (record s { tasks = insert id t' s.tasks }))
    write_event-Mirrors {t} t' raw {event} db found mirrors kept parsed =
        let held : Held R json namespace id t (log id s) db =
          subst (λ o. Stands id o (log id s) db) found (mirrors id uuid) in
        let (after, run, held', untouched) =
          write_event-Held R json namespace id t' raw db uuid held kept parsed in
        (
          after,
          run,
          others-Mirrors (publish id (view_event event) (record s { tasks = insert id t' s.tasks }))
              (tasks-publish (view_event event) t')
              (λ other.
                log-publish id other (view_event event) (record s { tasks = insert id t' s.tasks }))
              mirrors held' untouched,
        )
