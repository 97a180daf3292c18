-- ===== src/Redis/Created.antt =====
-- `create_task` of both stores.
use kafka_a2a.Common.{ℕ, String, ◌≡◌, ◌≢◌, refl, sym, ap, ◌∙◌, Option, none, [], ◌∷◌}
use mathlib.Core.Path.{subst}
use kafka_a2a.Common.Dict.{lookup, lookup-insert}
use kafka_a2a.Common.Text.{decimal}
use kafka_a2a.Common.Value.{Metadata}
use kafka_a2a.Models.{Task, Message, task}
use kafka_a2a.TaskStore.State.{InMemoryTaskStore, new_task, TaskEventRecord}
use kafka_a2a.TaskStore.State as State
use kafka_a2a.TaskStore.Log.{log}
use kafka_a2a.TaskStore.Delivery.{log-insert}
use kafka_a2a.Redis.Server.{RedisServer, missing, text, stream_of}
use kafka_a2a.Redis.Json.{Json, TaskSurvives}
use kafka_a2a.Redis.Keys.{
  task_key, seq_key, events_key, IsUuid, tasks_index_key, context_tasks_index_key, task_ne_index,
  task_ne_context, task_key-member, member_key,
}
use kafka_a2a.Redis.Store.{create_task}
use kafka_a2a.Redis.Events.{parse-task}
use kafka_a2a.Redis.Held.{
  Held, Untouched, xadd-Held, apart, seq_ne_task, events_ne_task, events_ne_seq,
}
use kafka_a2a.Redis.Refines.{Stands, Mirrors, others-Mirrors}

module _ (R : RedisServer) (json : Json) (namespace : String) where
  -- the keyspace with the snapshot and the indexes, and then with the number
  indexed : String → String → ℕ → String → R.Db → R.Db
  indexed id context_id now raw db =
      R.zadd (context_tasks_index_key namespace context_id) id now
        (R.zadd (tasks_index_key namespace) id now (R.set (task_key namespace id) raw db))

  module _ (id context_id : String) (now : ℕ) (raw : String) (db : R.Db) where
    -- on the keys of a task, the indexes are not seen
    indexed_member :
        (other suffix : String)
        → R.entry (member_key namespace other suffix) (indexed id context_id now raw db)
          ≡ R.entry (member_key namespace other suffix) (R.set (task_key namespace id) raw db)
    unfolding indexed
    indexed_member other suffix =
        R.zadd_ne _ _ _ _ _ (task_ne_context namespace other context_id suffix)
        ∙ R.zadd_ne _ _ _ _ _ (task_ne_index namespace other suffix)

    indexed_task : R.entry (task_key namespace id) (indexed id context_id now raw db) ≡ text raw
    indexed_task =
        subst
          (λ k.
            R.entry k (indexed id context_id now raw db)
            ≡ R.entry k (R.set (task_key namespace id) raw db))
          (sym (task_key-member namespace id)) (indexed_member id "")
        ∙ R.set_self _ _ db

    indexed_events :
        IsUuid id
        → R.entry (events_key namespace id) db ≡ missing
        → R.entry (events_key namespace id) (indexed id context_id now raw db) ≡ missing
    unfolding events_key
    indexed_events uuid e =
        indexed_member id ":events"
        ∙ R.set_ne _ _ _ db (λ p. events_ne_task R json namespace id uuid (sym p))
        ∙ e

  module _ (id fresh : String) (now : ℕ) (message : Message) (context_id : Option String)
      (metadata : Option Metadata) (db : R.Db) where
    new : Task
    new = new_task id fresh now message context_id metadata

    after : R.Db
    unfolding create_task
    after = (create_task R json namespace id fresh now message context_id metadata db).1

    created-Held :
        IsUuid id
        → TaskSurvives json new
        → R.entry (events_key namespace id) db ≡ missing
        → Held R json namespace id new (record { sequence = 0; event = task id } ∷ []) after
    unfolding new after create_task indexed
    created-Held uuid kept none_yet =
        xadd-Held R json namespace id (json.dump_task new) 0 []
          (R.set (seq_key namespace id) (decimal 0)
            (indexed id new.context_id now (json.dump_task new) db))
          uuid
          (R.set_ne _ _ _ _ (seq_ne_task R json namespace id uuid)
            ∙ indexed_task id new.context_id now (json.dump_task new) db)
          kept (R.set_self _ _ _)
          (ap stream_of (
            R.set_ne _ _ _ _ (λ p. events_ne_seq R json namespace id uuid (sym p))
            ∙ indexed_events id new.context_id now (json.dump_task new) db uuid none_yet))
          tt refl (parse-task json new kept)

    created-Untouched :
        (other : String)
        → IsUuid id
        → IsUuid other
        → id ≢ other
        → Untouched R json namespace other db after
    unfolding new after create_task indexed
    created-Untouched other p q ne suffix =
        let (task_apart, seq_apart, events_apart) = apart R json namespace id other suffix p q ne in
        R.xadd_ne _ _ _ _ events_apart
        ∙ R.set_ne _ _ _ _ seq_apart
        ∙ indexed_member id new.context_id now (json.dump_task new) db other suffix
        ∙ R.set_ne _ _ _ _ task_apart

    -- From agreeing stores, a new id gives agreeing stores.
    pub create_task-Mirrors :
        (s : InMemoryTaskStore)
        → IsUuid id
        → lookup id s.tasks ≡ none
        → TaskSurvives json (new_task id fresh now message context_id metadata)
        → Mirrors R json namespace db s
        → Mirrors R json namespace
            (create_task R json namespace id fresh now message context_id metadata db).1
            (State.create_task id fresh now message context_id metadata s).1
    unfolding new after State.create_task
    create_task-Mirrors s uuid unused kept mirrors =
        others-Mirrors R json namespace id s uuid
          (State.create_task id fresh now message context_id metadata s).1
          (λ other. lookup-insert id other new s.tasks)
          (λ other. log-insert id other (record { sequence = 0; event = task id } ∷ []) s.events)
          mirrors
          (created-Held uuid kept
            (subst (λ o. Stands R json namespace id o (log id s) db) unused
              (mirrors id uuid)).no_events)
          (λ other p ne. created-Untouched other uuid p ne)
