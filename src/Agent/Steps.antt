-- ===== src/Agent/Steps.antt =====
-- What the steps that the handlers share do to the state.
use kafka_a2a.Common.{ℕ, String, ◌≡◌, refl, some, Result, ok, arith}
use kafka_a2a.Common.Dict.{lookup, insert, lookup-insert_self}
use kafka_a2a.Models.{TaskStatus, Task, TaskEvent, status_update}
use kafka_a2a.TaskStore.State.{InMemoryTaskStore, KeyError, get_task}
use kafka_a2a.TaskStore.Append.{
  with_status, status_event, publish, append_status, append_status_found,
}
use kafka_a2a.Agent.Config.{Ka2aAgentConfig}
use kafka_a2a.Agent.State.{AgentState, enqueue_push}
use kafka_a2a.Agent.Messages.{on_store}
use kafka_a2a.Agent.Tasks.{publish_status, updated_task}

-- A push entry, queued or dropped, touches nothing else.
pub record Quiet (s s' : AgentState) : Type 0 where
  pub store : s'.store ≡ s.store
  pub processing : s'.processing ≡ s.processing
  pub effects : s'.effects ≡ s.effects

pub enqueue_push-Quiet :
    (n : ℕ) (id : String) (event : TaskEvent) (s : AgentState)
    → Quiet s (enqueue_push n id event s).1
unfolding enqueue_push
enqueue_push-Quiet n id event s = ground arith

pub enqueue_push-ok :
    (n : ℕ) (id : String) (event : TaskEvent) (s : AgentState)
    → (enqueue_push n id event s).0 ≡ ok tt
unfolding enqueue_push
enqueue_push-ok n id event s = ground arith

pub on_store_ok :
    {A : Type 0} (f : InMemoryTaskStore → Result KeyError (A × InMemoryTaskStore)) (s : AgentState)
    {a : A} {store : InMemoryTaskStore}
    → f s.store ≡ ok (a, store)
    → on_store f s ≡ (ok a, record s { store = store })
unfolding on_store
on_store_ok f s e = rw (e, on_store)

-- the state after a status of a task that is there, before the push
abbrev pub with_published : String → Task → TaskStatus → AgentState → AgentState
with_published id t st s = record s {
  store =
      publish id (status_update (status_event t id st))
        (record (s.store) { tasks = insert id (with_status t id st) s.store.tasks });
}

-- Publishing a status of a task that is there succeeds: the task has the status, and neither the
-- processing nor the effects change.
module _ (cfg : Ka2aAgentConfig) (id : String) (st : TaskStatus) (s : AgentState) {t : Task}
    (found : lookup id s.store.tasks ≡ some t) where
  pub publish_status_found :
      publish_status cfg id st s
      ≡ enqueue_push cfg.push_queue_maxsize id
          (status_update (status_event t id st))
          (with_published id t st s)
  unfolding publish_status
  publish_status_found =
      rw (on_store_ok (append_status id st) s (append_status_found id s.store st found))

  pub publish_status_ok : (publish_status cfg id st s).0 ≡ ok tt
  publish_status_ok = rw publish_status_found (enqueue_push-ok _ id _ _)

  pub publish_status_store : (publish_status cfg id st s).1.store ≡ (with_published id t st s).store
  publish_status_store = rw publish_status_found (enqueue_push-Quiet _ id _ _).store

  pub publish_status_task :
      lookup id (publish_status cfg id st s).1.store.tasks ≡ some (with_status t id st)
  unfolding publish
  publish_status_task = rw publish_status_store (lookup-insert_self id _ s.store.tasks)

  pub publish_status_processing : (publish_status cfg id st s).1.processing ≡ s.processing
  publish_status_processing = rw publish_status_found (enqueue_push-Quiet _ id _ _).processing

  pub publish_status_effects : (publish_status cfg id st s).1.effects ≡ s.effects
  publish_status_effects = rw publish_status_found (enqueue_push-Quiet _ id _ _).effects

pub with_status-state :
    (t : Task) (id : String) (st : TaskStatus) → (with_status t id st).status.state ≡ st.state
unfolding with_status
with_status-state t id st = ground arith

pub updated_task_ok :
    (id : String) (s : AgentState) {t : Task}
    → lookup id s.store.tasks ≡ some t
    → updated_task id s ≡ (ok t, s)
unfolding updated_task get_task
updated_task_ok id s found = rw (found, updated_task) refl
