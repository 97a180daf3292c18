-- ===== src/TaskStore/WellFormed.antt =====
-- Every task of the store agrees with its log, whatever calls were made.
use mathlib.Core.Path.{subst}
use kafka_a2a.Common.{
  ℕ, String, ◌≡◌, refl, Bool, true, false, Option, none, some, List, [], ◌∷◌, ◌++◌, ◌==◌, eq_iff,
  if◌then◌else◌, inl, inr, Option-cases, get_or, arith,
}
use kafka_a2a.Common.Dict.{Dict, lookup, insert, lookup-insert}
use kafka_a2a.Common.Value.{Metadata}
use kafka_a2a.Models.{
  Message, TaskStatus, Artifact, Task, TaskEvent, task, artifact_update, PushNotificationConfig,
}
use kafka_a2a.TaskStore.State.{TaskEventRecord, InMemoryTaskStore, empty, new_task, create_task}
use kafka_a2a.TaskStore.Append.{
  next_sequence, publish, artifact_event, append_status_missing, append_status_found,
  append_artifact_missing, append_artifact_found,
}
use kafka_a2a.TaskStore.Reader.{subscribe, unsubscribe}
use kafka_a2a.TaskStore.PushConfigs.{set_push_notification_config, delete_push_notification_config}
use kafka_a2a.TaskStore.Ops.{
  Op, create, status, artifact, open_queue, close_queue, set_push, delete_push, apply, run,
}
use kafka_a2a.TaskStore.Log.{
  log, IsLogged, IsLogged-append, replay_event, rebuild, replay-status_event,
}

-- A task has a log that agrees with it, and there is no log without a task.
abbrev pub Agrees : String → Option Task → Option (List TaskEventRecord) → Type 0
Agrees id none none = Unit
Agrees id none (some records) = ⊥
Agrees id (some t) none = ⊥
Agrees id (some t) (some records) = IsLogged id t records

abbrev pub Agree : Dict Task → Dict (List TaskEventRecord) → Type 0
Agree tasks events = (id : String) → Agrees id (lookup id tasks) (lookup id events)

pub record IsWellFormed (s : InMemoryTaskStore) : Type 0 where
  pub agree : Agree s.tasks s.events

Agrees-if :
    (b : Bool) (j : String) (t : Task) (records : List TaskEventRecord) (o : Option Task)
    (l : Option (List TaskEventRecord))
    → (b ≡ true → IsLogged j t records)
    → Agrees j o l
    → Agrees j (if b then some t else o) (if b then some records else l)
Agrees-if true j t records o l h k = h refl
Agrees-if false j t records o l h k = k

-- Writing a task and a log that agree at one id keeps the others.
Agree-insert :
    (id : String) (t : Task) (records : List TaskEventRecord) (tasks : Dict Task)
    (events : Dict (List TaskEventRecord))
    → IsLogged id t records
    → Agree tasks events
    → Agree (insert id t tasks) (insert id records events)
Agree-insert id t records tasks events h k j =
    rw (lookup-insert id j t tasks, lookup-insert id j records events)
      (Agrees-if (id == j) j t records (lookup j tasks) (lookup j events)
        (λ e. subst (λ i. IsLogged i t records) ((eq_iff id j).0 e) h) (k j))

new_task-IsLogged :
    (id fresh : String) (now : ℕ) (message : Message) (context_id : Option String)
    (metadata : Option Metadata)
    → IsLogged id
        (new_task id fresh now message context_id metadata)
        (record { sequence = 0; event = task id } ∷ [])
unfolding new_task rebuild
new_task-IsLogged id fresh now message context_id metadata = record {
  initial = new_task id fresh now message context_id metadata;
  updates = [];
  begins = refl;
  initial_id = refl;
  initial_state = refl;
  initial_artifacts = refl;
  numbered = tt;
  rebuilt = refl;
}

create_task-IsWellFormed :
    (id fresh : String) (now : ℕ) (message : Message) (context_id : Option String)
    (metadata : Option Metadata) (s : InMemoryTaskStore)
    → IsWellFormed s
    → IsWellFormed (create_task id fresh now message context_id metadata s).1
unfolding create_task
create_task-IsWellFormed id fresh now message context_id metadata s h = record {
  agree =
      Agree-insert id _ _ s.tasks s.events
        (new_task-IsLogged id fresh now message context_id metadata) h.agree;
}

-- the log of a task that is there
IsLogged-at :
    (id : String) (t : Task) (l : Option (List TaskEventRecord))
    → Agrees id (some t) l
    → IsLogged id t (get_or l [])
IsLogged-at id t none h = absurd h
IsLogged-at id t (some records) h = h

-- Publishing an event and updating its task as the event says keeps every task in agreement.
publish-IsWellFormed :
    (id : String) (t t' : Task) (event : TaskEvent) (s : InMemoryTaskStore)
    → lookup id s.tasks ≡ some t
    → replay_event event t ≡ t'
    → IsWellFormed s
    → IsWellFormed (publish id event (record s { tasks = insert id t' s.tasks }))
unfolding publish
publish-IsWellFormed id t t' event s found says h = record {
  agree =
      Agree-insert id t' _ s.tasks s.events
        (subst
          (λ u.
            IsLogged id u
              (records ++ record { sequence = next_sequence records; event = event } ∷ []))
          says
          (IsLogged-append event (
            IsLogged-at id t (lookup id s.events)
              (subst (λ o. Agrees id o (lookup id s.events)) found (h.agree id)))))
        h.agree;
}
  where
    records : List TaskEventRecord
    records = get_or (lookup id s.events) []

append_status-IsWellFormed :
    (id : String) (st : TaskStatus) (s : InMemoryTaskStore)
    → IsWellFormed s
    → IsWellFormed (apply (status id st) s)
unfolding apply
append_status-IsWellFormed id st s h = elim (Option-cases (lookup id s.tasks)) [
  | inl e ↦ rw (append_status_missing id s st e) h
  | inr (t, e) ↦
      rw (append_status_found id s st e)
        (publish-IsWellFormed id t _ _ s e (replay-status_event t id st) h)
]

append_artifact-IsWellFormed :
    (id : String) (a : Artifact) (s : InMemoryTaskStore)
    → IsWellFormed s
    → IsWellFormed (apply (artifact id a) s)
unfolding apply replay_event artifact_event
append_artifact-IsWellFormed id a s h = elim (Option-cases (lookup id s.tasks)) [
  | inl e ↦ rw (append_artifact_missing id s a e) h
  | inr (t, e) ↦
      rw (append_artifact_found id s a e)
        (publish-IsWellFormed id t _ (artifact_update (artifact_event t id a)) s e refl h)
]

-- Calls that leave the tasks and the logs alone keep them.
same-IsWellFormed :
    (s s' : InMemoryTaskStore)
    → s'.tasks ≡ s.tasks
    → s'.events ≡ s.events
    → IsWellFormed s
    → IsWellFormed s'
same-IsWellFormed s s' p q h = record { agree = rw (p, q) h.agree }

same_after_set :
    (id : String) (c : PushNotificationConfig) (s : InMemoryTaskStore)
    → ((apply (set_push id c) s).tasks ≡ s.tasks) × ((apply (set_push id c) s).events ≡ s.events)
unfolding apply set_push_notification_config
same_after_set id c s = ground arith

same_after_delete :
    (id : String) (c : Option String) (s : InMemoryTaskStore)
    → ((apply (delete_push id c) s).tasks ≡ s.tasks)
      × ((apply (delete_push id c) s).events ≡ s.events)
unfolding apply delete_push_notification_config
same_after_delete id c s = ground arith

same_after_close :
    (id : String) (q : ℕ) (s : InMemoryTaskStore)
    → ((apply (close_queue id q) s).tasks ≡ s.tasks)
      × ((apply (close_queue id q) s).events ≡ s.events)
unfolding apply unsubscribe
same_after_close id q s = ground arith

-- Every call keeps the store well formed, also one that raises.
pub apply-IsWellFormed :
    (op : Op) (s : InMemoryTaskStore) → IsWellFormed s → IsWellFormed (apply op s)
unfolding apply subscribe
apply-IsWellFormed (create id fresh now message context_id metadata) s h =
    create_task-IsWellFormed id fresh now message context_id metadata s h
apply-IsWellFormed (status id st) s h = append_status-IsWellFormed id st s h
apply-IsWellFormed (artifact id a) s h = append_artifact-IsWellFormed id a s h
apply-IsWellFormed (open_queue id) s h = record { agree = h.agree }
apply-IsWellFormed (close_queue id q) s h =
    same-IsWellFormed s _ (same_after_close id q s).0 (same_after_close id q s).1 h
apply-IsWellFormed (set_push id c) s h =
    same-IsWellFormed s _ (same_after_set id c s).0 (same_after_set id c s).1 h
apply-IsWellFormed (delete_push id c) s h =
    same-IsWellFormed s _ (same_after_delete id c s).0 (same_after_delete id c s).1 h

-- After any calls on a well-formed store, those that raise among them, every task that the store
-- holds has a log that begins with its creation at number 0, goes on without a gap, and replays to
-- the task: its status is the last one published, its history and its artifacts are those published,
-- in order. No log is there without its task.
pub run-IsWellFormed :
    (ops : List Op) (s : InMemoryTaskStore) → IsWellFormed s → IsWellFormed (run ops s)
unfolding run
run-IsWellFormed [] s h = h
run-IsWellFormed (op ∷ ops) s h = run-IsWellFormed ops (apply op s) (apply-IsWellFormed op s h)

pub IsWellFormed-empty : IsWellFormed empty
unfolding lookup
IsWellFormed-empty = record { agree = λ id. tt }

-- The log of a task that is there.
pub log-IsLogged :
    (id : String) (t : Task) (s : InMemoryTaskStore)
    → IsWellFormed s
    → lookup id s.tasks ≡ some t
    → IsLogged id t (log id s)
log-IsLogged id t s h found =
    IsLogged-at id t (lookup id s.events)
      (subst (λ o. Agrees id o (lookup id s.events)) found (h.agree id))
