-- ===== src/TaskStore/Log.antt =====
-- The event log of a task: its numbering, and the task as the log tells it.
use kafka_a2a.Common.{ℕ, suc, ◌+◌, String, ◌≡◌, refl, ap, ◌∙◌, List, [], ◌∷◌, ◌++◌, arith, get_or}
use kafka_a2a.Common.Lists.{length, get_last?}
use kafka_a2a.Common.Dict.{lookup}
use kafka_a2a.Models.{submitted, TaskStatus, Task, TaskEvent, task, status_update, artifact_update}
use kafka_a2a.TaskStore.State.{TaskEventRecord, InMemoryTaskStore}
use kafka_a2a.TaskStore.Append.{next_sequence, append_history, with_status, status_event}

-- the log of a task
abbrev pub log : String → InMemoryTaskStore → List TaskEventRecord
log task_id s = get_or (lookup task_id s.events) []

-- The records are numbered in order from `n`.
abbrev pub Numbered : ℕ → List TaskEventRecord → Type 0
Numbered n [] = Unit
Numbered n (r ∷ rs) = (r.sequence ≡ n) × Numbered (suc n) rs

last-Numbered :
    (n : ℕ) (r : TaskEventRecord) (rs : List TaskEventRecord)
    → Numbered n (r ∷ rs)
    → next_sequence (r ∷ rs) ≡ suc (n + length rs)
unfolding get_last?
last-Numbered n r [] h = omega arith
last-Numbered n r (x ∷ rs) h = omega (arith, last-Numbered (suc n) x rs h.1)

-- In a numbered log the next number is the length.
pub next_sequence-Numbered :
    (rs : List TaskEventRecord) → Numbered 0 rs → next_sequence rs ≡ length rs
unfolding get_last?
next_sequence-Numbered [] h = refl
next_sequence-Numbered (r ∷ rs) h = omega (arith, last-Numbered 0 r rs h)

pub Numbered-append :
    (n : ℕ) (rs : List TaskEventRecord) (r : TaskEventRecord)
    → Numbered n rs
    → r.sequence ≡ n + length rs
    → Numbered n (rs ++ r ∷ [])
Numbered-append n [] r h e = (omega arith, tt)
Numbered-append n (x ∷ rs) r h e = (h.0, Numbered-append (suc n) rs r h.1 (omega arith))

-- What an event says of its task.
unfoldable pub replay_event : TaskEvent → Task → Task
replay_event (task _) t = t
replay_event (status_update e) t = record t {
  status = e.status;
  history = append_history e.status.message t.history;
}
replay_event (artifact_update e) t = record t { artifacts = t.artifacts ++ e.artifact ∷ [] }

-- The task that a log makes of the task as it was created.
unfoldable pub rebuild : Task → List TaskEventRecord → Task
unfolding replay_event
rebuild t [] = t
rebuild t (r ∷ rs) = rebuild (replay_event r.event t) rs

pub rebuild-append :
    (t : Task) (rs : List TaskEventRecord) (r : TaskEventRecord)
    → rebuild t (rs ++ r ∷ []) ≡ replay_event r.event (rebuild t rs)
unfolding rebuild
rebuild-append t [] r = refl
rebuild-append t (x ∷ rs) r = rebuild-append (replay_event x.event t) rs r

-- A task and its log agree: the log begins with the creation, is numbered from 0 without a gap, and
-- replaying its updates over the task as it was created gives the task.
pub record IsLogged (task_id : String) (t : Task) (records : List TaskEventRecord) : Type 0 where
  pub initial : Task
  pub updates : List TaskEventRecord
  pub begins : records ≡ record { sequence = 0; event = task task_id } ∷ updates
  pub initial_id : initial.id ≡ task_id
  pub initial_state : initial.status.state ≡ submitted
  pub initial_artifacts : initial.artifacts ≡ []
  pub numbered : Numbered 1 updates
  pub rebuilt : rebuild initial updates ≡ t

pub IsLogged-Numbered :
    {id : String} {t : Task} {records : List TaskEventRecord}
    → IsLogged id t records
    → Numbered 0 records
IsLogged-Numbered h = rw h.begins (refl, h.numbered)

-- One more event keeps the agreement, if the task is updated as the event says.
pub IsLogged-append :
    {id : String} {t : Task} {records : List TaskEventRecord} (event : TaskEvent)
    → IsLogged id t records
    → IsLogged id
        (replay_event event t)
        (records ++ record { sequence = next_sequence records; event = event } ∷ [])
IsLogged-append {id} {t} {records} event h = record {
  initial = h.initial;
  updates = h.updates ++ record { sequence = next_sequence records; event = event } ∷ [];
  begins = ap (λ l. l ++ record { sequence = next_sequence records; event = event } ∷ []) h.begins;
  initial_id = h.initial_id;
  initial_state = h.initial_state;
  initial_artifacts = h.initial_artifacts;
  numbered = Numbered-append 1 h.updates _ h.numbered (numbers h.begins);
  rebuilt = rebuild-append _ _ _ ∙ ap (replay_event event) h.rebuilt;
}
  where
    numbers :
        records ≡ record { sequence = 0; event = task id } ∷ h.updates
        → next_sequence records ≡ 1 + length h.updates
    numbers e =
        next_sequence-Numbered records (IsLogged-Numbered h) ∙ ap length h.begins ∙ omega arith

pub replay-status_event :
    (t : Task) (id : String) (st : TaskStatus)
    → replay_event (status_update (status_event t id st)) t ≡ with_status t id st
unfolding replay_event status_event with_status
replay-status_event t id st = refl
