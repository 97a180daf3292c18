-- ===== src/Redis/Events.antt =====
-- What the stream of a task holds comes back: the numbers, the events and the order.
use kafka_a2a.Common.{
  ℕ, ◌<◌, String, ◌≡◌, ◌≢◌, refl, sym, ap, ◌∙◌, Option, none, some, List, [], ◌∷◌, ◌++◌, or_text,
  Bool-cases, inl, inr, ◌==◌, eq_iff,
}
use mathlib.Core.List.{map}
use mathlib.Core.List.{map-append}
use kafka_a2a.Common.Dict.{lookup}
use kafka_a2a.Common.Lists.{All}
use kafka_a2a.Common.Numeral.{int_of, int_of-decimal}
use kafka_a2a.Common.Text.{decimal}
use kafka_a2a.Models.{
  Task, TaskEvent, TaskStatusUpdateEvent, TaskArtifactUpdateEvent, task, status_update,
  artifact_update,
}
use kafka_a2a.TaskStore.State.{TaskEventRecord}
use kafka_a2a.Redis.Server.{StreamEntry, Older}
use kafka_a2a.Redis.Json.{Json, TaskSurvives, StatusSurvives, ArtifactSurvives}
use kafka_a2a.Redis.Store.{
  StoredEvent, stored_task, stored_status, stored_artifact, StoredRecord, parse_task_event,
  read_entry, event_fields,
}

-- a stored event as the in-memory store tells it: a task by its id
abbrev pub view_event : StoredEvent → TaskEvent
view_event (stored_task t) = task t.id
view_event (stored_status e) = status_update e
view_event (stored_artifact e) = artifact_update e

abbrev pub view : StoredRecord → TaskEventRecord
view r = record { sequence = r.sequence; event = view_event r.event }

abbrev pub view? : Option StoredRecord → Option TaskEventRecord
view? none = none
view? (some r) = some (view r)

-- what a reader makes of an entry
abbrev pub told : Json → StreamEntry → Option TaskEventRecord
told json e = view? (read_entry json e.fields)

-- The ids grow, all above `n`.
abbrev pub Ascending : ℕ → List StreamEntry → Type 0
Ascending n [] = Unit
Ascending n (e ∷ es) = (n < e.entry_id) × Ascending e.entry_id es

pub Ascending-append :
    (n : ℕ) (es : List StreamEntry) (e : StreamEntry)
    → Ascending n es
    → n < e.entry_id
    → All (Older e.entry_id) es
    → Ascending n (es ++ e ∷ [])
Ascending-append n [] e h lt older = (lt, tt)
Ascending-append n (x ∷ es) e h lt older =
    (h.0, Ascending-append x.entry_id es e h.1 older.0 older.1)

empty_unread : (n : ℕ) → int_of "" ≢ some n
unfolding int_of
empty_unread n h = absurd cc

pub read_number : (n : ℕ) → int_of (or_text (some (decimal n)) "0") ≡ some n
read_number n = elim (Bool-cases (decimal n == "")) [
  | inl e ↦
      absurd (empty_unread n (ap int_of (sym ((eq_iff (decimal n) "").0 e)) ∙ int_of-decimal n))
  | inr e ↦ rw e (int_of-decimal n)
]

given_text : (raw : String) → or_text (some raw) "" ≡ raw
given_text raw = elim (Bool-cases (raw == "")) [
  | inl e ↦ rw e (sym ((eq_iff raw "").0 e))
  | inr e ↦ rw e refl
]

-- An entry that a writer added is read as its number and its event.
pub read-event_fields :
    (json : Json) (n : ℕ) (raw : String) {event : StoredEvent}
    → parse_task_event json raw ≡ some event
    → read_entry json (event_fields n raw) ≡ some (record { sequence = n; event = event })
unfolding read_entry lookup
read-event_fields json n raw parsed = rw (read_number n, given_text raw, parsed) refl

module _ (json : Json) where
  pub parse-task :
      (t : Task)
      → TaskSurvives json t
      → parse_task_event json (json.dump_task t) ≡ some (stored_task t)
  unfolding parse_task_event
  parse-task t survives = rw (survives, parse_task_event) refl

  pub parse-status :
      (e : TaskStatusUpdateEvent)
      → StatusSurvives json e
      → parse_task_event json (json.dump_status_event e) ≡ some (stored_status e)
  unfolding parse_task_event
  parse-status e survives = rw (json.status_lacks_id e, survives, parse_task_event) refl

  pub parse-artifact :
      (e : TaskArtifactUpdateEvent)
      → ArtifactSurvives json e
      → parse_task_event json (json.dump_artifact_event e) ≡ some (stored_artifact e)
  unfolding parse_task_event
  parse-artifact e survives =
      rw (json.artifact_lacks_id e, json.artifact_lacks_status e, survives, parse_task_event) refl

-- one more entry, and one more record that it tells
pub told-append :
    (json : Json) (es : List StreamEntry) (rs : List TaskEventRecord) (e : StreamEntry)
    (r : TaskEventRecord)
    → map (told json) es ≡ map some rs
    → told json e ≡ some r
    → map (told json) (es ++ e ∷ []) ≡ map some (rs ++ r ∷ [])
told-append json es rs e r h new =
    map-append (told json) es (e ∷ [])
    ∙ ap (λ l. l ++ told json e ∷ []) h
    ∙ ap (λ o. map some rs ++ o ∷ []) new
    ∙ sym (map-append some rs (r ∷ []))
