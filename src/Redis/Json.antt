-- ===== src/Redis/Json.antt =====
-- The JSON of the models as runtime/redis_task_store.py uses it: `model_dump_json` with
-- `exclude_none=True`, and `model_validate_json`, which returns nothing where it raises. A value
-- need not survive the round trip, since a null in its metadata is dropped. A model refuses a text
-- that lacks a field it requires: a status update has no `id`, nor has an artifact update, which has
-- no `status` either.
use kafka_a2a.Common.{String, ◌≡◌, Option, none, some}
use kafka_a2a.Models.{Task, TaskStatusUpdateEvent, TaskArtifactUpdateEvent}

pub record Json : Type 0 where
  pub dump_task : Task → String
  pub validate_task : String → Option Task
  pub dump_status_event : TaskStatusUpdateEvent → String
  pub validate_status_event : String → Option TaskStatusUpdateEvent
  pub dump_artifact_event : TaskArtifactUpdateEvent → String
  pub validate_artifact_event : String → Option TaskArtifactUpdateEvent
  pub status_lacks_id : (e : TaskStatusUpdateEvent) → validate_task (dump_status_event e) ≡ none
  pub artifact_lacks_id :
      (e : TaskArtifactUpdateEvent) → validate_task (dump_artifact_event e) ≡ none
  pub artifact_lacks_status :
      (e : TaskArtifactUpdateEvent) → validate_status_event (dump_artifact_event e) ≡ none

-- The value comes back from its JSON.
abbrev pub TaskSurvives : Json → Task → Type 0
TaskSurvives json t = json.validate_task (json.dump_task t) ≡ some t

abbrev pub StatusSurvives : Json → TaskStatusUpdateEvent → Type 0
StatusSurvives json e = json.validate_status_event (json.dump_status_event e) ≡ some e

abbrev pub ArtifactSurvives : Json → TaskArtifactUpdateEvent → Type 0
ArtifactSurvives json e = json.validate_artifact_event (json.dump_artifact_event e) ≡ some e
