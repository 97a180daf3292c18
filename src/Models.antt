-- ===== src/Models.antt =====
-- src/kafka_a2a/models.py: the A2A data model.
-- A field that the class allows beyond those it declares (`extra="allow"`) is not carried, and the
-- `kind` field of a class is its constructor. Two places of the program that hold one object hold
-- equal values here, but for `TaskEvent.task`, which names the task that the store holds.
use kafka_a2a.Common.{ℕ, String, Bool, Option, List}
use kafka_a2a.Common.Int.{ℤ}
use kafka_a2a.Common.Value.{Value, Metadata}

pub data TaskState : Type 0 where
  unknown submitted working input_required auth_required completed failed canceled rejected :
      TaskState

pub data Role : Type 0 where
  agent user : Role

pub data File : Type 0 where
  with_uri : String → Option String → File
  with_bytes : String → Option String → File

pub data Part : Type 0 where
  text : String → Option Metadata → Part
  file : File → Option Metadata → Part
  data_part : Metadata → Option Metadata → Part
  tool_call : String → String → Metadata → Option Metadata → Part
  tool_result : String → Option Value → Option Bool → Option Metadata → Part

pub record Message : Type 0 where
  pub role : Role
  pub parts : List Part
  pub metadata : Option Metadata
  pub extensions : Option (List String)
  pub reference_task_ids : Option (List String)
  pub message_id : String
  pub task_id : Option String
  pub context_id : Option String

-- The time is a number of ticks.
pub record TaskStatus : Type 0 where
  pub state : TaskState
  pub message : Option Message
  pub timestamp : ℕ

pub record Artifact : Type 0 where
  pub artifact_id : String
  pub name : Option String
  pub description : Option String
  pub extensions : Option (List String)
  pub parts : List Part
  pub metadata : Option Metadata

pub record Task : Type 0 where
  pub id : String
  pub context_id : String
  pub status : TaskStatus
  pub history : Option (List Message)
  pub artifacts : List Artifact
  pub metadata : Option Metadata

pub record TaskStatusUpdateEvent : Type 0 where
  pub task_id : String
  pub context_id : String
  pub status : TaskStatus
  pub final : Bool
  pub metadata : Option Metadata

pub record TaskArtifactUpdateEvent : Type 0 where
  pub task_id : String
  pub context_id : String
  pub artifact : Artifact
  pub append : Option Bool
  pub last_chunk : Option Bool
  pub metadata : Option Metadata

-- A task event holds the store's own object, so later updates of the task show in it: it is the
-- task's id here.
pub data TaskEvent : Type 0 where
  task : String → TaskEvent
  status_update : TaskStatusUpdateEvent → TaskEvent
  artifact_update : TaskArtifactUpdateEvent → TaskEvent

pub record PushNotificationAuthenticationInfo : Type 0 where
  pub schemes : List String
  pub credentials : Option String

pub record PushNotificationConfig : Type 0 where
  pub id : Option String
  pub url : String
  pub token : Option String
  pub authentication : Option PushNotificationAuthenticationInfo

pub record TaskPushNotificationConfig : Type 0 where
  pub task_id : String
  pub push_notification_config : PushNotificationConfig

pub record TaskConfiguration : Type 0 where
  pub accepted_output_modes : Option (List String)
  pub history_length : Option ℤ
  pub push_notification_config : Option PushNotificationConfig
  pub blocking : Option Bool

-- `TaskState.value`
unfoldable pub state_value : TaskState → String
state_value unknown = "unknown"
state_value submitted = "submitted"
state_value working = "working"
state_value input_required = "input-required"
state_value auth_required = "auth-required"
state_value completed = "completed"
state_value failed = "failed"
state_value canceled = "canceled"
state_value rejected = "rejected"
