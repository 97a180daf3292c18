-- ===== src/Decisioning/Contracts.antt =====
-- src/kafka_a2a/decisioning/contracts.py, and the fields of `DecisioningConfig` of config.py and of
-- `DecisionTelemetryEvent` of telemetry.py that the service reads and writes. Times are whole numbers
-- of the clock's unit; the fields that hold a probability are the decimal text of the float.
use kafka_a2a.Common.{
  ℕ, String, Bool, true, false, not, ◌&&◌, Option, none, some, [], ◌==◌, is_some, is_given,
}
use kafka_a2a.Common.Dict.{Dict}
use kafka_a2a.Common.Value.{Metadata}

pub data DecisionMode : Type 0 where
  off shadow enforce : DecisionMode

pub data DecisionCapability : Type 0 where
  host_turn_intent specialist_selection tool_shortlist : DecisionCapability
  specialist_result_evaluation final_response_evaluation : DecisionCapability
  voice_turn_readiness voice_turn_relation voice_response_speakability : DecisionCapability

pub data DecisionErrorCategory : Type 0 where
  timeout network rate_limited provider_4xx provider_5xx : DecisionErrorCategory
  invalid_response unexpected_candidate malformed_probabilities : DecisionErrorCategory
  missing_confidence circuit_open unavailable cancelled : DecisionErrorCategory

pub data DecisionFallbackReason : Type 0 where
  disabled missing_configuration unsupported_provider : DecisionFallbackReason
  circuit_open provider_failure queue_full cancelled low_confidence : DecisionFallbackReason

pub record DecisionUsage : Type 0 where
  pub input_tokens : Option ℕ
  pub output_tokens : Option ℕ

pub record DecisionAttribution : Type 0 where
  pub profile_id : Option String
  pub task_id : Option String
  pub context_id : Option String
  pub trace_id : Option String
  pub agent_slug : String

pub record ChoiceQuestion : Type 0 where
  pub key : String
  pub instructions : String
  pub candidates : Dict String

pub record DecisionRequest : Type 0 where
  pub capability : DecisionCapability
  pub state : Metadata
  pub state_hash : Option String
  pub state_was_redacted : Bool
  pub state_was_truncated : Bool
  pub question : ChoiceQuestion
  pub attribution : DecisionAttribution
  pub mode : DecisionMode
  pub policy_version : String

pub record DecisionResult : Type 0 where
  pub provider : String
  pub model : Option String
  pub selected_candidate : Option String
  pub probabilities : Dict String
  pub confidence : Option String
  pub usage : Option DecisionUsage
  pub error_category : Option DecisionErrorCategory
  pub fallback_reason : Option DecisionFallbackReason

unfoldable pub is_success : DecisionResult → Bool
is_success r = is_some r.selected_candidate && not (is_some r.error_category)

unfoldable pub fallback :
    String → Option String → DecisionFallbackReason → Option DecisionErrorCategory → DecisionResult
fallback provider model fallback_reason error_category = record {
  provider = provider;
  model = model;
  selected_candidate = none;
  probabilities = [];
  confidence = none;
  usage = none;
  error_category = error_category;
  fallback_reason = some fallback_reason;
}

-- the errors of `_TRANSIENT_ERRORS`
is_transient_error : DecisionErrorCategory → Bool
is_transient_error timeout = true
is_transient_error network = true
is_transient_error rate_limited = true
is_transient_error provider_5xx = true
is_transient_error unavailable = true
is_transient_error _ = false

-- `result.error_category in _TRANSIENT_ERRORS`
unfoldable pub is_transient : DecisionResult → Bool
unfolding is_transient_error
is_transient r = elim r.error_category [ none ↦ false | some e ↦ is_transient_error e ]

pub record DecisioningConfig : Type 0 where
  pub enabled : Bool
  pub provider : String
  pub mode : DecisionMode
  pub api_key : Option String
  pub model : Option String
  pub max_concurrency : ℕ
  pub retry_max_retries : ℕ
  pub circuit_failure_threshold : ℕ
  pub circuit_open_s : ℕ
  pub queue_maxsize : ℕ
  pub telemetry_topic : String

is_on : DecisionMode → Bool
is_on off = false
is_on _ = true

-- `is_active`, which `is_shadow_active` of the configuration is as well
unfoldable pub is_active : DecisioningConfig → Bool
unfolding is_on
is_active c =
    c.enabled && is_on c.mode && c.provider == "typesafe" && is_given c.api_key && is_given c.model

pub record ShadowDecisionObservation : Type 0 where
  pub request : DecisionRequest
  pub baseline_decision : Option String

pub record DecisionTelemetryEvent : Type 0 where
  pub request : DecisionRequest
  pub result : DecisionResult
  pub baseline_decision : Option String
  pub comparison : String
  pub retry_count : ℕ
  pub outcome : String
  pub telemetry_topic : String
