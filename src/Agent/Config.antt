-- ===== src/Agent/Config.antt =====
-- `Ka2aAgentConfig`, as far as requests read it, and whether the card offers push notifications.
use kafka_a2a.Common.{ℕ, String, Bool}
use kafka_a2a.Common.Int.{ℤ}

-- `push_queue_maxsize` is at least 1 in a queue with a bound; 0 is no bound.
pub record Ka2aAgentConfig : Type 0 where
  pub agent_name : String
  pub push_notifications : Bool
  pub push_queue_maxsize : ℕ
  pub tenant_isolation : Bool
  pub require_tenant_match : Bool
  pub principal_metadata_key : String
  pub store_principal_secrets : Bool
  pub context_history_turns : ℤ
