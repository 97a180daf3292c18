-- ===== src/Registry/Entries.antt =====
-- `KafkaAgentRegistry` of src/kafka_a2a/registry/kafka_registry.py: what is published about an agent,
-- and what `watch` makes of a record of the topic. Cards and pydantic's validation of a payload are
-- outside: a card is its name and its other fields, and a payload is a registry record, a bare card, or neither.
use kafka_a2a.Common.{ℕ, String, Bool, true, false, Option, none, some, ◌==◌, if◌then◌else◌}
use kafka_a2a.Common.Text.{strip}
use kafka_a2a.Common.Value.{Fields}

pub record AgentCard : Type 0 where
  pub name : String
  pub fields : Fields

pub record RegistryRecord : Type 0 where
  pub agent_name : String
  pub card : Option AgentCard
  pub published_at : ℕ
  pub deleted : Bool

pub record RegistryEntry : Type 0 where
  pub agent_name : String
  pub card : Option AgentCard
  pub published_at : ℕ
  pub deleted : Bool

-- A payload as the two `model_validate` see it.
pub data Payload : Type 0 where
  registry_record : RegistryRecord → Payload
  bare_card : AgentCard → Payload
  neither : Payload

unfoldable pub publish : ℕ → String → AgentCard → RegistryRecord
publish now agent_name card = record {
  agent_name = agent_name;
  card = some card;
  published_at = now;
  deleted = false;
}

unfoldable pub unpublish : ℕ → String → RegistryRecord
unpublish now agent_name = record {
  agent_name = agent_name;
  card = none;
  published_at = now;
  deleted = true;
}

-- One round of `watch`: the entry that it yields, if any; `created_at` is the envelope's.
unfoldable pub watch_entry : ℕ → Payload → Option RegistryEntry
watch_entry created_at (registry_record r) =
    let agent_name = strip r.agent_name in
    if agent_name == ""
    then none
    else some (record {
      agent_name = agent_name;
      card = r.card;
      published_at = r.published_at;
      deleted = r.deleted;
    })
watch_entry created_at (bare_card card) =
    if card.name == ""
    then none
    else some (record {
      agent_name = card.name;
      card = some card;
      published_at = created_at;
      deleted = false;
    })
watch_entry created_at neither = none
