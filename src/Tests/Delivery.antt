-- ===== src/Tests/Delivery.antt =====
-- The theorems on the push loop, on the filter of agents and on the scope of an envelope.
use kafka_a2a.Common.{String, ◌≡◌, refl, true, false, Option, none, some, List, [], ◌∷◌, ◌++◌}
use kafka_a2a.Common.Dict.{Dict}
use kafka_a2a.Common.Lists.{length, All}
use kafka_a2a.Common.Value.{Value, str, obj, arr, field, end, cons, nil}
use kafka_a2a.Models.{TaskEvent, task, PushNotificationConfig}
use kafka_a2a.TaskStore.State.{empty}
use kafka_a2a.Agent.State.{AgentState}
use kafka_a2a.Agent.Delivery.{ParsedUrl, Delivery, push_turns}
use kafka_a2a.Agent.Pushes.{DeliversAll, push_turns_lem}
use kafka_a2a.Registry.Entries.{AgentCard}
use kafka_a2a.AgentFilter.{Filter, filter_agent_cards}
use kafka_a2a.AgentFilter.Shows.{IsShown, filter_agent_cards-IsShown}
use kafka_a2a.Transport.Scope.{scope_fields, extract_envelope_scope_fields}
use kafka_a2a.Transport.Envelope.{scope_fields-extract}
use kafka_a2a.Tests.Data.{agent_of}

abbrev hook : PushNotificationConfig
hook = record { id = none; url = "https://hook"; token = some "t"; authentication = none }

abbrev parsed_url : String → Option ParsedUrl
parsed_url url = some (record { scheme = "https"; netloc = "hook"; path = "" })

abbrev queued : List (String × TaskEvent)
queued = ("task", task "task") ∷ []

abbrev pushing : AgentState
pushing =
    record (agent_of (record empty { push_configs = ("task", ("default", hook) ∷ []) ∷ [] })) {
      push_queue = some queued;
    }

push_turns_lem_example :
    (ds : List Delivery) × (push_turns parsed_url (λ d. false) (length queued) (pushing, [], true)
      ≡ (record pushing { push_queue = some [] }, [] ++ ds, true))
    × DeliversAll parsed_url (λ d. false) pushing queued ds
push_turns_lem_example = push_turns_lem parsed_url (λ d. false) pushing queued [] refl

abbrev card_of : String → String → AgentCard
card_of name profile = record { name = name; fields = field "profile" (str profile) end }

abbrev hosts : Filter
hosts = record {
  exclude_names = "host" ∷ [];
  include_names = [];
  required_profile_id = some "p";
  allowed_public_slugs = [];
}

abbrev env : Dict String
env = ("KA2A_ALLOWED_DOWNSTREAM_AGENTS", "orders, stock") ∷ []

abbrev cards : List AgentCard
cards = card_of "orders" "p" ∷ card_of "host" "p" ∷ card_of "stock" "q" ∷ card_of "other" "p" ∷ []

filter_agent_cards-IsShown_example :
    All (IsShown (λ v. "") env hosts) (filter_agent_cards (λ v. "") env cards hosts)
filter_agent_cards-IsShown_example = filter_agent_cards-IsShown (λ v. "") env hosts cards

abbrev scoped : Value
scoped = obj (
    field "params"
      (obj (
        field "scope" (str " store ")
          (field "entity_ids" (arr (cons (str "e") (cons (str "e") nil))) end)))
      end)

scope_fields-extract_example :
    scope_fields (extract_envelope_scope_fields (λ v. "") scoped)
    ≡ extract_envelope_scope_fields (λ v. "") scoped
scope_fields-extract_example = scope_fields-extract (λ v. "") scoped
