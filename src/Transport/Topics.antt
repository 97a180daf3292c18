-- ===== src/Transport/Topics.antt =====
-- `TopicNamer`: the topics that agents and clients read.
use Prim.Native.String.{◌++◌ as cat}
use text.Mathlib.TextLemmas.{append_cancel_left}
use kafka_a2a.Common.{String, ◌≡◌, ◌==◌, ◌&&◌, not, if◌then◌else◌, or_text}
use kafka_a2a.Common.Dict.{Dict, lookup, contains}
use kafka_a2a.Common.Text.{strip}

pub record TopicNamer : Type 0 where
  pub requests_prefix : String
  pub replies_prefix : String
  pub events_prefix : String

-- the prefix of a key: its value or the default, under the namespace where the key is not set
unfoldable pub prefix_from : Dict String → String → String → String
unfolding lookup strip
prefix_from env key default =
    let namespace = strip (or_text (lookup "KA2A_TOPIC_NAMESPACE" env) "") in
    let given = strip (or_text (lookup key env) "") in
    let prefix = if given == "" then default else given in
    if not (namespace == "") && not (contains key env)
    then cat namespace (cat "." prefix)
    else prefix

-- `TopicNamer.from_env`
unfoldable pub topic_namer_from_env : Dict String → TopicNamer
unfolding prefix_from
topic_namer_from_env env = record {
  requests_prefix = prefix_from env "KA2A_REQUESTS_PREFIX" "ka2a.req";
  replies_prefix = prefix_from env "KA2A_REPLIES_PREFIX" "ka2a.reply";
  events_prefix = prefix_from env "KA2A_EVENTS_PREFIX" "ka2a.evt";
}

unfoldable pub agent_requests : TopicNamer → String → String
agent_requests t agent_name = cat t.requests_prefix (cat "." agent_name)

unfoldable pub client_replies : TopicNamer → String → String
client_replies t client_id = cat t.replies_prefix (cat "." client_id)

unfoldable pub task_events : TopicNamer → String → String
task_events t task_id = cat t.events_prefix (cat "." task_id)

-- The topics of two names are the same only if the names are.
pub agent_requests_injective :
    (t : TopicNamer) (a b : String) → agent_requests t a ≡ agent_requests t b → a ≡ b
unfolding agent_requests
agent_requests_injective t a b e =
    append_cancel_left "." a b (append_cancel_left t.requests_prefix _ _ e)

pub client_replies_injective :
    (t : TopicNamer) (a b : String) → client_replies t a ≡ client_replies t b → a ≡ b
unfolding client_replies
client_replies_injective t a b e =
    append_cancel_left "." a b (append_cancel_left t.replies_prefix _ _ e)
