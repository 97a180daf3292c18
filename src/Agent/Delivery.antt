-- ===== src/Agent/Delivery.antt =====
-- `_push_loop` and `_deliver_push` of src/kafka_a2a/runtime/agent.py, and the failure of `_prepare`. The
-- scheme, the host part and the path that `urlparse` finds in a url are an argument, and so is which
-- deliveries come to their end.
use Prim.Native.Char.{code}
use Prim.Native.String.{◌++◌ as cat}
use kafka_a2a.Common.{
  ℕ, zero, suc, String, Bool, true, false, ◌||◌, Option, none, some, List, [], ◌∷◌, ◌++◌, ◌==◌,
  nat_eq, if◌then◌else◌,
}
use kafka_a2a.Common.Dict.{Dict}
use kafka_a2a.Models.{
  failed, TaskEvent, PushNotificationConfig, PushNotificationAuthenticationInfo,
  TaskPushNotificationConfig,
}
use kafka_a2a.TaskStore.PushConfigs.{list_push_notification_configs}
use kafka_a2a.Agent.Config.{Ka2aAgentConfig}
use kafka_a2a.Agent.State.{AgentState, Exec}
use kafka_a2a.Agent.Processing.{say, user_safe_failure_message}

-- the failure branch of `_prepare`, from the text of the exception
unfoldable pub prepare_failed : Ka2aAgentConfig → String → String → ℕ → String → Exec (Unit {0})
unfolding say user_safe_failure_message
prepare_failed cfg task_id message_id now detail =
    say cfg task_id message_id now failed (user_safe_failure_message detail)

pub record ParsedUrl : Type 0 where
  pub scheme : String
  pub netloc : String
  pub path : String

-- what is sent for an event: a POST with its headers, or a message to a topic under a key
pub data Delivery : Type 0 where
  post : String → Dict String → TaskEvent → Delivery
  send : String → String → TaskEvent → Delivery

-- `path.lstrip("/")`
unfoldable pub lstrip_slashes : String → String
lstrip_slashes String.[] = ""
lstrip_slashes (String.◌∷◌ c s) =
    let rest = lstrip_slashes s in if nat_eq (code c) b'/' then rest else String.◌∷◌ c s

abbrev pub token_header : Option String → Dict String
token_header none = []
token_header (some token) = if token == "" then [] else ("x-a2a-token", token) ∷ []

abbrev pub scheme_header : List String → String → Dict String
scheme_header [] credentials = []
scheme_header (scheme ∷ schemes) credentials =
    ("authorization", cat scheme (cat " " credentials)) ∷ []

abbrev pub credentials_header : List String → Option String → Dict String
credentials_header schemes none = []
credentials_header schemes (some credentials) =
    if credentials == "" then [] else scheme_header schemes credentials

abbrev pub authorization_header : Option PushNotificationAuthenticationInfo → Dict String
authorization_header none = []
authorization_header (some a) = credentials_header a.schemes a.credentials

unfoldable pub push_headers : PushNotificationConfig → Dict String
push_headers config =
    ("content-type", "application/json")
    ∷ (token_header config.token ++ authorization_header config.authentication)

abbrev pub send_unless_blank : String → String → TaskEvent → Option Delivery
send_unless_blank topic task_id event =
    if topic == "" then none else some (send topic task_id event)

-- the state of the push loop: the agent, what was sent, and whether the loop still runs
abbrev pub PushLoop : Type 0
PushLoop = AgentState × List Delivery × Bool

-- after the `try`, whose body came to its end or raised an exception: `except Exception: continue`
abbrev pub goes_on : Bool → Bool
goes_on true = true
goes_on false = true

-- `urlparse` raises on some texts
module _ (urlparse : String → Option ParsedUrl) (succeeds : Delivery → Bool) where
  -- where an event goes by a parsed url; one of another scheme, or of no topic, goes nowhere
  unfoldable pub routed : String → TaskEvent → PushNotificationConfig → ParsedUrl → Option Delivery
  unfolding push_headers lstrip_slashes
  routed task_id event config parsed =
      if parsed.scheme == "http" || parsed.scheme == "https"
      then some (post config.url (push_headers config) event)
      else if parsed.scheme == "kafka"
      then send_unless_blank
          (if parsed.netloc == "" then lstrip_slashes parsed.path else parsed.netloc) task_id event
      else none

  abbrev pub attempt : Option Delivery → List Delivery × Bool
  attempt none = ([], true)
  attempt (some d) = (d ∷ [], succeeds d)

  -- `_deliver_push`: the delivery that it tries, and whether it comes to its end
  unfoldable pub deliver_push : String → TaskEvent → PushNotificationConfig → List Delivery × Bool
  unfolding routed
  deliver_push task_id event config = elim (urlparse config.url) [
    | none ↦ ([], false)
    | some parsed ↦ attempt (routed task_id event config parsed)
  ]

  -- the loop over the configs, which an exception leaves
  unfoldable pub deliver_all :
      String → TaskEvent → List TaskPushNotificationConfig → List Delivery × Bool
  unfolding deliver_push
  deliver_all task_id event [] = ([], true)
  deliver_all task_id event (item ∷ items) =
      let (tried, ended) = deliver_push task_id event item.push_notification_config in
      let rest = deliver_all task_id event items in
      if ended then (tried ++ rest.0, rest.1) else (tried, false)

  -- the body of the `try`, for one entry of the queue
  unfoldable pub deliver_entry : AgentState → String × TaskEvent → List Delivery × Bool
  unfolding deliver_all
  deliver_entry s entry =
      deliver_all entry.0 entry.1 (list_push_notification_configs entry.0 s.store)

  -- one round of `_push_loop`, which waits while the queue is empty
  unfoldable pub push_turn : PushLoop → PushLoop
  unfolding deliver_entry
  push_turn (s, sent, false) = (s, sent, false)
  push_turn (s, sent, true) = elim s.push_queue [
    | none ↦ (s, sent, true)
    | some queue ↦ elim queue [
      | [] ↦ (s, sent, true)
      | entry ∷ rest ↦
          let (tried, ended) = deliver_entry s entry in
          (record s { push_queue = some rest }, sent ++ tried, goes_on ended)
    ]
  ]

  unfoldable pub push_turns : ℕ → PushLoop → PushLoop
  unfolding push_turn
  push_turns zero c = c
  push_turns (suc n) c = push_turns n (push_turn c)
