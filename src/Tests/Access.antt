-- ===== src/Tests/Access.antt =====
-- The theorems on who gets at a task: the task is alice's.
use kafka_a2a.Common.{ℕ, String, ◌≡◌, ◌≢◌, refl, true, false, none, some, List, [], ◌∷◌, ok, raise}
use kafka_a2a.Common.Dict.{lookup}
use kafka_a2a.Common.Value.{or_empty, null}
use kafka_a2a.Models.{Task}
use kafka_a2a.Tenancy.{
  extract_principal, matches, with_principal, strip_principal_secrets_for_storage,
}
use kafka_a2a.Tenancy.Laws.{KeptOf, strip-KeptOf}
use kafka_a2a.TaskStore.State.{get_task}
use kafka_a2a.Agent.Conversation.{task_principal}
use kafka_a2a.Agent.State.{RequestId, Reply}
use kafka_a2a.Agent.Access.{accessible_task, denied}
use kafka_a2a.Agent.Messages.{MessageSendParams, new_message_task}
use kafka_a2a.Agent.Tasks.{TaskIdParams, TaskListParams, tasks_list}
use kafka_a2a.Agent.PushRoutes.{PushCodec}
use kafka_a2a.Agent.Route.{
  RpcRequest, RequestEnvelope, ResponseEnvelope, RequestCodec, handle_request,
}
use kafka_a2a.Agent.Answers.{gets, Refusal, ungranted_answer}
use kafka_a2a.Agent.Isolation.{
  Granted, accessible_task_matched, accessible_task_mismatched, accessible_task-Granted,
}
use kafka_a2a.Agent.Ownership.{made, kept, new_message_task-accessible_task}
use kafka_a2a.Agent.Listing.{IsPage, tasks_list_owned}
use kafka_a2a.Tests.Data.{codec, cfg, alice, bob, from, hello, fresh, waiting, s0}

asks_alice : extract_principal codec (or_empty (from alice)) "principal" ≡ some alice
unfolding extract_principal lookup
asks_alice = refl

asks_bob : extract_principal codec (or_empty (from bob)) "principal" ≡ some bob
unfolding extract_principal lookup
asks_bob = refl

owner : task_principal codec cfg waiting ≡ some alice
unfolding task_principal extract_principal lookup
owner = refl

found : lookup "task" s0.store.tasks ≡ some waiting
unfolding lookup
found = refl

same_user : matches true alice alice ≡ true
unfolding matches
same_user = refl

other_user : matches true alice bob ≡ false
unfolding matches
other_user = refl

granted : accessible_task codec cfg "task" (from alice) s0 ≡ (ok waiting, s0)
granted =
    accessible_task_matched codec cfg refl "task" (from alice) s0 found asks_alice owner same_user

refused : accessible_task codec cfg "task" (from bob) s0 ≡ (raise denied, s0)
refused =
    accessible_task_mismatched codec cfg refl "task" (from bob) s0 found asks_bob owner other_user

result : (accessible_task codec cfg "task" (from alice) s0).0 ≡ ok waiting
unfolding accessible_task lookup extract_principal task_principal matches get_task
result = refl

accessible_task-Granted_example : Granted codec cfg "task" (from alice) s0 waiting
accessible_task-Granted_example =
    accessible_task-Granted codec cfg "task" (from alice) s0 refl result

abbrev pushes : PushCodec
pushes = record { parse_config = λ v. none; repr = λ v. "" }

-- bob asks for alice's task
abbrev asked : TaskIdParams
asked = record { id = "task"; metadata = from bob }

abbrev get_request : RpcRequest
get_request = record { id = RequestId.text "r"; method = "tasks/get"; params = none }

abbrev requests : RequestCodec
requests = record {
  parse_rpc = λ v. ok get_request;
  parse_send = λ m. none;
  parse_id = λ m. none;
  parse_query = λ m. some asked;
  parse_list = λ m. none;
  parse_continue = λ m. none;
  parse_push_get = λ m. none;
  parse_push_list = λ m. none;
  parse_push_delete = λ m. none;
}

abbrev envelope : RequestEnvelope
envelope = record {
  correlation_id = none;
  sender = some "client";
  reply_to = some "replies";
  scope = [];
  payload = null;
}

ungranted : (t : Task) → ¬ Granted codec cfg "task" (from bob) s0 t
ungranted t (here, (p, q, asks, owns, matched)) = absurd (
    cc
      (accessible_task_matched codec cfg refl "task" (from bob) s0 here asks owns matched, refused))

ungranted_answer_example :
    (r : ResponseEnvelope) × (handle_request codec pushes requests cfg fresh envelope s0
      ≡ (some r, s0))
    × Refusal codec pushes requests cfg fresh envelope s0 get_request r
ungranted_answer_example =
    ungranted_answer codec pushes requests cfg fresh envelope s0 get_request refl refl refl
      (gets asked refl refl) ungranted

abbrev send : MessageSendParams
send = record { message = hello; configuration = none; metadata = from bob }

new_message_task-accessible_task_example :
    ((new_message_task codec cfg fresh send s0).0
      ≡ ok (
        made codec cfg fresh send bob,
        with_principal codec (or_empty send.metadata) bob "principal",
      ))
    × (accessible_task codec cfg "new" send.metadata (new_message_task codec cfg fresh send s0).1
        ≡ (ok (made codec cfg fresh send bob), (new_message_task codec cfg fresh send s0).1))
    × (task_principal codec cfg (made codec cfg fresh send bob) ≡ some (kept codec cfg bob))
new_message_task-accessible_task_example =
    new_message_task-accessible_task codec cfg fresh send s0 refl refl asks_bob

other_key : ◌≢◌ {A = String} "principal" "other"
other_key = cc

abbrev page : TaskListParams
page = record { limit = none; offset = none; status = none; context_id = none; metadata = from bob }

tasks_list_owned_example :
    (ts : List Task) × (total : ℕ) × (tasks_list codec cfg page s0
      ≡ (ok (Reply.task_list ts total), s0))
    × IsPage codec cfg bob page s0 ts total
tasks_list_owned_example = tasks_list_owned codec cfg page s0 refl asks_bob

strip-KeptOf_example :
    KeptOf codec (extract_principal codec (("principal", codec.dump alice) ∷ []) "principal") (
      extract_principal codec
        (strip_principal_secrets_for_storage codec
          (("principal", codec.dump alice) ∷ [])
          "principal")
        "principal")
    × (lookup "other" (
          strip_principal_secrets_for_storage codec
            (("principal", codec.dump alice) ∷ [])
            "principal")
        ≡ lookup "other" (("principal", codec.dump alice) ∷ []))
strip-KeptOf_example =
    strip-KeptOf codec (("principal", codec.dump alice) ∷ []) "principal" "other" other_key
