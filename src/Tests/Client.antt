-- ===== src/Tests/Client.antt =====
-- The theorems on the client, at a stream that ends with a status update.
use kafka_a2a.Common.{String, ◌≡◌, refl, false, true, none, some, List, [], ◌∷◌, ◌++◌}
use kafka_a2a.Common.Dict.{lookup}
use kafka_a2a.Common.Value.{Value, str, obj, field, end, get_field}
use kafka_a2a.Models.{TaskStatusUpdateEvent, completed}
use kafka_a2a.Agent.State.{text}
use kafka_a2a.Client.State.{
  Envelope, response, event, Response, Wire, ClientState, waiting, consume_all,
}
use kafka_a2a.Client.Calls.{
  a_status, other, is_stream_done, parse_stream_result, parse_fields, read_stream, begin_stream,
}
use kafka_a2a.Client.Brings.{grown, first_of, brought, answers, Waits}
use kafka_a2a.Client.Correlates.{consume_all-Correlates}
use kafka_a2a.Client.StreamLaws.{nothing, more, by_result, stream_yields}
use kafka_a2a.Tests.Data.{in_state}

abbrev last_status : TaskStatusUpdateEvent
last_status = record {
  task_id = "task";
  context_id = "context";
  status = in_state completed;
  final = true;
  metadata = none;
}

abbrev wire : Wire Envelope
wire = record {
  from_bytes = λ env. some env;
  validate_response = λ v. some (record { result = v; error = none });
  validate_task = λ fs. none;
  validate_message = λ fs. none;
  validate_status = λ fs. some last_status;
  validate_artifact = λ fs. none;
}

abbrev sends : String → Value → Envelope
sends id v = record { type = response; correlation_id = some (text id); payload = v }

abbrev final_update : Value
final_update = obj (field "kind" (str "status-update") end)

-- an event, an acknowledgement, the answer to another call, the end, and one message more
abbrev messages : List Envelope
messages =
    (record (sends "request" final_update) { type = event })
    ∷ sends "request" (str "accepted")
    ∷ sends "elsewhere" final_update
    ∷ sends "request" final_update
    ∷ sends "request" (str "late")
    ∷ []

abbrev reply : Value → Response
reply v = record { result = v; error = none }

abbrev client : ClientState Envelope
client = record {
  pending = ("call", tt) ∷ [];
  futures = ("call", waiting) ∷ [];
  streams = [];
  dead_letters = [];
}

call-Waits : Waits wire "call" client
unfolding lookup
call-Waits = record { is_pending = refl; unresolved = refl }

consume_all-Correlates_example :
    (lookup "call"
        (consume_all wire (sends "request" (str "x") ∷ sends "call" (str "y") ∷ []) client).futures
      ≡ some (
          first_of (answers wire "call" (sends "request" (str "x") ∷ sends "call" (str "y") ∷ []))))
    × (lookup "call"
          (consume_all wire
            (sends "request" (str "x") ∷ sends "call" (str "y") ∷ [])
            client).streams
        ≡ grown
            (lookup "call" client.streams)
            (answers wire "call" (sends "request" (str "x") ∷ sends "call" (str "y") ∷ [])))
consume_all-Correlates_example =
    consume_all-Correlates wire "call" (sends "request" (str "x") ∷ sends "call" (str "y") ∷ [])
      client call-Waits

told :
    answers wire "request" messages
    ≡ (reply (str "accepted") ∷ []) ++ reply final_update ∷ reply (str "late") ∷ []
unfolding answers brought
told = refl

parsed : parse_stream_result wire "task" "context" final_update ≡ some (a_status last_status)
unfolding parse_stream_result parse_fields get_field
parsed = refl

accepted :
    (parse_stream_result wire "task" "context" (str "accepted") ≡ some (other (str "accepted")))
    × (is_stream_done (other (str "accepted")) ≡ false)
unfolding parse_stream_result is_stream_done
accepted = (refl, refl)

final : is_stream_done (a_status last_status) ≡ true
unfolding is_stream_done
final = refl

stream_yields_example :
    ((read_stream wire "request" "task" "context"
        (consume_all wire messages (begin_stream wire "request" client))).0
      ≡ other (str "accepted") ∷ a_status last_status ∷ [])
    × (lookup "request"
          (read_stream wire "request" "task" "context"
            (consume_all wire messages (begin_stream wire "request" client))).1.streams
        ≡ none)
stream_yields_example =
    stream_yields wire "task" "context" "request" client messages (reply (str "accepted") ∷ [])
      (reply (str "late") ∷ []) (reply final_update) told
      (more (reply (str "accepted")) (other (str "accepted")) refl accepted.0 accepted.1 nothing)
      (by_result (a_status last_status) refl parsed final)
