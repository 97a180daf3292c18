-- ===== src/Agent/Route.antt =====
-- `_route` and `_handle_request` of src/kafka_a2a/runtime/agent.py: from a request's envelope to its
-- response. What pydantic makes of a payload is an interface.
use Prim.Native.String.{◌++◌ as cat}
use kafka_a2a.Common.{
  String, true, false, ◌||◌, Option, none, some, [], ◌∷◌, ◌==◌, is_given, or_text, if◌then◌else◌,
  Result, ok, raise,
}
use kafka_a2a.Common.Value.{Value, Metadata, str, or_empty}
use kafka_a2a.Errors.{
  Exc, other, RpcError, from_exc, number, invalid_request, method_not_found,
  push_notification_not_supported,
}
use kafka_a2a.Tenancy.{PrincipalCodec}
use kafka_a2a.Agent.Config.{Ka2aAgentConfig}
use kafka_a2a.Agent.State.{RequestId, AgentState, Fresh, Reply, Exec, pure, fail}
use kafka_a2a.Agent.Access.{error}
use kafka_a2a.Agent.Messages.{MessageSendParams, message_send, message_stream}
use kafka_a2a.Agent.Tasks.{
  TaskIdParams, TaskListParams, TaskContinueParams, tasks_get, tasks_list, tasks_cancel,
  tasks_continue, tasks_continue_stream, tasks_subscribe,
}
use kafka_a2a.Agent.PushRoutes.{
  PushConfigIdParams, PushCodec, push_config_set, push_config_get, push_config_list,
  push_config_delete,
}

pub record RpcRequest : Type 0 where
  pub id : RequestId
  pub method : String
  pub params : Option Metadata

-- The part of a `KafkaEnvelope` that the handler reads; `scope` is what `scope_fields()` gives.
pub record RequestEnvelope : Type 0 where
  pub correlation_id : Option RequestId
  pub sender : Option String
  pub reply_to : Option String
  pub scope : Metadata
  pub payload : Value

pub data Outcome : Type 0 where
  result : Reply → Outcome
  failure : RpcError → Outcome

pub record RpcResponse : Type 0 where
  pub id : Option RequestId
  pub outcome : Outcome

pub record ResponseEnvelope : Type 0 where
  pub topic : String
  pub correlation_id : Option RequestId
  pub sender : String
  pub recipient : Option String
  pub scope : Metadata
  pub payload : RpcResponse

-- `model_validate` of the request and of the parameters, where none is a `ValidationError`.
pub record RequestCodec : Type 0 where
  pub parse_rpc : Value → Result String RpcRequest
  pub parse_send : Metadata → Option MessageSendParams
  pub parse_id : Metadata → Option TaskIdParams
  pub parse_query : Metadata → Option TaskIdParams
  pub parse_list : Metadata → Option TaskListParams
  pub parse_continue : Metadata → Option TaskContinueParams
  pub parse_push_get : Metadata → Option PushConfigIdParams
  pub parse_push_list : Metadata → Option PushConfigIdParams
  pub parse_push_delete : Metadata → Option PushConfigIdParams

-- `Params.model_validate(params)`, and the handler
unfoldable pub with_params : {P : Type 0} → Option P → (P → Exec Reply) → Exec Reply
with_params none handler = fail (other "ValidationError")
with_params (some p) handler = handler p

module _ (codec : PrincipalCodec) (pushes : PushCodec) (requests : RequestCodec)
    (cfg : Ka2aAgentConfig) where
  unknown_method : String → Exec Reply
  unknown_method method = fail (error method_not_found (cat "Unknown method: " method))

  if_push_supported : Exec Reply → Exec Reply
  if_push_supported handler =
      if cfg.push_notifications
      then handler
      else fail (error push_notification_not_supported "Push Notification is not supported")

  push_route : String → Metadata → Exec Reply
  unfolding if_push_supported unknown_method with_params
  push_route method params =
      if method == "tasks/pushNotificationConfig/set"
      then if_push_supported (push_config_set codec pushes cfg params)
      else if method == "tasks/pushNotificationConfig/get"
      then if_push_supported
          (with_params (requests.parse_push_get params) (push_config_get codec pushes cfg))
      else if method == "tasks/pushNotificationConfig/list"
      then if_push_supported
          (with_params (requests.parse_push_list params) (push_config_list codec pushes cfg))
      else if method == "tasks/pushNotificationConfig/delete"
      then if_push_supported
          (with_params (requests.parse_push_delete params) (push_config_delete codec pushes cfg))
      else unknown_method method

  unfoldable pub route : Fresh → RpcRequest → RequestEnvelope → Exec Reply
  unfolding push_route
  route fresh req env =
      let method = req.method in
      let params = or_empty req.params in
      if method == "agent/getCard" || method == "agent/getAuthenticatedExtendedCard"
      then pure Reply.card
      else if method == "message/send"
      then with_params (requests.parse_send params) (message_send codec cfg fresh)
      else if method == "message/stream"
      then with_params (requests.parse_send params)
          (message_stream codec cfg req.id env.reply_to fresh)
      else if method == "tasks/get"
      then with_params (requests.parse_query params) (tasks_get codec cfg)
      else if method == "tasks/list"
      then with_params (requests.parse_list params) (tasks_list codec cfg)
      else if method == "tasks/cancel"
      then with_params (requests.parse_id params) (tasks_cancel codec cfg fresh)
      else if method == "tasks/continue"
      then with_params (requests.parse_continue params) (tasks_continue codec cfg fresh)
      else if method == "tasks/continueStream"
      then with_params (requests.parse_continue params)
          (tasks_continue_stream codec cfg req.id env.reply_to fresh)
      else if method == "tasks/subscribe"
      then with_params (requests.parse_id params)
          (tasks_subscribe codec cfg req.id env.reply_to false)
      else if method == "tasks/resubscribe"
      then with_params (requests.parse_id params)
          (tasks_subscribe codec cfg req.id env.reply_to true)
      else push_route method params

  -- `RpcResponse(id=req.id, result=result)`, or its error
  outcome_of : Result Exc Reply → Outcome
  outcome_of (ok r) = result r
  outcome_of (raise e) = failure (from_exc e)

  response_to : RequestEnvelope → Option RequestId → Option RequestId → Outcome → ResponseEnvelope
  response_to env correlation id outcome = record {
    topic = or_text env.reply_to "";
    correlation_id = correlation;
    sender = cfg.agent_name;
    recipient = env.sender;
    scope = env.scope;
    payload = record { id = id; outcome = outcome };
  }

  handle_parsed :
      Fresh
      → RequestEnvelope
      → Result String RpcRequest
      → AgentState
      → ResponseEnvelope × AgentState
  unfolding outcome_of response_to number
  handle_parsed fresh env (raise detail) s = (
    response_to env env.correlation_id none (
        failure (record {
          code = number invalid_request;
          message = "Invalid Request";
          details = some (("detail", str detail) ∷ []);
        })),
    s,
  )
  handle_parsed fresh env (ok req) s =
      let (r, s') = route fresh req env s in
      (response_to env (some req.id) (some req.id) (outcome_of r), s')

  -- A request without `reply_to` is dropped; any other gets one response.
  unfoldable pub handle_request :
      Fresh → RequestEnvelope → AgentState → Option ResponseEnvelope × AgentState
  unfolding handle_parsed
  handle_request fresh env s =
      if is_given env.reply_to
      then (let (response, s') = handle_parsed fresh env (requests.parse_rpc env.payload) s in
          (some response, s'))
      else (none, s)
