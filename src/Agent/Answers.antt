-- ===== src/Agent/Answers.antt =====
-- The response to a request that names a task which its requester may not have.
use kafka_a2a.Common.{
  String, ◌≡◌, refl, Bool, true, if◌then◌else◌, false, Option, some, ok, raise, is_given, or_text,
}
use kafka_a2a.Common.Value.{Metadata, or_empty}
use kafka_a2a.Errors.{Exc, RpcError, from_exc}
use kafka_a2a.Models.{Task}
use kafka_a2a.Tenancy.{PrincipalCodec}
use kafka_a2a.Agent.Config.{Ka2aAgentConfig}
use kafka_a2a.Agent.State.{AgentState, Fresh, Reply, Exec, fail}
use kafka_a2a.Agent.Access.{accessible_task}
use kafka_a2a.Agent.Tasks.{TaskIdParams, TaskContinueParams}
use kafka_a2a.Agent.PushRoutes.{
  PushCodec, PushConfigIdParams, push_config_get, push_config_list, push_config_delete,
}
use kafka_a2a.Agent.Route.{
  RpcRequest, RequestEnvelope, failure, ResponseEnvelope, RequestCodec, with_params, route,
  handle_request,
}
use kafka_a2a.Agent.Isolation.{
  Granted, ungranted_lookup, by_id_refused, resume_refused, push_refused,
}

-- The request names the task of this id, with this metadata, in parameters that are validated.
pub data Names (requests : RequestCodec) (req : RpcRequest)
    : String → Option Metadata → Type 0 where
  gets :
      (p : TaskIdParams)
      → req.method ≡ "tasks/get"
      → requests.parse_query (or_empty req.params) ≡ some p
      → Names requests req p.id p.metadata
  cancels :
      (p : TaskIdParams)
      → req.method ≡ "tasks/cancel"
      → requests.parse_id (or_empty req.params) ≡ some p
      → Names requests req p.id p.metadata
  subscribes :
      (p : TaskIdParams)
      → req.method ≡ "tasks/subscribe"
      → requests.parse_id (or_empty req.params) ≡ some p
      → Names requests req p.id p.metadata
  resubscribes :
      (p : TaskIdParams)
      → req.method ≡ "tasks/resubscribe"
      → requests.parse_id (or_empty req.params) ≡ some p
      → Names requests req p.id p.metadata
  continues :
      (p : TaskContinueParams)
      → req.method ≡ "tasks/continue"
      → requests.parse_continue (or_empty req.params) ≡ some p
      → Names requests req p.id p.metadata
  continues_stream :
      (p : TaskContinueParams)
      → req.method ≡ "tasks/continueStream"
      → requests.parse_continue (or_empty req.params) ≡ some p
      → Names requests req p.id p.metadata
  gets_push :
      (p : PushConfigIdParams)
      → req.method ≡ "tasks/pushNotificationConfig/get"
      → requests.parse_push_get (or_empty req.params) ≡ some p
      → Names requests req p.id p.metadata
  lists_push :
      (p : PushConfigIdParams)
      → req.method ≡ "tasks/pushNotificationConfig/list"
      → requests.parse_push_list (or_empty req.params) ≡ some p
      → Names requests req p.id p.metadata
  deletes_push :
      (p : PushConfigIdParams)
      → req.method ≡ "tasks/pushNotificationConfig/delete"
      → requests.parse_push_delete (or_empty req.params) ≡ some p
      → Names requests req p.id p.metadata

module _ (codec : PrincipalCodec) (pushes : PushCodec) (requests : RequestCodec)
    (cfg : Ka2aAgentConfig) (fresh : Fresh) (env : RequestEnvelope) (s : AgentState) where
  abbrev Refuses : RpcRequest → Type 0
  Refuses req = (e : Exc) × (route codec pushes requests cfg fresh req env s ≡ (raise e, s))

  if_supported :
      (unsupported : Exc) (b : Bool) (handler : Exec Reply)
      → (e : Exc) × (handler s ≡ (raise e, s))
      → (e : Exc) × ((if b then handler else fail unsupported) s ≡ (raise e, s))
  if_supported unsupported true handler h = h
  if_supported unsupported false handler h = (_, refl)

  module _ (req : RpcRequest) (given : is_given env.reply_to ≡ true) where
    lookup_refused :
        {id : String} {metadata : Option Metadata}
        → Names requests req id metadata
        → (e : Exc) → accessible_task codec cfg id metadata s ≡ (raise e, s)
        → Refuses req
    unfolding route with_params
    lookup_refused (gets p m parsed) e refused =
        let r =
          by_id_refused codec cfg fresh p.id p.metadata s refused req.id env.reply_to false given in
        (e, rw (m, parsed) r.0)
    lookup_refused (cancels p m parsed) e refused =
        let r =
          by_id_refused codec cfg fresh p.id p.metadata s refused req.id env.reply_to false given in
        (e, rw (m, parsed) r.1)
    lookup_refused (subscribes p m parsed) e refused =
        let r =
          by_id_refused codec cfg fresh p.id p.metadata s refused req.id env.reply_to false given in
        (e, rw (m, parsed) r.2)
    lookup_refused (resubscribes p m parsed) e refused =
        let r =
          by_id_refused codec cfg fresh p.id p.metadata s refused req.id env.reply_to true given in
        (e, rw (m, parsed) r.2)
    lookup_refused (continues p m parsed) e refused =
        let r =
          resume_refused codec cfg fresh p.id p.metadata s refused req.id env.reply_to p.message
            p.configuration in
        (e, rw (m, parsed) r.0)
    lookup_refused (continues_stream p m parsed) e refused =
        let r =
          resume_refused codec cfg fresh p.id p.metadata s refused req.id env.reply_to p.message
            p.configuration in
        (e, rw (m, parsed) r.1)
    lookup_refused (gets_push p m parsed) e refused =
        let r =
          push_refused codec cfg fresh p.id p.metadata s refused pushes
            p.push_notification_config_id in
        rw (m, parsed)
          (if_supported _ cfg.push_notifications (push_config_get codec pushes cfg p) (e, r.0))
    lookup_refused (lists_push p m parsed) e refused =
        let r =
          push_refused codec cfg fresh p.id p.metadata s refused pushes
            p.push_notification_config_id in
        rw (m, parsed)
          (if_supported _ cfg.push_notifications (push_config_list codec pushes cfg p) (e, r.1))
    lookup_refused (deletes_push p m parsed) e refused =
        let r =
          push_refused codec cfg fresh p.id p.metadata s refused pushes
            p.push_notification_config_id in
        rw (m, parsed)
          (if_supported _ cfg.push_notifications (push_config_delete codec pushes cfg p) (e, r.2))

  -- The answer says that the request failed, and says it to the one who asked.
  pub record Refusal (req : RpcRequest) (r : ResponseEnvelope) : Type 0 where
    pub topic : r.topic ≡ or_text env.reply_to ""
    pub recipient : r.recipient ≡ env.sender
    pub correlation : r.correlation_id ≡ some req.id
    pub id : r.payload.id ≡ some req.id
    pub outcome : (e : RpcError) × (r.payload.outcome ≡ failure e)

  -- With tenant isolation on, a request with a reply topic that parses, names a task by one of the nine
  -- methods of which the parameters are validated and have a task's id (`tasks/get`, `cancel`,
  -- `continue`, `continueStream`, `subscribe` and `resubscribe`, and `get`, `list` and `delete` of push
  -- configs), and is not granted that task is answered with an error, to that topic and to the sender
  -- and with the request's id, and the agent's state is what it was: no task is granted where the store
  -- has none of that id, where the request or the task has no principal, and where the two principals do
  -- not match.
  pub ungranted_answer :
      (req : RpcRequest) {id : String} {metadata : Option Metadata}
      → cfg.tenant_isolation ≡ true
      → is_given env.reply_to ≡ true
      → requests.parse_rpc env.payload ≡ ok req
      → Names requests req id metadata
      → ((t : Task) → ¬ Granted codec cfg id metadata s t)
      → (r : ResponseEnvelope) × (handle_request codec pushes requests cfg fresh env s
          ≡ (some r, s))
        × Refusal req r
  unfolding handle_request
  ungranted_answer req {id} {metadata} isolated given parsed named h =
      let (x, missed) = ungranted_lookup codec cfg id metadata s isolated h in
      let (e, refused) = lookup_refused req given named x missed in
      rw (given, parsed, refused)
        (
          _,
          refl,
          record {
            topic = refl;
            recipient = refl;
            correlation = refl;
            id = refl;
            outcome = (from_exc e, refl);
          },
        )
