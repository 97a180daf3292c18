-- ===== src/Client/State.antt =====
-- What `Ka2aClient` keeps, and its consumer loop. A future is an object that the caller holds and
-- that `_pending` names; as each has a `uuid4` of its own, the request's id stands for it. The loop
-- takes one message at a time, with no await but that of a dead letter.
use kafka_a2a.Common.{String, Option, none, some, List, [], ◌∷◌, ◌++◌, if◌then◌else◌}
use kafka_a2a.Agent.State.{RequestId, text}
use kafka_a2a.Common.Dict.{Dict, lookup, insert, remove, contains}
use kafka_a2a.Common.Value.{Value, Fields}
use kafka_a2a.Errors.{RpcError}
use kafka_a2a.Models.{Task, Message, TaskStatusUpdateEvent, TaskArtifactUpdateEvent}

pub data EnvelopeType : Type 0 where
  request response event registry : EnvelopeType

-- the part of a `KafkaEnvelope` that the loop reads
pub record Envelope : Type 0 where
  pub type : EnvelopeType
  pub correlation_id : Option RequestId
  pub payload : Value

-- `RpcResponse`: the result where there is no error
pub record Response : Type 0 where
  pub result : Value
  pub error : Option RpcError

-- the decoders of what comes over the wire, where none is an exception
pub record Wire (Raw : Type 0) : Type 0 where
  pub from_bytes : Raw → Option Envelope
  pub validate_response : Value → Option Response
  pub validate_task : Fields → Option Task
  pub validate_message : Fields → Option Message
  pub validate_status : Fields → Option TaskStatusUpdateEvent
  pub validate_artifact : Fields → Option TaskArtifactUpdateEvent

pub data Future : Type 0 where
  waiting : Future
  done : Response → Future
  cancelled : Future

pub record ClientState (Raw : Type 0) : Type 0 where
  pub pending : Dict (Unit {0})
  pub futures : Dict Future
  pub streams : Dict (List Response)
  pub dead_letters : List Raw

abbrev pub settled : Option Future → String → Response → Dict Future → Dict Future
settled (some waiting) id resp futures = insert id (done resp) futures
settled _ id resp futures = futures

-- `if fut is not None and not fut.done(): fut.set_result(resp)`
unfoldable pub set_result : String → Response → Dict Future → Dict Future
set_result id resp futures = settled (lookup id futures) id resp futures

-- `queue.put_nowait(resp)` where a stream has the id
unfoldable pub put_stream : String → Response → Dict (List Response) → Dict (List Response)
put_stream id resp streams = elim (lookup id streams) [
  | none ↦ streams
  | some queue ↦ insert id (queue ++ resp ∷ []) streams
]

module _ {Raw : Type 0} (wire : Wire Raw) where
  -- a response goes to the stream with its id, and to the call that waits for it
  unfoldable pub deliver : String → Response → ClientState Raw → ClientState Raw
  unfolding set_result put_stream
  deliver id resp s = record s {
    streams = put_stream id resp s.streams;
    pending = remove id s.pending;
    futures = if contains id s.pending then set_result id resp s.futures else s.futures;
  }

  -- a response that a text id correlates; the client's own ids are all texts
  abbrev pub addressed : Envelope → Option RequestId → Option (String × Response)
  addressed env (some (text id)) = elim env.type [
    | response ↦ elim (wire.validate_response env.payload) [
      | none ↦ none
      | some resp ↦ some (id, resp)
    ]
    | _ ↦ none
  ]
  addressed env _ = none

  abbrev pub deliver? : Option (String × Response) → ClientState Raw → ClientState Raw
  deliver? none s = s
  deliver? (some (id, resp)) s = deliver id resp s

  -- one round of `_loop`
  unfoldable pub consume : Raw → ClientState Raw → ClientState Raw
  unfolding deliver
  consume raw s = elim (wire.from_bytes raw) [
    | none ↦ record s { dead_letters = s.dead_letters ++ raw ∷ [] }
    | some env ↦ deliver? (addressed env env.correlation_id) s
  ]

  unfoldable pub consume_all : List Raw → ClientState Raw → ClientState Raw
  unfolding consume
  consume_all [] s = s
  consume_all (raw ∷ raws) s = consume_all raws (consume raw s)
