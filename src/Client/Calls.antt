-- ===== src/Client/Calls.antt =====
-- `call`, `stream_message`, `subscribe_task` and `continue_task_stream`, cut where they wait, and the
-- iterator of a stream.
use kafka_a2a.Common.{
  String, Bool, true, false, not, ◌&&◌, Option, none, some, List, [], ◌∷◌, ◌==◌, if◌then◌else◌,
  Result, ok, raise,
}
use kafka_a2a.Common.Dict.{lookup, insert, remove}
use kafka_a2a.Common.Value.{Value, Fields, str, obj, field, end, get_field, is_truthy?}
use kafka_a2a.Errors.{RpcError}
use kafka_a2a.Models.{Task, Message, TaskStatusUpdateEvent, TaskArtifactUpdateEvent}
use kafka_a2a.Client.State.{Wire, ClientState, Response, waiting, cancelled}

-- what a stream yields; `other` is a result of no known kind, as it came
pub data StreamResult : Type 0 where
  a_task : Task → StreamResult
  a_message : Message → StreamResult
  a_status : TaskStatusUpdateEvent → StreamResult
  an_artifact : TaskArtifactUpdateEvent → StreamResult
  other : Value → StreamResult

-- `payload[k] = v`
unfoldable pub set_field : String → Value → Fields → Fields
set_field k v end = field k v end
set_field k v (field j w fs) =
    let rest = set_field k v fs in if j == k then field j v fs else field j w rest

-- `if fallback and not payload.get(k) and not payload.get(j): payload[k] = fallback`
unfoldable pub fill : String → String → String → Fields → Fields
unfolding set_field get_field
fill fallback k j fs =
    if not (fallback == "")
      && not (is_truthy? (get_field k fs))
      && not (is_truthy? (get_field j fs))
    then set_field k (str fallback) fs
    else fs

abbrev wrap : {A : Type 0} → (A → StreamResult) → Option A → Option StreamResult
wrap result none = none
wrap result (some a) = some (result a)

-- `_is_stream_done`
unfoldable pub is_stream_done : StreamResult → Bool
is_stream_done (a_status e) = e.final
is_stream_done (a_message m) = true
is_stream_done _ = false

module _ {Raw : Type 0} (wire : Wire Raw) where
  -- the case of a dict, by its `kind`
  unfoldable pub parse_fields : String → String → Fields → Option StreamResult
  unfolding get_field fill
  parse_fields task_id context_id fs = elim (get_field "kind" fs) [
    | some (str kind) ↦
        if kind == "task"
        then wrap a_task (wire.validate_task fs)
        else if kind == "message"
        then wrap a_message (wire.validate_message fs)
        else if kind == "status-update"
        then wrap a_status (
            wire.validate_status
              (fill context_id "contextId" "context_id" (fill task_id "taskId" "task_id" fs)))
        else if kind == "artifact-update"
        then wrap an_artifact (wire.validate_artifact fs)
        else some (other (obj fs))
    | _ ↦ some (other (obj fs))
  ]

  -- `_parse_stream_result`; none where a model raises
  unfoldable pub parse_stream_result : String → String → Value → Option StreamResult
  unfolding parse_fields
  parse_stream_result task_id context_id (obj fs) = parse_fields task_id context_id fs
  parse_stream_result task_id context_id v = some (other v)

  -- how a stream stands: it waits for more, has come to its end, or raised
  pub data Ending : Type 0 where
    waits : Ending
    ended : Ending
    failed : RpcError → Ending
    invalid : Ending

  -- the loop of `_iter` over what its queue holds: what it yields, and how it stands
  unfoldable pub iterate : String → String → List Response → List StreamResult × Ending
  unfolding parse_stream_result is_stream_done
  iterate task_id context_id [] = ([], waits)
  iterate task_id context_id (item ∷ items) =
      let rest = iterate task_id context_id items in
      elim item.error [
        | some e ↦ ([], failed e)
        | none ↦ elim (parse_stream_result task_id context_id item.result) [
          | none ↦ ([], invalid)
          | some r ↦ if is_stream_done r then (r ∷ [], ended) else (r ∷ rest.0, rest.1)
        ]
      ]

  -- `finally: self._streams.pop(request_id, None)`, where the iterator is over
  abbrev pub closed : Ending → String → ClientState Raw → ClientState Raw
  closed waits id s = record s { streams = insert id [] s.streams }
  closed _ id s = record s { streams = remove id s.streams }

  -- the iterator of a stream takes what its queue holds
  unfoldable pub read_stream :
      String → String → String → ClientState Raw → List StreamResult × ClientState Raw
  unfolding iterate
  read_stream id task_id context_id s = elim (lookup id s.streams) [
    | none ↦ ([], s)
    | some queue ↦
        let (yielded, ending) = iterate task_id context_id queue in (yielded, closed ending id s)
  ]

  -- a call up to its `send`: its future is made and waited for
  unfoldable pub begin_call : String → ClientState Raw → ClientState Raw
  begin_call id s = record s {
    pending = insert id tt s.pending;
    futures = insert id waiting s.futures;
  }

  -- a stream has a queue as well
  unfoldable pub begin_stream : String → ClientState Raw → ClientState Raw
  unfolding begin_call
  begin_stream id s = begin_call id (record s { streams = insert id [] s.streams })

  -- `asyncio.wait_for` ran out of time: it cancels the future, and nothing else is undone
  unfoldable pub time_out : String → ClientState Raw → ClientState Raw
  time_out id s = elim (lookup id s.futures) [
    | some waiting ↦ record s { futures = insert id cancelled s.futures }
    | _ ↦ s
  ]

  -- the rest of `call`, once its future is done
  abbrev pub finish_call : Response → Result RpcError Value
  finish_call resp = elim resp.error [ some e ↦ raise e | none ↦ ok resp.result ]

  -- the rest of a stream's start: an error closes the stream
  abbrev pub finish_stream :
      String → Response → ClientState Raw → Result RpcError Unit × ClientState Raw
  finish_stream id resp s = elim resp.error [
    | some e ↦ (raise e, record s { streams = remove id s.streams })
    | none ↦ (ok tt, s)
  ]
