-- ===== src/Agent/Processing.antt =====
-- `_start_processing` of src/kafka_a2a/runtime/agent.py: the run of the processor over a task. The
-- processor gives items until it returns, raises or is cancelled; between two of its items the other
-- handlers run. The clock is read once for a run.
use kafka_a2a.Common.{
  ℕ, String, ◌≡◌, Bool, true, false, ◌&&◌, ◌||◌, Option, none, some, List, [], ◌∷◌, ◌==◌,
  if◌then◌else◌, Result, ok, raise,
}
use kafka_a2a.Common.Dict.{remove}
use kafka_a2a.Common.Text.{strip, lower_codes, occurs_in}
use kafka_a2a.Errors.{Exc, a2a, other}
use kafka_a2a.Models.{
  TaskState, working, completed, failed, agent, text, Message, TaskStatus, Artifact, Task,
  TaskStatusUpdateEvent, TaskArtifactUpdateEvent, artifact_update,
}
use kafka_a2a.TaskStore.State.{is_final, get_task}
use kafka_a2a.TaskStore.Append.{append_artifact}
use kafka_a2a.Agent.Config.{Ka2aAgentConfig}
use kafka_a2a.Agent.State.{AgentState, Exec, ◌>>=◌, fail, enqueue_push}
use kafka_a2a.Agent.Messages.{on_store}
use kafka_a2a.Agent.Tasks.{publish_status}

-- `needle in normalized`
mentions : String → String → Bool
mentions s needle = occurs_in (lower_codes needle) (lower_codes s)

-- `_user_safe_failure_message` of the exception's text
unfoldable pub user_safe_failure_message : String → String
unfolding mentions
user_safe_failure_message raw =
    let s = strip raw in
    if mentions s "invalid_api_key"
      || mentions s "incorrect api key"
      || (mentions s "upstream error (401)" && mentions s "openai")
    then "I could not complete that request because the workspace AI provider key is invalid. Update the workspace AI settings, then retry."
    else if mentions s "delegation loop prevented"
    then "I could not complete that request because agent routing became circular. Please retry; the routing guard has stopped the loop."
    else if mentions s "timed out waiting for delegated response"
    then "I could not complete that request because the specialist agent took too long to respond. Please retry, or ask for a narrower analysis."
    else if s == ""
    then "I could not complete that request. Please retry."
    else s

-- What a processor yields; `unsupported` is a value of another type.
pub data Item : Type 0 where
  status : TaskStatus → Item
  artifact : Artifact → Item
  status_event : TaskStatusUpdateEvent → Item
  artifact_event : TaskArtifactUpdateEvent → Item
  unsupported : String → Item

-- How the processor ends; `raised` has the text of the exception.
pub data End : Type 0 where
  returned : End
  raised : String → End
  cancelled : End

-- `Message(role=Role.agent, parts=[TextPart(text=...)])`, with its id
unfoldable pub agent_message : String → String → Message
agent_message message_id s = record {
  role = agent;
  parts = text s none ∷ [];
  metadata = none;
  extensions = none;
  reference_task_ids = none;
  message_id = message_id;
  task_id = none;
  context_id = none;
}

-- `str(exc)`
abbrev text_of_exc : Exc → String
text_of_exc (a2a e) = e.message
text_of_exc (other s) = s

module _ (cfg : Ka2aAgentConfig) (id message_id : String) (now : ℕ) where
  -- a status of the runtime's own, with its text
  unfoldable pub say : TaskState → String → Exec (Unit {0})
  unfolding agent_message
  say state s =
      publish_status cfg id
        (record { state = state; message = some (agent_message message_id s); timestamp = now })

  publish_artifact : Artifact → Exec (Unit {0})
  unfolding on_store
  publish_artifact a = do
    event ← on_store (append_artifact id a)
    enqueue_push cfg.push_queue_maxsize id (artifact_update event)

  unfoldable pub handle_item : Item → Exec (Unit {0})
  unfolding publish_artifact
  handle_item (status st) = publish_status cfg id st
  handle_item (artifact a) = publish_artifact a
  handle_item (status_event e) = publish_status cfg id e.status
  handle_item (artifact_event e) = publish_artifact e.artifact
  handle_item (unsupported name) = fail (other name)

  -- after an exception of the body, the run has that end
  after_step : Result Exc (Unit {0}) → End → End
  after_step (ok u) end = end
  after_step (raise e) end = raised (text_of_exc e)

  -- the items in turn; the first that fails ends the run
  unfoldable pub handle_items : List Item → End → AgentState → End × AgentState
  handle_items [] end s = (end, s)
  handle_items (i ∷ is) end s = elim (handle_item i s).0 [
    | ok u ↦ handle_items is end (handle_item i s).1
    | raise e ↦ (raised (text_of_exc e), (handle_item i s).1)
  ]

  is_over : Option Task → Bool
  is_over none = false
  is_over (some t) = is_final t.status.state

  -- the end of a processor that returned: the task is completed unless it is over
  complete : AgentState → End × AgentState
  unfolding is_over after_step
  complete s =
      if is_over (get_task id s.store)
      then (returned, s)
      else (let (r, s') = say completed "completed" s in (after_step r returned, s'))

  complete_over :
      (s : AgentState) {t : Task}
      → get_task id s.store ≡ some t
      → is_final t.status.state ≡ true
      → complete s ≡ (returned, s)
  unfolding complete
  complete_over s found over = rw (found, over)

  complete_more :
      (s : AgentState) {t : Task}
      → get_task id s.store ≡ some t
      → is_final t.status.state ≡ false
      → (say completed "completed" s).0 ≡ ok tt
      → complete s ≡ (returned, (say completed "completed" s).1)
  unfolding complete
  complete_more s found more said = rw (found, more, said)

  -- the handlers of the exceptions
  settle : End → AgentState → AgentState
  settle returned s = s
  settle (raised e) s = (say failed (user_safe_failure_message e) s).1
  settle cancelled s = s

  conclude : End → AgentState → AgentState
  unfolding complete settle
  conclude returned s = let (end, s') = complete s in settle end s'
  conclude end s = settle end s

  -- the `finally` block
  abbrev pub forget : AgentState → AgentState
  forget s = record s { processing = remove id s.processing }

  -- what is left of a run once its processor has ended
  unfoldable pub finish : End → AgentState → AgentState
  unfolding conclude
  finish end s = forget (conclude end s)

  -- The two ends of a processor that returned.
  pub finish_over :
      (s : AgentState) {t : Task}
      → get_task id s.store ≡ some t
      → is_final t.status.state ≡ true
      → finish returned s ≡ forget s
  unfolding finish
  finish_over s found over = rw (complete_over s found over)

  pub finish_more :
      (s : AgentState) {t : Task}
      → get_task id s.store ≡ some t
      → is_final t.status.state ≡ false
      → (say completed "completed" s).0 ≡ ok tt
      → finish returned s ≡ forget (say completed "completed" s).1
  unfolding finish
  finish_more s found more said = rw (complete_more s found more said)

  run_from : Result Exc (Unit {0}) → List Item → End → AgentState → AgentState
  run_from (ok u) items end s = let (end', s') = handle_items items end s in finish end' s'
  run_from (raise e) items end s = finish (raised (text_of_exc e)) s

  -- a whole run, with no other handler in between
  unfoldable pub run : List Item → End → AgentState → AgentState
  unfolding handle_items run_from
  run items end s = let (r, s') = say working "working" s in run_from r items end s'
