-- ===== src/Agent/Resume.antt =====
-- What cancelling and continuing a task do.
use kafka_a2a.Common.{
  String, ◌≡◌, refl, ap, ◌==◌, or_else, true, false, not, ◌&&◌, some, [], ◌∷◌, ◌++◌, if◌then◌else◌,
  get_or, ok, raise, arith, Bool-cases, inl, inr,
}
use kafka_a2a.Common.Dict.{lookup}
use kafka_a2a.Common.Value.{Metadata}
use kafka_a2a.Errors.{Exc}
use kafka_a2a.Models.{submitted, canceled, Message, TaskStatus, Task}
use kafka_a2a.Tenancy.{PrincipalCodec}
use kafka_a2a.TaskStore.Append.{with_status, address_message, address_status, append_history}
use kafka_a2a.Agent.Config.{Ka2aAgentConfig}
use kafka_a2a.Agent.State.{AgentState, cancel, Fresh, Reply}
use kafka_a2a.Agent.Access.{accessible_task, request_metadata}
use kafka_a2a.Agent.Tasks.{
  TaskIdParams, TaskContinueParams, tasks_cancel, resume_task, is_processing, cancel_processing,
  is_waiting, check_waiting, publish_status, continuation,
}
use kafka_a2a.Agent.Steps.{
  updated_task_ok, publish_status_ok, publish_status_task, publish_status_effects,
  with_status-state,
}

-- whether it is being processed or not, only the effects change
cancel_processing_ok :
    (id : String) (s : AgentState)
    → cancel_processing id s ≡ (
      ok tt,
      record s { effects = if is_processing id s then s.effects ++ cancel id ∷ [] else s.effects },
    )
unfolding cancel_processing
cancel_processing_ok id s = elim (Bool-cases (is_processing id s)) [
  | inl e ↦ rw e refl
  | inr e ↦ rw e refl
]

-- what has an id keeps it
or_else_same : (x : String) → or_else (some x) (some x) ≡ some x
or_else_same x = elim (Bool-cases (x == "")) [ inl e ↦ rw e refl | inr e ↦ rw e refl ]

addressed_lem :
    (t : Task) (sent : Message) → address_message t t.id (continuation t sent) ≡ continuation t sent
unfolding address_message continuation
addressed_lem t sent = rw (or_else_same t.id, or_else_same t.context_id) refl

module _ (codec : PrincipalCodec) (cfg : Ka2aAgentConfig) (fresh : Fresh) where
  -- the status that cancelling publishes
  abbrev pub canceled_status : Task → TaskStatus
  canceled_status t = record { state = canceled; message = t.status.message; timestamp = fresh.now }

  -- `tasks/cancel` of an accessible task returns the task canceled, which the store then has; its
  -- processing is cancelled exactly where it is going on.
  pub tasks_cancel_ok :
      (p : TaskIdParams) (s : AgentState) {t : Task}
      → accessible_task codec cfg p.id p.metadata s ≡ (ok t, s)
      → lookup p.id s.store.tasks ≡ some t
      → ((tasks_cancel codec cfg fresh p s).0
          ≡ ok (Reply.task (with_status t p.id (canceled_status t))))
        × (lookup p.id (tasks_cancel codec cfg fresh p s).1.store.tasks
            ≡ some (with_status t p.id (canceled_status t)))
        × ((tasks_cancel codec cfg fresh p s).1.effects
            ≡ (if is_processing p.id s then s.effects ++ cancel p.id ∷ [] else s.effects))
        × ((with_status t p.id (canceled_status t)).status.state ≡ canceled)
  unfolding tasks_cancel
  tasks_cancel_ok p s {t} granted found =
      rw
        (
          granted,
          cancel_processing_ok p.id s,
          publish_status_ok cfg p.id (canceled_status t) stopped found,
          updated_task_ok p.id published updated,
        )
        (
          refl,
          updated,
          publish_status_effects cfg p.id (canceled_status t) stopped found,
          with_status-state t p.id (canceled_status t),
        )
    where
      stopped : AgentState
      stopped = record s {
        effects = if is_processing p.id s then s.effects ++ cancel p.id ∷ [] else s.effects;
      }

      published : AgentState
      published = (publish_status cfg p.id (canceled_status t) stopped).1

      updated : lookup p.id published.store.tasks ≡ some (with_status t p.id (canceled_status t))
      updated = publish_status_task cfg p.id (canceled_status t) stopped found

  -- the status that a continued task gets
  abbrev pub resumed_status : Task → Message → TaskStatus
  resumed_status t message = record {
    state = submitted;
    message = some (continuation t message);
    timestamp = fresh.now;
  }

  check_waiting_ok :
      (id : String) (t : Task) (s : AgentState)
      → is_waiting t.status.state ≡ true
      → is_processing id s ≡ false
      → check_waiting id t s ≡ (ok tt, s)
  unfolding check_waiting
  check_waiting_ok id t s waiting idle = rw (waiting, idle) refl

  check_waiting-cases :
      (id : String) (t : Task) (s : AgentState)
      → ((is_waiting t.status.state && not (is_processing id s)) ≡ false)
      → (e : Exc) × (check_waiting id t s ≡ (raise e, s))
  unfolding check_waiting
  check_waiting-cases id t s h = elim (Bool-cases (is_waiting t.status.state)) [
    | inl w ↦ elim (Bool-cases (is_processing id s)) [
      | inl b ↦ rw (w, b) (_, refl)
      | inr b ↦ absurd (ground arith)
    ]
    | inr w ↦ rw w (_, refl)
  ]

  -- An accessible task that does not wait for input, or that is being processed, is not resumed: the
  -- request is refused, and nothing changes.
  pub resume_task_refused :
      (p : TaskContinueParams) (s : AgentState) {t : Task}
      → accessible_task codec cfg p.id p.metadata s ≡ (ok t, s)
      → ((is_waiting t.status.state && not (is_processing p.id s)) ≡ false)
      → (e : Exc) × (resume_task codec cfg fresh p s ≡ (raise e, s))
  unfolding resume_task
  resume_task_refused p s {t} granted h =
      let (e, refused) = check_waiting-cases p.id t s h in (e, rw (granted, refused) refl)

  -- the message and the task of a resumed task
  pub record IsResumed (t : Task) (sent message : Message) (u : Task) : Type 0 where
    pub addressed : (message.task_id ≡ some t.id) × (message.context_id ≡ some t.context_id)
    pub content :
        (message.role ≡ sent.role)
        × (message.parts ≡ sent.parts)
        × (message.message_id ≡ sent.message_id)
    pub state : u.status.state ≡ submitted
    pub said : u.status.message ≡ some message
    pub time : u.status.timestamp ≡ fresh.now
    pub history : u.history ≡ some (get_or t.history [] ++ message ∷ [])
    pub kept :
        (u.id ≡ t.id)
        × (u.context_id ≡ t.context_id)
        × (u.artifacts ≡ t.artifacts)
        × (u.metadata ≡ t.metadata)

  resumed_lem :
      (t : Task) (sent : Message)
      → IsResumed t sent (continuation t sent) (with_status t t.id (resumed_status t sent))
  unfolding continuation with_status address_message address_status append_history
  resumed_lem t sent = record {
    addressed = (refl, refl);
    content = (refl, refl, refl);
    state = refl;
    said = ap some (addressed_lem t sent);
    time = refl;
    history = ap (λ m. some (get_or t.history [] ++ m ∷ [])) (addressed_lem t sent);
    kept = (refl, refl, refl, refl);
  }

  -- An accessible task that waits for input and is not being processed is resumed. The message is the
  -- user's, with its role, parts and id, under the task's id and context, whatever ids the user gave.
  -- The store has the task as submitted at that time, with that message as its status message and at
  -- the end of its history, and its id, context, artifacts and metadata as before; no asyncio task is
  -- made yet.
  pub resume_task-IsResumed :
      (p : TaskContinueParams) (m : Metadata) (s : AgentState) {t : Task}
      → accessible_task codec cfg p.id p.metadata s ≡ (ok t, s)
      → lookup t.id s.store.tasks ≡ some t
      → is_waiting t.status.state ≡ true
      → is_processing p.id s ≡ false
      → request_metadata codec cfg p.metadata s ≡ (ok m, s)
      → (message : Message) × (u : Task) × ((resume_task codec cfg fresh p s).0
          ≡ ok (t, message, m))
        × (lookup t.id (resume_task codec cfg fresh p s).1.store.tasks ≡ some u)
        × ((resume_task codec cfg fresh p s).1.effects ≡ s.effects)
        × IsResumed t p.message message u
  unfolding resume_task
  resume_task-IsResumed p m s {t} granted found waiting idle known =
      rw
        (
          granted,
          check_waiting_ok p.id t s waiting idle,
          known,
          publish_status_ok cfg t.id (resumed_status t p.message) s found,
        )
        (
          continuation t p.message,
          with_status t t.id (resumed_status t p.message),
          refl,
          publish_status_task cfg t.id (resumed_status t p.message) s found,
          publish_status_effects cfg t.id (resumed_status t p.message) s found,
          resumed_lem t p.message,
        )
