-- ===== src/Agent/Runs.antt =====
-- How a run of a processor ends.
use kafka_a2a.Common.{
  ℕ, String, ◌≡◌, refl, ◌≢◌, ◌∙◌, ap, true, none, some, List, [], ◌∷◌, ◌++◌, ok, eq_refl,
  Result-cases, Bool-cases, inl, inr,
}
use kafka_a2a.Common.Dict.{lookup, lookup-insert_self, lookup-remove}
use kafka_a2a.Models.{TaskState, working, completed, failed, Artifact, Task}
use kafka_a2a.TaskStore.State.{is_final, get_task}
use kafka_a2a.TaskStore.Append.{publish, append_artifact, append_artifact_found}
use kafka_a2a.Agent.Config.{Ka2aAgentConfig}
use kafka_a2a.Agent.State.{AgentState}
use kafka_a2a.Agent.Processing.{
  Item, status, artifact, status_event, artifact_event, unsupported, End, returned, raised,
  cancelled, say, handle_item, handle_items, finish, finish_over, finish_more, run,
}
use kafka_a2a.Agent.Steps.{
  on_store_ok, enqueue_push-Quiet, publish_status_ok, publish_status_task, with_status-state,
}

failed_final : is_final failed ≡ true
unfolding is_final
failed_final = refl

completed_final : is_final completed ≡ true
unfolding is_final
completed_final = refl

-- The store has the task.
abbrev pub Present : String → AgentState → Type 0
Present id s = (t : Task) × (lookup id s.store.tasks ≡ some t)

-- The store has the task in a state that ends a stream.
abbrev pub IsOver : String → AgentState → Type 0
IsOver id s = (t : Task) × (lookup id s.store.tasks ≡ some t) × (is_final t.status.state ≡ true)

module _ (cfg : Ka2aAgentConfig) (id message_id : String) (now : ℕ) where
  say-IsOver :
      (state : TaskState) (text : String) (s : AgentState)
      → is_final state ≡ true
      → Present id s
      → IsOver id (say cfg id message_id now state text s).1
  unfolding say
  say-IsOver state text s final (t, found) =
      (_, publish_status_task cfg id _ s found, rw (with_status-state, final))

  say-Present :
      (state : TaskState) (text : String) (s : AgentState)
      → Present id s
      → Present id (say cfg id message_id now state text s).1
  unfolding say
  say-Present state text s (t, found) = (_, publish_status_task cfg id _ s found)

  say-ok :
      (state : TaskState) (text : String) (s : AgentState)
      → Present id s
      → (say cfg id message_id now state text s).0 ≡ ok tt
  unfolding say
  say-ok state text s (t, found) = publish_status_ok cfg id _ s found

  artifact-Present :
      (a : Artifact) (s : AgentState)
      → Present id s
      → Present id (handle_item cfg id message_id now (artifact a) s).1
  unfolding handle_item
  artifact-Present a s (t, found) =
      rw (on_store_ok (append_artifact id a) s (append_artifact_found id s.store a found)) (
        record t { artifacts = t.artifacts ++ a ∷ [] },
        rw (enqueue_push-Quiet _ id _ _).store
            (unfold publish in lookup-insert_self id _ s.store.tasks),
      )

  handle_item-Present :
      (i : Item) (s : AgentState)
      → Present id s
      → Present id (handle_item cfg id message_id now i s).1
  unfolding handle_item
  handle_item-Present (status st) s (t, found) = (_, publish_status_task cfg id st s found)
  handle_item-Present (artifact a) s h = artifact-Present a s h
  handle_item-Present (status_event e) s (t, found) =
      (_, publish_status_task cfg id e.status s found)
  handle_item-Present (artifact_event e) s h = artifact-Present e.artifact s h
  handle_item-Present (unsupported name) s h = h

  handle_items-Present :
      (items : List Item) (end : End) (s : AgentState)
      → Present id s
      → Present id (handle_items cfg id message_id now items end s).1
  unfolding handle_items
  handle_items-Present [] end s h = h
  handle_items-Present (i ∷ is) end s h =
      elim (Result-cases (handle_item cfg id message_id now i s).0) [
        | inl (u, e) ↦
            rw (e, handle_items)
              (handle_items-Present is end (handle_item cfg id message_id now i s).1
                (handle_item-Present i s h))
        | inr (x, e) ↦ rw (e, handle_items) (handle_item-Present i s h)
      ]

  -- a run is cancelled only by the one who cancels the processor
  handle_items-ne-cancelled :
      (items : List Item) (end : End) (s : AgentState)
      → end ≢ cancelled
      → (handle_items cfg id message_id now items end s).0 ≢ cancelled
  unfolding handle_items
  handle_items-ne-cancelled [] end s h = h
  handle_items-ne-cancelled (i ∷ is) end s h =
      elim (Result-cases (handle_item cfg id message_id now i s).0) [
        | inl (u, e) ↦
            rw (e, handle_items)
              (handle_items-ne-cancelled is end (handle_item cfg id message_id now i s).1 h)
        | inr (x, e) ↦ rw (e, handle_items) (λ p. cc)
      ]

  -- a processor that raises ends in an exception, its own or an earlier one
  handle_items_raised :
      (items : List Item) (detail : String) (s : AgentState)
      → (x : String) × ((handle_items cfg id message_id now items (raised detail) s).0 ≡ raised x)
  unfolding handle_items
  handle_items_raised [] detail s = (detail, refl)
  handle_items_raised (i ∷ is) detail s =
      elim (Result-cases (handle_item cfg id message_id now i s).0) [
        | inl (u, e) ↦
            rw (e, handle_items)
              (handle_items_raised is detail (handle_item cfg id message_id now i s).1)
        | inr (x, e) ↦ rw (e, handle_items) (_, refl)
      ]

  finish_returned :
      (s : AgentState) → Present id s → IsOver id (finish cfg id message_id now returned s)
  unfolding get_task
  finish_returned s (t, found) = elim (Bool-cases (is_final t.status.state)) [
    | inl over ↦ rw (finish_over cfg id message_id now s found over) (t, found, over)
    | inr more ↦
        rw
          (finish_more cfg id message_id now s found more
            (say-ok completed "completed" s (t, found)))
          (say-IsOver completed "completed" s completed_final (t, found))
  ]

  finish_raised :
      (detail : String) (s : AgentState)
      → Present id s
      → (t : Task) × (lookup id (finish cfg id message_id now (raised detail) s).store.tasks
          ≡ some t)
        × (t.status.state ≡ failed)
  unfolding finish say
  finish_raised detail s (t, found) =
      (_, publish_status_task cfg id _ s found, with_status-state _ _ _)

  -- The end of a processor that was not cancelled: the task is over, in the state that the processor
  -- gave it if that is final and it returned.
  finish-IsOver :
      (end : End) (s : AgentState)
      → end ≢ cancelled
      → Present id s
      → IsOver id (finish cfg id message_id now end s)
  finish-IsOver cancelled s ne h = absurd (ne refl)
  finish-IsOver (raised x) s ne h =
      let (t, found, e) = finish_raised x s h in (t, found, ap is_final e ∙ failed_final)
  finish-IsOver returned s ne h = finish_returned s h

  finish-processing :
      (end : End) (s : AgentState)
      → lookup id (finish cfg id message_id now end s).processing ≡ none
  unfolding finish
  finish-processing end s = rw (lookup-remove, eq_refl)

  -- A run over a task that the store has whose processor returns or raises, whatever it yields, leaves
  -- the task in a state that ends a stream, and no longer being processed.
  pub run-IsOver :
      (items : List Item) (end : End) (s : AgentState)
      → end ≢ cancelled
      → Present id s
      → IsOver id (run cfg id message_id now items end s)
        × (lookup id (run cfg id message_id now items end s).processing ≡ none)
  unfolding run
  run-IsOver items end s ne h = rw (say-ok working "working" s h) (
    finish-IsOver _ _ (handle_items-ne-cancelled items end started ne)
        (handle_items-Present items end started (say-Present working "working" s h)),
    finish-processing _ _,
  )
    where
      started : AgentState
      started = (say cfg id message_id now working "working" s).1

  -- A run over a task that the store has whose processor raises leaves the task failed, whatever the
  -- processor yielded before, also where that had completed the task.
  pub run_raised :
      (items : List Item) (detail : String) (s : AgentState)
      → Present id s
      → (t : Task) × (lookup id (run cfg id message_id now items (raised detail) s).store.tasks
          ≡ some t)
        × (t.status.state ≡ failed)
  unfolding run
  run_raised items detail s h = rw (say-ok working "working" s h) (
      let (x, e) = handle_items_raised items detail started in
      rw e (
        finish_raised x _
          (handle_items-Present items (raised detail) started (say-Present working "working" s h))))
    where
      started : AgentState
      started = (say cfg id message_id now working "working" s).1
