-- ===== src/Agent/PushQueue.antt =====
-- What a run of a processor puts into the queue of push notifications. `offer` is what asyncio documents
-- of `put_nowait`: the queue takes an entry, or is full and raises.
use mathlib.Core.List.{append_assoc, append-nil}
use kafka_a2a.Common.{
  ℕ, String, ◌≡◌, refl, ap, sym, ◌∙◌, Option, none, some, List, [], ◌∷◌, ◌++◌, Result, raise,
  Result-cases, Option-cases, inl, inr, eq_refl,
}
use kafka_a2a.Common.Dict.{Dict, lookup}
use kafka_a2a.Errors.{other}
use kafka_a2a.Models.{TaskStatus, Task, Artifact, TaskEvent}
use kafka_a2a.TaskStore.State.{TaskEventRecord, InMemoryTaskStore, KeyError, key_error}
use kafka_a2a.TaskStore.Append.{
  publish, append_status_found, append_status_missing, append_artifact, append_artifact_found,
  append_artifact_missing, append_status,
}
use kafka_a2a.TaskStore.Delivery.{published, log-publish}
use kafka_a2a.TaskStore.Log.{log}
use kafka_a2a.Agent.Config.{Ka2aAgentConfig}
use kafka_a2a.Agent.State.{AgentState, offer, enqueue_push}
use kafka_a2a.Agent.Messages.{on_store}
use kafka_a2a.Agent.Tasks.{publish_status}
use kafka_a2a.Agent.Processing.{
  Item, status, artifact, status_event, artifact_event, unsupported, End, handle_item, handle_items,
}
use kafka_a2a.Agent.Steps.{on_store_ok, enqueue_push-Quiet}

-- The entries are put one after the other; a queue that is not there takes none.
abbrev pub offer_all :
    ℕ
    → List (String × TaskEvent)
    → Option (List (String × TaskEvent))
    → Option (List (String × TaskEvent))
offer_all n [] queue = queue
offer_all n (e ∷ es) none = none
offer_all n (e ∷ es) (some queue) = offer_all n es (some (offer n e queue))

offer_all-none : (n : ℕ) (es : List (String × TaskEvent)) → offer_all n es none ≡ none
offer_all-none n [] = refl
offer_all-none n (e ∷ es) = refl

-- the entries that push the records of a task's log
abbrev pub entries_of : String → List TaskEventRecord → List (String × TaskEvent)
entries_of id [] = []
entries_of id (r ∷ rs) = (id, r.event) ∷ entries_of id rs

offer_all-append :
    (n : ℕ) (id : String) (before after : List TaskEventRecord)
    (queue : Option (List (String × TaskEvent)))
    → offer_all n (entries_of id (before ++ after)) queue
      ≡ offer_all n (entries_of id after) (offer_all n (entries_of id before) queue)
offer_all-append n id [] after queue = refl
offer_all-append n id (r ∷ before) after none = sym (offer_all-none n (entries_of id after))
offer_all-append n id (r ∷ before) after (some queue) =
    offer_all-append n id before after (some (offer n (id, r.event) queue))

-- The log of the task has grown by these records, and each was put into the push queue, in order.
pub record Mirrors (n : ℕ) (id : String) (s s' : AgentState) : Type 0 where
  pub records : List TaskEventRecord
  pub grown : log id s'.store ≡ log id s.store ++ records
  pub pushed : s'.push_queue ≡ offer_all n (entries_of id records) s.push_queue

module _ (n : ℕ) (id : String) where
  Mirrors-refl : (s : AgentState) → Mirrors n id s s
  Mirrors-refl s = record { records = []; grown = sym (append-nil (log id s.store)); pushed = refl }

  Mirrors-trans : (a b c : AgentState) → Mirrors n id a b → Mirrors n id b c → Mirrors n id a c
  Mirrors-trans a b c f g = record {
    records = f.records ++ g.records;
    grown =
        g.grown
        ∙ ap (λ l. l ++ g.records) f.grown
        ∙ append_assoc (log id a.store) f.records g.records;
    pushed =
        g.pushed
        ∙ ap (offer_all n (entries_of id g.records)) f.pushed
        ∙ sym (offer_all-append n id f.records g.records a.push_queue);
  }

  enqueued :
      (event : TaskEvent) (r : TaskEventRecord) (s : AgentState)
      → r.event ≡ event
      → (enqueue_push n id event s).1.push_queue ≡ offer_all n (entries_of id (r ∷ [])) s.push_queue
  unfolding enqueue_push
  enqueued event r s e = elim (Option-cases s.push_queue) [
    | inl x ↦ rw (x, enqueue_push, x) refl
    | inr (q, x) ↦ rw (x, enqueue_push, e) refl
  ]

  -- an event that is published is pushed
  published-Mirrors :
      (event : TaskEvent) (tasks : Dict Task) (s : AgentState)
      → Mirrors n id s
          (enqueue_push n id event
            (record s { store = publish id event (record (s.store) { tasks = tasks }) })).1
  published-Mirrors event tasks s =
      let store : InMemoryTaskStore = record (s.store) { tasks = tasks } in
      let s' : AgentState = record s { store = publish id event store } in
      record {
        records = published id event store ∷ [];
        grown =
            ap (log id) (enqueue_push-Quiet n id event s').store
            ∙ log-publish id id event store
            ∙ rw eq_refl refl;
        pushed = enqueued event (published id event store) s' refl;
      }

on_store_missing :
    {A : Type 0} (f : InMemoryTaskStore → Result KeyError (A × InMemoryTaskStore)) (s : AgentState)
    {id : String}
    → f s.store ≡ raise (key_error id)
    → on_store f s ≡ (raise (other id), s)
unfolding on_store
on_store_missing f s e = rw (e, on_store) refl

module _ (cfg : Ka2aAgentConfig) (id : String) where
  publish_status-Mirrors :
      (st : TaskStatus) (s : AgentState)
      → Mirrors cfg.push_queue_maxsize id s (publish_status cfg id st s).1
  unfolding publish_status
  publish_status-Mirrors st s = elim (Option-cases (lookup id s.store.tasks)) [
    | inl e ↦
        rw (on_store_missing (append_status id st) s (append_status_missing id s.store st e))
          (Mirrors-refl _ id s)
    | inr (t, e) ↦
        rw (on_store_ok (append_status id st) s (append_status_found id s.store st e))
          (published-Mirrors _ id _ _ s)
  ]

  module _ (message_id : String) (now : ℕ) where
    artifact-Mirrors :
        (a : Artifact) (s : AgentState)
        → Mirrors cfg.push_queue_maxsize id s (handle_item cfg id message_id now (artifact a) s).1
    unfolding handle_item
    artifact-Mirrors a s = elim (Option-cases (lookup id s.store.tasks)) [
      | inl e ↦
          rw (on_store_missing (append_artifact id a) s (append_artifact_missing id s.store a e))
            (Mirrors-refl _ id s)
      | inr (t, e) ↦
          rw (on_store_ok (append_artifact id a) s (append_artifact_found id s.store a e))
            (published-Mirrors _ id _ _ s)
    ]

    handle_item-Mirrors :
        (i : Item) (s : AgentState)
        → Mirrors cfg.push_queue_maxsize id s (handle_item cfg id message_id now i s).1
    unfolding handle_item
    handle_item-Mirrors (status st) s = publish_status-Mirrors st s
    handle_item-Mirrors (artifact a) s = artifact-Mirrors a s
    handle_item-Mirrors (status_event e) s = publish_status-Mirrors e.status s
    handle_item-Mirrors (artifact_event e) s = artifact-Mirrors e.artifact s
    handle_item-Mirrors (unsupported name) s = Mirrors-refl _ id s

    -- Whatever items a processor gives for a task and however it ends, the log of the task grows by
    -- some records, and the push queue, if there is one, is offered exactly the events of these records,
    -- each once and in the order of the log; a queue that is full drops the event that it is offered.
    pub handle_items-Mirrors :
        (items : List Item) (end : End) (s : AgentState)
        → Mirrors cfg.push_queue_maxsize id s (handle_items cfg id message_id now items end s).1
    unfolding handle_items
    handle_items-Mirrors [] end s = Mirrors-refl _ id s
    handle_items-Mirrors (i ∷ is) end s =
        let s' = (handle_item cfg id message_id now i s).1 in
        elim (Result-cases (handle_item cfg id message_id now i s).0) [
          | inl (u, e) ↦
              rw (e, handle_items)
                (Mirrors-trans _ id s s' _ (handle_item-Mirrors i s)
                  (handle_items-Mirrors is end s'))
          | inr (x, e) ↦ rw (e, handle_items) (handle_item-Mirrors i s)
        ]
