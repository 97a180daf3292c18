-- ===== src/TaskStore/Drain.antt =====
-- A reader comes to wait, and the queues that are still to be opened stand nowhere.
use kafka_a2a.Common.{
  ℕ, zero, suc, ◌+◌, String, ◌≡◌, refl, ◌∙◌, Option, List, [], ◌∷◌, nat_eq_refl, arith, eq_iff, inl,
  inr, Option-cases,
}
use kafka_a2a.Common.Lists.{length}
use kafka_a2a.Common.Dict.{Dict, lookup}
use kafka_a2a.Models.{Task, TaskEvent, TaskStatus, Artifact, PushNotificationConfig}
use kafka_a2a.TaskStore.State.{TaskEventRecord, InMemoryTaskStore, create_task, empty}
use kafka_a2a.TaskStore.Append.{
  publish, append_status_found, append_status_missing, append_artifact_found,
  append_artifact_missing,
}
use kafka_a2a.TaskStore.Reader.{
  Reader, advance, advance_from, get_queued, take_record, subscribe, unsubscribe,
}
use kafka_a2a.TaskStore.PushConfigs.{set_push_notification_config, delete_push_notification_config}
use kafka_a2a.TaskStore.Ops.{
  Op, create, status, artifact, open_queue, close_queue, set_push, delete_push, apply, run,
}
use kafka_a2a.TaskStore.Queues.{
  count, subscribed-insert, subscribed-set_default, count-add_ne, count-remove_queue-le,
}
use kafka_a2a.TaskStore.Delivery.{subscribers-publish, next_queue-publish}
use kafka_a2a.TaskStore.Streams.{Move, turn, play}
use kafka_a2a.TaskStore.Complete.{HasNoFuture}

-- `n` turns of the reader
abbrev pub turns : ℕ → List Move
turns zero = []
turns (suc n) = turn ∷ turns n

-- what a reader has to take before it waits
abbrev pub backlog : Reader → InMemoryTaskStore → ℕ
backlog rd s = length rd.replay + length (s.queues rd.queue)

turn_from :
    (rd : Reader) (s : InMemoryTaskStore) (n : ℕ) (replay queued : List TaskEventRecord)
    → rd.replay ≡ replay
    → s.queues rd.queue ≡ queued
    → length replay + length queued ≡ suc n
    → backlog (advance rd s).0 (advance rd s).1 ≡ n
unfolding advance_from get_queued take_record
turn_from rd s n [] [] e f h = absurd (omega arith)
turn_from rd s n [] (r ∷ rest) e f h = rw (e, f, nat_eq_refl) (omega arith)
turn_from rd s n (r ∷ rest) queued e f h = rw (e) (rw f (omega arith))

-- as many turns as there is to take
pub turns_drain :
    (n : ℕ) (rd : Reader) (s : InMemoryTaskStore)
    → backlog rd s ≡ n
    → backlog (play (turns n) (rd, s)).0 (play (turns n) (rd, s)).1 ≡ 0
unfolding play
turns_drain zero rd s h = h
turns_drain (suc n) rd s h =
    turns_drain n (advance rd s).0 (advance rd s).1
      (turn_from rd s n rd.replay (s.queues rd.queue) refl refl h)

same-HasNoFuture :
    (s s' : InMemoryTaskStore)
    → s'.subscribers ≡ s.subscribers
    → s'.next_queue ≡ s.next_queue
    → HasNoFuture s
    → HasNoFuture s'
same-HasNoFuture s s' p n h j q le = rw p (h j q (rw (← n) le))

publish-HasNoFuture :
    (id : String) (event : TaskEvent) (tasks : Dict Task) (s : InMemoryTaskStore)
    → HasNoFuture s
    → HasNoFuture (publish id event (record s { tasks = tasks }))
publish-HasNoFuture id event tasks s h =
    let s' : InMemoryTaskStore = record s { tasks = tasks } in
    same-HasNoFuture s (publish id event s') (subscribers-publish id event s')
      (next_queue-publish id event s') h

same_after_set :
    (id : String) (c : PushNotificationConfig) (s : InMemoryTaskStore)
    → ((apply (set_push id c) s).subscribers ≡ s.subscribers)
      × ((apply (set_push id c) s).next_queue ≡ s.next_queue)
unfolding apply set_push_notification_config
same_after_set id c s = ground arith

same_after_delete :
    (id : String) (c : Option String) (s : InMemoryTaskStore)
    → ((apply (delete_push id c) s).subscribers ≡ s.subscribers)
      × ((apply (delete_push id c) s).next_queue ≡ s.next_queue)
unfolding apply delete_push_notification_config
same_after_delete id c s = ground arith

-- a call that writes to the log of a task that is there
module _ (id : String) (s : InMemoryTaskStore) (h : HasNoFuture s) where
  status-HasNoFuture : (st : TaskStatus) → HasNoFuture (apply (status id st) s)
  unfolding apply
  status-HasNoFuture st = elim (Option-cases (lookup id s.tasks)) [
    | inl e ↦ rw (append_status_missing id s st e) h
    | inr (t, e) ↦ rw (append_status_found id s st e) (publish-HasNoFuture id _ _ s h)
  ]

  artifact-HasNoFuture : (a : Artifact) → HasNoFuture (apply (artifact id a) s)
  unfolding apply
  artifact-HasNoFuture a = elim (Option-cases (lookup id s.tasks)) [
    | inl e ↦ rw (append_artifact_missing id s a e) h
    | inr (t, e) ↦ rw (append_artifact_found id s a e) (publish-HasNoFuture id _ _ s h)
  ]

  close-HasNoFuture : (p : ℕ) → HasNoFuture (apply (close_queue id p) s)
  unfolding apply unsubscribe
  close-HasNoFuture p = elim (Option-cases (lookup id s.subscribers)) [
    | inl e ↦ rw (e, unsubscribe) h
    | inr (qs, e) ↦
        rw (e, unsubscribe)
          λ j q le.
            rw subscribed-insert
              (ground (arith, eq_iff id j, count-remove_queue-le q p qs, h id q, h j q))
  ]

-- No call of the store puts a queue among the subscribers before it is opened.
pub apply-HasNoFuture : (op : Op) (s : InMemoryTaskStore) → HasNoFuture s → HasNoFuture (apply op s)
unfolding apply create_task subscribe
apply-HasNoFuture (create id fresh now message context_id metadata) s h =
    λ j q le. rw subscribed-set_default (h j q le)
apply-HasNoFuture (status id st) s h = status-HasNoFuture id s h st
apply-HasNoFuture (artifact id a) s h = artifact-HasNoFuture id s h a
apply-HasNoFuture (open_queue id) s h =
    λ j q le. count-add_ne id j q _ s.subscribers (omega arith) ∙ h j q (omega arith)
apply-HasNoFuture (close_queue id p) s h = close-HasNoFuture id s h p
apply-HasNoFuture (set_push id c) s h =
    same-HasNoFuture s (apply (set_push id c) s) (same_after_set id c s).0 (same_after_set id c s).1
      h
apply-HasNoFuture (delete_push id c) s h =
    same-HasNoFuture s (apply (delete_push id c) s) (same_after_delete id c s).0
      (same_after_delete id c s).1 h

-- nor do any calls
pub run-HasNoFuture :
    (ops : List Op) (s : InMemoryTaskStore) → HasNoFuture s → HasNoFuture (run ops s)
unfolding run
run-HasNoFuture [] s h = h
run-HasNoFuture (op ∷ ops) s h = run-HasNoFuture ops (apply op s) (apply-HasNoFuture op s h)

pub HasNoFuture-empty : HasNoFuture empty
unfolding lookup count
HasNoFuture-empty j q le = refl
