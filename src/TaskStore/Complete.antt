-- ===== src/TaskStore/Complete.antt =====
-- `iter_events` from its start to a moment when it waits.
use mathlib.Core.List.{append-nil}
use mathlib.Core.Path.{subst}
use kafka_a2a.Common.{
  ℕ, ◌≤◌, String, ◌≡◌, refl, ◌≢◌, ◌∙◌, ap, Bool, true, false, Option, List, [], ◌∷◌, ◌++◌,
  nat_eq_refl, if◌then◌else◌, arith, ◌==◌, eq_iff, eq_refl,
}
use kafka_a2a.Common.Lists.{keep, All}
use kafka_a2a.Common.Dict.{insert}
use kafka_a2a.TaskStore.State.{TaskEventRecord, InMemoryTaskStore}
use kafka_a2a.TaskStore.Reader.{Reader, is_after, iter_events}
use kafka_a2a.TaskStore.Log.{log}
use kafka_a2a.TaskStore.Queues.{count, subscribed, subscribed-insert, count-append}
use kafka_a2a.TaskStore.Delivery.{Follows}
use kafka_a2a.TaskStore.Streams.{Move, play, Spares, play-same, play-Follows}

-- No list of subscribers holds a queue that is still to be opened.
abbrev pub HasNoFuture : InMemoryTaskStore → Type 0
HasNoFuture s = (j : String) (q : ℕ) → s.next_queue ≤ q → count q (subscribed j s.subscribers) ≡ 0

-- the subscribers of a task that has a new one
fresh_queue :
    (id : String) (s : InMemoryTaskStore)
    → HasNoFuture s
    → count s.next_queue
        (subscribed id (insert id (subscribed id s.subscribers ++ s.next_queue ∷ []) s.subscribers))
      ≡ 1
unfolding count
fresh_queue id s h =
    rw (subscribed-insert, eq_refl, count-append, h id s.next_queue (omega arith)) (ground arith)

fresh_elsewhere :
    (id j : String) (s : InMemoryTaskStore)
    → HasNoFuture s
    → id ≢ j
    → count s.next_queue
        (subscribed j (insert id (subscribed id s.subscribers ++ s.next_queue ∷ []) s.subscribers))
      ≡ 0
fresh_elsewhere id j s h ne = rw (subscribed-insert, differ) (h j s.next_queue (omega arith))
  where
    differ : (id == j) ≡ false
    differ = ground (arith, eq_iff id j, ne)

snapshot :
    (replay_history : Bool) (l : List TaskEventRecord)
    → l ≡ (if replay_history then [] else l) ++ ((if replay_history then l else []) ++ [])
snapshot true l = simp append-nil
snapshot false l = simp append-nil

iter_events-Follows :
    (id : String) (replay_history : Bool) (after : Option ℕ) (s : InMemoryTaskStore)
    → HasNoFuture s
    → Follows
        (iter_events id replay_history after s).0
        (iter_events id replay_history after s).1
        (if replay_history then [] else log id s)
unfolding iter_events keep
iter_events-Follows id replay_history after s h = record {
  seen = [];
  complete = rw nat_eq_refl (snapshot replay_history (log id s));
  output = refl;
  here = fresh_queue id s h;
  elsewhere = λ j. fresh_elsewhere id j s h;
  opened = omega arith;
}

iter_events-same :
    (id : String) (replay_history : Bool) (after : Option ℕ) (s : InMemoryTaskStore)
    → ((iter_events id replay_history after s).0.task_id ≡ id)
      × ((iter_events id replay_history after s).0.queue ≡ s.next_queue)
      × ((iter_events id replay_history after s).0.after_sequence ≡ after)
unfolding iter_events
iter_events-same id replay_history after s = (refl, refl, refl)

-- A reader that `iter_events` started, after any calls of the store and any turns of its own, of which
-- none reuses its task's id or closes its queue, and that waits with nothing left to replay and an
-- empty queue: the log of its task is the log at the start, or nothing if that was replayed, followed
-- by the records that the reader has seen, and it has yielded exactly those of them whose number is
-- above `after_sequence`, in the order of the log. No record is lost and none comes twice.
pub iter_events_complete :
    (id : String) (replay_history : Bool) (after : Option ℕ) (s : InMemoryTaskStore)
    (moves : List Move) {rd : Reader} {s' : InMemoryTaskStore}
    → HasNoFuture s
    → All (Spares id s.next_queue) moves
    → play moves (iter_events id replay_history after s) ≡ (rd, s')
    → rd.replay ≡ []
    → s'.queues rd.queue ≡ []
    → (seen : List TaskEventRecord) × (log id s'
        ≡ (if replay_history then [] else log id s) ++ seen)
      × (rd.yielded ≡ keep (is_after after) seen)
unfolding iter_events
iter_events_complete id replay_history after s moves {rd} {s'} future spares played idle drained = (
  f.seen,
  subst (λ j. log j s' ≡ skipped ++ f.seen) same_id
      (f.complete ∙ ap (λ l. skipped ++ l) (rw (idle, drained) (append-nil f.seen))),
  f.output ∙ ap (λ a. keep (is_after a) f.seen) same_after,
)
  where
    skipped : List TaskEventRecord
    skipped = if replay_history then [] else log id s

    start : Reader × InMemoryTaskStore
    start = iter_events id replay_history after s

    f : Follows rd s' skipped
    f =
        subst (λ c. Follows c.0 c.1 skipped) played
          (play-Follows skipped moves start.0 start.1 spares
            (iter_events-Follows id replay_history after s future))

    same_id : rd.task_id ≡ id
    same_id = subst (λ c. c.0.task_id ≡ id) played (play-same moves start.0 start.1).0

    same_after : rd.after_sequence ≡ after
    same_after = subst (λ c. c.0.after_sequence ≡ after) played (play-same moves start.0 start.1).2
